-- ===== src/Tcpros/Header/Reread.antt =====
-- What `from_bytes` makes of a header that `to_bytes` wrote.
use roslibrust.Base.{
  ◌+◌, ◌<◌, ◌≤◌, ◌≡◌, refl, ap, ◌∙◌, Bool, true, false, Option, none, some, List, [], ◌∷◌, ◌++◌,
  arith, length, length-append, All, Text, codes, if◌then◌else◌, ok,
}
use roslibrust.Tcpros.Bytes.{u32_mod, is_utf8}
use roslibrust.Tcpros.Header.{ConnectionHeader, empty_header, apply_field, from_bytes, bit}
use roslibrust.Tcpros.Header.Fields.{fields, encode, some_field, bit_field}
use roslibrust.Tcpros.Header.RoundTrip.{IsField, apply_fields, from_bytes-encode}

-- The header that the other side reads: `tcp_nodelay` is sent to publishers only.
abbrev pub reread : ConnectionHeader → Bool → ConnectionHeader
reread h to_publisher = record h { tcp_nodelay = if to_publisher then h.tcp_nodelay else false }

-- A value that fits a field behind the longest of the keys.
abbrev pub IsValue : Text → Type 0
IsValue v = (length v + 20 < u32_mod) × (is_utf8 v ≡ true)

abbrev pub IsOptional : Option Text → Type 0
IsOptional none = Unit {0}
IsOptional (some v) = IsValue v

pub record IsSendable (h : ConnectionHeader) : Type 0 where
  pub caller_id : IsValue h.caller_id
  pub msg_definition : IsValue h.msg_definition
  pub md5sum : IsOptional h.md5sum
  pub service : IsOptional h.service
  pub topic : IsOptional h.topic
  pub topic_type : IsValue h.topic_type

apply_fields-append :
    (fs gs : List Text) (h : ConnectionHeader)
    → apply_fields (fs ++ gs) h ≡ apply_fields gs (apply_fields fs h)
unfolding apply_fields
apply_fields-append [] gs h = refl
apply_fields-append (f ∷ fs) gs h = apply_fields-append fs gs (apply_field f h)

-- Each optional field, on the header as it stands when its turn comes.
module _ (c d y : Text) (l n : Bool) (m s t : Option Text) (p : Option Bool) where
  abbrev header : ConnectionHeader
  header = record {
    caller_id = c;
    latching = l;
    msg_definition = d;
    md5sum = m;
    service = s;
    topic = t;
    topic_type = y;
    tcp_nodelay = n;
    persistent = p;
  }

  md5sum-read :
      (o : Option Text)
      → apply_fields (some_field (codes "md5sum=") o) (record header { md5sum = none })
        ≡ record header { md5sum = o }
  unfolding apply_fields apply_field
  md5sum-read none = refl
  md5sum-read (some v) = refl

  topic-read :
      (o : Option Text)
      → apply_fields (some_field (codes "topic=") o) (record header { topic = none })
        ≡ record header { topic = o }
  unfolding apply_fields apply_field
  topic-read none = refl
  topic-read (some v) = refl

  service-read :
      (o : Option Text)
      → apply_fields (some_field (codes "service=") o) (record header { service = none })
        ≡ record header { service = o }
  unfolding apply_fields apply_field
  service-read none = refl
  service-read (some v) = refl

  persistent-read :
      (o : Option Bool)
      → apply_fields (bit_field (codes "persistent=") o) (record header { persistent = none })
        ≡ record header { persistent = o }
  unfolding apply_fields apply_field
  persistent-read none = refl
  persistent-read (some true) = refl
  persistent-read (some false) = refl

  tcp_nodelay-read :
      (to_publisher b : Bool)
      → apply_fields
          (bit_field (codes "tcp_nodelay=") (if to_publisher then some b else none))
          (record header { tcp_nodelay = false })
        ≡ record header { tcp_nodelay = if to_publisher then b else false }
  unfolding apply_fields apply_field
  tcp_nodelay-read false b = refl
  tcp_nodelay-read true true = refl
  tcp_nodelay-read true false = refl

latching-read :
    (c : Text) (b : Bool)
    → apply_field (codes "latching=" ++ bit b) (apply_field (codes "callerid=" ++ c) empty_header)
      ≡ record empty_header { caller_id = c; latching = b }
unfolding apply_field
latching-read c true = refl
latching-read c false = refl

definition-read :
    (v : Text) (h : ConnectionHeader)
    → apply_field (codes "message_definition=" ++ v) h ≡ record h { msg_definition = v }
unfolding apply_field
definition-read v h = refl

topic_type-read :
    (v : Text) (fs : List Text) (h : ConnectionHeader)
    → apply_fields ((codes "type=" ++ v) ∷ fs) h ≡ apply_fields fs (record h { topic_type = v })
unfolding apply_fields apply_field
topic_type-read v fs h = refl

apply_fields-fields :
    (h : ConnectionHeader) (p : Bool) → apply_fields (fields h p) empty_header ≡ reread h p
unfolding fields apply_fields
apply_fields-fields h p =
    let c = h.caller_id in
    let l = h.latching in
    let d = h.msg_definition in
    let m = h.md5sum in
    let n = if p then h.tcp_nodelay else false in
    simp apply_fields-append (
      rw (latching-read c l) (
        rw (md5sum-read c [] [] l false none none none none m) (
          rw (definition-read d) (
            rw (tcp_nodelay-read c d [] l false m none none none p h.tcp_nodelay) (
              rw (topic-read c d [] l n m none none none h.topic) (
                rw (service-read c d [] l n m none h.topic none h.service) (
                  rw (topic_type-read h.topic_type) (
                    persistent-read c d h.topic_type l n m h.service h.topic none
                      h.persistent))))))))

All-append : (fs gs : List Text) → All IsField fs → All IsField gs → All IsField (fs ++ gs)
All-append [] gs hf hg = hg
All-append (f ∷ fs) gs (h, hf) hg = (h, All-append fs gs hf hg)

module _ (key : Text) (short : length key ≤ 20) where
  IsField-key :
      (v : Text) → length v + 20 < u32_mod → is_utf8 (key ++ v) ≡ true → IsField (key ++ v)
  IsField-key v small utf8 = (omega (arith, length-append key v), utf8)

  some_field-IsField :
      ((v : Text) → is_utf8 (key ++ v) ≡ is_utf8 v)
      → (o : Option Text) → IsOptional o
      → All IsField (some_field key o)
  some_field-IsField same none h = tt
  some_field-IsField same (some v) (small, utf8) = (IsField-key v small (same v ∙ utf8), tt)

  bit_field-IsField :
      ((b : Bool) → is_utf8 (key ++ bit b) ≡ true)
      → (o : Option Bool) → All IsField (bit_field key o)
  bit_field-IsField utf8 none = tt
  bit_field-IsField utf8 (some true) = (IsField-key _ (omega arith) (utf8 true), tt)
  bit_field-IsField utf8 (some false) = (IsField-key _ (omega arith) (utf8 false), tt)

latching-IsField : (b : Bool) → IsField (codes "latching=" ++ bit b)
unfolding is_utf8
latching-IsField true = (omega arith, refl)
latching-IsField false = (omega arith, refl)

bit-utf8 :
    (key : Text)
    → is_utf8 (key ++ codes "0") ≡ true
    → is_utf8 (key ++ codes "1") ≡ true
    → (b : Bool) → is_utf8 (key ++ bit b) ≡ true
bit-utf8 key h0 h1 true = h1
bit-utf8 key h0 h1 false = h0

fields-IsField : (h : ConnectionHeader) (p : Bool) → IsSendable h → All IsField (fields h p)
unfolding fields is_utf8
fields-IsField h p s = (
  IsField-key (codes "callerid=") (omega arith) h.caller_id s.caller_id.0 s.caller_id.1,
  (
    latching-IsField h.latching,
    All-append (some_field (codes "md5sum=") h.md5sum) _
        (some_field-IsField (codes "md5sum=") (omega arith) (λ v. refl) h.md5sum s.md5sum)
        (
          IsField-key (codes "message_definition=") (omega arith) h.msg_definition
              s.msg_definition.0 s.msg_definition.1,
          All-append (bit_field (codes "tcp_nodelay=") _) _
              (bit_field-IsField (codes "tcp_nodelay=") (omega arith)
                (bit-utf8 (codes "tcp_nodelay=") refl refl) _)
              (All-append (some_field (codes "topic=") h.topic) _
                (some_field-IsField (codes "topic=") (omega arith) (λ v. refl) h.topic s.topic)
                (All-append (some_field (codes "service=") h.service) _
                  (some_field-IsField (codes "service=") (omega arith) (λ v. refl) h.service
                    s.service)
                  (
                    IsField-key (codes "type=") (omega arith) h.topic_type s.topic_type.0
                        s.topic_type.1,
                    bit_field-IsField (codes "persistent=") (omega arith)
                        (bit-utf8 (codes "persistent=") refl refl) h.persistent,
                  ))),
        ),
  ),
)

-- The body of a written header is read back as the header that was sent.
pub from_bytes-fields :
    (h : ConnectionHeader) (p : Bool)
    → IsSendable h
    → from_bytes (encode (fields h p)) ≡ ok (reread h p)
from_bytes-fields h p s =
    from_bytes-encode (fields h p) (fields-IsField h p s) ∙ ap ok (apply_fields-fields h p)
