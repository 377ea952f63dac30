-- ===== src/Tcpros/Header/Fields.antt =====
-- The fields that `to_bytes` writes, as a list of texts, and their byte form.
use roslibrust.Base.{
  ℕ, ◌≡◌, refl, ap, Bool, Option, none, some, List, [], ◌∷◌, ◌++◌, append-nil, append_assoc, length,
  Text, codes, if◌then◌else◌, arith, ◌-◌, drop, sym,
}
use roslibrust.Tcpros.Bytes.{le32}
use roslibrust.Tcpros.Header.{ConnectionHeader, write_some, write_bit, bit, write_header, to_bytes}

-- A list of fields in the byte form of the wire.
abbrev pub encode : List Text → List ℕ
encode [] = []
encode (f ∷ fs) = (le32 (length f) ++ f) ++ encode fs

pub encode-append : (fs gs : List Text) → encode (fs ++ gs) ≡ encode fs ++ encode gs
encode-append [] gs = refl
encode-append (f ∷ fs) gs = rw (encode-append fs gs) (sym (append_assoc (le32 (length f) ++ f) _ _))

abbrev pub some_field : Text → Option Text → List Text
some_field key none = []
some_field key (some value) = (key ++ value) ∷ []

abbrev pub bit_field : Text → Option Bool → List Text
bit_field key none = []
bit_field key (some b) = (key ++ bit b) ∷ []

-- The fields of a header, in the order in which they are written.
unfoldable pub fields : ConnectionHeader → Bool → List Text
fields h to_publisher =
    (codes "callerid=" ++ h.caller_id)
    ∷ (codes "latching=" ++ bit h.latching)
    ∷ (some_field (codes "md5sum=") h.md5sum
        ++ ((codes "message_definition=" ++ h.msg_definition)
            ∷ (bit_field (codes "tcp_nodelay=") (if to_publisher then some h.tcp_nodelay else none)
                ++ (some_field (codes "topic=") h.topic
                    ++ (some_field (codes "service=") h.service
                        ++ ((codes "type=" ++ h.topic_type)
                            ∷ bit_field (codes "persistent=") h.persistent))))))

write_some-encode :
    (key : Text) (o : Option Text) (d : List ℕ)
    → write_some key o d ≡ d ++ encode (some_field key o)
write_some-encode key none d = sym (append-nil d)
write_some-encode key (some v) d = ap (λ l. d ++ l) (sym (append-nil _))

write_bit-encode :
    (key : Text) (o : Option Bool) (d : List ℕ) → write_bit key o d ≡ d ++ encode (bit_field key o)
write_bit-encode key none d = sym (append-nil d)
write_bit-encode key (some v) d = ap (λ l. d ++ l) (sym (append-nil _))

write_header-fields :
    (h : ConnectionHeader) (p : Bool) → write_header h p ≡ le32 0 ++ encode (fields h p)
unfolding write_header fields
write_header-fields h p = simp (write_some-encode, write_bit-encode, encode-append, append_assoc)

patch :
    (xs : List ℕ)
    → le32 (length (le32 0 ++ xs) - 4) ++ drop 4 (le32 0 ++ xs) ≡ le32 (length xs) ++ xs
patch xs = ap (λ n. le32 n ++ xs) (omega arith)

-- `to_bytes` is the length of the fields' byte form, and that form.
pub to_bytes-fields :
    (h : ConnectionHeader) (p : Bool)
    → to_bytes h p ≡ le32 (length (encode (fields h p))) ++ encode (fields h p)
unfolding to_bytes
to_bytes-fields h p = rw (write_header-fields h p) (patch (encode (fields h p)))
