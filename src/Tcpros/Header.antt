-- ===== src/Tcpros/Header.antt =====
-- `ConnectionHeader` of roslibrust_ros1/src/tcpros.rs, `to_bytes` and `from_bytes`.
pub mod Fields
pub mod RoundTrip
pub mod Reread
use roslibrust.Base.{
  ℕ, suc, zero, ◌+◌, ◌-◌, Bool, false, not, Option, none, some, List, [], ◌∷◌, ◌++◌, length, take,
  drop, Text, codes, text_eq, starts_with, find, ◌==◌, ltb, if◌then◌else◌, Result, ok, err, diverge,
  ◌||◌,
}
use roslibrust.Tcpros.Bytes.{le32, of_le32, is_utf8}

pub record ConnectionHeader : Type 0 where
  pub caller_id : Text
  pub latching : Bool
  pub msg_definition : Text
  pub md5sum : Option Text
  pub service : Option Text
  pub topic : Option Text
  pub topic_type : Text
  pub tcp_nodelay : Bool
  pub persistent : Option Bool

-- The `std::io::ErrorKind`s that reading a header can give.
pub data IoError : Type 0 where
  unexpected_eof invalid_data : IoError

-- What `from_bytes` starts from.
abbrev pub empty_header : ConnectionHeader
empty_header = record {
  caller_id = [];
  latching = false;
  msg_definition = [];
  md5sum = none;
  service = none;
  topic = none;
  topic_type = [];
  tcp_nodelay = false;
  persistent = none;
}

-- One round of the `if`-ladder in `from_bytes`, for a field whose `=` stands at `equals_pos`.
set_field : Text → ℕ → ConnectionHeader → ConnectionHeader
set_field field equals_pos h =
    let value = drop (equals_pos + 1) field in
    if starts_with (codes "message_definition=") field
    then record h { msg_definition = value }
    else if starts_with (codes "callerid=") field
    then record h { caller_id = value }
    else if starts_with (codes "latching=") field
    then record h { latching = not (text_eq value (codes "0")) }
    else if starts_with (codes "md5sum=") field
    then record h { md5sum = some value }
    else if starts_with (codes "topic=") field
    then record h { topic = some value }
    else if starts_with (codes "service=") field
    then record h { service = some value }
    else if starts_with (codes "type=") field
    then record h { topic_type = value }
    else if starts_with (codes "tcp_nodelay=") field
    then record h { tcp_nodelay = not (text_eq value (codes "0")) }
    else if starts_with (codes "persistent=") field
    then record h { persistent = some (not (text_eq value (codes "0"))) }
    else h

-- A field with no `=` is passed over.
unfoldable pub apply_field : Text → ConnectionHeader → ConnectionHeader
unfolding set_field
apply_field field h = elim (find (λ c. c == b'=') field) [
  | none ↦ h
  | some equals_pos ↦ set_field field equals_pos h
]

-- The loop of `from_bytes` over the bytes behind the cursor.
unfoldable pub from_bytes_loop : ℕ → List ℕ → ConnectionHeader → Result IoError ConnectionHeader
from_bytes_loop fuel [] h = ok h
from_bytes_loop zero (a ∷ more) h = diverge
from_bytes_loop (suc fuel) (a ∷ b ∷ c ∷ d ∷ more) h =
    let field_length = of_le32 a b c d in
    let field = take field_length more in
    let rest = from_bytes_loop fuel (drop field_length more) (apply_field field h) in
    if ltb (length more) field_length
    then err unexpected_eof
    else if is_utf8 field
    then rest
    else err invalid_data
from_bytes_loop (suc fuel) _ h = err unexpected_eof

-- Each round takes at least four bytes, so that the number of bytes is fuel enough.
unfoldable pub from_bytes : List ℕ → Result IoError ConnectionHeader
from_bytes header_data = from_bytes_loop (length header_data) header_data empty_header

-- `write_u32(field.len() as u32)` and `write_all(field.as_bytes())`.
abbrev pub write_field : Text → List ℕ → List ℕ
write_field field header_data = header_data ++ (le32 (length field) ++ field)

abbrev bit : Bool → Text
bit b = if b then codes "1" else codes "0"

-- `if let Some(value) = …` round a `write_field`.
abbrev write_some : Text → Option Text → List ℕ → List ℕ
write_some key none header_data = header_data
write_some key (some value) header_data = write_field (key ++ value) header_data

abbrev write_bit : Text → Option Bool → List ℕ → List ℕ
write_bit key none header_data = header_data
write_bit key (some b) header_data = write_field (key ++ bit b) header_data

-- The fields of `to_bytes` in the order of the source, behind four bytes for the length.
write_header : ConnectionHeader → Bool → List ℕ
write_header h to_publisher =
    let d1 = write_field (codes "callerid=" ++ h.caller_id) (le32 0) in
    let d2 = write_field (codes "latching=" ++ bit h.latching) d1 in
    let d3 = write_some (codes "md5sum=") h.md5sum d2 in
    let d4 = write_field (codes "message_definition=" ++ h.msg_definition) d3 in
    let d5 =
      write_bit (codes "tcp_nodelay=") (if to_publisher then some h.tcp_nodelay else none) d4 in
    let d6 = write_some (codes "topic=") h.topic d5 in
    let d7 = write_some (codes "service=") h.service d6 in
    let d8 = write_field (codes "type=" ++ h.topic_type) d7 in
    write_bit (codes "persistent=") h.persistent d8

-- The total length goes into the first four bytes at the end.
unfoldable pub to_bytes : ConnectionHeader → Bool → List ℕ
unfolding write_header
to_bytes h to_publisher =
    let header_data = write_header h to_publisher in
    le32 (length header_data - 4) ++ drop 4 header_data
