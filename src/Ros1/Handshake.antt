-- ===== src/Ros1/Handshake.antt =====
-- The exchange of connection headers between a subscriber (`connect_and_handshake` of
-- roslibrust_ros1/src/subscriber.rs) and a publisher (`tcp_accept_task` of
-- roslibrust_ros1/src/publisher.rs).
pub mod Agreement
mod Tests
use roslibrust.Base.{
  ℕ, ◌≡◌, Bool, true, false, not, ◌&&◌, ◌||◌, Option, none, some, List, [], ◌∷◌, Text, codes,
  text_eq, if◌then◌else◌, Result, ok, err, panic, diverge, ◌>>=◌,
}
use roslibrust.Tcpros.Header.{
  ConnectionHeader, IoError, unexpected_eof, invalid_data, from_bytes, to_bytes,
}
use roslibrust.Tcpros.Stream.{Stream, receive_header_bytes, receive_header}

-- `==` on `Option<String>`.
abbrev option_eq : Option Text → Option Text → Bool
option_eq none none = true
option_eq (some a) (some b) = text_eq a b
option_eq _ _ = false

-- The subscriber's test of the md5sums: its own header and the publisher's.
unfoldable pub subscriber_accepts : ConnectionHeader → ConnectionHeader → Bool
subscriber_accepts conn_header responded_header =
    option_eq conn_header.md5sum (some (codes "*"))
    || (option_eq responded_header.md5sum (some (codes "*"))
        || option_eq conn_header.md5sum responded_header.md5sum)

abbrev sums_match : Option Text → Option Text → Bool
sums_match none local_sum = true
sums_match (some connection_md5sum) none = true
sums_match (some connection_md5sum) (some local_md5sum) =
    text_eq connection_md5sum (codes "*") || text_eq connection_md5sum local_md5sum

-- The publisher's test: the subscriber's header and its own.
unfoldable pub publisher_accepts : ConnectionHeader → ConnectionHeader → Bool
publisher_accepts connection_header responding_conn_header =
    sums_match connection_header.md5sum responding_conn_header.md5sum

-- What the publisher does with a new connection: the bytes that it answers, or nothing and the end
-- of the connection.
unfoldable pub publisher_answer : Stream → ConnectionHeader → Result IoError (Option (List ℕ))
publisher_answer stream responding_conn_header = do
  (connection_header, rest) ← receive_header stream
  if publisher_accepts connection_header responding_conn_header
      then ok (some (to_bytes responding_conn_header false))
      else ok none

abbrev map_err {ℓ} : {A : Type ℓ} → IoError → Result IoError A → Result IoError A
map_err e (ok a) = ok a
map_err e (err _) = err e
map_err e panic = panic
map_err e diverge = diverge

-- `connect_and_handshake` behind the write of the subscriber's header: the stream that is left.
unfoldable pub connect_and_handshake : Stream → ConnectionHeader → Result IoError Stream
connect_and_handshake stream conn_header = do
  (responded_header_bytes, rest) ← map_err unexpected_eof (receive_header_bytes stream)
  responded_header ← map_err invalid_data (from_bytes responded_header_bytes)
  if subscriber_accepts conn_header responded_header then ok rest else err invalid_data
