-- ===== src/Tcpros/Stream.antt =====
-- `receive_header_bytes`, `receive_header` and `receive_body_with_capacity_hint` of
-- roslibrust_ros1/src/tcpros.rs. A stream is the list of the pieces that the reads of the socket
-- deliver; a read of no bytes is the end of the stream.
pub mod Framing
use roslibrust.Base.{
  ℕ, zero, suc, ◌-◌, ◌<◌, List, [], ◌∷◌, ◌++◌, length, take, drop, leb, if◌then◌else◌, Result, ok,
  err, panic, ◌>>=◌,
}
use roslibrust.Tcpros.Bytes.{of_le32}
use roslibrust.Tcpros.Header.{ConnectionHeader, IoError, unexpected_eof, from_bytes}

abbrev pub Stream : Type 0
Stream = List (List ℕ)

-- `while buf.len() < target { … }` where `need` bytes are missing. A read takes at most what is
-- missing, and leaves the rest of its piece in the socket. `read_exact` is the same loop.
unfoldable pub read_until : ℕ → Stream → List ℕ → Result IoError (List ℕ × Stream)
read_until zero stream buf = ok (buf, stream)
read_until (suc k) [] buf = err unexpected_eof
read_until (suc k) ([] ∷ stream) buf = err unexpected_eof
read_until (suc k) ((b ∷ bs) ∷ stream) buf =
    let rest = read_until (k - length bs) stream (buf ++ (b ∷ bs)) in
    if leb (length bs) k
    then rest
    else ok (buf ++ take (suc k) (b ∷ bs), drop (suc k) (b ∷ bs) ∷ stream)

-- `u32::from_le_bytes(buf[..4])`; the slice panics on fewer bytes.
abbrev pub length_prefix : List ℕ → Result IoError ℕ
length_prefix (a ∷ b ∷ c ∷ d ∷ _) = ok (of_le32 a b c d)
length_prefix _ = panic

unfoldable pub receive_header_bytes : Stream → Result IoError (List ℕ × Stream)
receive_header_bytes stream = do
  (header_len_bytes, stream1) ← read_until 4 stream []
  header_len ← length_prefix header_len_bytes
  read_until header_len stream1 []

unfoldable pub receive_header : Stream → Result IoError (ConnectionHeader × Stream)
receive_header stream = do
  (header_bytes, stream1) ← receive_header_bytes stream
  header ← from_bytes header_bytes
  ok (header, stream1)

-- The bytes returned begin with the length, as the deserializer expects.
unfoldable pub receive_body : Stream → Result IoError (List ℕ × Stream)
receive_body stream = do
  (buf, stream1) ← read_until 4 stream []
  body_len ← length_prefix buf
  read_until body_len stream1 buf
