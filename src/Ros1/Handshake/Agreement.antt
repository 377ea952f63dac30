-- ===== src/Ros1/Handshake/Agreement.antt =====
-- The two sides of the handshake agree.
use roslibrust.Base.{
  ℕ, ◌<◌, ◌≡◌, Bool, true, false, ◌||◌, some, List, [], ◌++◌, arith, length, Text, codes, text_eq,
  text_eq_iff, ok,
}
use roslibrust.Tcpros.Bytes.{u32_mod}
use roslibrust.Tcpros.Header.{ConnectionHeader, to_bytes}
use roslibrust.Tcpros.Header.Reread.{reread, IsSendable, from_bytes-fields}
use roslibrust.Tcpros.Stream.{Stream}
use roslibrust.Tcpros.Stream.Framing.{Holds, receive_header_bytes-to_bytes, receive_header-to_bytes}
use roslibrust.Ros1.Handshake.{
  subscriber_accepts, publisher_accepts, publisher_answer, connect_and_handshake,
}

-- For two headers with md5sums, the subscriber accepts what the publisher does, and besides every
-- publisher whose own sum is "*".
pub accepts_agree :
    (conn responding : ConnectionHeader) (p : Bool) (c l : Text)
    → conn.md5sum ≡ some c
    → responding.md5sum ≡ some l
    → subscriber_accepts conn (reread responding false)
      ≡ (publisher_accepts (reread conn p) responding || text_eq l (codes "*"))
unfolding subscriber_accepts publisher_accepts
accepts_agree conn responding p c l hc hl = ground (arith, text_eq_iff c l)

-- However the bytes are cut, a publisher whose md5sum is the subscriber's answers its header, and
-- the subscriber accepts the answer, with what follows left to read.
pub handshake_succeeds :
    (conn responding : ConnectionHeader) (sum : Text) (there back : Stream) (more : List ℕ)
    → conn.md5sum ≡ some sum
    → responding.md5sum ≡ some sum
    → IsSendable conn
    → IsSendable responding
    → length (to_bytes conn true) < u32_mod
    → length (to_bytes responding false) < u32_mod
    → Holds there (to_bytes conn true ++ [])
    → Holds back (to_bytes responding false ++ more)
    → (publisher_answer there responding ≡ ok (some (to_bytes responding false)))
      × (rest : Stream) × (connect_and_handshake back conn ≡ ok rest)
      × Holds rest more
unfolding publisher_answer connect_and_handshake
handshake_succeeds conn responding sum there back more hc hr sc sr lc lr ht hb =
    let (s1, e1, h1) = receive_header-to_bytes there conn true [] sc lc ht in
    let (s2, e2, h2) = receive_header_bytes-to_bytes back responding false more lr hb in
    (
      rw e1 (unfold publisher_accepts in ground (arith, text_eq_iff sum sum)),
      s2,
      rw e2 (
          rw (from_bytes-fields responding false sr)
            (unfold subscriber_accepts in ground (arith, text_eq_iff sum sum))),
      h2,
    )
