-- ===== src/Ros1/Publishing/Arrival.antt =====
-- What a subscriber reads from a connection of a publication.
use roslibrust.Base.{
  inl, inr, ℕ, zero, suc, ◌<◌, ◌≡◌, refl, ap, sym, ◌∙◌, true, false, Bool-cases, Option, none, some,
  List, [], ◌∷◌, ◌++◌, length, take, drop, All, arith, Text, ok, err, panic, diverge,
}
use roslibrust.Tcpros.Bytes.{u32_mod}
use roslibrust.Tcpros.Header.{ConnectionHeader, to_bytes}
use roslibrust.Tcpros.Header.Fields.{to_bytes-fields}
use roslibrust.Tcpros.Header.Reread.{IsSendable}
use roslibrust.Tcpros.Stream.{Stream, receive_body}
use roslibrust.Tcpros.Stream.Framing.{Holds}
use roslibrust.Ros1.Handshake.{connect_and_handshake}
use roslibrust.Ros1.Handshake.Agreement.{handshake_succeeds}
use roslibrust.Ros1.Services.Contract.{IsFrame, receive_body-IsFrame, receive_body-end, concat}
use roslibrust.Ros1.Publishing.{PublishTask}
use roslibrust.Ros1.Publishing.Delivery.{latest, latch, latched_bytes, Delivers}

-- The loop of `publisher_reader_task` that reads messages, up to the end of the stream.
unfoldable pub read_messages : ℕ → Stream → List (List ℕ)
read_messages zero stream = []
read_messages (suc fuel) stream = elim (receive_body stream) [
  | ok (data_read, rest) ↦ data_read ∷ read_messages fuel rest
  | err e ↦ []
  | panic ↦ []
  | diverge ↦ []
]

read_messages-concat :
    (messages : List (List ℕ)) (stream : Stream) (fuel : ℕ)
    → All IsFrame messages
    → Holds stream (concat messages)
    → length messages < fuel
    → read_messages fuel stream ≡ messages
unfolding read_messages
read_messages-concat messages stream zero frames held h = absurd (omega arith)
read_messages-concat [] stream (suc fuel) frames held h =
    rw (receive_body-end stream held.0, read_messages) refl
read_messages-concat (m ∷ messages) stream (suc fuel) frames held h =
    let (rest, e, left) = receive_body-IsFrame stream m (concat messages) frames.0 held in
    rw (e, read_messages)
      (ap (λ l. m ∷ l) (read_messages-concat messages rest fuel frames.1 left (omega arith)))

abbrev pub latched_list : Option (List ℕ) → List (List ℕ)
latched_list none = []
latched_list (some bytes) = bytes ∷ []

concat-latched :
    (last : Option (List ℕ)) (messages : List (List ℕ))
    → concat (latched_list last ++ messages) ≡ latched_bytes last ++ concat messages
concat-latched none messages = refl
concat-latched (some bytes) messages = refl

All-take : (P : List ℕ → Type 0) (n : ℕ) (xs : List (List ℕ)) → All P xs → All P (take n xs)
All-take P zero xs all = tt
All-take P (suc n) [] all = tt
All-take P (suc n) (x ∷ xs) (p, all) = (p, All-take P n xs all)

All-drop : (P : List ℕ → Type 0) (n : ℕ) (xs : List (List ℕ)) → All P xs → All P (drop n xs)
All-drop P zero xs all = all
All-drop P (suc n) [] all = tt
All-drop P (suc n) (x ∷ xs) (p, all) = All-drop P n xs all

latest-All :
    (P : List ℕ → Type 0) (xs ys : List (List ℕ)) (found : Option (List ℕ))
    → All P (latched_list found)
    → All P xs
    → All P ys
    → All P (latched_list (latest found xs) ++ ys)
latest-All P [] ys none f all rest = rest
latest-All P [] ys (some m) f all rest = (f.0, rest)
latest-All P (x ∷ xs) ys found f (p, all) rest = latest-All P xs ys (some x) (p, tt) all rest

latch-All :
    (P : List ℕ → Type 0) (header : ConnectionHeader) (xs ys : List (List ℕ))
    → All P xs
    → All P ys
    → All P (latched_list (latch header xs) ++ ys)
latch-All P header xs ys all rest = elim (Bool-cases header.latching) [
  | inl latching ↦ rw latching (latest-All P xs ys none tt all rest)
  | inr off ↦ rw off rest
]

-- A subscriber whose md5sum is the publisher's reads just the message that was latched when it came,
-- and those sent since, one by one and in order, however the bytes are cut.
pub messages_arrive :
    (conn header : ConnectionHeader) (sum : Text) (sent : List (List ℕ)) (t : PublishTask)
    (d : Delivers header sent t) (stream : Stream) (fuel : ℕ)
    → conn.md5sum ≡ some sum
    → header.md5sum ≡ some sum
    → IsSendable conn
    → IsSendable header
    → length (to_bytes conn true) < u32_mod
    → length (to_bytes header false) < u32_mod
    → All IsFrame sent
    → Holds stream t.stream.written
    → length (latched_list (latch header (take d.saved sent)) ++ drop d.start (take t.rx sent))
      < fuel
    → (rest : Stream) × (connect_and_handshake stream conn ≡ ok rest)
      × (read_messages fuel rest
          ≡ latched_list (latch header (take d.saved sent)) ++ drop d.start (take t.rx sent))
messages_arrive conn header sum sent t d stream fuel hc hh sc sh lc lh frames held enough =
    let messages =
      latched_list (latch header (take d.saved sent)) ++ drop d.start (take t.rx sent) in
    let there : Stream = to_bytes conn true ∷ [] in
    let (_, rest, shaken, left) =
      handshake_succeeds conn header sum there stream (concat messages) hc hh sc sh lc lh
        (refl, (λ e. omega (arith, ap length (to_bytes-fields conn true), ap length e), tt))
        (
          held.0
              ∙ d.written
              ∙ ap (λ l. to_bytes header false ++ l)
                  (sym (
                    concat-latched (latch header (take d.saved sent))
                      (drop d.start (take t.rx sent)))),
          held.1,
        ) in
    (
      rest,
      shaken,
      read_messages-concat messages rest fuel
          (latch-All _ header _ _ (All-take _ d.saved sent frames)
            (All-drop _ d.start (take t.rx sent) (All-take _ t.rx sent frames)))
          left enough,
    )
