-- ===== src/Tcpros/Stream/Framing.antt =====
-- What the receivers return does not depend on how the bytes are cut into pieces.
use roslibrust.Base.{
  ℕ, zero, suc, ◌-◌, ◌<◌, ◌≤◌, ◌≡◌, ◌≢◌, refl, ap, sym, ◌∙◌, List, [], ◌∷◌, ◌++◌, append-nil,
  append_assoc, length, length-append, take, take-append, take-append_less, drop-append_less, drop,
  drop-append, All, leb, arith, ok, err, Bool, Bool-cases, inl, inr, leb→le, leb→gt,
}
use roslibrust.Tcpros.Bytes.{u32_mod, le32, of_le32-le32}
use roslibrust.Tcpros.Header.{ConnectionHeader, unexpected_eof, to_bytes}
use roslibrust.Tcpros.Header.Fields.{fields, encode, to_bytes-fields}
use roslibrust.Tcpros.Header.Reread.{reread, IsSendable, from_bytes-fields}
use roslibrust.Tcpros.Stream.{
  Stream, read_until, receive_header_bytes, receive_header, receive_body,
}

abbrev pub content : Stream → List ℕ
content [] = []
content (piece ∷ stream) = piece ++ content stream

abbrev pub IsLive : Stream → Type 0
IsLive = All (λ piece. piece ≢ [])

-- A stream that is still open and holds these bytes.
abbrev pub Holds : Stream → List ℕ → Type 0
Holds stream bytes = (content stream ≡ bytes) × IsLive stream

take-append_more :
    (n : ℕ) (xs ys : List ℕ) → length xs ≤ n → take n (xs ++ ys) ≡ xs ++ take (n - length xs) ys
take-append_more n [] ys h = ap (λ k. take k ys) (omega arith)
take-append_more zero (x ∷ xs) ys h = absurd (omega arith)
take-append_more (suc n) (x ∷ xs) ys h =
    ap (λ l. x ∷ l)
      (take-append_more n xs ys (omega arith) ∙ ap (λ k. xs ++ take k ys) (omega arith))

drop-append_more :
    (n : ℕ) (xs ys : List ℕ) → length xs ≤ n → drop n (xs ++ ys) ≡ drop (n - length xs) ys
drop-append_more n [] ys h = ap (λ k. drop k ys) (omega arith)
drop-append_more zero (x ∷ xs) ys h = absurd (omega arith)
drop-append_more (suc n) (x ∷ xs) ys h =
    drop-append_more n xs ys (omega arith) ∙ ap (λ k. drop k ys) (omega arith)

drop-ne-nil : (n : ℕ) (xs : List ℕ) → n < length xs → drop n xs ≢ []
drop-ne-nil zero [] h e = absurd (omega arith)
drop-ne-nil zero (x ∷ xs) h e = cc
drop-ne-nil (suc n) [] h e = absurd (omega arith)
drop-ne-nil (suc n) (x ∷ xs) h e = drop-ne-nil n xs (omega arith) e

-- With enough bytes in the stream, the loop returns the first of them, and leaves the others.
read_until_lem :
    (stream : Stream) (need : ℕ) (buf : List ℕ)
    → IsLive stream
    → need ≤ length (content stream)
    → (rest : Stream) × (read_until need stream buf ≡ ok (buf ++ take need (content stream), rest))
      × Holds rest (drop need (content stream))
unfolding read_until
read_until_lem stream zero buf live h = (stream, rw append-nil, (refl, live))
read_until_lem [] (suc k) buf live h = absurd (omega arith)
read_until_lem ([] ∷ stream) (suc k) buf live h = absurd (live.0 refl)
read_until_lem ((b ∷ bs) ∷ stream) (suc k) buf live h = elim (Bool-cases (leb (length bs) k)) [
  | inl whole ↦
      let (rest, e, held) =
        read_until_lem stream (k - length bs) (buf ++ (b ∷ bs)) live.1
          (omega (arith, length-append bs (content stream), leb→le _ _ whole)) in
      (
        rest,
        rw whole (
            e
            ∙ ap (λ l. ok (l, rest))
                (append_assoc buf (b ∷ bs) _
                  ∙ ap (λ l. buf ++ (b ∷ l))
                      (sym (take-append_more k bs (content stream) (leb→le _ _ whole))))),
        (held.0 ∙ sym (drop-append_more k bs (content stream) (leb→le _ _ whole)), held.1),
      )
  | inr part ↦ (
    drop k bs ∷ stream,
    rw part (
        ap (λ l. ok (buf ++ (b ∷ l), drop k bs ∷ stream))
          (sym (take-append_less k bs (content stream) (omega (arith, leb→gt _ _ part))))),
    (
      sym (drop-append_less k bs (content stream) (omega (arith, leb→gt _ _ part))),
      (drop-ne-nil k bs (omega (arith, leb→gt _ _ part)), live.1),
    ),
  )
]

-- The same, where the bytes wanted stand first in the stream.
pub read_until-Holds :
    (stream : Stream) (buf xs ys : List ℕ)
    → Holds stream (xs ++ ys)
    → (rest : Stream) × (read_until (length xs) stream buf ≡ ok (buf ++ xs, rest)) × Holds rest ys
read_until-Holds stream buf xs ys (e, live) =
    let (rest, run, left) =
      read_until_lem stream (length xs) buf live (rw e (omega (arith, length-append xs ys))) in
    (
      rest,
      run ∙ ap (λ l. ok (buf ++ l, rest)) (rw e (take-append xs ys)),
      (left.0 ∙ rw e (drop-append xs ys), left.1),
    )

-- With too few bytes before the end of the stream, the loop reports it.
pub read_until-eof :
    (stream : Stream) (need : ℕ) (buf : List ℕ)
    → length (content stream) < need
    → read_until need stream buf ≡ err unexpected_eof
unfolding read_until
read_until-eof stream zero buf h = absurd (omega arith)
read_until-eof [] (suc k) buf h = refl
read_until-eof ([] ∷ stream) (suc k) buf h = refl
read_until-eof ((b ∷ bs) ∷ stream) (suc k) buf h = ground (
  arith,
  length-append bs (content stream),
  read_until-eof stream (k - length bs) (buf ++ (b ∷ bs)),
)

-- A message is received whole however it was cut, its length in front, and what follows it stays
-- in the stream.
pub receive_body-frame :
    (stream : Stream) (body more : List ℕ)
    → length body < u32_mod
    → Holds stream ((le32 (length body) ++ body) ++ more)
    → (rest : Stream) × (receive_body stream ≡ ok (le32 (length body) ++ body, rest))
      × Holds rest more
unfolding receive_body
receive_body-frame stream body more short held =
    let (s1, e1, h1) = read_until-Holds stream [] (le32 (length body)) (body ++ more) held in
    let (s2, e2, h2) = read_until-Holds s1 (le32 (length body)) body more h1 in
    (s2, rw e1 (rw (of_le32-le32 (length body) short) e2), h2)

-- The bytes of a header that `to_bytes` wrote, without its length.
pub receive_header_bytes-to_bytes :
    (stream : Stream) (h : ConnectionHeader) (to_publisher : Bool) (more : List ℕ)
    → length (to_bytes h to_publisher) < u32_mod
    → Holds stream (to_bytes h to_publisher ++ more)
    → (rest : Stream) × (receive_header_bytes stream ≡ ok (encode (fields h to_publisher), rest))
      × Holds rest more
unfolding receive_header_bytes
receive_header_bytes-to_bytes stream h p more short held =
    let body = encode (fields h p) in
    let e0 : to_bytes h p ≡ le32 (length body) ++ body = to_bytes-fields h p in
    let fits : length body < u32_mod = omega (arith, ap length e0) in
    let (s1, e1, h1) =
      read_until-Holds stream [] (le32 (length body)) (body ++ more) (rw e0 at held) in
    let (s2, e2, h2) = read_until-Holds s1 [] body more h1 in
    (s2, rw e1 (rw (of_le32-le32 (length body) fits) e2), h2)

-- A header that `to_bytes` wrote is received as it was sent, however it was cut.
pub receive_header-to_bytes :
    (stream : Stream) (h : ConnectionHeader) (to_publisher : Bool) (more : List ℕ)
    → IsSendable h
    → length (to_bytes h to_publisher) < u32_mod
    → Holds stream (to_bytes h to_publisher ++ more)
    → (rest : Stream) × (receive_header stream ≡ ok (reread h to_publisher, rest)) × Holds rest more
unfolding receive_header
receive_header-to_bytes stream h p more sendable short held =
    let (rest, e, left) = receive_header_bytes-to_bytes stream h p more short held in
    (rest, rw e (rw (from_bytes-fields h p sendable)), left)
