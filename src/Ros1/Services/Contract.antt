-- ===== src/Ros1/Services/Contract.antt =====
-- What a sequence of calls of a service should give, and the frames that carry it.
use roslibrust.Base.{
  ℕ, ◌<◌, ◌≡◌, refl, ap, sym, ◌∙◌, Option, some, List, [], ◌∷◌, ◌++◌, length, arith, Text, codes,
  Result, ok, err, map, ◌⊎◌, inl, inr,
}
use roslibrust.Tcpros.Bytes.{u32_mod, le32}
use roslibrust.Tcpros.Header.{unexpected_eof}
use roslibrust.Tcpros.Stream.{Stream, receive_body, read_until}
use roslibrust.Tcpros.Stream.Framing.{
  Holds, receive_body-frame, read_until-Holds, read_until-eof, content,
}
use roslibrust.Ros1.Services.{Outgoing}
use roslibrust.Ros1.Services.Server.{Response, success, failure, crashed}
use roslibrust.Ros1.Services.Client.{CallError, io, other}

pub Response-cases :
    {A : Type 0} (r : Response A)
    → ((a : A) × (r ≡ success a)) ⊎ (((text : Text) × (r ≡ failure text)) ⊎ (r ≡ crashed))
Response-cases (success a) = inl (a, refl)
Response-cases (failure text) = inr (inl (text, refl))
Response-cases crashed = inr (inr refl)

-- A serialized message: its length and its bytes.
pub record IsFrame (bytes : List ℕ) : Type 0 where
  pub body : List ℕ
  pub short : length body < u32_mod
  pub framed : bytes ≡ le32 (length body) ++ body

pub receive_body-IsFrame :
    (stream : Stream) (bytes more : List ℕ)
    → IsFrame bytes
    → Holds stream (bytes ++ more)
    → (rest : Stream) × (receive_body stream ≡ ok (bytes, rest)) × Holds rest more
receive_body-IsFrame stream bytes more frame held =
    let (rest, e, left) =
      receive_body-frame stream frame.body more frame.short (rw frame.framed at held) in
    (rest, e ∙ ap (λ b. ok (b, rest)) (sym frame.framed), left)

abbrev pub concat : List (List ℕ) → List ℕ
concat [] = []
concat (bytes ∷ more) = bytes ++ concat more

abbrev pub at_work : List ℕ → ℕ → Outgoing
at_work written room = record { written = written; room = room }

pub receive_body-end :
    (stream : Stream) → content stream ≡ [] → receive_body stream ≡ err unexpected_eof
unfolding receive_body
receive_body-end stream e = rw (read_until-eof stream 4 [] (rw e (omega arith))) refl

pub read_until-one :
    (stream : Stream) (b : ℕ) (more : List ℕ)
    → Holds stream (b ∷ more)
    → (rest : Stream) × (read_until 1 stream [] ≡ ok (b ∷ [], rest)) × Holds rest more
read_until-one stream b more held = read_until-Holds stream [] (b ∷ []) more held

module _ (to_vec : Text → List ℕ) (from_slice : List ℕ → Option Text) where
  -- A response that can be sent: its bytes are a frame, and an error's text is read back.
  abbrev pub IsSendable : Response (List ℕ) → Type 0
  IsSendable (success bytes) = IsFrame bytes
  IsSendable (failure text) = IsFrame (to_vec text) × (from_slice (to_vec text) ≡ some text)
  IsSendable crashed = Unit {0}

module _ {S : Type 0} (method : S → List ℕ → Response (List ℕ) × S) where
  -- The function's state behind these requests.
  unfoldable pub state_after : S → List (List ℕ) → S
  state_after s [] = s
  state_after s (request ∷ requests) = elim (method s request).0 [
    | success bytes ↦ state_after (method s request).1 requests
    | failure text ↦ state_after (method s request).1 requests
    | crashed ↦ (method s request).1
  ]

  -- What the calls should return: the function's answer to each, and an end of the stream for every
  -- call from a panic on.
  unfoldable pub replies : S → List (List ℕ) → List (Result CallError (List ℕ))
  replies s [] = []
  replies s (request ∷ requests) = elim (method s request).0 [
    | success bytes ↦ ok bytes ∷ replies (method s request).1 requests
    | failure text ↦
        err (other (codes "Failure response from service server: " ++ text))
        ∷ replies (method s request).1 requests
    | crashed ↦ map (λ _. err (io unexpected_eof)) (request ∷ requests)
  ]

module _ {S : Type 0} (method : S → List ℕ → Response (List ℕ) × S) (to_vec : Text → List ℕ) where
  -- The bytes of the responses to these requests, up to a panic of the function.
  unfoldable pub responses : S → List (List ℕ) → List ℕ
  responses s [] = []
  responses s (request ∷ requests) = elim (method s request).0 [
    | success bytes ↦ (1 ∷ bytes) ++ responses (method s request).1 requests
    | failure text ↦ (0 ∷ to_vec text) ++ responses (method s request).1 requests
    | crashed ↦ []
  ]
