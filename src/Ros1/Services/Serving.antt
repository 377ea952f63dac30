-- ===== src/Ros1/Services/Serving.antt =====
-- The server's half of a connection: the loop of `handle_tcp_connection`.
use roslibrust.Base.{
  ℕ, zero, suc, ◌*◌, ◌<◌, ◌≤◌, ◌≡◌, refl, sym, ◌∙◌, true, List, [], ◌∷◌, ◌++◌, append-nil,
  append_assoc, length, arith, Text, ok, All, inl, inr,
}
use roslibrust.Tcpros.Stream.{Stream}
use roslibrust.Tcpros.Stream.Framing.{Holds}
use roslibrust.Ros1.Services.{Outgoing, write_all}
use roslibrust.Ros1.Services.Server.{Response, write_both, write_response, serve_bodies}
use roslibrust.Ros1.Services.Contract.{
  Response-cases, IsFrame, receive_body-IsFrame, receive_body-end, concat, at_work, responses,
  state_after,
}

append_one :
    (w : List ℕ) (b : ℕ) (xs ys : List ℕ) → ((w ++ (b ∷ [])) ++ xs) ++ ys ≡ w ++ (b ∷ (xs ++ ys))
append_one w b xs ys = append_assoc (w ++ (b ∷ [])) xs ys ∙ append_assoc w (b ∷ []) (xs ++ ys)

-- The server's half of a persistent connection.
pub serve_bodies-responses :
    {S : Type 0} (method : S → List ℕ → Response (List ℕ) × S) (to_vec : Text → List ℕ)
    (requests : List (List ℕ)) (s : S) (stream : Stream) (w : List ℕ) (room fuel : ℕ)
    → All IsFrame requests
    → Holds stream (concat requests)
    → 2 * length requests ≤ room
    → length requests < fuel
    → (out : Outgoing) × (serve_bodies method to_vec fuel true stream (at_work w room) s
        ≡ ok (out, state_after method s requests))
      × (out.written ≡ w ++ responses method to_vec s requests)
unfolding serve_bodies write_response write_both write_all responses state_after
serve_bodies-responses method to_vec requests s stream w room zero frames held hr hf =
    absurd (omega arith)
serve_bodies-responses method to_vec [] s stream w room (suc fuel) frames held hr hf =
    (at_work w room, rw (receive_body-end stream held.0, serve_bodies) refl, sym (append-nil w))
serve_bodies-responses method to_vec (request ∷ requests) s stream w zero (suc fuel) frames held hr
      hf =
    absurd (omega arith)
serve_bodies-responses method to_vec (request ∷ requests) s stream w (suc zero) (suc fuel) frames
      held hr hf =
    absurd (omega arith)
serve_bodies-responses method to_vec (request ∷ requests) s stream w (suc (suc room)) (suc fuel)
      frames held hr hf =
    let (rest, e, left) = receive_body-IsFrame stream request (concat requests) frames.0 held in
    elim (Response-cases (method s request).0) [
      | inl (bytes, is) ↦
          let (out, run, wrote) =
            serve_bodies-responses method to_vec requests (method s request).1 rest
              ((w ++ (1 ∷ [])) ++ bytes) room fuel frames.1 left (omega arith) (omega arith) in
          (
            out,
            rw (e, is, serve_bodies, write_response, state_after) run,
            rw (is, responses) (wrote ∙ append_one w 1 bytes _),
          )
      | inr (inl (text, is)) ↦
          let (out, run, wrote) =
            serve_bodies-responses method to_vec requests (method s request).1 rest
              ((w ++ (0 ∷ [])) ++ to_vec text) room fuel frames.1 left (omega arith)
              (omega arith) in
          (
            out,
            rw (e, is, serve_bodies, write_response, state_after) run,
            rw (is, responses) (wrote ∙ append_one w 0 (to_vec text) _),
          )
      | inr (inr is) ↦ (
        at_work w (suc (suc room)),
        rw (e, is, serve_bodies, write_response, state_after) refl,
        rw (is, responses) (sym (append-nil w)),
      )
    ]
