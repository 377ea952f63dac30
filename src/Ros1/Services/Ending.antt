-- ===== src/Ros1/Services/Ending.antt =====
-- A connection whose client comes to an end ends, and the one answer that leaves a connection out of step.
use roslibrust.Base.{
  Option, Option-cases, panic, ℕ, zero, suc, ◌+◌, ◌-◌, ◌<◌, ◌≤◌, ◌≡◌, ◌≢◌, refl, Bool, true, false,
  Bool-cases, none, some, List, [], ◌∷◌, ◌++◌, length, length-append, length-take, length-drop,
  take, drop, leb, leb→le, leb→gt, arith, Text, ok, err, diverge, ◌⊎◌, inl, inr,
}
use roslibrust.Tcpros.Header.{ConnectionHeader, IoError, unexpected_eof, invalid_data, to_bytes}
use roslibrust.Tcpros.Header.RoundTrip.{from_bytes_total}
use roslibrust.Tcpros.Stream.{
  Stream, length_prefix, read_until, receive_header_bytes, receive_header, receive_body,
}
use roslibrust.Tcpros.Stream.Framing.{Holds, content, read_until-Holds}
use roslibrust.Ros1.Services.{Outgoing, write_all}
use roslibrust.Ros1.Services.Server.{
  Response, success, failure, crashed, write_both, write_response, serve_bodies,
  handle_tcp_connection, is_persistent,
}
use roslibrust.Ros1.Services.Client.{io, read_response, handle_service_call_fallible, actor_context}
use roslibrust.Ros1.Services.Contract.{IsFrame}
use roslibrust.Ros1.Services.Calling.{client_end, call-success}

-- A read takes just the bytes that it was to read, or meets the end of the stream.
read_until_total :
    (stream : Stream) (need : ℕ) (buf : List ℕ)
    → (read_until need stream buf ≡ err unexpected_eof)
      ⊎ ((bytes : List ℕ) × (rest : Stream) × (read_until need stream buf ≡ ok (bytes, rest))
          × (length bytes ≡ length buf + need)
          × (length (content stream) ≡ need + length (content rest)))
unfolding read_until
read_until_total stream zero buf = inr (buf, stream, refl, omega arith, omega arith)
read_until_total [] (suc k) buf = inl refl
read_until_total ([] ∷ stream) (suc k) buf = inl refl
read_until_total ((b ∷ bs) ∷ stream) (suc k) buf = elim (Bool-cases (leb (length bs) k)) [
  | inl whole ↦ elim (read_until_total stream (k - length bs) (buf ++ (b ∷ bs))) [
    | inl e ↦ inl (rw whole e)
    | inr (bytes, rest, e, long, less) ↦ inr (
      bytes,
      rest,
      rw whole e,
      omega (arith, long, length-append buf (b ∷ bs), leb→le _ _ whole),
      omega (arith, less, length-append bs (content stream), leb→le _ _ whole),
    )
  ]
  | inr part ↦ inr (
    buf ++ take (suc k) (b ∷ bs),
    drop (suc k) (b ∷ bs) ∷ stream,
    rw part refl,
    omega (arith, length-append buf (take (suc k) (b ∷ bs)), length-take k bs, leb→gt _ _ part),
    omega (
      arith,
      length-append bs (content stream),
      length-append (drop k bs) (content stream),
      length-drop k bs,
      leb→gt _ _ part,
    ),
  )
]

length_prefix_total : (bytes : List ℕ) → length bytes ≡ 4 → (n : ℕ) × (length_prefix bytes ≡ ok n)
length_prefix_total [] h = absurd (omega arith)
length_prefix_total (a ∷ []) h = absurd (omega arith)
length_prefix_total (a ∷ b ∷ []) h = absurd (omega arith)
length_prefix_total (a ∷ b ∷ c ∷ []) h = absurd (omega arith)
length_prefix_total (a ∷ b ∷ c ∷ d ∷ more) h = (_, refl)

receive_body_total :
    (stream : Stream)
    → (receive_body stream ≡ err unexpected_eof)
      ⊎ ((bytes : List ℕ) × (rest : Stream) × (receive_body stream ≡ ok (bytes, rest))
          × (4 + length (content rest) ≤ length (content stream)))
unfolding receive_body
receive_body_total stream = elim (read_until_total stream 4 []) [
  | inl e ↦ inl (rw e refl)
  | inr (buf, s1, e1, long, less) ↦
      let (n, en) = length_prefix_total buf long in
      elim (read_until_total s1 n buf) [
        | inl e ↦ inl (rw e1 (rw en e))
        | inr (bytes, rest, e, _, less1) ↦ inr (bytes, rest, rw e1 (rw en e), omega arith)
      ]
]

receive_header_total :
    (stream : Stream)
    → ((e : IoError) × (receive_header stream ≡ err e))
      ⊎ ((h : ConnectionHeader) × (rest : Stream) × (receive_header stream ≡ ok (h, rest)))
unfolding receive_header receive_header_bytes
receive_header_total stream = elim (read_until_total stream 4 []) [
  | inl e ↦ inl (unexpected_eof, rw e refl)
  | inr (buf, s1, e1, long, less) ↦
      let (n, en) = length_prefix_total buf long in
      elim (read_until_total s1 n []) [
        | inl e ↦ inl (unexpected_eof, rw e1 (rw en (rw e refl)))
        | inr (bytes, rest, e, _, less1) ↦ elim (from_bytes_total bytes) [
          | inl (h, eh) ↦ inr (h, rest, rw e1 (rw en (rw e (rw eh refl))))
          | inr (why, eh) ↦ inl (why, rw e1 (rw en (rw e (rw eh refl))))
        ]
      ]
]

module _ {S : Type 0} (method : S → List ℕ → Response (List ℕ) × S) (to_vec : Text → List ℕ) where
  write_both_total :
      (first second : List ℕ) (out : Outgoing)
      → (write_both first second out ≡ panic)
        ⊎ ((out1 : Outgoing) × (write_both first second out ≡ ok out1))
  unfolding write_both
  write_both_total first second out = elim (Option-cases (write_all first out)) [
    | inl none_left ↦ inl (rw (none_left, write_both) refl)
    | inr (out1, e1) ↦ elim (Option-cases (write_all second out1)) [
      | inl none_left ↦ inl (rw (e1, none_left, write_both) refl)
      | inr (out2, e2) ↦ inr (out2, rw (e1, e2, write_both) refl)
    ]
  ]

  write_response_total :
      (response : Response (List ℕ)) (out : Outgoing)
      → (write_response method to_vec response out ≡ panic)
        ⊎ ((written : Option Outgoing) × (write_response method to_vec response out ≡ ok written))
  unfolding write_response
  write_response_total (success bytes) out = elim (write_both_total (1 ∷ []) bytes out) [
    | inl e ↦ inl (rw e refl)
    | inr (out1, e) ↦ inr (some out1, rw e refl)
  ]
  write_response_total (failure text) out = elim (write_both_total (0 ∷ []) (to_vec text) out) [
    | inl e ↦ inl (rw e refl)
    | inr (out1, e) ↦ inr (some out1, rw e refl)
  ]
  write_response_total crashed out = inr (none, refl)

  serve_bodies-ends :
      (fuel : ℕ) (persistent : Bool) (stream : Stream) (out : Outgoing) (s : S)
      → length (content stream) < fuel
      → serve_bodies method to_vec fuel persistent stream out s ≢ diverge
  unfolding serve_bodies
  serve_bodies-ends zero persistent stream out s h = absurd (omega arith)
  serve_bodies-ends (suc fuel) true stream out s h = elim (receive_body_total stream) [
    | inl e ↦ rw (e, serve_bodies) (λ d. cc)
    | inr (body, rest, e, less) ↦ elim (write_response_total (method s body).0 out) [
      | inl ew ↦ rw (e, ew, serve_bodies) (λ d. cc)
      | inr (none, ew) ↦ rw (e, ew, serve_bodies) (λ d. cc)
      | inr (some out1, ew) ↦
          rw (e, ew, serve_bodies)
            (serve_bodies-ends fuel true rest out1 (method s body).1 (omega arith))
    ]
  ]
  serve_bodies-ends (suc fuel) false stream out s h = elim (receive_body_total stream) [
    | inl e ↦ rw (e, serve_bodies) (λ d. cc)
    | inr (body, rest, e, less) ↦ elim (write_response_total (method s body).0 out) [
      | inl ew ↦ rw (e, ew, serve_bodies) (λ d. cc)
      | inr (none, ew) ↦ rw (e, ew, serve_bodies) (λ d. cc)
      | inr (some out1, ew) ↦ rw (e, ew, serve_bodies) (λ d. cc)
    ]
  ]

  -- If what the client sends comes to an end and every call of the function returns, the task of the
  -- connection ends, whatever the bytes are, in whatever state of the function and however many
  -- writes the peer takes: each round takes four bytes at least.
  pub handle_tcp_connection-ends :
      (own_header : ConnectionHeader) (stream : Stream) (out : Outgoing) (s : S)
      → handle_tcp_connection method to_vec own_header stream out s ≢ diverge
  unfolding handle_tcp_connection write_all
  handle_tcp_connection-ends own_header stream out s = elim (receive_header_total stream) [
    | inl (e, eh) ↦ rw (eh, handle_tcp_connection) (λ d. cc)
    | inr (h, rest, eh) ↦ elim (Option-cases (write_all (to_bytes own_header false) out)) [
      | inl e ↦ rw (eh, e, handle_tcp_connection) (λ d. cc)
      | inr (out1, e) ↦
          rw (eh, e, handle_tcp_connection)
            (serve_bodies-ends (suc (length (content rest))) (is_persistent h) rest out1 s
              (omega arith))
    ]
  ]

-- A byte that is neither 0 nor 1 fails the call, and what stands behind it stays in the stream.
invalid-left :
    (from_slice : List ℕ → Option Text) (request w more : List ℕ) (room n : ℕ) (stream : Stream)
    → Holds stream (suc (suc n) ∷ more)
    → (rest : Stream) × (handle_service_call_fallible from_slice request
          (client_end stream w (suc room))
        ≡ (err (io invalid_data), client_end rest (w ++ request) room))
      × Holds rest more
unfolding handle_service_call_fallible write_all read_response
invalid-left from_slice request w more room n stream held =
    let (rest, e, left) = read_until-Holds stream [] (suc (suc n) ∷ []) more held in
    (rest, rw (e, handle_service_call_fallible) refl, left)

-- If a success byte is neither 0 nor 1, the call fails as invalid data, and where the bytes behind it
-- are again a success byte of 1 and a framed body, the next call of the same client takes them for
-- its own response, whatever it asked; the calls after that read from behind them.
pub success_byte-invalid :
    (from_slice : List ℕ → Option Text) (request next w bytes more : List ℕ)
    (requests : List (List ℕ)) (room n : ℕ) (stream : Stream)
    → IsFrame bytes
    → Holds stream (suc (suc n) ∷ ((1 ∷ bytes) ++ more))
    → (rest : Stream) × ((actor_context from_slice
          (request ∷ (next ∷ requests))
          (client_end stream w (suc (suc room)))).0
        ≡ err (io invalid_data)
          ∷ (ok bytes
              ∷ (actor_context from_slice requests
                  (client_end rest ((w ++ request) ++ next) room)).0))
      × Holds rest more
unfolding actor_context
success_byte-invalid from_slice request next w bytes more requests room n stream frame held =
    let (s1, e1, h1) =
      invalid-left from_slice request w ((1 ∷ bytes) ++ more) (suc room) n stream held in
    let (s2, e2, h2) = call-success from_slice next (w ++ request) room s1 bytes more frame h1 in
    (s2, rw (e1, actor_context) (rw (e2, actor_context) refl), h2)
