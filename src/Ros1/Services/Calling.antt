-- ===== src/Ros1/Services/Calling.antt =====
-- The client's half of a connection, `actor_context`, and the two halves together.
use roslibrust.Base.{
  ℕ, zero, suc, ◌*◌, ◌<◌, ◌≤◌, ◌≡◌, refl, ap, sym, ◌∙◌, true, false, Option, some, List, [], ◌∷◌,
  ◌++◌, length, length-append, arith, Text, codes, ok, err, All, map, inl, inr,
}
use roslibrust.Tcpros.Bytes.{u32_mod}
use roslibrust.Tcpros.Header.{unexpected_eof, ConnectionHeader, to_bytes}
use roslibrust.Tcpros.Header.Reread.{IsSendable as HeaderIsSendable}
use roslibrust.Tcpros.Stream.{Stream}
use roslibrust.Tcpros.Stream.Framing.{
  Holds, read_until-Holds, read_until-eof, content, receive_header-to_bytes,
}
use roslibrust.Ros1.Services.{Outgoing, write_all}
use roslibrust.Ros1.Services.Server.{Response, handle_tcp_connection}
use roslibrust.Ros1.Services.Client.{
  io, other, TcpStream, read_body, refuse, error_of, read_response, handle_service_call_fallible,
  actor_context, establish_connection,
}
use roslibrust.Ros1.Services.Contract.{
  Response-cases, IsFrame, receive_body-IsFrame, concat, at_work, responses, replies, IsSendable,
  state_after,
}
use roslibrust.Ros1.Services.Serving.{serve_bodies-responses}

-- The client's end, which has written `w` so far.
abbrev pub client_end : Stream → List ℕ → ℕ → TcpStream
client_end incoming w room = record { incoming = incoming; outgoing = at_work w room }

module _ (from_slice : List ℕ → Option Text) (request w : List ℕ) (room : ℕ) (stream : Stream) where
  call-ended :
      content stream ≡ []
      → handle_service_call_fallible from_slice request (client_end stream w (suc room))
        ≡ (err (io unexpected_eof), client_end [] (w ++ request) room)
  unfolding handle_service_call_fallible write_all
  call-ended e =
      rw (read_until-eof stream 1 [] (rw e (omega arith)), handle_service_call_fallible) refl

  pub call-success :
      (bytes more : List ℕ)
      → IsFrame bytes
      → Holds stream ((1 ∷ bytes) ++ more)
      → (rest : Stream) × (handle_service_call_fallible from_slice request
            (client_end stream w (suc room))
          ≡ (ok bytes, client_end rest (w ++ request) room))
        × Holds rest more
  unfolding handle_service_call_fallible write_all read_response read_body
  call-success bytes more frame held =
      let (r1, e1, h1) = read_until-Holds stream [] (1 ∷ []) (bytes ++ more) held in
      let (r2, e2, h2) = receive_body-IsFrame r1 bytes more frame h1 in
      (r2, rw (e1, handle_service_call_fallible) (rw (e2, read_body, read_response) refl), h2)

  call-failure :
      (bytes more : List ℕ)
      → IsFrame bytes
      → Holds stream ((0 ∷ bytes) ++ more)
      → (rest : Stream) × (handle_service_call_fallible from_slice request
            (client_end stream w (suc room))
          ≡ (err (error_of from_slice bytes), client_end rest (w ++ request) room))
        × Holds rest more
  unfolding handle_service_call_fallible write_all read_response read_body refuse
  call-failure bytes more frame held =
      let (r1, e1, h1) = read_until-Holds stream [] (0 ∷ []) (bytes ++ more) held in
      let (r2, e2, h2) = receive_body-IsFrame r1 bytes more frame h1 in
      let whole : read_body r1 ≡ (ok bytes, r2) = rw (e2, read_body) refl in
      (r2, rw (e1, handle_service_call_fallible) (rw (ap (refuse from_slice) whole) refl), h2)

-- A stream that has ended fails every call that is left.
actor_context-ended :
    (from_slice : List ℕ → Option Text) (requests : List (List ℕ)) (stream : Stream) (w : List ℕ)
    (room : ℕ)
    → content stream ≡ []
    → length requests ≤ room
    → (actor_context from_slice requests (client_end stream w room)).0
      ≡ map (λ _. err (io unexpected_eof)) requests
unfolding actor_context
actor_context-ended from_slice [] stream w room e h = refl
actor_context-ended from_slice (request ∷ requests) stream w zero e h = absurd (omega arith)
actor_context-ended from_slice (request ∷ requests) stream w (suc room) e h =
    rw (call-ended from_slice request w room stream e, actor_context)
      (ap (λ l. err (io unexpected_eof) ∷ l)
        (actor_context-ended from_slice requests [] (w ++ request) room refl (omega arith)))

module _ {S : Type 0} (method : S → List ℕ → Response (List ℕ) × S) (to_vec : Text → List ℕ)
    (from_slice : List ℕ → Option Text) where
  -- The client's half.
  pub actor_context-replies :
      (requests : List (List ℕ)) (s : S) (stream : Stream) (w : List ℕ) (room : ℕ)
      → ((s : S) (request : List ℕ) → IsSendable to_vec from_slice (method s request).0)
      → Holds stream (responses method to_vec s requests)
      → length requests ≤ room
      → (actor_context from_slice requests (client_end stream w room)).0 ≡ replies method s requests
  unfolding actor_context responses replies error_of
  actor_context-replies [] s stream w room sendable held h = refl
  actor_context-replies (request ∷ requests) s stream w zero sendable held h = absurd (omega arith)
  actor_context-replies (request ∷ requests) s stream w (suc room) sendable held h =
      let s1 = (method s request).1 in
      elim (Response-cases (method s request).0) [
        | inl (bytes, is) ↦
            let (rest, e, left) =
              call-success from_slice request w room stream bytes _ (rw is at (sendable s request))
                (rw (is, responses) at held) in
            rw (e, is, actor_context, replies)
              (ap (λ l. ok bytes ∷ l)
                (actor_context-replies requests s1 rest (w ++ request) room sendable left
                  (omega arith)))
        | inr (inl (text, is)) ↦
            let good = rw is at (sendable s request) in
            let (rest, e, left) =
              call-failure from_slice request w room stream (to_vec text) _ good.0
                (rw (is, responses) at held) in
            rw (e, is, actor_context, replies)
              (rw (good.1, error_of)
                (ap (λ l. err (other (codes "Failure response from service server: " ++ text)) ∷ l)
                  (actor_context-replies requests s1 rest (w ++ request) room sendable left
                    (omega arith))))
        | inr (inr is) ↦
            rw (is, replies)
              (actor_context-ended from_slice (request ∷ requests) stream w (suc room)
                (rw (is, responses) at held.0) h)
      ]

  length-concat :
      (requests : List (List ℕ)) → All IsFrame requests → length requests ≤ length (concat requests)
  length-concat [] frames = omega arith
  length-concat (request ∷ requests) frames = omega (
    arith,
    length-append request (concat requests),
    ap length frames.0.framed,
    length-concat requests frames.1,
  )

  -- Over one connection, however its bytes are cut, the server answers the client's header, and
  -- every call returns what the function makes of its request, in the order of the calls.
  pub calls_answered :
      (conn responding : ConnectionHeader) (requests : List (List ℕ)) (s : S) (there back : Stream)
      (room_there room_back : ℕ)
      → conn.persistent ≡ some true
      → HeaderIsSendable conn
      → HeaderIsSendable responding
      → length (to_bytes conn true) < u32_mod
      → length (to_bytes responding false) < u32_mod
      → All IsFrame requests
      → ((s : S) (request : List ℕ) → IsSendable to_vec from_slice (method s request).0)
      → length requests < room_there
      → 2 * length requests < room_back
      → Holds there (to_bytes conn true ++ concat requests)
      → Holds back (to_bytes responding false ++ responses method to_vec s requests)
      → ((out : Outgoing) × (handle_tcp_connection method to_vec responding there
              (at_work [] room_back)
              s
            ≡ ok (out, state_after method s requests))
          × (out.written ≡ content back))
        × (open_stream : TcpStream) × (establish_connection conn (client_end back [] room_there)
            ≡ ok open_stream)
        × ((actor_context from_slice requests open_stream).0 ≡ replies method s requests)
  unfolding handle_tcp_connection establish_connection write_all
  calls_answered conn responding requests s there back zero room_back ep sc sr lc lr frames sendable
        rt rb ht hb =
      absurd (omega arith)
  calls_answered conn responding requests s there back (suc room_there) zero ep sc sr lc lr frames
        sendable rt rb ht hb =
      absurd (omega arith)
  calls_answered conn responding requests s there back (suc room_there) (suc room_back) ep sc sr lc
        lr frames sendable rt rb ht hb =
      let (s1, e1, h1) = receive_header-to_bytes there conn true (concat requests) sc lc ht in
      let (s2, e2, h2) = receive_header-to_bytes back responding false _ sr lr hb in
      let (out, run, wrote) =
        serve_bodies-responses method to_vec requests s s1 (to_bytes responding false) room_back
          (suc (length (content s1))) frames h1 (omega arith)
          (omega (arith, length-concat requests frames, ap length h1.0)) in
      (
        (out, rw (e1, handle_tcp_connection) (rw ep run), wrote ∙ sym hb.0),
        client_end s2 (to_bytes conn true) room_there,
        rw (e2, establish_connection) refl,
        actor_context-replies requests s s2 (to_bytes conn true) room_there sendable h2
            (omega arith),
      )
