-- ===== src/Ros1/Services/Typed.antt =====
-- The typed ends of a call: the function that `register_service_server` of
-- roslibrust_ros1/src/node/actor.rs wraps, and `ServiceClient::call` of
-- roslibrust_ros1/src/service_client.rs.
use roslibrust.Base.{
  ℕ, ◌*◌, ◌<◌, ◌≡◌, refl, ap, ◌∙◌, true, false, All, length, Option-cases, Option, none, some, List,
  [], ◌∷◌, ◌++◌, Text, codes, Result, ok, err, panic, diverge, map, inl, inr,
}
use roslibrust.Tcpros.Header.{unexpected_eof}
use roslibrust.Tcpros.Bytes.{u32_mod}
use roslibrust.Tcpros.Header.{ConnectionHeader, to_bytes}
use roslibrust.Tcpros.Header.Reread.{IsSendable as HeaderIsSendable}
use roslibrust.Tcpros.Stream.{Stream}
use roslibrust.Tcpros.Stream.Framing.{Holds, content}
use roslibrust.Ros1.Services.{Outgoing}
use roslibrust.Ros1.Services.Server.{Response, success, failure, crashed, handle_tcp_connection}
use roslibrust.Ros1.Services.Client.{
  CallError, io, other, TcpStream, actor_context, establish_connection,
}
use roslibrust.Ros1.Services.Contract.{
  Response-cases, replies, IsFrame, IsSendable, concat, at_work, responses, state_after,
}
use roslibrust.Ros1.Services.Calling.{client_end, calls_answered}

pub data ClientError : Type 0 where
  serialization : ClientError
  call_failed : CallError → ClientError

abbrev pub refused : {A : Type 0} → Text → Result ClientError A
refused text = err (call_failed (other (codes "Failure response from service server: " ++ text)))

-- The serializers of one service type, which may fail.
module _ {Request Answer : Type 0} (request_to_vec : Request → Option (List ℕ))
    (request_from_slice : List ℕ → Option Request) (answer_to_vec : Answer → Option (List ℕ))
    (answer_from_slice : List ℕ → Option Answer) where
  -- The function as the server runs it: bytes in and bytes out. `serialization_error` is what
  -- `{:?}` prints for an `Error::SerializationError`.
  unfoldable pub server_typeless :
      {S : Type 0} → (S → Request → Response Answer × S) → Text → S → List ℕ → Response (List ℕ) × S
  server_typeless server serialization_error s message = elim (request_from_slice message) [
    | none ↦ (failure serialization_error, s)
    | some request ↦ (
      elim (server s request).0 [
        | success response ↦ elim (answer_to_vec response) [
          | none ↦ failure serialization_error
          | some bytes ↦ success bytes
        ]
        | failure text ↦ failure text
        | crashed ↦ crashed
      ],
      (server s request).1,
    )
  ]

  -- What `call` makes of the answer of the task.
  unfoldable pub call_result : Result CallError (List ℕ) → Result ClientError Answer
  call_result (ok result_payload) = elim (answer_from_slice result_payload) [
    | none ↦ err serialization
    | some response ↦ ok response
  ]
  call_result (err e) = err (call_failed e)
  call_result panic = panic
  call_result diverge = diverge

  -- What the calls promise: the function's own answers, or the server's error where an answer cannot
  -- be serialized.
  unfoldable pub typed_replies :
      {S : Type 0}
      → Text
      → (S → Request → Response Answer × S)
      → S
      → List Request
      → List (Result ClientError Answer)
  typed_replies serialization_error server s [] = []
  typed_replies serialization_error server s (request ∷ requests) = elim (server s request).0 [
    | success response ↦
        (elim (answer_to_vec response) [
          | some bytes ↦ ok response
          | none ↦ refused serialization_error
        ])
        ∷ typed_replies serialization_error server (server s request).1 requests
    | failure text ↦
        refused text ∷ typed_replies serialization_error server (server s request).1 requests
    | crashed ↦ map (λ _. err (call_failed (io unexpected_eof))) (request ∷ requests)
  ]

  abbrev pub IsEncoding : Request → List ℕ → Type 0
  IsEncoding request bytes = request_to_vec request ≡ some bytes

  abbrev pub AreEncodings : List Request → List (List ℕ) → Type 0
  AreEncodings [] [] = Unit {0}
  AreEncodings (request ∷ requests) (bytes ∷ payloads) =
      IsEncoding request bytes × AreEncodings requests payloads
  AreEncodings _ _ = ⊥

  map-ended :
      (requests : List Request) (payloads : List (List ℕ))
      → AreEncodings requests payloads
      → map call_result (map (λ _. err (io unexpected_eof)) payloads)
        ≡ map (λ _. err (call_failed (io unexpected_eof))) requests
  unfolding call_result
  map-ended [] [] e = refl
  map-ended (request ∷ requests) (bytes ∷ payloads) e =
      ap (λ l. err (call_failed (io unexpected_eof)) ∷ l) (map-ended requests payloads e.1)
  map-ended [] (bytes ∷ payloads) e = absurd e
  map-ended (request ∷ requests) [] e = absurd e

  module _ {S : Type 0} (server : S → Request → Response Answer × S) (serialization_error : Text)
      (back_q : (request : Request) (bytes : List ℕ)
        → request_to_vec request ≡ some bytes
        → request_from_slice bytes ≡ some request)
      (back_a : (answer : Answer) (bytes : List ℕ)
        → answer_to_vec answer ≡ some bytes
        → answer_from_slice bytes ≡ some answer) where
    -- The bytes that the function answers, read back.
    replies-typed :
        (requests : List Request) (payloads : List (List ℕ)) (s : S)
        → AreEncodings requests payloads
        → map call_result (replies (server_typeless server serialization_error) s payloads)
          ≡ typed_replies serialization_error server s requests
    unfolding server_typeless call_result typed_replies replies
    replies-typed [] [] s e = refl
    replies-typed [] (bytes ∷ payloads) s e = absurd e
    replies-typed (request ∷ requests) [] s e = absurd e
    replies-typed (request ∷ requests) (bytes ∷ payloads) s (e, es) =
        let se = serialization_error in
        let read = back_q request bytes e in
        let rest = replies-typed requests payloads (server s request).1 es in
        let refusing : (text : Text)
            → server_typeless server se s bytes ≡ (failure text, (server s request).1)
            → map call_result (replies (server_typeless server se) s (bytes ∷ payloads))
              ≡ refused text ∷ typed_replies se server (server s request).1 requests =
          λ text step.
            rw (ap (λ p. p.0) step, ap (λ p. p.1) step, replies)
              (ap (λ l. refused text ∷ l) rest) in
        elim (Response-cases (server s request).0) [
          | inl (answer, is) ↦ elim (Option-cases (answer_to_vec answer)) [
            | inl unwritten ↦
                refusing se (rw (read, is, unwritten, server_typeless) refl)
                ∙ rw (is, unwritten, typed_replies) refl
            | inr (out, written) ↦
                let step : server_typeless server se s bytes ≡ (success out, (server s request).1) =
                  rw (read, is, written, server_typeless) refl in
                rw (ap (λ p. p.0) step, ap (λ p. p.1) step, is, replies, typed_replies)
                  (rw (back_a answer out written, written, call_result)
                    (ap (λ l. ok answer ∷ l) rest))
          ]
          | inr (inl (text, is)) ↦
              refusing text (rw (read, is, server_typeless) refl) ∙ rw (is, typed_replies) refl
          | inr (inr is) ↦
              let step : server_typeless server se s bytes ≡ (crashed, (server s request).1) =
                rw (read, is, server_typeless) refl in
              rw (ap (λ p. p.0) step, is, replies, typed_replies)
                (map-ended (request ∷ requests) (bytes ∷ payloads) (e, es))
        ]

    module _ (to_vec : Text → List ℕ) (from_slice : List ℕ → Option Text) where
      -- Over one connection, however its bytes are cut, where the bytes that come back are those that
      -- the server writes for the requests, and where the serializers give back what they have
      -- written, each call of the client returns the response or the error of the typed function
      -- for its own request, an error where the server cannot serialize the response, and the end
      -- of the stream from a panic of the function on.
      pub typed_calls :
          (conn responding : ConnectionHeader) (requests : List Request) (payloads : List (List ℕ))
          (s : S) (there back : Stream) (room_there room_back : ℕ)
          → AreEncodings requests payloads
          → conn.persistent ≡ some true
          → HeaderIsSendable conn
          → HeaderIsSendable responding
          → length (to_bytes conn true) < u32_mod
          → length (to_bytes responding false) < u32_mod
          → All IsFrame payloads
          → ((s : S) (request : List ℕ)
              → IsSendable to_vec from_slice
                  (server_typeless server serialization_error s request).0)
          → length payloads < room_there
          → 2 * length payloads < room_back
          → Holds there (to_bytes conn true ++ concat payloads)
          → Holds back (
              to_bytes responding false
              ++ responses (server_typeless server serialization_error) to_vec s payloads)
          → ((out : Outgoing) × (handle_tcp_connection
                  (server_typeless server serialization_error)
                  to_vec
                  responding
                  there
                  (at_work [] room_back)
                  s
                ≡ ok (out, state_after (server_typeless server serialization_error) s payloads))
              × (out.written ≡ content back))
            × (open_stream : TcpStream) × (establish_connection conn (client_end back [] room_there)
                ≡ ok open_stream)
            × (map call_result (actor_context from_slice payloads open_stream).0
                ≡ typed_replies serialization_error server s requests)
      typed_calls conn responding requests payloads s there back room_there room_back es ep sc sr lc
            lr frames sendable rt rb ht hb =
          let (served, open_stream, opened, answers) =
            calls_answered (server_typeless server serialization_error) to_vec from_slice conn
              responding payloads s there back room_there room_back ep sc sr lc lr frames sendable
              rt rb ht hb in
          (
            served,
            open_stream,
            opened,
            ap (map call_result) answers ∙ replies-typed requests payloads s es,
          )
