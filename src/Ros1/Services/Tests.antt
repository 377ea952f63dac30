-- ===== src/Ros1/Services/Tests.antt =====
-- The theorems on service calls at concrete inputs: a service that counts its calls, and that fails
-- on a request whose byte is 9.
use roslibrust.Base.{
  ℕ, suc, ◌+◌, ◌≡◌, ◌≢◌, refl, true, false, Option, none, some, List, [], ◌∷◌, ◌++◌, length, Text,
  codes, ◌==◌, Option-cases, if◌then◌else◌, ok, err, diverge, map, arith, inl, inr, Bool-cases,
}
use roslibrust.Tcpros.Bytes.{is_utf8, le32}
use roslibrust.Tcpros.Header.{ConnectionHeader, to_bytes, invalid_data}
use roslibrust.Tcpros.Header.Reread.{IsSendable as HeaderIsSendable}
use roslibrust.Tcpros.Stream.{Stream}
use roslibrust.Tcpros.Stream.Framing.{Holds, content}
use roslibrust.Ros1.Services.{Outgoing}
use roslibrust.Ros1.Services.Server.{
  Response, success, failure, response_header, handle_tcp_connection,
}
use roslibrust.Ros1.Services.Client.{
  io, other, TcpStream, client_header, establish_connection, actor_context,
}
use roslibrust.Ros1.Services.Contract.{
  IsFrame, IsSendable, at_work, concat, responses, state_after, replies,
}
use roslibrust.Ros1.Services.Calling.{client_end, calls_answered}
use roslibrust.Ros1.Services.Ending.{success_byte-invalid, handle_tcp_connection-ends}
use roslibrust.Ros1.Services.Typed.{call_result, server_typeless, typed_replies, typed_calls}

abbrev frame : ℕ → List ℕ
frame b = le32 1 ++ (b ∷ [])

frame-IsFrame : (b : ℕ) → IsFrame (frame b)
frame-IsFrame b = record { body = b ∷ []; short = omega arith; framed = refl }

-- The one error message of the service.
abbrev message : Text
message = codes "no"

abbrev to_vec : Text → List ℕ
to_vec text = le32 2 ++ message

abbrev from_slice : List ℕ → Option Text
from_slice bytes = some message

abbrev count : ℕ → List ℕ → Response (List ℕ) × ℕ
count s request = (if length request == 5 then success (frame s) else failure message, suc s)

count-IsSendable : (s : ℕ) (request : List ℕ) → IsSendable to_vec from_slice (count s request).0
count-IsSendable s request = elim (Bool-cases (length request == 5)) [
  | inl five ↦ rw five (frame-IsFrame s)
  | inr other_length ↦
      rw other_length (record { body = message; short = omega arith; framed = refl }, refl)
]

abbrev conn : ConnectionHeader
conn = client_header (codes "/caller") (codes "/count") (codes "x/Count") (codes "") (codes "ab")

abbrev responding : ConnectionHeader
responding =
    response_header (codes "/count") (codes "/server") (codes "x/Count") (codes "ab") (codes "")

conn-IsSendable : HeaderIsSendable conn
unfolding is_utf8
conn-IsSendable = record {
  caller_id = (omega arith, refl);
  msg_definition = (omega arith, refl);
  md5sum = (omega arith, refl);
  service = (omega arith, refl);
  topic = tt;
  topic_type = (omega arith, refl);
}

responding-IsSendable : HeaderIsSendable responding
unfolding is_utf8
responding-IsSendable = record {
  caller_id = (omega arith, refl);
  msg_definition = (omega arith, refl);
  md5sum = (omega arith, refl);
  service = (omega arith, refl);
  topic = tt;
  topic_type = (omega arith, refl);
}

abbrev requests : List (List ℕ)
requests = frame 7 ∷ (le32 2 ++ (1 ∷ 2 ∷ [])) ∷ frame 8 ∷ []

abbrev there : Stream
there = (to_bytes conn true ++ concat requests) ∷ []

abbrev back : Stream
back = (to_bytes responding false ++ responses count to_vec 0 requests) ∷ []

replies_run :
    replies count 0 requests
    ≡ ok (frame 0)
      ∷ err (other (codes "Failure response from service server: no"))
      ∷ ok (frame 2)
      ∷ []
unfolding replies
replies_run = refl

calls_answered_example :
    ((out : Outgoing) × (handle_tcp_connection count to_vec responding there (at_work [] 7) 0
        ≡ ok (out, state_after count 0 requests))
      × (out.written ≡ content back))
    × (open_stream : TcpStream) × (establish_connection conn (client_end back [] 4)
        ≡ ok open_stream)
    × ((actor_context from_slice requests open_stream).0 ≡ replies count 0 requests)
unfolding to_bytes responses
calls_answered_example =
    calls_answered count to_vec from_slice conn responding requests 0 there back 4 7 refl
      conn-IsSendable responding-IsSendable (omega arith) (omega arith)
      (
        frame-IsFrame 7,
        (record { body = 1 ∷ 2 ∷ []; short = omega arith; framed = refl }, (frame-IsFrame 8, tt)),
      )
      count-IsSendable (omega arith) (omega arith) (refl, (λ e. cc, tt)) (refl, (λ e. cc, tt))

success_byte-invalid_example :
    (rest : Stream) × ((actor_context from_slice
        (frame 7 ∷ (frame 8 ∷ []))
        (client_end ((5 ∷ 1 ∷ frame 1) ∷ []) [] 2)).0
      ≡ err (io invalid_data)
        ∷ (ok (frame 1)
            ∷ (actor_context from_slice [] (client_end rest (([] ++ frame 7) ++ frame 8) 0)).0))
    × Holds rest []
success_byte-invalid_example =
    success_byte-invalid from_slice (frame 7) (frame 8) [] (frame 1) [] [] 0 3
      ((5 ∷ 1 ∷ frame 1) ∷ []) (frame-IsFrame 1) (refl, (λ e. cc, tt))

handle_tcp_connection-ends_example :
    handle_tcp_connection count to_vec responding there (at_work [] 7) 0 ≢ diverge
handle_tcp_connection-ends_example =
    handle_tcp_connection-ends count to_vec responding there (at_work [] 7) 0

-- The typed end of the same service: its requests and answers are numbers.
abbrev encode_number : ℕ → Option (List ℕ)
encode_number n = some (frame n)

abbrev decode_number : List ℕ → Option ℕ
decode_number (a ∷ b ∷ c ∷ d ∷ n ∷ []) = some n
decode_number _ = none

abbrev add : ℕ → ℕ → Response ℕ × ℕ
add s request = (if request == 9 then failure message else success (s + request), suc s)

abbrev typed : ℕ → List ℕ → Response (List ℕ) × ℕ
typed = server_typeless encode_number decode_number encode_number decode_number add message

typed-IsSendable : (s : ℕ) (request : List ℕ) → IsSendable to_vec from_slice (typed s request).0
unfolding server_typeless
typed-IsSendable s request = elim (Option-cases (decode_number request)) [
  | inl unread ↦ rw (unread, server_typeless) refusal
  | inr (n, read) ↦ elim (Bool-cases (n == 9)) [
    | inl nine ↦ rw (read, server_typeless) (rw nine refusal)
    | inr other_number ↦ rw (read, server_typeless) (rw other_number (frame-IsFrame (s + n)))
  ]
]
  where
    refusal : IsFrame (to_vec message) × (from_slice (to_vec message) ≡ some message)
    refusal = (record { body = message; short = omega arith; framed = refl }, refl)

abbrev numbers : List (List ℕ)
numbers = frame 3 ∷ frame 9 ∷ []

abbrev numbers_there : Stream
numbers_there = (to_bytes conn true ++ concat numbers) ∷ []

abbrev numbers_back : Stream
numbers_back = (to_bytes responding false ++ responses typed to_vec 0 numbers) ∷ []

typed_calls_example :
    ((out : Outgoing) × (handle_tcp_connection typed to_vec responding numbers_there
          (at_work [] 7)
          0
        ≡ ok (out, state_after typed 0 numbers))
      × (out.written ≡ content numbers_back))
    × (open_stream : TcpStream) × (establish_connection conn (client_end numbers_back [] 4)
        ≡ ok open_stream)
    × (map
          (call_result encode_number decode_number encode_number decode_number)
          (actor_context from_slice numbers open_stream).0
        ≡ typed_replies encode_number decode_number encode_number decode_number message add 0
            (3 ∷ 9 ∷ []))
unfolding to_bytes responses server_typeless
typed_calls_example =
    typed_calls encode_number decode_number encode_number decode_number add message
      (λ request bytes e. cc) (λ answer bytes e. cc) to_vec from_slice conn responding (3 ∷ 9 ∷ [])
      numbers 0 numbers_there numbers_back 4 7 (refl, (refl, tt)) refl conn-IsSendable
      responding-IsSendable (omega arith) (omega arith) (frame-IsFrame 3, (frame-IsFrame 9, tt))
      typed-IsSendable (omega arith) (omega arith) (refl, (λ e. cc, tt)) (refl, (λ e. cc, tt))
