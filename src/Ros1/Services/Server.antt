-- ===== src/Ros1/Services/Server.antt =====
-- `ServiceServerLink::handle_tcp_connection` of roslibrust_ros1/src/service_server.rs.
use roslibrust.Base.{
  ℕ, zero, suc, Bool, true, false, Option, none, some, List, [], ◌∷◌, length, Text, Result, ok, err,
  panic, diverge, ◌>>=◌,
}
use roslibrust.Tcpros.Header.{ConnectionHeader, IoError, to_bytes}
use roslibrust.Tcpros.Stream.{Stream, receive_header, receive_body}
use roslibrust.Tcpros.Stream.Framing.{content}
use roslibrust.Ros1.Services.{Outgoing, write_all}

-- How the task that runs the user's function ends: its value, its error as `{:?}` prints it, or a
-- panic.
pub data Response (A : Type 0) : Type 0 where
  success : A → Response A
  failure : Text → Response A
  crashed : Response A

abbrev pub response_header : Text → Text → Text → Text → Text → ConnectionHeader
response_header service_name node_name service_type sum srv_definition = record {
  caller_id = node_name;
  latching = false;
  msg_definition = srv_definition;
  md5sum = some sum;
  service = some service_name;
  topic = none;
  topic_type = service_type;
  tcp_nodelay = false;
  persistent = none;
}

-- `if let Some(true) = connection_header.persistent`
abbrev pub is_persistent : ConnectionHeader → Bool
is_persistent connection_header = elim connection_header.persistent [
  | none ↦ false
  | some persistent ↦ persistent
]

-- `stream.write_all(first).await.unwrap(); stream.write_all(second).await.unwrap();`
unfoldable pub write_both : List ℕ → List ℕ → Outgoing → Result IoError Outgoing
write_both first second out = elim (write_all first out) [
  | none ↦ panic
  | some out1 ↦ elim (write_all second out1) [ none ↦ panic | some out2 ↦ ok out2 ]
]

-- The function keeps a state `S` of its own from call to call; `to_vec` is the serializer of
-- rosmsg for strings.
module _ {S : Type 0} (method : S → List ℕ → Response (List ℕ) × S) (to_vec : Text → List ℕ) where
  -- The bytes of one response, or nothing where the connection ends.
  unfoldable pub write_response : Response (List ℕ) → Outgoing → Result IoError (Option Outgoing)
  write_response (success response) out = do out1 ← write_both (1 ∷ []) response out; ok (some out1)
  write_response (failure error_string) out = do
    out1 ← write_both (0 ∷ []) (to_vec error_string) out
    ok (some out1)
  write_response crashed out = ok none

  -- The loop over the bodies, with the state and what is written when it ends.
  unfoldable pub serve_bodies : ℕ → Bool → Stream → Outgoing → S → Result IoError (Outgoing × S)
  serve_bodies zero persistent stream out s = diverge
  serve_bodies (suc fuel) persistent stream out s = elim (receive_body stream) [
    | ok (full_body, rest) ↦ do
      written ← write_response (method s full_body).0 out
      elim written [
        | none ↦ ok (out, (method s full_body).1)
        | some out1 ↦ elim persistent [
          | true ↦ serve_bodies fuel true rest out1 (method s full_body).1
          | false ↦ ok (out1, (method s full_body).1)
        ]
      ]
    | err e ↦ ok (out, s)
    | panic ↦ panic
    | diverge ↦ diverge
  ]

  -- Each round takes four bytes at least, so that one more than the bytes of the stream is enough.
  unfoldable pub handle_tcp_connection :
      ConnectionHeader → Stream → Outgoing → S → Result IoError (Outgoing × S)
  handle_tcp_connection own_header stream out s = elim (receive_header stream) [
    | ok (connection_header, rest) ↦ elim (write_all (to_bytes own_header false) out) [
      | none ↦ ok (out, s)
      | some out1 ↦
          serve_bodies (suc (length (content rest))) (is_persistent connection_header) rest out1 s
    ]
    | err e ↦ ok (out, s)
    | panic ↦ panic
    | diverge ↦ diverge
  ]
