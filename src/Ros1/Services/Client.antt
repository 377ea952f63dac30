-- ===== src/Ros1/Services/Client.antt =====
-- `ServiceClientLink` of roslibrust_ros1/src/service_client.rs, and `establish_connection` of
-- roslibrust_ros1/src/tcpros.rs behind the opening of its socket.
use roslibrust.Base.{
  ℕ, zero, suc, true, false, Option, none, some, List, [], ◌∷◌, ◌++◌, Text, codes, Result, ok, err,
  panic, diverge,
}
use roslibrust.Tcpros.Header.{ConnectionHeader, IoError, invalid_data, to_bytes}
use roslibrust.Tcpros.Stream.{Stream, read_until, receive_header, receive_body}
use roslibrust.Ros1.Services.{Outgoing, write_all}

-- The `std::io::Error`s of a call.
pub data CallError : Type 0 where
  closed : CallError
  io : IoError → CallError
  other : Text → CallError

-- The client's end of the connection.
pub record TcpStream : Type 0 where
  pub incoming : Stream
  pub outgoing : Outgoing

abbrev pub client_header : Text → Text → Text → Text → Text → ConnectionHeader
client_header node_name service_name service_type srv_definition sum = record {
  caller_id = node_name;
  latching = false;
  msg_definition = srv_definition;
  md5sum = some sum;
  service = some service_name;
  topic = none;
  topic_type = service_type;
  tcp_nodelay = false;
  persistent = some true;
}

-- Every failure to read the server's header is reported as invalid data.
unfoldable pub establish_connection : ConnectionHeader → TcpStream → Result CallError TcpStream
establish_connection conn_header stream =
    elim (write_all (to_bytes conn_header true) stream.outgoing) [
      | none ↦ err closed
      | some outgoing ↦ elim (receive_header stream.incoming) [
        | ok (responded_header, rest) ↦ ok (record { incoming = rest; outgoing = outgoing })
        | err e ↦ err (io invalid_data)
        | panic ↦ panic
        | diverge ↦ diverge
      ]
    ]

-- A body behind the success byte, and what stays to be read. A read that fails has met the end of
-- the stream.
unfoldable pub read_body : Stream → Result CallError (List ℕ) × Stream
read_body stream = elim (receive_body stream) [
  | ok (body, rest) ↦ (ok body, rest)
  | err e ↦ (err (io e), [])
  | panic ↦ (panic, [])
  | diverge ↦ (diverge, [])
]

-- `from_slice` is the deserializer of rosmsg for strings.
module _ (from_slice : List ℕ → Option Text) where
  unfoldable pub error_of : List ℕ → CallError
  error_of error_body = elim (from_slice error_body) [
    | none ↦ io invalid_data
    | some err_msg ↦ other (codes "Failure response from service server: " ++ err_msg)
  ]

  -- The body of a failure is the server's message.
  unfoldable pub refuse : Result CallError (List ℕ) × Stream → Result CallError (List ℕ) × Stream
  refuse (ok error_body, rest) = (err (error_of error_body), rest)
  refuse (err e, rest) = (err e, rest)
  refuse (panic, rest) = (panic, rest)
  refuse (diverge, rest) = (diverge, rest)

  -- What follows the success byte.
  unfoldable pub read_response : List ℕ → Stream → Result CallError (List ℕ) × Stream
  read_response (suc zero ∷ _) stream = read_body stream
  read_response (zero ∷ _) stream = refuse (read_body stream)
  read_response _ stream = (err (io invalid_data), stream)

  unfoldable pub handle_service_call_fallible :
      List ℕ → TcpStream → Result CallError (List ℕ) × TcpStream
  handle_service_call_fallible request stream = elim (write_all request stream.outgoing) [
    | none ↦ (err closed, stream)
    | some outgoing ↦ elim (read_until 1 stream.incoming []) [
      | ok (success_byte, rest) ↦
          let (answer, left) = read_response success_byte rest in
          (answer, record { incoming = left; outgoing = outgoing })
      | err e ↦ (err (io e), record { incoming = []; outgoing = outgoing })
      | panic ↦ (panic, record { incoming = []; outgoing = outgoing })
      | diverge ↦ (diverge, record { incoming = []; outgoing = outgoing })
    ]
  ]

  -- The loop of `actor_context` over the calls that arrive, each with its answer.
  unfoldable pub actor_context :
      List (List ℕ) → TcpStream → List (Result CallError (List ℕ)) × TcpStream
  actor_context [] stream = ([], stream)
  actor_context (request ∷ requests) stream =
      let (answer, stream1) = handle_service_call_fallible request stream in
      let (answers, stream2) = actor_context requests stream1 in (answer ∷ answers, stream2)
