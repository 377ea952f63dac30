-- ===== src/Ros1/Handshake/Tests.antt =====
-- The theorems on the handshake at concrete inputs.
use roslibrust.Base.{◌≡◌, refl, true, false, some, [], ◌∷◌, ◌++◌, Text, codes, ok, arith}
use roslibrust.Tcpros.Bytes.{is_utf8}
use roslibrust.Tcpros.Header.{ConnectionHeader, empty_header, to_bytes}
use roslibrust.Tcpros.Header.Reread.{IsSendable}
use roslibrust.Tcpros.Stream.{Stream}
use roslibrust.Tcpros.Stream.Framing.{Holds}
use roslibrust.Ros1.Handshake.{publisher_answer, connect_and_handshake}
use roslibrust.Ros1.Handshake.Agreement.{handshake_succeeds}

abbrev sum : Text
sum = codes "992ce8a1687cec8c8bd883ec73ca41d1"

abbrev listener : ConnectionHeader
listener = record empty_header { caller_id = codes "/listener"; md5sum = some sum }

abbrev talker : ConnectionHeader
talker = record empty_header { caller_id = codes "/talker"; md5sum = some sum }

abbrev wildcard : ConnectionHeader
wildcard = record empty_header { md5sum = some (codes "*") }

listener-IsSendable : IsSendable listener
unfolding is_utf8
listener-IsSendable = record {
  caller_id = (omega arith, refl);
  msg_definition = (omega arith, refl);
  md5sum = (omega arith, refl);
  service = tt;
  topic = tt;
  topic_type = (omega arith, refl);
}

talker-IsSendable : IsSendable talker
unfolding is_utf8
talker-IsSendable = record {
  caller_id = (omega arith, refl);
  msg_definition = (omega arith, refl);
  md5sum = (omega arith, refl);
  service = tt;
  topic = tt;
  topic_type = (omega arith, refl);
}

abbrev there : Stream
there = (to_bytes listener true ++ []) ∷ []

abbrev back : Stream
back = (to_bytes talker false ++ (1 ∷ [])) ∷ []

handshake_succeeds_example :
    (publisher_answer there talker ≡ ok (some (to_bytes talker false)))
    × (rest : Stream) × (connect_and_handshake back listener ≡ ok rest)
    × Holds rest (1 ∷ [])
unfolding to_bytes
handshake_succeeds_example =
    handshake_succeeds listener talker sum there back (1 ∷ []) refl refl listener-IsSendable
      talker-IsSendable (omega arith) (omega arith) (refl, (λ e. cc, tt)) (refl, (λ e. cc, tt))
