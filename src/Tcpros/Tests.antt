-- ===== src/Tcpros/Tests.antt =====
-- Runs of the header codec and the receivers, and the theorems at concrete inputs.
use roslibrust.Base.{◌≡◌, refl, true, none, some, [], ◌∷◌, ◌++◌, codes, ok, err, arith}
use roslibrust.Tcpros.Bytes.{is_utf8}
use roslibrust.Tcpros.Header.{
  ConnectionHeader, empty_header, unexpected_eof, invalid_data, apply_field, from_bytes,
  from_bytes_loop, to_bytes,
}
use roslibrust.Tcpros.Header.Reread.{reread, IsSendable}
use roslibrust.Tcpros.Stream.{Stream, receive_header}
use roslibrust.Tcpros.Stream.Framing.{Holds, receive_header-to_bytes}

-- The head of the example of the ROS documentation.
ros_example :
    from_bytes (
      0x20 ∷ 0 ∷ 0 ∷ 0 ∷ codes "message_definition=string data\n\n"
      ++ (0x0a ∷ 0 ∷ 0 ∷ 0 ∷ codes "latching=1"))
    ≡ ok (record empty_header { msg_definition = codes "string data\n\n"; latching = true })
unfolding from_bytes from_bytes_loop apply_field is_utf8
ros_example = refl

cut_short : from_bytes (9 ∷ 0 ∷ 0 ∷ 0 ∷ codes "type=") ≡ err unexpected_eof
unfolding from_bytes from_bytes_loop apply_field is_utf8
cut_short = refl

not_utf8 : from_bytes (2 ∷ 0 ∷ 0 ∷ 0 ∷ 0xc0 ∷ 0x80 ∷ []) ≡ err invalid_data
unfolding from_bytes from_bytes_loop apply_field is_utf8
not_utf8 = refl

abbrev talker : ConnectionHeader
talker = record {
  caller_id = codes "/talker";
  latching = true;
  msg_definition = codes "string data";
  md5sum = some (codes "*");
  service = none;
  topic = some (codes "/chatter");
  topic_type = codes "std_msgs/String";
  tcp_nodelay = true;
  persistent = none;
}

talker-IsSendable : IsSendable talker
unfolding is_utf8
talker-IsSendable = record {
  caller_id = (omega arith, refl);
  msg_definition = (omega arith, refl);
  md5sum = (omega arith, refl);
  service = tt;
  topic = (omega arith, refl);
  topic_type = (omega arith, refl);
}

abbrev pieces : Stream
pieces = (to_bytes talker true ++ (7 ∷ [])) ∷ []

receive_header-to_bytes_example :
    (rest : Stream) × (receive_header pieces ≡ ok (reread talker true, rest)) × Holds rest (7 ∷ [])
unfolding to_bytes
receive_header-to_bytes_example =
    receive_header-to_bytes pieces talker true (7 ∷ []) talker-IsSendable (omega arith)
      (refl, (λ e. cc, tt))
