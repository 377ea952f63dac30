-- ===== src/Lib.antt =====
-- A verification library for roslibrust: the native ROS 1 node (roslibrust_ros1), the parser of
-- ROS interface files (roslibrust_codegen), the mock backend (roslibrust_mock), the rosbridge
-- client (roslibrust_rosbridge), the discovery of the zenoh backend (roslibrust_zenoh), and the
-- transforms between frames (roslibrust_transforms).
--
-- Parts of the program and how they interact. A ROS 1 node (roslibrust_ros1/src/node) keeps its
-- publications, subscriptions and services, makes them known to the ROS master by XML-RPC calls,
-- and takes them back when their last handle is dropped or the node shuts down. The master names
-- the publishers of a topic in `publisherUpdate`; the subscription keeps one reader task for each,
-- which connects over TCP, exchanges connection headers and then reads messages, each behind a
-- four-byte length. On the other side a publication accepts the connections and starts a task for
-- each, which writes what is sent on the publication's channel. Service calls go over the same
-- frames, with a byte in front of each response that tells whether the call succeeded. roslibrust_codegen reads .msg, .srv and .action files, from which Rust types
-- are made; it resolves the messages that the fields refer to, for their md5sums and definitions.
-- The mock backend (roslibrust_mock) stands in for a node in tests, behind the same traits; the
-- names of topics (roslibrust_common) are checked before any backend sees them. The rosbridge
-- client reaches a ROS system through a server, by JSON messages over a web socket that it makes
-- anew when it breaks. Zenoh nodes find each other by keys that tell of topics and services, and
-- that every node samples again each second. A manager of transforms fills a registry from the
-- messages of two topics, and wakes those who wait for a transform.
--
-- Files:
-- - Base (Base/Tests, Lists, Outcome, Texts, Maps, Decimals): Boolean tests, lists over native
--   numbers, the results of calls (a value, an error, a panic, or a loop that ran out of fuel),
--   strings as lists of numbers, maps as association lists, decimal numbers.
-- - Common/TopicName (roslibrust_common/src/topic_name.rs): `GlobalTopicName` and its checks;
--   Common/TopicName/Validity.
-- - Common/Md5sum (roslibrust_common/src/md5sum.rs): `from_message_definition`; Common/Md5sum/Cache.
-- - Tcpros (roslibrust_ros1/src/tcpros.rs): Tcpros/Header has `ConnectionHeader`, `from_bytes` and
--   `to_bytes`; Tcpros/Stream has `receive_header_bytes`, `receive_header` and
--   `receive_body_with_capacity_hint`. Tcpros/Header/Fields, RoundTrip and Reread and
--   Tcpros/Stream/Framing are the proofs.
-- - Ros1/Master: the calls that the node makes of the master, as a log, and what the accepted ones
--   leave registered; Ros1/Master/Client (roslibrust_ros1/src/master_client.rs) is `MasterClient`,
--   where the status code of an answer is the byte of the `i8`, and Ros1/Master/State its proofs.
-- - Ros1/Node (roslibrust_ros1/src/node/actor.rs): `Node` with `register_publisher`,
--   `register_subscriber`, `register_service_server`, their counterparts that unregister, the drop
--   of a handle, and `shutdown`. Ros1/Node/Tracking, History, Shutdown, Failures and Sharing are
--   the proofs.
-- - Ros1/Subscriber (roslibrust_ros1/src/subscriber.rs, and `publisherUpdate` of
--   roslibrust_ros1/src/node/xmlrpc.rs): the table of publisher connections and the tasks behind
--   it; Ros1/Subscriber/Reader has `publisher_reader_task` as a function of the events that it
--   waits for. Ros1/Subscriber/Updates and Backoff are the proofs.
-- - Ros1/Handshake (`connect_and_handshake` of subscriber.rs and the accept loop of
--   roslibrust_ros1/src/publisher.rs): both ends of a new connection; Ros1/Handshake/Agreement.
-- - Ros1/Publishing (roslibrust_ros1/src/publisher.rs): `publish`, `tcp_accept_task` and
--   `publish_task` as steps on the state of a publication. Ros1/Publishing/Delivery, Invariant,
--   Connections, Histories, Following, Arrival and Frames are the proofs; Arrival has the subscriber's loop
--   over the messages.
-- - Ros1/Services: Ros1/Services/Server (`handle_tcp_connection` of service_server.rs) and
--   Ros1/Services/Client (service_client.rs, and `establish_connection` of tcpros.rs), on one
--   connection; Ros1/Services/Typed has the typed ends of a call. Ros1/Services/Contract states
--   what a sequence of calls should give; Serving, Calling and Ending are the proofs.
-- - Codegen/Types (roslibrust_codegen/src/lib.rs, utils.rs, parse): the data. Codegen/Strs: the
--   methods of `str` that the parser calls. Codegen/Parse, Codegen/Parse/Fields and
--   Codegen/Parse/Files (parse/mod.rs, msg.rs and srv.rs): the parser. Codegen/Lacks and
--   Codegen/Parse/Display, Trimming, RoundTrip, FieldLines, WholeFiles, Panics and Comments are
--   the proofs, Display with the `Display` of a field type.
-- - Ros1/Names (roslibrust_ros1/src/names.rs): `Name` and `resolve_to_global`; Ros1/Names/Resolution.
-- - Codegen/Parse/Actions (parse/action.rs), with Codegen/Parse/ActionParts.
-- - Codegen/IntegralTypes (roslibrust_codegen/src/integral_types.rs): times and durations and their
--   conversions with std::time; Codegen/IntegralTypes/Conversions.
-- - Codegen/TypeIds, Codegen/MessageGraph and Codegen/Ros2Hashing
--   (roslibrust_codegen/src/ros2_hashing.rs): the descriptions of messages and services that are
--   hashed for ROS 2, where a path counts by the name of its folder; Codegen/TypeIds/Totality.
-- - Codegen/Messages (`MessageFile` of roslibrust_codegen/src/lib.rs): md5sums, full definitions and
--   fixed lengths; Codegen/Messages/Depth, Described and Results. Codegen/Resolve
--   (`resolve_dependency_graph` and `ServiceFile`); Codegen/Resolve/Growth, Rounds, Turns, Outcome,
--   Completeness, Shipped and WholeGraph. Codegen/Builtin (ros2_builtin_interfaces.rs): the messages
--   that the crate ships.
-- - Mock (roslibrust_mock/src/lib.rs): `MockRos` with its topics and services; Mock/Sharing.
-- - Rosbridge/Ops and Rosbridge/Comm (roslibrust_rosbridge/src/comm.rs): the operations, their
--   names and the messages of `RosBridgeComm`, in the JSON values of Rosbridge/Json;
--   Rosbridge/Ops/Naming.
-- - Rosbridge/Client (roslibrust_rosbridge/src/client.rs): `ClientHandle` and `Client` with their
--   tables, `reconnect` and `stubborn_spin`; Rosbridge/Client/Dispatch has `spin_once`,
--   `handle_message` and its branches. Rosbridge/Client/Table, Reads, Reconnect, Histories, Retry,
--   Calls and Delivery are the proofs: Table reads off the messages that a connection took what
--   its server keeps. Rosbridge/Queue: the queue of a subscriber, over a bounded queue as an
--   interface; Rosbridge/Queue/Latest.
-- - Zenoh (roslibrust_zenoh/src/lib.rs): `mangle_topic`, `make_discovery_key` and
--   `parse_discovery_key`; Zenoh/Monitor has `spawn_discovery_monitor` as a step function, and
--   Zenoh/Listing `list_topics` and `list_services`. Zenoh/Keys, Names, Monitor/Expiry,
--   Listing/Told and Discovery are the proofs.
-- - Transforms (roslibrust_transforms/src/lib.rs): timestamps and `TransformStamped` messages of
--   ROS 1; Transforms/Stamps. Transforms/Waiting has `wait_for_transform` as a step function beside
--   the tasks that add transforms; Transforms/Waiting/Wakeups.
-- - Ros1/Node/XmlRpc (roslibrust_ros1/src/node/xmlrpc.rs): `respond_inner`, what the node answers
--   to the calls of other nodes, behind HTTP, XML and the parsing of the arguments;
--   Ros1/Node/XmlRpc/Topics.
-- - Tests below each part: runs at concrete inputs and instances of the theorems.
--
-- Conventions. Strings are lists of code points or, in Tcpros, of bytes; an index of a `str` is an
-- index of that list. A map is an association list, where a key has its latest value. What the
-- operating system and the master answer is an argument of the operation that asks. An operation
-- of the node runs under the node's lock, so that a history is a list of operations; tasks that
-- run beside it are events. An operation of the rosbridge client is one step too, so that two of
-- them which run at once stand one behind the other; a connection is the number of messages that
-- it takes before it breaks. The streams of a TCP connection are the pieces that its reads give,
-- and the number of writes that the peer still takes, each whole or not at all; a broadcast channel
-- is the list of what was sent on it, where each receiver has its place. The text of an error is left out, its place kept.
--
-- Bounds and fuel. Lengths in headers and frames are taken modulo 2^32, and a `usize` is read
-- modulo nothing but refused from 2^64. `from_bytes` runs on fuel, as many steps as the bytes it
-- is given; each field takes at least four, so that it never runs out. The decimal printer runs on
-- one step more than the number, which has fewer digits. `lines`, `split` and the loops over lists
-- and streams are structural. The loop of `resolve_dependency_graph` runs on 2050 steps for each
-- message, as often as it is seen at most; what is computed of a message follows its fields on one
-- step more than the graph has messages, which a graph without a circle never uses up, and so does
-- the md5sum of an expanded definition. The loop of a service connection runs on one step more than
-- the bytes that the client sends, of which each round takes four.
--
-- Not modelled: sockets, HTTP and XML, tokio's channels beyond their counts, the search of the
-- file system, the tokens of generated code, SHA-256, MD5, the JSON of the ROS 2 type hashes, and
-- what is built on third-party crates throughout: the sessions of zenoh, the ROS 2 and MCAP backends,
-- roslibrust_genmsg.
pub mod Base
pub mod Codegen
pub mod Common
pub mod Mock
pub mod Ros1
pub mod Rosbridge
pub mod Tcpros
pub mod Transforms
pub mod Zenoh
