-- ===== src/Ros1/Publishing/Frames.antt =====
-- What `Publisher::publish` sends, and how the accept task ends.
use roslibrust.Base.{
  ℕ, ◌+◌, ◌<◌, ◌≡◌, refl, ap, ◌∙◌, true, false, Option, some, List, [], ◌∷◌, ◌++◌, length,
  if◌then◌else◌, arith, ok,
}
use roslibrust.Tcpros.Bytes.{u32_mod, le32}
use roslibrust.Tcpros.Stream.{Stream}
use roslibrust.Ros1.Services.{write_all}
use roslibrust.Ros1.Services.Contract.{IsFrame}
use roslibrust.Ros1.Handshake.{publisher_answer}
use roslibrust.Ros1.Publishing.{
  Publication, has_connected_clients, publish_bytes, patch_size, publish, accept_connection,
  connection, step, run,
}

-- The size in front is the body's, up to the largest that the four bytes can tell.
patch_size_lem :
    (body : List ℕ) → 4 + length body < u32_mod → patch_size body ≡ ok (le32 (length body) ++ body)
unfolding patch_size
patch_size_lem body short = ground (arith)

-- While the accept task runs, a publisher believes that it has subscribers.
accepting-has_connected_clients :
    (p : Publication) → p.accepting ≡ true → has_connected_clients p ≡ true
unfolding has_connected_clients
accepting-has_connected_clients p on = rw on refl

-- A message is sent as one frame to a publication whose accept task runs.
pub publish_lem :
    {T : Type 0} (to_writer_skip_length : T → Option (List ℕ)) (data_value : T) (body : List ℕ)
    (p : Publication)
    → p.accepting ≡ true
    → to_writer_skip_length data_value ≡ some body
    → 4 + length body < u32_mod
    → (publish to_writer_skip_length data_value p
        ≡ ok (record p { sent = p.sent ++ ((le32 (length body) ++ body) ∷ []) }))
      × IsFrame (le32 (length body) ++ body)
unfolding publish publish_bytes
publish_lem to_writer data_value body p on written short =
    let connected = accepting-has_connected_clients p on in
    let bytes = le32 (length body) ++ body in
    let sends : publish_bytes bytes p ≡ record p { sent = p.sent ++ (bytes ∷ []) } =
      rw (connected, publish_bytes) refl in
    (
      rw (connected, written, patch_size_lem body short, publish) (ap ok sends),
      record { body = body; short = omega arith; framed = refl },
    )

-- A subscriber that is accepted and gone before the answer is written ends the accept task: the
-- publication takes no connection from then on.
accept_connection-gone :
    (gone stream : Stream) (room : ℕ) (bytes : List ℕ) (p : Publication)
    → p.accepting ≡ true
    → publisher_answer gone p.responding_conn_header ≡ ok (some bytes)
    → run (connection gone 0 ∷ connection stream room ∷ []) p ≡ record p { accepting = false }
unfolding run step accept_connection write_all
accept_connection-gone gone stream room bytes p on answered =
    let panics : accept_connection gone 0 p ≡ record p { accepting = false } =
      rw (answered, accept_connection) refl in
    ap (λ q. step (connection stream room) q)
      (ap (λ b. if b then accept_connection gone 0 p else p) on ∙ panics)
