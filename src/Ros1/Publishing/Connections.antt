-- ===== src/Ros1/Publishing/Connections.antt =====
-- A new connection of a publication, and what it is sent at once.
use roslibrust.Base.{
  All-snoc, ℕ, zero, suc, ◌≡◌, refl, ap, sym, ◌∙◌, true, false, Bool-cases, Option, none, some,
  List, ◌++◌, append-nil, length, take, if◌then◌else◌, arith, inl, inr, ok, err, panic, diverge,
  Result, ◌>>=◌,
}
use roslibrust.Tcpros.Header.{ConnectionHeader, IoError, to_bytes}
use roslibrust.Tcpros.Stream.{Stream, receive_header}
use roslibrust.Ros1.Services.{Outgoing, write_all}
use roslibrust.Ros1.Services.Contract.{concat}
use roslibrust.Ros1.Handshake.{publisher_answer, publisher_accepts}
use roslibrust.Ros1.Publishing.{Publication, write_latched, spawn_task, accept_connection}
use roslibrust.Ros1.Publishing.Delivery.{latch, latched_bytes, Delivers, Tracks}
use roslibrust.Ros1.Publishing.Invariant.{stops-Invariant, Invariant, drop-take}

module _ (header : ConnectionHeader) (p : Publication) (inv : Invariant header p) where
  pub latch-kept : p.last_message ≡ latch header (take inv.saves.read p.sent)
  latch-kept = inv.saves.kept ∙ ap (λ h. latch h (take inv.saves.read p.sent)) inv.same

  -- A connection that has taken the header and the latched message.
  abbrev pub delivered :
      (out : Outgoing)
      → out.written ≡ to_bytes header false ++ latched_bytes p.last_message
      → Delivers header p.sent (record { rx = length p.sent; stream = out; running = true })
  delivered out e = record {
    saved = inv.saves.read;
    start = length p.sent;
    before = omega (arith, inv.saves.behind, inv.known);
    behind = omega arith;
    known = omega arith;
    written =
        e
        ∙ ap (λ l. to_bytes header false ++ l)
            (ap latched_bytes latch-kept
              ∙ sym (
                  ap (λ l. latched_bytes (latch header (take inv.saves.read p.sent)) ++ concat l)
                    (drop-take p.sent)
                  ∙ append-nil _));
  }

-- The latched message is written first, unless the socket is full.
write_latched-Tracks :
    (header : ConnectionHeader) (p : Publication) (room : ℕ)
    → Invariant header p
    → Tracks header p.sent (record {
      rx = length p.sent;
      stream =
          write_latched p.last_message (record { written = to_bytes header false; room = room });
      running = true;
    })
unfolding write_latched write_all
write_latched-Tracks header p room inv = go room p.last_message refl
  where
    go :
        (room : ℕ) (last : Option (List ℕ))
        → p.last_message ≡ last
        → Tracks header p.sent (record {
          rx = length p.sent;
          stream = write_latched last (record { written = to_bytes header false; room = room });
          running = true;
        })
    go room none e = inl (
        delivered header p inv _
          (sym (ap (λ l. to_bytes header false ++ latched_bytes l) e ∙ append-nil _)))
    go zero (some m) e = inr (record { full = refl; written = refl })
    go (suc room) (some m) e =
        inl (delivered header p inv _ (ap (λ l. to_bytes header false ++ latched_bytes l) (sym e)))

-- The publisher answers with its own header.
pub publisher_answer-header :
    (r : Result IoError (ConnectionHeader × Stream)) (header : ConnectionHeader) (bytes : List ℕ)
    → (r >>= λ x.
        if publisher_accepts x.0 header then ok (some (to_bytes header false)) else ok none)
      ≡ ok (some bytes)
    → bytes ≡ to_bytes header false
publisher_answer-header (ok (theirs, rest)) header bytes e =
    elim (Bool-cases (publisher_accepts theirs header)) [
      | inl accepted ↦ (let read = rw accepted at e in cc)
      | inr refused ↦ (let read = rw refused at e in cc)
    ]
publisher_answer-header (err _) header bytes e = cc
publisher_answer-header panic header bytes e = cc
publisher_answer-header diverge header bytes e = cc

pub accept_connection-Invariant :
    (header : ConnectionHeader) (stream : Stream) (room : ℕ) (p : Publication)
    → Invariant header p
    → Invariant header (accept_connection stream room p)
unfolding accept_connection spawn_task publisher_answer write_all
accept_connection-Invariant header stream room p inv =
    go room (publisher_answer stream p.responding_conn_header) refl
  where
    go :
        (room : ℕ) (answer : Result IoError (Option (List ℕ)))
        → publisher_answer stream p.responding_conn_header ≡ answer
        → Invariant header (accept_connection stream room p)
    go zero (ok (some bytes)) e = rw (e, accept_connection) (stops-Invariant header p inv)
    go (suc room) (ok (some bytes)) e =
        let own : bytes ≡ to_bytes header false =
          publisher_answer-header (receive_header stream) p.responding_conn_header bytes e
          ∙ ap (λ h. to_bytes h false) inv.same in
        rw (e, own, accept_connection)
          (record {
            same = inv.same;
            known = inv.known;
            saves = record {
              read = inv.saves.read;
              behind = inv.saves.behind;
              kept = inv.saves.kept;
            };
            tracks = All-snoc _ p.tasks _ inv.tracks (write_latched-Tracks header p room inv);
          })
    go room (ok none) e = rw (e, accept_connection) inv
    go room (err why) e = rw (e, accept_connection) inv
    go room panic e = rw (e, accept_connection) (stops-Invariant header p inv)
    go room diverge e = rw (e, accept_connection) inv
