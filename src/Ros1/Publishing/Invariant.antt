-- ===== src/Ros1/Publishing/Invariant.antt =====
-- The invariant of a publication, and the sends and receives that keep it.
use roslibrust.Base.{
  if◌then◌else◌, Bool, true, false, All-weaken, ℕ, zero, suc, ◌≤◌, ◌≡◌, refl, sym, Bool-cases, none,
  List, [], ◌∷◌, length, length-append, take, take-append_less, drop, drop-cons, All, arith, inl,
  inr,
}
use roslibrust.Tcpros.Header.{ConnectionHeader}
use roslibrust.Ros1.Publishing.{
  PublishTask, Publication, has_connected_clients, publish_bytes, accept_receives, update_at, Event,
  task_lagged,
}
use roslibrust.Ros1.Publishing.Delivery.{latest-append, latch, Tracks, Tracks-sent}

-- The message kept is the latest of the first ones sent, as many as the accept task has read.
pub record Saves (p : Publication) : Type 0 where
  pub read : ℕ
  pub behind : read ≤ p.rx
  pub kept : p.last_message ≡ latch p.responding_conn_header (take read p.sent)

pub record Invariant (header : ConnectionHeader) (p : Publication) : Type 0 where
  pub same : p.responding_conn_header ≡ header
  pub known : p.rx ≤ length p.sent
  pub saves : Saves p
  pub tracks : All (Tracks header p.sent) p.tasks

-- No connection misses messages for being slow.
abbrev pub IsPunctual : Event → Type 0
IsPunctual (task_lagged i num) = ⊥
IsPunctual _ = Unit {0}

pub All-update_at :
    {P : PublishTask → Type 0} (i : ℕ) (f : PublishTask → PublishTask) (ts : List PublishTask)
    → ((t : PublishTask) → P t → P (f t))
    → All P ts
    → All P (update_at i f ts)
All-update_at i f [] h all = tt
All-update_at zero f (t ∷ ts) h (p, all) = (h t p, all)
All-update_at (suc i) f (t ∷ ts) h (p, all) = (p, All-update_at i f ts h all)

pub drop-take : (xs : List (List ℕ)) → drop (length xs) (take (length xs) xs) ≡ []
drop-take [] = refl
drop-take (x ∷ xs) = drop-take xs

pub publish_bytes-Invariant :
    (header : ConnectionHeader) (bytes : List ℕ) (p : Publication)
    → Invariant header p
    → Invariant header (publish_bytes bytes p)
unfolding publish_bytes
publish_bytes-Invariant header bytes p inv = elim (Bool-cases (has_connected_clients p)) [
  | inl some_one ↦ rw some_one (record {
    same = inv.same;
    known = omega (arith, inv.known, length-append p.sent (bytes ∷ []));
    saves = record {
      read = inv.saves.read;
      behind = inv.saves.behind;
      kept =
          rw
            (take-append_less inv.saves.read p.sent (bytes ∷ [])
              (omega (arith, inv.saves.behind, inv.known)))
            inv.saves.kept;
    };
    tracks = All-weaken _ _ p.tasks (Tracks-sent header p.sent bytes) inv.tracks;
  })
  | inr nobody ↦ rw nobody inv
]

pub stops-Invariant :
    (header : ConnectionHeader) (p : Publication)
    → Invariant header p
    → Invariant header (record p { accepting = false })
stops-Invariant header p inv = record {
  same = inv.same;
  known = inv.known;
  saves = record { read = inv.saves.read; behind = inv.saves.behind; kept = inv.saves.kept };
  tracks = inv.tracks;
}

pub accept_receives-Invariant :
    (header : ConnectionHeader) (p : Publication)
    → Invariant header p
    → Invariant header (accept_receives p)
unfolding accept_receives
accept_receives-Invariant header p inv = go (drop p.rx p.sent) refl
  where
    ends : (c : Bool) → Invariant header (if c then record p { accepting = false } else p)
    ends true = stops-Invariant header p inv
    ends false = inv

    go :
        (pending : List (List ℕ))
        → drop p.rx p.sent ≡ pending
        → Invariant header (accept_receives p)
    go [] e = rw (e, accept_receives) (ends p.closed)
    go (m ∷ rest) e =
        rw (e, accept_receives)
          (record {
            same = inv.same;
            known = (drop-cons p.rx p.sent e).1;
            saves = record {
              read = suc p.rx;
              behind = omega arith;
              kept = elim (Bool-cases p.responding_conn_header.latching) [
                | inl latching ↦ rw latching (
                    rw ((drop-cons p.rx p.sent e).0)
                      (sym (latest-append (take p.rx p.sent) m none)))
                | inr off ↦ rw off (rw off at inv.saves.kept)
              ];
            };
            tracks = inv.tracks;
          })
