-- ===== src/Ros1/Publishing/Delivery.antt =====
-- What each connection of a publication has been sent.
use roslibrust.Base.{
  ℕ, zero, suc, ◌≤◌, ◌≡◌, refl, ap, sym, ◌∙◌, Bool, true, false, Option, none, some, List, [], ◌∷◌,
  ◌++◌, append-nil, append_assoc, length, length-append, length-take, take, take-append_less, drop,
  drop-append_less, drop-cons, if◌then◌else◌, arith, ◌⊎◌, inl, inr,
}
use roslibrust.Tcpros.Header.{ConnectionHeader, to_bytes}
use roslibrust.Ros1.Services.{write_all}
use roslibrust.Ros1.Services.Contract.{concat}
use roslibrust.Ros1.Publishing.{PublishTask, task_receives}

abbrev pub latest {ℓ} : {A : Type ℓ} → Option A → List A → Option A
latest found [] = found
latest found (x ∷ xs) = latest (some x) xs

pub latest-append :
    {A : Type 0} (xs : List A) (x : A) (found : Option A) → latest found (xs ++ (x ∷ [])) ≡ some x
latest-append [] x found = refl
latest-append (y ∷ ys) x found = latest-append ys x (some y)

-- What a publication keeps for late subscribers of the messages that it has read.
abbrev pub latch : ConnectionHeader → List (List ℕ) → Option (List ℕ)
latch header messages = if header.latching then latest none messages else none

abbrev pub latched_bytes : Option (List ℕ) → List ℕ
latched_bytes none = []
latched_bytes (some bytes) = bytes

-- A connection behind which `saved` messages had been read by the accept task, and `start` had been
-- sent: it was sent the header, the latched message and all that was sent since, up to its own
-- position.
pub record Delivers (header : ConnectionHeader) (sent : List (List ℕ)) (t : PublishTask)
    : Type 0 where
  pub saved : ℕ
  pub start : ℕ
  pub before : saved ≤ start
  pub behind : start ≤ t.rx
  pub known : t.rx ≤ length sent
  pub written :
      t.stream.written
      ≡ to_bytes header false
        ++ (latched_bytes (latch header (take saved sent)) ++ concat (drop start (take t.rx sent)))

-- A connection that has taken the header and nothing more.
pub record IsCut (header : ConnectionHeader) (t : PublishTask) : Type 0 where
  pub full : t.stream.room ≡ 0
  pub written : t.stream.written ≡ to_bytes header false

abbrev pub Tracks : ConnectionHeader → List (List ℕ) → PublishTask → Type 0
Tracks header sent t = Delivers header sent t ⊎ IsCut header t

abbrev pub Delivers-sent :
    (header : ConnectionHeader) (sent : List (List ℕ)) (m : List ℕ) (t : PublishTask)
    → Delivers header sent t
    → Delivers header (sent ++ (m ∷ [])) t
Delivers-sent header sent m t d = record {
  saved = d.saved;
  start = d.start;
  before = d.before;
  behind = d.behind;
  known = omega (arith, d.known, length-append sent (m ∷ []));
  written =
      let known = d.known in
      let behind = d.behind in
      let before = d.before in
      rw
        (
          take-append_less d.saved sent (m ∷ []) (omega arith),
          take-append_less t.rx sent (m ∷ []) known,
        )
        d.written;
}

pub Tracks-sent :
    (header : ConnectionHeader) (sent : List (List ℕ)) (m : List ℕ) (t : PublishTask)
    → Tracks header sent t
    → Tracks header (sent ++ (m ∷ [])) t
Tracks-sent header sent m t (inl d) = inl (Delivers-sent header sent m t d)
Tracks-sent header sent m t (inr cut) = inr cut

abbrev concat-append : (xs : List (List ℕ)) (m : List ℕ) → concat (xs ++ (m ∷ [])) ≡ concat xs ++ m
concat-append [] m = append-nil m
concat-append (x ∷ xs) m =
    ap (λ l. x ++ l) (concat-append xs m) ∙ sym (append_assoc x (concat xs) m)

abbrev pub Delivers-receive :
    (header : ConnectionHeader) (sent : List (List ℕ)) (m : List ℕ) (rest : List (List ℕ))
    (w : List ℕ) (room rx r : ℕ)
    → drop rx sent ≡ m ∷ rest
    → Delivers header sent
        (record { rx = rx; stream = record { written = w; room = r }; running = true })
    → Delivers header sent
        (record { rx = suc rx; stream = record { written = w ++ m; room = room }; running = true })
Delivers-receive header sent m rest w room rx r next d =
    let (taken, long) = drop-cons rx sent next in
    let known = d.known in
    let behind = d.behind in
    record {
      saved = d.saved;
      start = d.start;
      before = d.before;
      behind = omega arith;
      known = long;
      written =
          rw
            (
              taken,
              drop-append_less d.start (take rx sent) (m ∷ []) (omega (arith, length-take rx sent)),
              concat-append (drop d.start (take rx sent)) m,
              d.written,
            )
            (append_assoc (to_bytes header false)
                (latched_bytes (latch header (take d.saved sent))
                  ++ concat (drop d.start (take rx sent)))
                m
              ∙ ap (λ l. to_bytes header false ++ l)
                  (append_assoc (latched_bytes (latch header (take d.saved sent)))
                    (concat (drop d.start (take rx sent))) m));
    }

-- A task by its parts.
abbrev pub task : ℕ → List ℕ → ℕ → Bool → PublishTask
task rx w room running = record {
  rx = rx;
  stream = record { written = w; room = room };
  running = running;
}

Tracks-stopped :
    (header : ConnectionHeader) (sent : List (List ℕ)) (rx : ℕ) (w : List ℕ) (room : ℕ) (b c : Bool)
    → Tracks header sent (task rx w room b)
    → Tracks header sent (task rx w room c)
Tracks-stopped header sent rx w room b c (inl d) = inl (record {
  saved = d.saved;
  start = d.start;
  before = d.before;
  behind = d.behind;
  known = d.known;
  written = d.written;
})
Tracks-stopped header sent rx w room b c (inr cut) =
    inr (record { full = cut.full; written = cut.written })

pub Tracks-task_receives :
    (header : ConnectionHeader) (closed : Bool) (sent : List (List ℕ)) (rx : ℕ) (w : List ℕ)
    (room : ℕ) (running : Bool)
    → Tracks header sent (task rx w room running)
    → Tracks header sent (task_receives closed sent (task rx w room running))
unfolding task_receives write_all
Tracks-task_receives header closed sent rx w room false tracks = tracks
Tracks-task_receives header closed sent rx w room true tracks = go room (drop rx sent) refl tracks
  where
    ends :
        (c : Bool) (room : ℕ)
        → Tracks header sent (task rx w room true)
        → Tracks header sent
            (if c then record (task rx w room true) { running = false } else task rx w room true)
    ends true room t = Tracks-stopped header sent rx w room true false t
    ends false room t = t

    go :
        (room : ℕ) (pending : List (List ℕ))
        → drop rx sent ≡ pending
        → Tracks header sent (task rx w room true)
        → Tracks header sent (task_receives closed sent (task rx w room true))
    go room [] e t = rw (e, task_receives) (ends closed room t)
    go zero (m ∷ rest) e t = rw (e, task_receives) (Tracks-stopped header sent rx w 0 true false t)
    go (suc room) (m ∷ rest) e (inl d) =
        rw (e, task_receives) (inl (Delivers-receive header sent m rest w room rx (suc room) e d))
    go (suc room) (m ∷ rest) e (inr cut) = absurd (omega (arith, cut.full))
