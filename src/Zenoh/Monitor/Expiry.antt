-- ===== src/Zenoh/Monitor/Expiry.antt =====
-- What the monitor holds of one key.
use roslibrust.Base.{
  ℕ, ◌-◌, ◌≤◌, ◌≡◌, refl, ap, sym, subst, ◌∙◌, Bool, true, false, ◌&&◌, Bool-cases, Option,
  Option-cases, none, some, List, [], ◌∷◌, ◌++◌, Text, text_eq, text_eq_iff, text_eq_refl, Map, get,
  get-insert, get-remove, remove, keys, member, member-keys, ltb→ge, if◌then◌else◌, arith, inl, inr,
}
use roslibrust.Zenoh.{DiscoveryFact, parse_discovery_key}
use roslibrust.Zenoh.Monitor.{
  discovery_lost_after, DiscoveryMonitor, started, is_lost, lost, remove_all, Event, sample, tick,
  step, run,
}

-- A key's last sample, up to a tick that comes too late for it.
abbrev pub keep : ℕ → Option ℕ → Option ℕ
keep now none = none
keep now (some last_seen) = if is_lost now last_seen then none else some last_seen

abbrev expired : ℕ → Option ℕ → Bool
expired now none = false
expired now (some last_seen) = is_lost now last_seen

member-lost :
    (now : ℕ) (m : Map ℕ) (key : Text) (ks : List Text)
    → member key (lost now m ks) ≡ (member key ks && expired now (get key m))
unfolding lost
member-lost now m key [] = refl
member-lost now m key (k ∷ ks) = elim (Bool-cases (text_eq k key)) [
  | inl same ↦
      let here : get k m ≡ get key m = ap (λ j. get j m) ((text_eq_iff k key).0 same) in
      elim (Option-cases (get key m)) [
        | inl gone ↦
            rw (here ∙ gone, gone, same, lost) (ground (arith, member-lost now m key ks, gone))
        | inr (t, found) ↦
            rw (here ∙ found, found, same, lost) (ground (arith, member-lost now m key ks, found))
      ]
  | inr other ↦ elim (Option-cases (get k m)) [
    | inl gone ↦ rw (gone, other, lost) (member-lost now m key ks)
    | inr (t, found) ↦ rw (found, other, lost) (ground (arith, other, member-lost now m key ks))
  ]
]

get-remove_all {ℓ} :
    {V : Type ℓ} (ks : List Text) (m : Map V) (key : Text)
    → get key (remove_all ks m) ≡ (if member key ks then none else get key m)
unfolding remove_all
get-remove_all [] m key = refl
get-remove_all (k ∷ ks) m key =
    ground (arith, get-remove_all ks (remove k m) key, get-remove k key m)

if_same {ℓ} : {A : Type ℓ} (b : Bool) (a : A) → (if b then a else a) ≡ a
if_same true a = refl
if_same false a = refl

member-expired :
    (now : ℕ) (m : Map ℕ) (key : Text) → member key (lost now m (keys m)) ≡ expired now (get key m)
member-expired now m key = ground (arith, member-lost now m key (keys m), member-keys key m)

-- A tick keeps of each key what `keep` says.
tick-active_facts :
    (now : ℕ) (m : Map ℕ) (key : Text)
    → get key (remove_all (lost now m (keys m)) m) ≡ keep now (get key m)
tick-active_facts now m key =
    get-remove_all (lost now m (keys m)) m key ∙ ground (arith, member-expired now m key)

module _ (decode : Text → Option (List ℕ)) (key : Text) where
  -- When the key was last seen, by the events alone: its own samples, and the ticks that find it lost.
  unfoldable pub seen : List Event → Option ℕ → Option ℕ
  seen [] found = found
  seen (sample k now ∷ events) found = seen events (
      if text_eq k key
      then elim (parse_discovery_key decode k) [ none ↦ found | some fact ↦ some now ]
      else found)
  seen (tick now ∷ events) found = seen events (keep now found)

  -- What is held of a key that was seen.
  abbrev pub shown : Option ℕ → Option DiscoveryFact
  shown none = none
  shown (some last_seen) = parse_discovery_key decode key

  -- A monitor that holds of the key what `shown` says.
  abbrev pub Shows : DiscoveryMonitor → Option ℕ → Type 0
  Shows m found = (get key m.active_facts ≡ found) × (get key m.graph ≡ shown found)

  tick-shown :
      (now : ℕ) (found : Option ℕ)
      → (if expired now found then none else shown found) ≡ shown (keep now found)
  tick-shown now none = refl
  tick-shown now (some last_seen) = elim (Bool-cases (is_lost now last_seen)) [
    | inl gone ↦ rw gone refl
    | inr there ↦ rw there refl
  ]

  step-Shows :
      (event : Event) (m : DiscoveryMonitor) (found : Option ℕ)
      → Shows m found
      → Shows (step decode event m) (seen (event ∷ []) found)
  unfolding step seen
  step-Shows (sample k now) m found (a, g) = elim (Option-cases (parse_discovery_key decode k)) [
    | inl unread ↦
        rw (unread, step, seen)
          (
            a ∙ sym (if_same (text_eq k key) found),
            g ∙ ap shown (sym (if_same (text_eq k key) found)),
          )
    | inr (fact, read) ↦ elim (Bool-cases (text_eq k key)) [
      | inl same ↦
          let spelled : parse_discovery_key decode key ≡ some fact =
            subst (λ j. parse_discovery_key decode j ≡ some fact) ((text_eq_iff k key).0 same)
              read in
          rw (read, same, step, seen)
            (
              get-insert k key now m.active_facts ∙ rw same refl,
              get-insert k key fact m.graph ∙ rw same (sym spelled),
            )
      | inr other ↦
          rw (read, other, step, seen)
            (
              get-insert k key now m.active_facts ∙ rw other a,
              get-insert k key fact m.graph ∙ rw other g,
            )
    ]
  ]
  step-Shows (tick now) m found (a, g) = (
    tick-active_facts now m.active_facts key ∙ ap (keep now) a,
    get-remove_all (lost now m.active_facts (keys m.active_facts)) m.graph key
        ∙ ap (λ b. if b then none else get key m.graph)
            (member-expired now m.active_facts key ∙ ap (expired now) a)
        ∙ ap (λ o. if expired now found then none else o) g
        ∙ tick-shown now found,
  )

  seen-cons :
      (event : Event) (events : List Event) (found : Option ℕ)
      → seen (event ∷ events) found ≡ seen events (seen (event ∷ []) found)
  unfolding seen
  seen-cons (sample k now) events found = refl
  seen-cons (tick now) events found = refl

  run-Shows :
      (events : List Event) (m : DiscoveryMonitor) (found : Option ℕ)
      → Shows m found
      → Shows (run decode events m) (seen events found)
  unfolding run
  run-Shows [] m found shows = unfold seen in shows
  run-Shows (event ∷ events) m found shows = rw (seen-cons event events found) (
      run-Shows events (step decode event m) (seen (event ∷ []) found)
        (step-Shows event m found shows))

  -- The monitor holds a key just while its own events say so, and as the fact that it spells.
  pub run-seen :
      (events : List Event)
      → (get key (run decode events started).active_facts ≡ seen events none)
        × (get key (run decode events started).graph ≡ shown (seen events none))
  run-seen events = run-Shows events started none (unfold get in (refl, refl))

  pub seen-append :
      (events : List Event) (event : Event) (found : Option ℕ)
      → seen (events ++ (event ∷ [])) found ≡ seen (event ∷ []) (seen events found)
  unfolding seen
  seen-append [] event found = refl
  seen-append (sample k now ∷ events) event found = seen-append events event _
  seen-append (tick now ∷ events) event found = seen-append events event (keep now found)

  shown-keep :
      (now : ℕ) (found : Option ℕ) (fact : DiscoveryFact)
      → shown (keep now found) ≡ some fact
      → (t : ℕ) × (found ≡ some t)
        × (now - t ≤ discovery_lost_after)
        × (parse_discovery_key decode key ≡ some fact)
  shown-keep now none fact h = cc
  shown-keep now (some t) fact h = elim (Bool-cases (is_lost now t)) [
    | inl gone ↦ cc (rw gone at h)
    | inr there ↦ (t, refl, ltb→ge _ _ there, rw there at h)
  ]

  -- Behind a tick, each fact that is held has been seen within the last three seconds.
  pub run-fresh :
      (events : List Event) (now : ℕ) (fact : DiscoveryFact)
      → get key (run decode (events ++ (tick now ∷ [])) started).graph ≡ some fact
      → (t : ℕ) × (seen events none ≡ some t)
        × (now - t ≤ discovery_lost_after)
        × (parse_discovery_key decode key ≡ some fact)
  unfolding seen
  run-fresh events now fact held = shown-keep now (seen events none) fact (
      ap shown (sym (seen-append events (tick now) none))
      ∙ sym ((run-seen (events ++ (tick now ∷ []))).1)
      ∙ held)

  -- A key is held once it was sampled.
  pub sampled-shown :
      (now : ℕ) (found : Option ℕ) (fact : DiscoveryFact)
      → parse_discovery_key decode key ≡ some fact
      → shown (seen (sample key now ∷ []) found) ≡ some fact
  unfolding seen
  sampled-shown now found fact read = rw (text_eq_refl key, read, seen) read
