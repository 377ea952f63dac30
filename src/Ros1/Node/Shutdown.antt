-- ===== src/Ros1/Node/Shutdown.antt =====
-- What `shutdown` leaves at the master.
use roslibrust.Base.{
  ◌≡◌, refl, ◌∙◌, sym, Bool, true, false, none, some, List, [], ◌∷◌, map, arith, Text, text_eq_iff,
  if◌then◌else◌, Map, get, keys, contains_key, member, member-keys, Option-cases, inl, inr,
}
use roslibrust.Ros1.Master
use roslibrust.Ros1.Master.{Call, Log, published, subscribed, provided}
use roslibrust.Ros1.Node.{
  Node, ServiceServerLink, new, service_uri, call_all, unregister_services, shutdown,
}
use roslibrust.Ros1.Node.Tracking.{IsTracked, uri_of, listed_uri}
use roslibrust.Ros1.Node.History.{Reach, Reach-IsTracked, new-IsTracked}

-- What calls of another kind do not change.
module _ (accepts : Call → Bool) {A : Type 0} (seen : Log → A) where
  map-ignored :
      (f : Text → Call)
      → ((t : Text) (b : Bool) (log : Log) → seen ((f t, b) ∷ log) ≡ seen log)
      → (ts : List Text) (log : Log) → seen (call_all accepts (map f ts) log) ≡ seen log
  unfolding call_all
  map-ignored f same [] log = refl
  map-ignored f same (t ∷ ts) log =
      map-ignored f same ts ((f t, accepts (f t)) ∷ log) ∙ same t (accepts (f t)) log

  services-ignored :
      ((n u : Text) (b : Bool) (log : Log)
        → seen ((Master.unregister_service n u, b) ∷ log) ≡ seen log)
      → (hostname : Text) (m : Map ServiceServerLink) (log : Log)
      → seen (call_all accepts (unregister_services hostname m) log) ≡ seen log
  unfolding call_all unregister_services
  services-ignored same hostname [] log = refl
  services-ignored same hostname ((n, link) ∷ m) log =
      let uri = service_uri hostname link.port in
      services-ignored same hostname m
        ((Master.unregister_service n uri, accepts (Master.unregister_service n uri)) ∷ log)
      ∙ same n uri (accepts (Master.unregister_service n uri)) log

module _ (accepts : Call → Bool) (all_accepted : (c : Call) → accepts c ≡ true) where
  published-call_all :
      (t : Text) (ts : List Text) (log : Log)
      → published t (call_all accepts (map Master.unregister_publisher ts) log)
        ≡ (if member t ts then false else published t log)
  unfolding call_all published
  published-call_all t [] log = refl
  published-call_all t (x ∷ ts) log = ground (
    arith,
    all_accepted (Master.unregister_publisher x),
    published-call_all t ts
        ((Master.unregister_publisher x, accepts (Master.unregister_publisher x)) ∷ log),
  )

  subscribed-call_all :
      (t : Text) (ts : List Text) (log : Log)
      → subscribed t (call_all accepts (map Master.unregister_subscriber ts) log)
        ≡ (if member t ts then false else subscribed t log)
  unfolding call_all subscribed
  subscribed-call_all t [] log = refl
  subscribed-call_all t (x ∷ ts) log = ground (
    arith,
    all_accepted (Master.unregister_subscriber x),
    subscribed-call_all t ts
        ((Master.unregister_subscriber x, accepts (Master.unregister_subscriber x)) ∷ log),
  )

  provided-call_all :
      (n hostname : Text) (m : Map ServiceServerLink) (log : Log)
      → ((u : Text) → provided n log ≡ some u → uri_of hostname (get n m) ≡ some u)
      → provided n (call_all accepts (unregister_services hostname m) log) ≡ none
  unfolding call_all provided unregister_services get
  provided-call_all n hostname [] log h = elim (Option-cases (provided n log)) [
    | inl e ↦ e
    | inr (u, e) ↦ cc (h u e)
  ]
  provided-call_all n hostname ((j, link) ∷ m) log h =
      let c = Master.unregister_service j (service_uri hostname link.port) in
      provided-call_all n hostname m ((c, accepts c) ∷ log) λ u e.
        elim (Option-cases (provided n log)) [
          | inl gone ↦ ground (arith, all_accepted c)
          | inr (v, there) ↦ ground (
            arith,
            all_accepted c,
            h v there,
            text_eq_iff j n,
            text_eq_iff v (service_uri hostname link.port),
          )
        ]

-- The master lists nothing of the node.
pub record IsForgotten (log : Log) : Type 0 where
  pub publishers : (t : Text) → published t log ≡ false
  pub subscriptions : (t : Text) → subscribed t log ≡ false
  pub services : (n : Text) → provided n log ≡ none

-- What `shutdown` makes of the topics published: it clears those in the node's map.
pub published-shutdown :
    (accepts : Call → Bool)
    → ((c : Call) → accepts c ≡ true)
    → (node : Node) (t : Text)
    → published t (shutdown accepts node).log
      ≡ (if contains_key t node.publishers then false else published t node.log)
unfolding shutdown published
published-shutdown accepts all_accepted node t =
    services-ignored accepts (published t) (λ n u b log. refl) node.hostname _ _
    ∙ published-call_all accepts all_accepted t (keys node.publishers) _
    ∙ rw (
      member-keys t node.publishers,
      map-ignored accepts (published t) Master.unregister_subscriber (λ x b log. refl)
          (keys node.subscriptions) node.log,
    )

absent : (b c : Bool) → (b ≡ true → c ≡ true) → (if c then false else b) ≡ false
absent true c h = rw (h refl)
absent false c h = ground arith

module _ (accepts : Call → Bool) (all_accepted : (c : Call) → accepts c ≡ true) (node : Node)
    (k : IsTracked node) where
  shutdown-published : (t : Text) → published t (shutdown accepts node).log ≡ false
  shutdown-published t =
      published-shutdown accepts all_accepted node t ∙ absent _ _ (k.publishers t)

  shutdown-subscribed : (t : Text) → subscribed t (shutdown accepts node).log ≡ false
  unfolding shutdown subscribed
  shutdown-subscribed t =
      services-ignored accepts (subscribed t) (λ n u b log. refl) node.hostname _ _
      ∙ map-ignored accepts (subscribed t) Master.unregister_publisher (λ x b log. refl)
          (keys node.publishers) _
      ∙ subscribed-call_all accepts all_accepted t (keys node.subscriptions) node.log
      ∙ rw (member-keys t node.subscriptions) (absent _ _ (k.subscriptions t))

  provided_before :
      (n : Text)
      → provided n (
          call_all accepts (map Master.unregister_publisher (keys node.publishers)) (
            call_all accepts (map Master.unregister_subscriber (keys node.subscriptions)) node.log))
        ≡ provided n node.log
  unfolding provided
  provided_before n =
      map-ignored accepts (provided n) Master.unregister_publisher (λ x b log. refl)
        (keys node.publishers) _
      ∙ map-ignored accepts (provided n) Master.unregister_subscriber (λ x b log. refl)
          (keys node.subscriptions) node.log

  shutdown-provided : (n : Text) → provided n (shutdown accepts node).log ≡ none
  unfolding shutdown listed_uri
  shutdown-provided n =
      provided-call_all accepts all_accepted n node.hostname node.service_servers _
        λ u e. k.services n u (sym (provided_before n) ∙ e)

  shutdown-IsForgotten : IsForgotten (shutdown accepts node).log
  shutdown-IsForgotten = record {
    publishers = shutdown-published;
    subscriptions = shutdown-subscribed;
    services = shutdown-provided;
  }

-- A node that has run through any operations, where the master has accepted the clean-up calls and
-- the registrations of services, and no service was registered whose type was the name of another
-- service of the node then, leaves no publisher, subscriber or service of its own at the master when
-- it shuts down, if the master accepts the calls of that.
pub shutdown_leaves_nothing :
    (hostname : Text) {node : Node} (accepts : Call → Bool)
    → Reach (new hostname) node
    → ((c : Call) → accepts c ≡ true)
    → IsForgotten (shutdown accepts node).log
shutdown_leaves_nothing hostname {node} accepts r all_accepted =
    shutdown-IsForgotten accepts all_accepted node (Reach-IsTracked (new-IsTracked hostname) r)
