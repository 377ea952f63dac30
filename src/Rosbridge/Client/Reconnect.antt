-- ===== src/Rosbridge/Client/Reconnect.antt =====
-- `reconnect` and `stubborn_spin` make the server's tables agree with the client's again.
use roslibrust.Base.{
  ℕ, zero, suc, ◌≡◌, refl, ◌∙◌, Bool, true, false, ◌||◌, List, [], ◌∷◌, Text, Map, get,
  contains_key, is_some, Result, ok, err, panic, diverge, ◌>>=◌, arith, is_some, Option-cases, inl,
  inr,
}
use roslibrust.Rosbridge.Json.{Json}
use roslibrust.Rosbridge.Ops.{BridgeError}
use roslibrust.Rosbridge.Comm.{Writer}
use roslibrust.Rosbridge.Client.{
  Client, Subscription, advertise_all, subscribe_all, reconnect, reconnected,
}
use roslibrust.Rosbridge.Client.Table.{listed, advertised, subscribed, served, has_handle, Agrees}

-- A write ended with an error, or well and with a writer that has the property.
abbrev pub Wrote : (Writer → Type 0) → Result BridgeError Writer → Type 0
Wrote P (ok w) = P w
Wrote P (err e) = Unit {0}
Wrote P _ = ⊥

Wrote-weaken :
    {P Q : Writer → Type 0} (r : Result BridgeError Writer)
    → ((w : Writer) → P w → Q w)
    → Wrote P r
    → Wrote Q r
Wrote-weaken (ok w) f p = f w p
Wrote-weaken (err e) f p = tt
Wrote-weaken panic f p = elim p [ ]
Wrote-weaken diverge f p = elim p [ ]

Wrote-bind :
    {P : Writer → Type 0} (Q : Writer → Type 0) (r : Result BridgeError Writer)
    (f : Writer → Result BridgeError Writer)
    → ((w : Writer) → P w → Wrote Q (f w))
    → Wrote P r
    → Wrote Q (do w ← r; f w)
Wrote-bind Q (ok w) f h p = h w p
Wrote-bind Q (err e) f h p = tt
Wrote-bind Q panic f h p = elim p [ ]
Wrote-bind Q diverge f h p = elim p [ ]

module _ (name : Text) where
  advertise_all-advertised :
      (m : Map Text) (n : ℕ) (log : List Json)
      → Wrote
          (λ w'.
            (advertised name w'.sent ≡ (contains_key name m || advertised name log))
            × (subscribed name w'.sent ≡ subscribed name log)
            × (served name w'.sent ≡ served name log))
          (advertise_all m (record { capacity = n; sent = log }))
  unfolding advertise_all get listed
  advertise_all-advertised [] n log = (refl, refl, refl)
  advertise_all-advertised ((topic, topic_type) ∷ rest) zero log = tt
  advertise_all-advertised ((topic, topic_type) ∷ rest) (suc n) log =
      Wrote-weaken (advertise_all rest _)
        (λ w p. (ground (arith, p.0), ground (arith, p.1), ground (arith, p.2)))
        (advertise_all-advertised rest n _)

  subscribe_all-subscribed :
      (m : Map Subscription) (n : ℕ) (log : List Json)
      → Wrote
          (λ w'.
            (subscribed name w'.sent ≡ (is_some (get name m) || subscribed name log))
            × (advertised name w'.sent ≡ advertised name log)
            × (served name w'.sent ≡ served name log))
          (subscribe_all m (record { capacity = n; sent = log }))
  unfolding subscribe_all get listed
  subscribe_all-subscribed [] n log = (refl, refl, refl)
  subscribe_all-subscribed ((topic, s) ∷ rest) zero log = tt
  subscribe_all-subscribed ((topic, s) ∷ rest) (suc n) log =
      Wrote-weaken (subscribe_all rest _)
        (λ w p. (ground (arith, p.0), ground (arith, p.1), ground (arith, p.2)))
        (subscribe_all-subscribed rest n _)

  -- A new connection has the client's publishers and the topics in its table of subscriptions.
  abbrev pub Restored : Client → Writer → Type 0
  Restored c w =
      (advertised name w.sent ≡ contains_key name c.publishers)
      × (subscribed name w.sent ≡ contains_key name c.subscriptions)
      × (served name w.sent ≡ false)

  pub reconnect-Wrote :
      (capacity : ℕ) (c : Client)
      → Wrote (Restored c) (do
        w ← advertise_all c.publishers (record { capacity = capacity; sent = [] })
        subscribe_all c.subscriptions w)
  unfolding listed
  reconnect-Wrote capacity c =
      Wrote-bind (Restored c) (advertise_all c.publishers _) (subscribe_all c.subscriptions)
        (λ w p.
          Wrote-weaken (subscribe_all c.subscriptions w)
            (λ w' q. (ground (arith, p.0, q.1), ground (arith, p.1, q.0), ground (arith, p.2, q.2)))
            (subscribe_all-subscribed c.subscriptions w.capacity w.sent))
        (advertise_all-advertised c.publishers capacity [])

  has_handle-get : (m : Map Subscription) → has_handle name m ≡ true → is_some (get name m) ≡ true
  has_handle-get m h = elim (Option-cases (get name m)) [
    | inl e ↦ ground (arith, e, h)
    | inr (s, e) ↦ ground (arith, e, h)
  ]

  reconnected-Agrees :
      (c : Client) (r : Result BridgeError Writer)
      → Wrote (Restored c) r
      → Agrees false name c
      → Agrees false name (reconnected c r).0
  reconnected-Agrees c (ok w) p a = record {
    publishers = λ h. p.0;
    listeners = λ h e. p.1 ∙ has_handle-get c.subscriptions e;
    exact = λ h e. ground arith;
  }
  reconnected-Agrees c (err e) p a = record {
    publishers = ground arith;
    listeners = ground arith;
    exact = ground arith;
  }
  reconnected-Agrees c panic p a = elim p [ ]
  reconnected-Agrees c diverge p a = elim p [ ]

  pub Agrees-later : (first : Bool) (c : Client) → Agrees first name c → Agrees false name c
  Agrees-later first c a = record {
    publishers = a.publishers;
    listeners = a.listeners;
    exact = ground arith;
  }

  pub reconnect-Agrees :
      (capacity : ℕ) (c : Client) → Agrees false name c → Agrees false name (reconnect capacity c).0
  unfolding reconnect
  reconnect-Agrees capacity c a =
      reconnected-Agrees (record c { service_calls = [] }) _ (reconnect-Wrote capacity c)
        (record { publishers = a.publishers; listeners = a.listeners; exact = a.exact })

  reconnected-Restored :
      (c : Client) (r : Result BridgeError Writer)
      → Wrote (Restored c) r
      → (reconnected c r).1 ≡ ok tt
      → Restored c (reconnected c r).0.writer
  reconnected-Restored c (ok w) p e = p
  reconnected-Restored c (err x) p e = ground arith
  reconnected-Restored c panic p e = elim p [ ]
  reconnected-Restored c diverge p e = elim p [ ]

  -- Behind a successful `reconnect` the server has as advertised exactly the topics in the client's
  -- table of publishers, and as subscribed exactly those in its table of subscriptions, whether they
  -- have subscribers or not, and it serves no service.
  pub reconnect-sent :
      (capacity : ℕ) (c : Client)
      → (reconnect capacity c).1 ≡ ok tt
      → (advertised name (reconnect capacity c).0.writer.sent ≡ contains_key name c.publishers)
        × (subscribed name (reconnect capacity c).0.writer.sent ≡ contains_key name c.subscriptions)
        × (served name (reconnect capacity c).0.writer.sent ≡ false)
  unfolding reconnect
  reconnect-sent capacity c =
      reconnected-Restored (record c { service_calls = [] }) _ (reconnect-Wrote capacity c)
