-- ===== src/Rosbridge/Client/Retry.antt =====
-- The attempts of `stubborn_spin` end with the first connection that takes all messages of
-- `reconnect`.
use roslibrust.Base.{
  ℕ, zero, suc, ◌+◌, ◌≤◌, ◌≡◌, refl, false, List, [], ◌∷◌, ◌++◌, length, Text, Map, Result, ok, err,
  panic, diverge, ◌>>=◌, arith,
}
use roslibrust.Rosbridge.Json.{Json}
use roslibrust.Rosbridge.Ops.{BridgeError}
use roslibrust.Rosbridge.Comm.{Writer}
use roslibrust.Rosbridge.Client.Reconnect.{Wrote, reconnect-Wrote}
use roslibrust.Rosbridge.Client.{
  Client, Subscription, advertise_all, subscribe_all, reconnect, retry_reconnect, reconnected,
}

-- A write went well and the connection takes at least so many further messages.
abbrev HasLeft : ℕ → Result BridgeError Writer → Type 0
HasLeft k (ok w) = k ≤ w.capacity
HasLeft k _ = ⊥

HasLeft-bind :
    (k j : ℕ) (r : Result BridgeError Writer) (f : Writer → Result BridgeError Writer)
    → ((w : Writer) → k ≤ w.capacity → HasLeft j (f w))
    → HasLeft k r
    → HasLeft j (do w ← r; f w)
HasLeft-bind k j (ok w) f h p = h w p
HasLeft-bind k j (err e) f h p = elim p [ ]
HasLeft-bind k j panic f h p = elim p [ ]
HasLeft-bind k j diverge f h p = elim p [ ]

advertise_all-HasLeft :
    (k : ℕ) (m : Map Text) (n : ℕ) (log : List Json)
    → length m + k ≤ n
    → HasLeft k (advertise_all m (record { capacity = n; sent = log }))
unfolding advertise_all
advertise_all-HasLeft k [] n log h = omega (arith, h)
advertise_all-HasLeft k ((topic, ty) ∷ rest) zero log h = omega (arith, h)
advertise_all-HasLeft k ((topic, ty) ∷ rest) (suc n) log h =
    advertise_all-HasLeft k rest n _ (omega (arith, h))

subscribe_all-HasLeft :
    (k : ℕ) (m : Map Subscription) (n : ℕ) (log : List Json)
    → length m + k ≤ n
    → HasLeft k (subscribe_all m (record { capacity = n; sent = log }))
unfolding subscribe_all
subscribe_all-HasLeft k [] n log h = omega (arith, h)
subscribe_all-HasLeft k ((topic, s) ∷ rest) zero log h = omega (arith, h)
subscribe_all-HasLeft k ((topic, s) ∷ rest) (suc n) log h =
    subscribe_all-HasLeft k rest n _ (omega (arith, h))

-- The number of messages that `reconnect` sends.
abbrev pub reconnect_messages : Client → ℕ
reconnect_messages c = length c.publishers + length c.subscriptions

reconnected-ok :
    (c : Client) (r : Result BridgeError Writer) → HasLeft 0 r → (reconnected c r).1 ≡ ok tt
reconnected-ok c (ok w) h = refl
reconnected-ok c (err e) h = elim h [ ]
reconnected-ok c panic h = elim h [ ]
reconnected-ok c diverge h = elim h [ ]

reconnect-ok :
    (capacity : ℕ) (c : Client) → reconnect_messages c ≤ capacity → (reconnect capacity c).1 ≡ ok tt
unfolding reconnect
reconnect-ok capacity c h =
    reconnected-ok (record c { service_calls = [] }) _
      (HasLeft-bind (length c.subscriptions) 0 (advertise_all c.publishers _)
        (subscribe_all c.subscriptions)
        (λ w p. subscribe_all-HasLeft 0 c.subscriptions w.capacity w.sent (omega (arith, p)))
        (advertise_all-HasLeft (length c.subscriptions) c.publishers capacity [] h))

reconnected-messages :
    (c : Client) (r : Result BridgeError Writer)
    → reconnect_messages (reconnected c r).0 ≡ reconnect_messages c
reconnected-messages c (ok w) = refl
reconnected-messages c (err e) = refl
reconnected-messages c panic = refl
reconnected-messages c diverge = refl

reconnect-messages :
    (capacity : ℕ) (c : Client) → reconnect_messages (reconnect capacity c).0 ≡ reconnect_messages c
unfolding reconnect
reconnect-messages capacity c = reconnected-messages (record c { service_calls = [] }) _

-- The result of `reconnect` is a value.
abbrev IsReturn : Result BridgeError (Unit {0}) → Type 0
IsReturn (ok u) = Unit
IsReturn (err e) = Unit
IsReturn _ = ⊥

reconnected-IsReturn :
    (P : Writer → Type 0) (c : Client) (r : Result BridgeError Writer)
    → Wrote P r
    → IsReturn (reconnected c r).1
reconnected-IsReturn P c (ok w) p = tt
reconnected-IsReturn P c (err e) p = tt
reconnected-IsReturn P c panic p = elim p [ ]
reconnected-IsReturn P c diverge p = elim p [ ]

reconnect-IsReturn : (capacity : ℕ) (c : Client) → IsReturn (reconnect capacity c).1
unfolding reconnect
reconnect-IsReturn capacity c =
    reconnected-IsReturn _ (record c { service_calls = [] }) _ (reconnect-Wrote [] capacity c)

connected-either :
    (x y z : Client) (r : Result BridgeError (Unit {0}))
    → IsReturn r
    → x.is_disconnected ≡ false
    → y.is_disconnected ≡ false
    → (elim r as (λ _. Client) [ ok _ ↦ x | err e ↦ y | _ ↦ z ]).is_disconnected ≡ false
connected-either x y z (ok u) p h k = h
connected-either x y z (err e) p h k = k
connected-either x y z panic p h k = elim p [ ]
connected-either x y z diverge p h k = elim p [ ]

-- If one of the connections that the attempts of `stubborn_spin` get takes as many messages as the
-- client has publishers and topics of subscriptions, the client is connected when they end, whatever
-- the attempts before it met.
pub retry_reconnect-connected :
    (before : List ℕ) (capacity : ℕ) (after : List ℕ) (c : Client)
    → reconnect_messages c ≤ capacity
    → (retry_reconnect (before ++ (capacity ∷ after)) c).is_disconnected ≡ false
unfolding retry_reconnect
retry_reconnect-connected [] capacity after c h =
    rw (reconnect-ok capacity c h, retry_reconnect) refl
retry_reconnect-connected (n ∷ before) capacity after c h =
    connected-either _ _ _ (reconnect n c).1 (reconnect-IsReturn n c) refl (
      retry_reconnect-connected before capacity after (reconnect n c).0
        (rw (reconnect-messages n c) h))
