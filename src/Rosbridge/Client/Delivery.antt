-- ===== src/Rosbridge/Client/Delivery.antt =====
-- What subscribers receive: `handle_publish` of roslibrust_rosbridge/src/client.rs.
use roslibrust.Base.{
  ℕ, zero, suc, ◌≡◌, refl, ap, if◌then◌else◌, Option, none, some, List, [], ◌∷◌, Text, codes,
  text_eq, get, arith, Option-cases, inl, inr,
}
use roslibrust.Rosbridge.Json.{Json, get_str, get_field}
use roslibrust.Rosbridge.Ops.{from_str}
use roslibrust.Rosbridge.Client.{Client, Subscription}
use roslibrust.Rosbridge.Client.Dispatch.{
  text, message, handle_message, handle_publish, spin_once, handle_value, deliver, publish_to,
}

-- What a subscriber got, the latest first.
abbrev pub received : Text → List (Text × Text) → List Text
received id [] = []
received id ((i, msg) ∷ log) =
    let rest = received id log in if text_eq i id then msg ∷ rest else rest

abbrev pub count : Text → List Text → ℕ
count id [] = 0
count id (i ∷ ids) = let rest = count id ids in if text_eq i id then suc rest else rest

abbrev pub add_copies : ℕ → Text → List Text → List Text
add_copies zero msg l = l
add_copies (suc n) msg l = msg ∷ add_copies n msg l

add_copies-cons :
    (n : ℕ) (msg : Text) (l : List Text) → add_copies n msg (msg ∷ l) ≡ msg ∷ add_copies n msg l
add_copies-cons zero msg l = refl
add_copies-cons (suc n) msg l = ap (λ t. msg ∷ t) (add_copies-cons n msg l)

received-deliver :
    (id msg : Text) (ids : List Text) (log : List (Text × Text))
    → received id (deliver msg ids log) ≡ add_copies (count id ids) msg (received id log)
received-deliver id msg [] log = refl
received-deliver id msg (i ∷ ids) log = ground (
  arith,
  received-deliver id msg ids ((i, msg) ∷ log),
  add_copies-cons (count id ids) msg (received id log),
)

abbrev handles_of : Option Subscription → List Text
handles_of none = []
handles_of (some sub) = sub.handles

-- A message is a publish on the topic with a payload that prints as the text.
pub record IsPublish (from_text : Text → Option Json) (to_string : Json → Option Text)
    (s topic : Text) (v payload : Json) (msg : Text) : Type 0 where
  pub parsed : from_text s ≡ some v
  pub op : get_str (codes "op") v ≡ some (codes "publish")
  pub on_topic : get_str (codes "topic") v ≡ some topic
  pub has_msg : get_field (codes "msg") v ≡ some payload
  pub prints : to_string payload ≡ some msg

module _ (from_text : Text → Option Json) (to_string : Json → Option Text) (to_text : Json → Text)
    (panic_text : Text) where
  spin-publish :
      (s topic msg : Text) (v payload : Json) (c : Client)
      → IsPublish from_text to_string s topic v payload msg
      → (spin_once from_text to_string to_text panic_text (message (text s)) c).0
        ≡ handle_publish from_text to_string to_text panic_text v c
  unfolding spin_once handle_message from_str
  spin-publish s topic msg v payload c p =
      rw (p.parsed, handle_message) (rw (p.op, handle_value) refl)

  -- A message on a topic reaches every handle of the topic's subscription once, behind what the
  -- subscriber got before, and no other subscriber: each gets as many copies as the subscription has
  -- handles with its id. Nothing else changes.
  pub publish-received :
      (s topic msg : Text) (v payload : Json) (c : Client) (id : Text)
      → IsPublish from_text to_string s topic v payload msg
      → let c' = (spin_once from_text to_string to_text panic_text (message (text s)) c).0 in
        (received id c'.deliveries
          ≡ add_copies
              (count id (handles_of (get topic c.subscriptions)))
              msg
              (received id c.deliveries))
        × (record c' { deliveries = c.deliveries } ≡ c)
  unfolding handle_publish
  publish-received s topic msg v payload c id p =
      rw (spin-publish s topic msg v payload c p) (elim (Option-cases (get topic c.subscriptions)) [
        | inl e ↦ rw (p.on_topic, handle_publish) (rw e (refl, refl))
        | inr (sub, e) ↦
            rw (p.on_topic, handle_publish)
              (rw (e, p.has_msg)
                (rw (p.prints, publish_to)
                  (received-deliver id msg sub.handles c.deliveries, refl)))
      ])
