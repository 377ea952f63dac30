-- ===== src/Rosbridge/Ops/Naming.antt =====
-- The two conversions of an operation.
use roslibrust.Base.{
  ◌≡◌, refl, ap, sym, ◌∙◌, subst, Text, text_eq, text_eq_iff, if◌then◌else◌, Bool-cases, inl, inr,
  Result, ok, err, panic, diverge,
}
use roslibrust.Rosbridge.Ops.{
  Op, BridgeError, unrecognized_op, op_name, from_str, status, set_level, fragment, auth, advertise,
  unadvertise, publish, subscribe, unsubscribe, call_service, service_response, advertise_service,
  unadvertise_service,
}

-- The text of an operation, if it is one that `result` allows.
abbrev Names : Text → Result BridgeError Op → Type 0
Names s (ok op) = op_name op ≡ ok s
Names s (err e) = e ≡ unrecognized_op s
Names s panic = ⊥
Names s diverge = ⊥

-- One line of the match.
one_case :
    (s name : Text) (op : Op) (rest : Result BridgeError Op)
    → op_name op ≡ ok name
    → Names s rest
    → Names s (if text_eq s name then ok op else rest)
one_case s name op rest h hr = elim (Bool-cases (text_eq s name)) [
  | inl e ↦ rw e (h ∙ ap ok (sym ((text_eq_iff s name).0 e)))
  | inr e ↦ rw e hr
]

from_str-Names : (s : Text) → Names s (from_str s)
unfolding from_str
from_str-Names s = one_case s _ advertise _ refl (
    one_case s _ unadvertise _ refl (
      one_case s _ publish _ refl (
        one_case s _ subscribe _ refl (
          one_case s _ unsubscribe _ refl (
            one_case s _ call_service _ refl (
              one_case s _ service_response _ refl (
                one_case s _ advertise_service _ refl
                  (one_case s _ unadvertise_service _ refl refl))))))))

-- The name, where there is one, is read as the operation.
abbrev ReadsAs : Op → Result BridgeError Text → Type 0
ReadsAs op (ok s) = from_str s ≡ ok op
ReadsAs op _ = Unit {0}

op_name-ReadsAs : (op : Op) → ReadsAs op (op_name op)
unfolding from_str
op_name-ReadsAs status = tt
op_name-ReadsAs set_level = tt
op_name-ReadsAs fragment = tt
op_name-ReadsAs auth = tt
op_name-ReadsAs advertise = refl
op_name-ReadsAs unadvertise = refl
op_name-ReadsAs publish = refl
op_name-ReadsAs subscribe = refl
op_name-ReadsAs unsubscribe = refl
op_name-ReadsAs call_service = refl
op_name-ReadsAs service_response = refl
op_name-ReadsAs advertise_service = refl
op_name-ReadsAs unadvertise_service = refl

-- A text is read as an operation exactly if it is that operation's name.
pub from_str-op_name :
    (s : Text) (op : Op)
    → (from_str s ≡ ok op → op_name op ≡ ok s) × (op_name op ≡ ok s → from_str s ≡ ok op)
from_str-op_name s op =
    (λ h. subst (Names s) h (from_str-Names s), λ h. subst (ReadsAs op) h (op_name-ReadsAs op))
