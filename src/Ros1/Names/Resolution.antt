-- ===== src/Ros1/Names/Resolution.antt =====
-- What `resolve_to_global` gives for the node names that a handle accepts.
use roslibrust.Base.{
  ℕ, suc, ◌≡◌, ◌≢◌, refl, ap, sym, ◌∙◌, Bool, true, false, List, [], ◌∷◌, ◌++◌, append_assoc, Text,
  String, All, codes, starts_with, split, cons_head, split-ne-nil, length, take, drop, take-append,
  length-append, ok, ◌==◌, arith, ==_iff, Bool-cases, inl, inr,
}
use roslibrust.Ros1.Names.{Name, namespace, resolve_relative, resolve_to_global, node_name, new}

abbrev pub IsGlobal : Text → Type 0
IsGlobal s = starts_with (codes "/") s ≡ true

abbrev pub NoSlash : Text → Type 0
NoSlash = All (λ c. (c == b'/') ≡ false)

split-NoSlash : (s : Text) → NoSlash s → split b'/' s ≡ s ∷ []
unfolding split
split-NoSlash [] h = refl
split-NoSlash (x ∷ xs) h = rw (h.0, split) (rw (split-NoSlash xs h.1) refl)

cons_head-append :
    (x : ℕ) (pieces more : List Text)
    → pieces ≢ []
    → cons_head x (pieces ++ more) ≡ cons_head x pieces ++ more
cons_head-append x [] more h = absurd (h refl)
cons_head-append x (p ∷ ps) more h = refl

split-last :
    (s base : Text) → NoSlash base → split b'/' (s ++ (b'/' ∷ base)) ≡ split b'/' s ++ (base ∷ [])
unfolding split
split-last [] base h = rw (split-NoSlash base h) refl
split-last (x ∷ xs) base h = elim (Bool-cases (x == b'/')) [
  | inl e ↦ rw e (rw (split-last xs base h) refl)
  | inr e ↦ rw e (
      rw (split-last xs base h)
        (cons_head-append x (split b'/' xs) (base ∷ []) (split-ne-nil b'/' xs)))
]

namespace-cons_head :
    (x : ℕ) (pieces : List Text) (s : Text)
    → namespace pieces ≡ b'/' ∷ s
    → namespace (cons_head x pieces) ≡ b'/' ∷ (x ∷ s)
unfolding namespace
namespace-cons_head x [] s e = cc
namespace-cons_head x (p ∷ ps) s e = ap (λ t. b'/' ∷ (x ∷ drop 1 t)) e

namespace-split : (s : Text) → namespace (split b'/' s) ≡ b'/' ∷ s
unfolding split namespace
namespace-split [] = refl
namespace-split (x ∷ xs) = elim (Bool-cases (x == b'/')) [
  | inl e ↦ rw e (rw (namespace-split xs) (ap (λ k. b'/' ∷ (k ∷ xs)) (sym ((==_iff x b'/').0 e))))
  | inr e ↦ rw e (namespace-cons_head x (split b'/' xs) xs (namespace-split xs))
]

resolve_relative-pieces :
    (name base : Text) (pieces : List Text)
    → pieces ≢ []
    → resolve_relative name ([] ∷ (pieces ++ (base ∷ [])))
      ≡ ok (record { inner = namespace pieces ++ (b'/' ∷ name) })
unfolding namespace
resolve_relative-pieces name base [] h = absurd (h refl)
resolve_relative-pieces name base (p ∷ []) h = refl
resolve_relative-pieces name base (p ∷ q ∷ qs) h =
    ap (λ l. ok (record { inner = namespace (p ∷ l) ++ (b'/' ∷ name) }))
      (ap (λ k. take k (q ∷ (qs ++ (base ∷ [])))) long ∙ take-append (q ∷ qs) (base ∷ []))
  where
    long : length (qs ++ (base ∷ [])) ≡ suc (length qs)
    long = omega (arith, length-append qs (base ∷ []))

-- The namespace of a node, in front of the last slash of its name.
abbrev pub IsNamespace : Text → Type 0
IsNamespace [] = Unit {0}
IsNamespace (x ∷ xs) = x ≡ b'/'

abbrev starts : String → Text → Bool
starts p s = starts_with (codes p) s

abbrev pub name_of : Text → Name
name_of s = record { inner = s }

relative_name :
    (space base rest : Text)
    → NoSlash base
    → IsNamespace space
    → starts "/" rest ≡ false
    → starts "~" rest ≡ false
    → resolve_to_global (name_of rest) (name_of (space ++ (b'/' ∷ base)))
      ≡ ok (name_of (space ++ (b'/' ∷ rest)))
unfolding resolve_to_global
relative_name [] base rest hb hs h1 h2 = rw (h1, h2) (rw (split-NoSlash base hb) refl)
relative_name (x ∷ xs) base rest hb hs h1 h2 =
    rw (h1, h2)
      (ap (resolve_relative rest) pieces
        ∙ resolve_relative-pieces rest base (split b'/' xs) (split-ne-nil b'/' xs)
        ∙ ap (λ l. ok (name_of (l ++ (b'/' ∷ rest))))
            (namespace-split xs ∙ ap (λ k. k ∷ xs) (sym hs)))
  where
    pieces : split b'/' ((x ∷ xs) ++ (b'/' ∷ base)) ≡ [] ∷ (split b'/' xs ++ (base ∷ []))
    pieces =
        ap (λ k. split b'/' (k ∷ (xs ++ (b'/' ∷ base)))) hs
        ∙ unfold split in ap (λ l. [] ∷ l) (split-last xs base hb)

-- A global name stands for itself, a private one for a name below the node, and any other for a
-- name in the node's namespace.
pub resolve_to_global-kinds :
    (space base rest : Text)
    → NoSlash base
    → IsNamespace space
    → let node = name_of (space ++ (b'/' ∷ base)) in
      (resolve_to_global (name_of (b'/' ∷ rest)) node ≡ ok (name_of (b'/' ∷ rest)))
      × (resolve_to_global (name_of (b'~' ∷ rest)) node
          ≡ ok (name_of (space ++ (b'/' ∷ (base ++ (b'/' ∷ rest))))))
      × (starts "/" rest ≡ false
          → starts "~" rest ≡ false
          → resolve_to_global (name_of rest) node ≡ ok (name_of (space ++ (b'/' ∷ rest))))
unfolding resolve_to_global
resolve_to_global-kinds space base rest hb hs = (
  refl,
  ap (λ s. ok (name_of s)) (append_assoc space (b'/' ∷ base) (b'/' ∷ rest)),
  relative_name space base rest hb hs,
)

global_stays : (n other : Name) → IsGlobal n.inner → resolve_to_global n other ≡ ok n
unfolding resolve_to_global
global_stays n other g = rw g refl

resolve_relative-IsGlobal :
    (name : Text) (pieces : List Text)
    → pieces ≢ []
    → (n : Name) × (resolve_relative name ([] ∷ pieces) ≡ ok n) × IsGlobal n.inner
unfolding namespace
resolve_relative-IsGlobal name [] h = absurd (h refl)
resolve_relative-IsGlobal name (p ∷ []) h = (_, refl, refl)
resolve_relative-IsGlobal name (p ∷ q ∷ qs) h = (_, refl, refl)

global_pieces : (s : Text) → IsGlobal s → (xs : Text) × (split b'/' s ≡ [] ∷ split b'/' xs)
unfolding split
global_pieces [] h = cc
global_pieces (x ∷ xs) h =
    let e : x ≡ b'/' = ground (arith, h) in (xs, ap (λ k. split b'/' (k ∷ xs)) e)

IsGlobal-append : (s t : Text) → IsGlobal s → IsGlobal (s ++ t)
IsGlobal-append [] t h = cc
IsGlobal-append (x ∷ xs) t h = h

resolves :
    (self node : Name)
    → IsGlobal node.inner
    → (n : Name) × (resolve_to_global self node ≡ ok n) × IsGlobal n.inner
unfolding resolve_to_global
resolves self node h = elim (Bool-cases (starts "/" self.inner)) [
  | inl g ↦ (self, rw g refl, g)
  | inr g ↦ elim (Bool-cases (starts "~" self.inner)) [
    | inl t ↦ (
      name_of (node.inner ++ (b'/' ∷ drop 1 self.inner)),
      rw (g, t) refl,
      IsGlobal-append node.inner _ h,
    )
    | inr t ↦
        let (xs, e) = global_pieces node.inner h in
        let (n, r, gn) =
          resolve_relative-IsGlobal self.inner (split b'/' xs) (split-ne-nil b'/' xs) in
        (n, rw (g, t) (ap (resolve_relative self.inner) e ∙ r), gn)
  ]
]

accepted : (is_match : Text → Bool) (s : Text) (n : Name) → new is_match s ≡ ok n → n.inner ≡ s
unfolding new
accepted is_match s n h = ground (arith, h)

node_name-IsGlobal :
    (is_match : Text → Bool) (s : Text) (n : Name) → node_name is_match s ≡ ok n → IsGlobal n.inner
unfolding node_name
node_name-IsGlobal is_match s n h = elim (Bool-cases (starts "/" s)) [
  | inl g ↦ ap (starts "/") (accepted is_match s n (rw g at h)) ∙ g
  | inr g ↦ ap (starts "/") (accepted is_match (b'/' ∷ s) n (rw g at h))
]

-- Against the node name that a handle has accepted, no name panics; the result starts with a slash,
-- and is resolved to itself against every node from then on.
pub resolve_to_global_total :
    (is_match : Text → Bool) (s : Text) (self node other : Name)
    → node_name is_match s ≡ ok node
    → (n : Name) × (resolve_to_global self node ≡ ok n)
      × IsGlobal n.inner
      × (resolve_to_global n other ≡ ok n)
resolve_to_global_total is_match s self node other h =
    let (n, e, g) = resolves self node (node_name-IsGlobal is_match s node h) in
    (n, e, g, global_stays n other g)
