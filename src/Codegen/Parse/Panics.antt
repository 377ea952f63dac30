-- ===== src/Codegen/Parse/Panics.antt =====
-- Where `parse_type` of roslibrust_codegen/src/parse/mod.rs panics.
use roslibrust.Base.{
  split-ne-nil, ℕ, ◌-◌, ◌<◌, ◌≡◌, ◌≢◌, inl, inr, refl, Option, none, some, List, [], ◌∷◌, Text,
  take, find, ltb, Bool-cases, ltb→lt, lt→ltb, ok, err, panic, diverge, Result, ◌>>=◌, ◌==◌, codes,
  starts_with,
}
use roslibrust.Codegen.Strs.{parse_usize, split}
use roslibrust.Codegen.Types.{Package, ArrayType, not_array, unbounded}
use roslibrust.Codegen.Parse.{
  ParseError, ok_or, parse_type, parse_field_type, parse_items, parse_bounded_string,
  parse_array_size, parse_array_type, parse_brackets,
}

bind-ne-panic {ℓ κ} :
    {A : Type ℓ} {B : Type κ} (r : Result ParseError A) {f : A → Result ParseError B}
    → r ≢ panic
    → ((a : A) → f a ≢ panic)
    → (r >>= f) ≢ panic
bind-ne-panic (ok a) h hf = hf a
bind-ne-panic (err e) h hf = λ p. cc
bind-ne-panic panic h hf = absurd (h refl)
bind-ne-panic diverge h hf = λ p. cc

ok_or-ne-panic : (o : Option ℕ) (e : ParseError) → ok_or o e ≢ panic
ok_or-ne-panic none e h = cc
ok_or-ne-panic (some a) e h = cc

parse_bounded_string-ne-panic : (s : Text) → parse_bounded_string s ≢ panic
unfolding parse_bounded_string
parse_bounded_string-ne-panic s = elim (Bool-cases (starts_with (codes "string<=") s)) [
  | inl e ↦ rw e (bind-ne-panic _ (ok_or-ne-panic (parse_usize _) _) (λ n h. cc))
  | inr e ↦ rw e (λ h. cc)
]

parse_field_type-ne-panic :
    (s : Text) (array_info : ArrayType) (pkg : Package) → parse_field_type s array_info pkg ≢ panic
unfolding parse_field_type parse_items split
parse_field_type-ne-panic s array_info pkg = items (split b'/' s) (split-ne-nil b'/' s)
  where
    items : (pieces : List Text) → pieces ≢ [] → parse_items s pieces array_info pkg ≢ panic
    items [] h = absurd (h refl)
    items (a ∷ []) h = bind-ne-panic _ (parse_bounded_string-ne-panic a) (λ x e. cc)
    items (a ∷ b ∷ _) h = λ e. cc

parse_array_size-ne-panic : (s : Text) → parse_array_size s ≢ panic
unfolding parse_array_size
parse_array_size-ne-panic s = elim (Bool-cases (starts_with (codes "<=") s)) [
  | inl e ↦ rw e (bind-ne-panic _ (ok_or-ne-panic (parse_usize _) _) (λ n h. cc))
  | inr e ↦ rw e (bind-ne-panic _ (ok_or-ne-panic (parse_usize _) _) (λ n h. cc))
]

parse_array_type-panic :
    (s : Text) (o c : ℕ) (pkg : Package) → parse_array_type s o c pkg ≡ panic → c < o
unfolding parse_array_type
parse_array_type-panic s o c pkg h = elim (Bool-cases (ltb c o)) [
  | inl before ↦ ltb→lt c o before
  | inr behind ↦ absurd (elim (Bool-cases (c - o == 1)) [
    | inl e ↦ parse_field_type-ne-panic (take o s) unbounded pkg (rw (behind, e) at h)
    | inr e ↦
        bind-ne-panic _ (parse_array_size-ne-panic _)
          (λ a. parse_field_type-ne-panic (take o s) a pkg) (rw (behind, e) at h)
  ])
]

-- The first closing bracket of a text stands in front of its first opening bracket.
abbrev pub ClosesFirst : Text → Type 0
ClosesFirst s =
    (c : ℕ) × (o : ℕ) × (find (λ x. x == b']') s ≡ some c)
    × (find (λ x. x == b'[') s ≡ some o)
    × (c < o)

-- A type makes `parse_type` panic exactly if its first closing bracket stands in front of its first
-- opening bracket.
pub parse_type_panics_iff :
    (s : Text) (pkg : Package)
    → (parse_type s pkg ≡ panic → ClosesFirst s) × (ClosesFirst s → parse_type s pkg ≡ panic)
unfolding parse_type parse_brackets
parse_type_panics_iff s pkg = (
  panics (find (λ x. x == b'[') s) (find (λ x. x == b']') s) refl refl,
  λ (c, o, ec, eo, h). rw eo (rw ec (rw (lt→ltb c o h) refl)),
)
  where
    panics :
        (o c : Option ℕ)
        → find (λ x. x == b'[') s ≡ o
        → find (λ x. x == b']') s ≡ c
        → parse_brackets s o c pkg ≡ panic
        → ClosesFirst s
    panics (some o) (some c) eo ec h = (c, o, ec, eo, parse_array_type-panic s o c pkg h)
    panics (some o) none eo ec h = cc
    panics none (some c) eo ec h = cc
    panics none none eo ec h = absurd (parse_field_type-ne-panic s not_array pkg h)
