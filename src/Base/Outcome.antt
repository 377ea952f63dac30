-- ===== src/Base/Outcome.antt =====
-- Results of Rust calls.
use mathlib.Core.Path.{◌≡◌, refl}
use mathlib.Core.Logic.{◌≢◌, ◌⊎◌, inl, inr}

-- The ways in which a Rust call ends: a value, an error, a panic; `diverge` is a loop of the model
-- that ran out of fuel.
pub data Result {ℓ κ} (E : Type κ) (A : Type ℓ) : Type (ℓ ⊔ κ) where
  ok : A → Result E A
  err : E → Result E A
  panic : Result E A
  diverge : Result E A

-- The `?` operator.
infixl 5 ◌>>=◌
abbrev pub ◌>>=◌ {ℓ κ μ} :
    {E : Type κ} {A : Type ℓ} {B : Type μ} → Result E A → (A → Result E B) → Result E B
ok a >>= f = f a
err e >>= f = err e
panic >>= f = panic
diverge >>= f = diverge

pub Result-cases {ℓ κ} :
    {E : Type κ} {A : Type ℓ} (r : Result E A)
    → r ≢ diverge
    → r ≢ panic
    → ((a : A) × (r ≡ ok a)) ⊎ ((e : E) × (r ≡ err e))
Result-cases (ok a) d p = inl (a, refl)
Result-cases (err e) d p = inr (e, refl)
Result-cases panic d p = absurd (p refl)
Result-cases diverge d p = absurd (d refl)

module _ {ℓ κ μ} {E : Type κ} {A : Type ℓ} {B : Type μ} where
  pub bind_ext :
      (r : Result E A) {f g : A → Result E B} → ((a : A) → f a ≡ g a) → (r >>= f) ≡ (r >>= g)
  bind_ext (ok a) h = h a
  bind_ext (err e) h = refl
  bind_ext panic h = refl
  bind_ext diverge h = refl

  pub bind_assoc {ν} :
      {C : Type ν} (r : Result E A) (f : A → Result E B) (g : B → Result E C)
      → ((r >>= f) >>= g) ≡ (r >>= (λ a. f a >>= g))
  bind_assoc (ok a) f g = refl
  bind_assoc (err e) f g = refl
  bind_assoc panic f g = refl
  bind_assoc diverge f g = refl
