-- ===== src/Codegen/Parse/Display.antt =====
-- `Display` for `FieldType` in roslibrust_codegen/src/lib.rs, and the numbers in it.
use roslibrust.Base.{
  ℕ, zero, suc, ◌+◌, ◌*◌, ◌/◌, ◌%◌, ◌<◌, ◌≤◌, ◌≡◌, ◌≢◌, refl, ◌∙◌, some, [], ◌∷◌, ◌++◌, arith, Text,
  All, decimal, digits, ltb, le→leb, lt→ltb, ◌-◌, Bool-cases, inl, inr, ltb→ge, ltb→lt,
}
use roslibrust.Codegen.Strs.{parse_usize, parse_digits, usize_mod}
use roslibrust.Codegen.Types.{ArrayType, not_array, fixed_length, bounded, unbounded, FieldType}

abbrev pub array_suffix : ArrayType → Text
array_suffix not_array = []
array_suffix (fixed_length n) = b'[' ∷ (decimal n ++ (b']' ∷ []))
array_suffix (bounded n) = b'[' ∷ (b'<' ∷ (b'=' ∷ (decimal n ++ (b']' ∷ []))))
array_suffix unbounded = b'[' ∷ (b']' ∷ [])

unfoldable pub display : FieldType → Text
display ft = ft.field_type ++ array_suffix ft.array_info

abbrev pub IsDigit : ℕ → Type 0
IsDigit c = (b'0' ≤ c) × (c ≤ b'9')

parse_digits-digits :
    (fuel n : ℕ) (s : Text)
    → n < fuel
    → n < usize_mod
    → parse_digits 0 (digits fuel n s) ≡ parse_digits n s
unfolding parse_digits digits
parse_digits-digits zero n s h fits = absurd (omega arith)
parse_digits-digits (suc fuel) n s h fits = elim (Bool-cases (ltb n 10)) [
  | inl small ↦ rw small (ground arith)
  | inr large ↦ rw large (
      parse_digits-digits fuel (n / 10) ((b'0' + n % 10) ∷ s) (omega (arith, ltb→ge n 10 large))
        (omega arith)
      ∙ last_digit)
]
  where
    last_digit : parse_digits (n / 10) ((b'0' + n % 10) ∷ s) ≡ parse_digits n s
    last_digit =
        let e : n / 10 * 10 + (b'0' + n % 10 - b'0') ≡ n = omega arith in
        rw (
          le→leb b'0' (b'0' + n % 10) (omega arith),
          le→leb (b'0' + n % 10) b'9' (omega arith),
          e,
          lt→ltb n usize_mod fits,
        )

digits-IsDigit : (fuel n : ℕ) (s : Text) → n < fuel → All IsDigit s → All IsDigit (digits fuel n s)
unfolding digits
digits-IsDigit zero n s h ds = absurd (omega arith)
digits-IsDigit (suc fuel) n s h ds = elim (Bool-cases (ltb n 10)) [
  | inl small ↦ rw small ((omega (arith, ltb→lt n 10 small)), ds)
  | inr large ↦ rw large (
      digits-IsDigit fuel (n / 10) ((b'0' + n % 10) ∷ s) (omega (arith, ltb→ge n 10 large))
        (omega arith, ds))
]

pub decimal-IsDigit : (n : ℕ) → All IsDigit (decimal n)
unfolding decimal
decimal-IsDigit n = digits-IsDigit (suc n) n [] (omega arith) tt

digits-ne-nil : (fuel n : ℕ) (s : Text) → n < fuel → digits fuel n s ≢ []
unfolding digits
digits-ne-nil zero n s h e = absurd (omega arith)
digits-ne-nil (suc fuel) n s h e = elim (Bool-cases (ltb n 10)) [
  | inl small ↦ cc (rw small at e)
  | inr large ↦
      digits-ne-nil fuel (n / 10) ((b'0' + n % 10) ∷ s) (omega (arith, ltb→ge n 10 large))
        (rw large at e)
]

pub decimal-ne-nil : (n : ℕ) → decimal n ≢ []
unfolding decimal
decimal-ne-nil n = digits-ne-nil (suc n) n [] (omega arith)

unsigned : (s : Text) → All IsDigit s → s ≢ [] → parse_usize s ≡ parse_digits 0 s
unfolding parse_usize
unsigned [] ds h = absurd (h refl)
unsigned (x ∷ []) ds h = ground (arith, ds.0)
unsigned (x ∷ y ∷ ys) ds h = ground (arith, ds.0)

-- A number is read back.
pub parse_usize-decimal : (n : ℕ) → n < usize_mod → parse_usize (decimal n) ≡ some n
unfolding parse_usize
parse_usize-decimal n h = unsigned (decimal n) (decimal-IsDigit n) (decimal-ne-nil n) ∙ value
  where
    value : parse_digits 0 (decimal n) ≡ some n
    value =
        unfold decimal in
        parse_digits-digits (suc n) n [] (omega arith) h ∙ unfold parse_digits in refl
