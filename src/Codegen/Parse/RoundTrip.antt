-- ===== src/Codegen/Parse/RoundTrip.antt =====
-- `parse_type` on what `Display` writes.
use roslibrust.Base.{
  ℕ, zero, suc, ◌+◌, ◌-◌, ◌<◌, ◌≡◌, ◌≢◌, refl, ap, sym, ◌∙◌, Bool, false, none, some, [], ◌∷◌, ◌++◌,
  append_assoc, append-nil, arith, Text, codes, All, find, length, decimal, ◌==◌, take, take-append,
  drop, starts_with, length-append, ok, ge→ltb, ne→==, eq→==,
}
use roslibrust.Codegen.Strs.{usize_mod, split}
use roslibrust.Codegen.Types.{
  ArrayType, not_array, fixed_length, bounded, unbounded, FieldType, Package,
}
use roslibrust.Codegen.Lacks.{Lacks, find-Lacks, find-append, Lacks-append}
use roslibrust.Codegen.Parse.{
  local_package, parse_field_type, parse_bounded_string, parse_array_size, parse_type,
}
use roslibrust.Codegen.Parse.Display.{
  display, array_suffix, IsDigit, decimal-IsDigit, decimal-ne-nil, parse_usize-decimal,
}

abbrev is_open : ℕ → Bool
is_open c = c == b'['

abbrev is_close : ℕ → Bool
is_close c = c == b']'

digits-Lacks-close : (s : Text) → All IsDigit s → Lacks is_close s
digits-Lacks-close [] h = tt
digits-Lacks-close (x ∷ xs) h = (ground (arith, h.0), digits-Lacks-close xs h.1)

-- A type with `inner` between its brackets.
bracketed :
    (base inner : Text) (pkg : Package)
    → Lacks is_open base
    → Lacks is_close base
    → Lacks is_close inner
    → (find is_open (base ++ (b'[' ∷ (inner ++ (b']' ∷ [])))) ≡ some (length base))
      × (find is_close (base ++ (b'[' ∷ (inner ++ (b']' ∷ []))))
          ≡ some (length base + 1 + length inner))
bracketed base inner pkg ho hc hi = (
  find-append is_open base b'[' _ ho refl,
  ap (find is_close) (sym (append_assoc base (b'[' ∷ inner) (b']' ∷ [])))
      ∙ find-append is_close (base ++ (b'[' ∷ inner)) b']' []
          (Lacks-append is_close base (b'[' ∷ inner) hc (refl, hi)) refl
      ∙ ap some (omega (arith, length-append base (b'[' ∷ inner))),
)

-- The slice between the brackets.
between :
    (base inner : Text) (x : ℕ) (t : Text) (from to : ℕ)
    → from ≡ length base + 1
    → to ≡ length base + 1 + length inner
    → drop from (take to (base ++ (x ∷ (inner ++ t)))) ≡ inner
between [] inner x t from to hf ht =
    ap (λ k. drop k (take to (x ∷ (inner ++ t)))) hf
    ∙ ap (λ k. drop 1 (take k (x ∷ (inner ++ t)))) ht'
    ∙ take-append inner t
  where
    ht' : to ≡ suc (length inner)
    ht' = omega arith
between (b ∷ bs) inner x t zero to hf ht = absurd (omega arith)
between (b ∷ bs) inner x t (suc from) zero hf ht = absurd (omega arith)
between (b ∷ bs) inner x t (suc from) (suc to) hf ht =
    between bs inner x t from to (omega arith) (omega arith)

length-pos : (s : Text) → s ≢ [] → 0 < length s
length-pos [] h = absurd (h refl)
length-pos (x ∷ xs) h = omega arith

parse_type-bracketed :
    (base inner : Text) (array_info : ArrayType) (pkg : Package)
    → Lacks is_open base
    → Lacks is_close base
    → Lacks is_close inner
    → inner ≢ []
    → parse_array_size inner ≡ ok array_info
    → parse_type (base ++ (b'[' ∷ (inner ++ (b']' ∷ [])))) pkg
      ≡ parse_field_type base array_info pkg
unfolding parse_type
parse_type-bracketed base inner array_info pkg ho hc hi ne size =
    let (eo, ec) = bracketed base inner pkg ho hc hi in
    let o = length base in
    let c = length base + 1 + length inner in
    rw eo (
      rw ec (
        rw (ge→ltb c o (omega arith), ne→== (c - o) 1 (omega (arith, length-pos inner ne)))
          (rw (
            between base inner b'[' (b']' ∷ []) (o + 1) c refl refl,
            size,
            take-append base (b'[' ∷ (inner ++ (b']' ∷ []))),
          ))))

abbrev pub Fits : ArrayType → Type 0
Fits (fixed_length n) = n < usize_mod
Fits (bounded n) = n < usize_mod
Fits _ = Unit {0}

starts_with-digits : (s : Text) → All IsDigit s → starts_with (codes "<=") s ≡ false
starts_with-digits [] h = refl
starts_with-digits (x ∷ []) h = ground (arith, h.0)
starts_with-digits (x ∷ y ∷ ys) h = ground (arith, h.0)

parse_array_size-decimal :
    (n : ℕ)
    → n < usize_mod
    → (parse_array_size (decimal n) ≡ ok (fixed_length n))
      × (parse_array_size (b'<' ∷ (b'=' ∷ decimal n)) ≡ ok (bounded n))
unfolding parse_array_size
parse_array_size-decimal n h = (
  rw (starts_with-digits (decimal n) (decimal-IsDigit n), parse_usize-decimal n h),
  rw (parse_usize-decimal n h),
)

-- The array part of a displayed type is read back, and the rest is the base type.
parse_type-array_suffix :
    (base : Text) (array_info : ArrayType) (pkg : Package)
    → Lacks is_open base
    → Lacks is_close base
    → Fits array_info
    → parse_type (base ++ array_suffix array_info) pkg ≡ parse_field_type base array_info pkg
unfolding parse_type
parse_type-array_suffix base not_array pkg ho hc fits =
    rw (append-nil base) (rw (find-Lacks is_open base ho) (rw (find-Lacks is_close base hc)))
parse_type-array_suffix base unbounded pkg ho hc fits =
    let (eo, ec) = bracketed base [] pkg ho hc tt in
    let o = length base in
    let c = length base + 1 + 0 in
    rw eo (
      rw ec (
        rw (ge→ltb c o (omega arith), eq→== (c - o) 1 (omega arith))
          (rw (take-append base (b'[' ∷ (b']' ∷ []))))))
parse_type-array_suffix base (fixed_length n) pkg ho hc fits =
    parse_type-bracketed base (decimal n) (fixed_length n) pkg ho hc
      (digits-Lacks-close (decimal n) (decimal-IsDigit n)) (decimal-ne-nil n)
      (parse_array_size-decimal n fits).0
parse_type-array_suffix base (bounded n) pkg ho hc fits =
    parse_type-bracketed base (b'<' ∷ (b'=' ∷ decimal n)) (bounded n) pkg ho hc
      (refl, (refl, digits-Lacks-close (decimal n) (decimal-IsDigit n))) (λ e. cc)
      (parse_array_size-decimal n fits).1

abbrev is_slash : ℕ → Bool
is_slash c = c == b'/'

split-Lacks : (s : Text) → Lacks is_slash s → split b'/' s ≡ s ∷ []
unfolding split
split-Lacks [] h = refl
split-Lacks (x ∷ xs) h = rw (h.0) (rw (split-Lacks xs h.1))

split-append :
    (s t : Text) → Lacks is_slash s → Lacks is_slash t → split b'/' (s ++ (b'/' ∷ t)) ≡ s ∷ (t ∷ [])
unfolding split
split-append [] t hs ht = rw (split-Lacks t ht)
split-append (x ∷ xs) t hs ht = rw (hs.0) (rw (split-append xs t hs.1 ht))

-- A name with none of the characters that a type is taken apart at.
pub record IsPlain (name : Text) : Type 0 where
  pub no_open : Lacks is_open name
  pub no_close : Lacks is_close name
  pub no_slash : Lacks is_slash name

-- A displayed type is read back with its array part, as a type of the package or an intrinsic one,
-- and a type behind the name of another package as that package's.
pub parse_type-display :
    (ft : FieldType) (other : Text) (pkg : Package)
    → IsPlain ft.field_type
    → IsPlain other
    → starts_with (codes "string<=") ft.field_type ≡ false
    → Fits ft.array_info
    → (parse_type (display ft) pkg
        ≡ ok (record ft {
          package_name = local_package ft.field_type ft.field_type pkg;
          source_package = pkg.name;
          string_capacity = none;
        }))
      × (parse_type (other ++ (b'/' ∷ display ft)) pkg
          ≡ ok (record ft {
            package_name = some other;
            source_package = pkg.name;
            string_capacity = none;
          }))
unfolding parse_field_type parse_bounded_string display
parse_type-display ft other pkg plain plain' unbounded_string fits =
    let base = other ++ (b'/' ∷ ft.field_type) in
    (
      parse_type-array_suffix ft.field_type ft.array_info pkg plain.no_open plain.no_close fits
          ∙ rw (split-Lacks ft.field_type plain.no_slash) (rw unbounded_string),
      ap (λ s. parse_type s pkg) (sym (append_assoc other (b'/' ∷ ft.field_type) _))
          ∙ parse_type-array_suffix base ft.array_info pkg
              (Lacks-append is_open other (b'/' ∷ ft.field_type) plain'.no_open
                (refl, plain.no_open))
              (Lacks-append is_close other (b'/' ∷ ft.field_type) plain'.no_close
                (refl, plain.no_close))
              fits
          ∙ rw (split-append other ft.field_type plain'.no_slash plain.no_slash),
    )
