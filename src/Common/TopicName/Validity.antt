-- ===== src/Common/TopicName/Validity.antt =====
-- Which names are taken.
use roslibrust.Base.{
  ℕ, ◌≡◌, refl, ◌≢◌, ap, Bool, true, false, not, ◌&&◌, ◌||◌, List, [], ◌∷◌, ◌++◌, Text, All, codes,
  starts_with, all, any, is_whitespace, ◌==◌, ok, err, arith, Bool-cases, inl, inr,
}
use roslibrust.Common.TopicName.{
  Failure, no_leading_slash, whitespace, bad_character, trailing_slash, no_match, is_alpha,
  is_digit, is_word, matches, is_match, ends_with_slash, when, is_allowed, failures, validated, new,
}

and_right : (a b : Bool) → (a && b) ≡ true → b ≡ true
and_right true b h = h
and_right false b h = cc

is_word-is_whitespace : (c : ℕ) → is_word c ≡ true → is_whitespace c ≡ false
unfolding is_whitespace
is_word-is_whitespace c h = ground (arith, h)

is_alpha-is_word : (c : ℕ) → is_alpha c ≡ true → is_word c ≡ true
is_alpha-is_word c h = rw h refl

-- A character of a name that matches.
abbrev IsNameChar : ℕ → Type 0
IsNameChar c = (is_word c || c == b'/') ≡ true

matches-IsNameChar : (inside : Bool) (s : Text) → matches inside s ≡ true → All IsNameChar s
unfolding matches
matches-IsNameChar inside [] h = tt
matches-IsNameChar true (x ∷ xs) h = elim (Bool-cases (x == b'/')) [
  | inl e ↦ (ground (arith, e), matches-IsNameChar false xs (rw e at h))
  | inr e ↦ (ground (arith, h, e), matches-IsNameChar true xs (ground (arith, h, e)))
]
matches-IsNameChar false (x ∷ xs) h =
    (ground (arith, h), matches-IsNameChar true xs (ground (arith, h)))

IsNameChar-is_whitespace : (c : ℕ) → IsNameChar c → is_whitespace c ≡ false
unfolding is_whitespace
IsNameChar-is_whitespace c h = ground (arith, h)

any-whitespace : (s : Text) → All IsNameChar s → any is_whitespace s ≡ false
any-whitespace [] h = refl
any-whitespace (x ∷ xs) h = rw (IsNameChar-is_whitespace x h.0) (any-whitespace xs h.1)

matches-ends_with_slash :
    (inside : Bool) (s : Text) → matches inside s ≡ true → ends_with_slash s ≡ false
unfolding matches
matches-ends_with_slash inside [] h = refl
matches-ends_with_slash true (x ∷ []) h = ground (arith, h)
matches-ends_with_slash false (x ∷ []) h = ground (arith, h)
matches-ends_with_slash true (x ∷ y ∷ ys) h = elim (Bool-cases (x == b'/')) [
  | inl e ↦ matches-ends_with_slash false (y ∷ ys) (rw e at h)
  | inr e ↦ matches-ends_with_slash true (y ∷ ys) (inside_tail h e)
]
  where
    inside_tail :
        matches true (x ∷ y ∷ ys) ≡ true → (x == b'/') ≡ false → matches true (y ∷ ys) ≡ true
    inside_tail h e = and_right (is_word x) (matches true (y ∷ ys)) (rw e at h)
matches-ends_with_slash false (x ∷ y ∷ ys) h =
    matches-ends_with_slash true (y ∷ ys) (and_right (is_alpha x) (matches true (y ∷ ys)) h)

nonempty-append : (xs : List Failure) {ys : List Failure} → ys ≢ [] → (xs ++ ys) ≢ []
nonempty-append [] h e = h e
nonempty-append (x ∷ xs) h e = cc

validated-err : (name : Text) (es : List Failure) → es ≢ [] → validated name es ≡ err es
validated-err name [] h = absurd (h refl)
validated-err name (e ∷ es) h = refl

-- `char::is_alphanumeric` holds for the ASCII letters and digits.
module _ (is_alphanumeric : ℕ → Bool)
    (ascii : (c : ℕ) → (is_alpha c || is_digit c) ≡ true → is_alphanumeric c ≡ true) where
  IsNameChar-is_allowed : (c : ℕ) → IsNameChar c → is_allowed is_alphanumeric c ≡ true
  IsNameChar-is_allowed c h = elim (Bool-cases (is_alpha c || is_digit c)) [
    | inl e ↦ rw (ascii c e) refl
    | inr e ↦ others (is_alphanumeric c) e
  ]
    where
      others :
          (b : Bool) → (is_alpha c || is_digit c) ≡ false → (b || (c == b'_' || c == b'/')) ≡ true
      others true e = refl
      others false e = ground (arith, h, e)

  all_allowed : (s : Text) → All IsNameChar s → all (is_allowed is_alphanumeric) s ≡ true
  all_allowed [] h = refl
  all_allowed (x ∷ xs) h = rw (IsNameChar-is_allowed x h.0) (all_allowed xs h.1)

  matching :
      (name : Text)
      → is_match name ≡ true
      → (starts_with (codes "/") name ≡ true) × All IsNameChar name × (ends_with_slash name ≡ false)
  unfolding is_match
  matching [] h = cc
  matching (x ∷ []) h = absurd (nothing_left (and_right (x == b'/') (matches false []) h))
    where
      nothing_left : matches false [] ≡ true → ⊥
      nothing_left e = unfold matches in cc
  matching (x ∷ y ∷ ys) h =
      let rest = and_right (x == b'/') (matches false (y ∷ ys)) h in
      let slash : x ≡ b'/' = ground (arith, h) in
      (
        ground (arith, slash),
        (ground (arith, slash), matches-IsNameChar false (y ∷ ys) rest),
        matches-ends_with_slash false (y ∷ ys) rest,
      )

  accepts : (name : Text) → is_match name ≡ true → failures is_alphanumeric name ≡ []
  accepts name h =
      let (slash, chars, end) = matching name h in
      rw (slash, any-whitespace name chars, all_allowed name chars, end, h) refl

  refuses : (name : Text) → is_match name ≡ false → failures is_alphanumeric name ≢ []
  refuses name h = nonempty-append (when (not (starts_with (codes "/") name)) no_leading_slash) (
      nonempty-append (when (any is_whitespace name) whitespace) (
        nonempty-append (when (not (all (is_allowed is_alphanumeric) name)) bad_character)
          (nonempty-append (when (ends_with_slash name) trailing_slash) (last_failure h))))
    where
      last_failure : is_match name ≡ false → when (not (is_match name)) no_match ≢ []
      last_failure h e = cc (rw h at e)

  -- A name is taken exactly if it matches the regular expression: the other checks refuse no name
  -- that it matches.
  pub new-is_match :
      (name : Text)
      → (is_match name ≡ true → new is_alphanumeric name ≡ ok (record { inner = name }))
        × (is_match name ≡ false → new is_alphanumeric name ≡ err (failures is_alphanumeric name))
  unfolding new
  new-is_match name = (
    λ h. ap (validated name) (accepts name h),
    λ h. validated-err name (failures is_alphanumeric name) (refuses name h),
  )
