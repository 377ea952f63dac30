-- ===== src/Codegen/Lacks.antt =====
-- Texts without some characters, where the parser looks for one.
use roslibrust.Base.{
  ℕ, ◌≡◌, refl, all, not, Bool-cases, inl, inr, Bool, true, false, none, some, [], ◌∷◌, ◌++◌, Text,
  All, find, length,
}

-- No character of the text passes the test.
abbrev pub Lacks : (ℕ → Bool) → Text → Type 0
Lacks p = All (λ c. p c ≡ false)

pub find-Lacks : (p : ℕ → Bool) (s : Text) → Lacks p s → find p s ≡ none
find-Lacks p [] h = refl
find-Lacks p (x ∷ xs) h = rw (h.0) (rw (find-Lacks p xs h.1))

pub find-append :
    (p : ℕ → Bool) (s : Text) (x : ℕ) (t : Text)
    → Lacks p s
    → p x ≡ true
    → find p (s ++ (x ∷ t)) ≡ some (length s)
find-append p [] x t h hx = rw hx
find-append p (y ∷ ys) x t h hx = rw (h.0) (rw (find-append p ys x t h.1 hx))

pub Lacks-append : (p : ℕ → Bool) (s t : Text) → Lacks p s → Lacks p t → Lacks p (s ++ t)
Lacks-append p [] t hs ht = ht
Lacks-append p (x ∷ xs) t hs ht = (hs.0, Lacks-append p xs t hs.1 ht)

pub Lacks-of : (p : ℕ → Bool) (s : Text) → all (λ c. not (p c)) s ≡ true → Lacks p s
Lacks-of p [] h = tt
Lacks-of p (x ∷ xs) h = elim (Bool-cases (p x)) [
  | inl e ↦ cc (rw e at h)
  | inr e ↦ (e, Lacks-of p xs (rw e at h))
]
