-- ===== src/Codegen/Parse/Trimming.antt =====
-- Words and the space around them: `trim`, `trim_start` and the search for the first space.
use roslibrust.Base.{
  ℕ, ◌≡◌, refl, ap, sym, ◌∙◌, true, false, some, [], ◌∷◌, ◌++◌, append_assoc, Text, All,
  take-append, drop-append,
}
use roslibrust.Codegen.Strs.{is_whitespace, is_empty, trim_start, trim_end, trim}
use roslibrust.Codegen.Lacks.{Lacks, find-append}
use roslibrust.Codegen.Parse.Fields.{split_type_from_line}

abbrev pub Spaces : Text → Type 0
Spaces = All (λ c. is_whitespace c ≡ true)

-- A text that is not empty and has no space.
pub record IsWord (s : Text) : Type 0 where
  pub not_empty : is_empty s ≡ false
  pub no_space : Lacks is_whitespace s

pub trim_start-Spaces : (s t : Text) → Spaces s → trim_start (s ++ t) ≡ trim_start t
unfolding trim_start
trim_start-Spaces [] t h = refl
trim_start-Spaces (x ∷ xs) t h = rw (h.0) (trim_start-Spaces xs t h.1)

pub trim_start-word : (s t : Text) → IsWord s → trim_start (s ++ t) ≡ s ++ t
unfolding trim_start
trim_start-word [] t h = absurd (cc (h.not_empty))
trim_start-word (x ∷ xs) t h = rw (h.no_space.0) refl

all_Spaces : (t : Text) → Spaces t → trim_end t ≡ []
unfolding trim_end
all_Spaces [] h = refl
all_Spaces (x ∷ xs) h = rw (all_Spaces xs h.1) (rw (h.0) refl)

is_empty-append : (s t : Text) → is_empty t ≡ false → is_empty (s ++ t) ≡ false
is_empty-append [] t h = h
is_empty-append (x ∷ xs) t h = refl

pub is_empty-front : (s t : Text) → is_empty s ≡ false → is_empty (s ++ t) ≡ false
is_empty-front [] t h = absurd (cc h)
is_empty-front (x ∷ xs) t h = refl

trim_end-Spaces : (s t : Text) → Spaces t → trim_end (s ++ t) ≡ trim_end s
unfolding trim_end
trim_end-Spaces [] t h = all_Spaces t h
trim_end-Spaces (x ∷ xs) t h = rw (trim_end-Spaces xs t h) refl

word_end : (s : Text) → IsWord s → trim_end s ≡ s
unfolding trim_end
word_end [] h = refl
word_end (x ∷ []) h = rw (h.no_space.0) refl
word_end (x ∷ y ∷ ys) h =
    rw (word_end (y ∷ ys) (record { not_empty = refl; no_space = h.no_space.1 })) refl

pub trim_end-word : (s t : Text) → IsWord t → trim_end (s ++ t) ≡ s ++ t
unfolding trim_end
trim_end-word [] t h = word_end t h
trim_end-word (x ∷ xs) t h = rw (trim_end-word xs t h) (rw (is_empty-append xs t h.not_empty) refl)

-- The type, the space and the name of a line are what is left of it.
pub trim-line :
    (indent type_str gap name trailing : Text)
    → Spaces indent
    → IsWord type_str
    → IsWord name
    → Spaces trailing
    → trim (indent ++ (type_str ++ (gap ++ (name ++ trailing)))) ≡ type_str ++ (gap ++ name)
unfolding trim
trim-line indent type_str gap name trailing hi ht hn hs =
    ap trim_end (trim_start-Spaces indent _ hi ∙ trim_start-word type_str _ ht)
    ∙ ap trim_end regroup
    ∙ trim_end-Spaces (type_str ++ (gap ++ name)) trailing hs
    ∙ ap trim_end (sym (append_assoc type_str gap name))
    ∙ trim_end-word (type_str ++ gap) name hn
    ∙ append_assoc type_str gap name
  where
    regroup : type_str ++ (gap ++ (name ++ trailing)) ≡ (type_str ++ (gap ++ name)) ++ trailing
    regroup =
        ap (λ l. type_str ++ l) (sym (append_assoc gap name trailing))
        ∙ sym (append_assoc type_str (gap ++ name) trailing)

-- A line is taken apart behind its first word.
pub split_type_from_line-words :
    (type_str : Text) (x : ℕ) (gap name rest : Text)
    → IsWord type_str
    → Spaces (x ∷ gap)
    → IsWord name
    → split_type_from_line (type_str ++ ((x ∷ gap) ++ (name ++ rest)))
      ≡ some (type_str, name ++ rest)
unfolding split_type_from_line
split_type_from_line-words type_str x gap name rest ht hg hn =
    rw
      (
        find-append is_whitespace type_str x (gap ++ (name ++ rest)) ht.no_space hg.0,
        split_type_from_line,
      )
      (rw
        (
          drop-append type_str (x ∷ (gap ++ (name ++ rest))),
          take-append type_str (x ∷ (gap ++ (name ++ rest))),
        )
        (rw (trim_start-Spaces (x ∷ gap) (name ++ rest) hg, trim_start-word name rest hn)
          (rw (is_empty-front name rest hn.not_empty) refl)))
