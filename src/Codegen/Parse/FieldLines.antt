-- ===== src/Codegen/Parse/FieldLines.antt =====
-- The lines of a message file that declare a field, as they may be spaced and commented.
use roslibrust.Base.{
  ℕ, ◌≡◌, refl, ap, sym, ◌∙◌, Bool, true, false, ◌&&◌, Option, none, some, List, [], ◌∷◌, ◌++◌,
  append_assoc, append-nil, Text, take-append, ok, Result, ◌>>=◌, ◌==◌, Bool-cases, inl, inr,
  ==_iff,
}
use roslibrust.Codegen.Strs.{is_whitespace, is_empty, trim_start, trim, has}
use roslibrust.Codegen.Types.{RosVersion, ros1, ros2, FieldInfo, ConstantInfo, Package}
use roslibrust.Codegen.Lacks.{Lacks, find-Lacks, find-append, Lacks-append}
use roslibrust.Codegen.Parse.{ParseError, parse_type}
use roslibrust.Codegen.Parse.Fields.{
  split_type_from_line, names_string, strip_comments, is_string_constant_line,
  strip_comments_respecting_string_constants, parse_field, parse_field_name_and_default,
  default_for,
}
use roslibrust.Codegen.Parse.Files.{parse_line}
use roslibrust.Codegen.Parse.Trimming.{
  Spaces, IsWord, is_empty-front, trim_start-Spaces, trim_start-word, trim-line,
  split_type_from_line-words,
}

-- A line of a field: its words, the space between and around them, and what is left behind `#`.
pub record FieldLine : Type 0 where
  pub indent : Text
  pub type_str : Text
  pub separator : ℕ
  pub gap : Text
  pub name : Text
  pub trailing : Text
  pub comment : Text

abbrev words : FieldLine → Text → Text
words l rest = l.indent ++ (l.type_str ++ ((l.separator ∷ l.gap) ++ (l.name ++ rest)))

-- What is parsed of the line.
abbrev line_text : FieldLine → Text
line_text l = l.type_str ++ ((l.separator ∷ l.gap) ++ l.name)

-- The line as it stands in the file.
abbrev pub written : FieldLine → Text
written l = words l (l.trailing ++ l.comment)

abbrev is_hash : ℕ → Bool
is_hash c = c == b'#'

abbrev is_equal : ℕ → Bool
is_equal c = c == b'='

abbrev IsComment : Text → Type 0
IsComment [] = Unit {0}
IsComment (x ∷ xs) = is_hash x ≡ true

pub record IsFieldLine (l : FieldLine) : Type 0 where
  pub indented : Spaces l.indent
  pub typed : IsWord l.type_str
  pub type_hash : Lacks is_hash l.type_str
  pub separated : Spaces (l.separator ∷ l.gap)
  pub named : IsWord l.name
  pub name_hash : Lacks is_hash l.name
  pub name_equal : Lacks is_equal l.name
  pub trailed : Spaces l.trailing
  pub commented : IsComment l.comment
  pub not_constant : (names_string l.type_str && has b'=' l.comment) ≡ false

space_ne : (k c : ℕ) → is_whitespace k ≡ false → is_whitespace c ≡ true → (c == k) ≡ false
space_ne k c hk hc = elim (Bool-cases (c == k)) [
  | inl e ↦ absurd (clash (ap is_whitespace ((==_iff c k).0 e)))
  | inr e ↦ e
]
  where
    clash : is_whitespace c ≡ is_whitespace k → ⊥
    clash e = cc

Spaces-Lacks : (k : ℕ) (s : Text) → is_whitespace k ≡ false → Spaces s → Lacks (λ c. c == k) s
Spaces-Lacks k [] hk h = tt
Spaces-Lacks k (x ∷ xs) hk h = (space_ne k x hk h.0, Spaces-Lacks k xs hk h.1)

has-append : (k : ℕ) (s t : Text) → Lacks (λ c. c == k) s → has k (s ++ t) ≡ has k t
has-append k [] t h = refl
has-append k (x ∷ xs) t h = rw (h.0) (has-append k xs t h.1)

strip_comments-comment : (s c : Text) → Lacks is_hash s → IsComment c → strip_comments (s ++ c) ≡ s
unfolding strip_comments
strip_comments-comment s [] h hc =
    rw (append-nil s) (rw (find-Lacks is_hash s h, strip_comments) refl)
strip_comments-comment s (x ∷ xs) h hc =
    rw (find-append is_hash s x xs h hc, strip_comments) (take-append s (x ∷ xs))

module _ (l : FieldLine) (wf : IsFieldLine l) where
  written-split : written l ≡ words l l.trailing ++ l.comment
  written-split = sym (
      append_assoc l.indent _ l.comment
      ∙ ap (λ t. l.indent ++ t)
          (append_assoc l.type_str _ l.comment
            ∙ ap (λ t. l.type_str ++ t)
                (append_assoc (l.separator ∷ l.gap) _ l.comment
                  ∙ ap (λ t. (l.separator ∷ l.gap) ++ t)
                      (append_assoc l.name l.trailing l.comment))))

  words-Lacks : Lacks is_hash (words l l.trailing)
  unfolding is_whitespace
  words-Lacks = Lacks-append is_hash l.indent _ (Spaces-Lacks b'#' l.indent refl wf.indented) (
      Lacks-append is_hash l.type_str _ wf.type_hash (
        Lacks-append is_hash (l.separator ∷ l.gap) _
          (Spaces-Lacks b'#' (l.separator ∷ l.gap) refl wf.separated)
          (Lacks-append is_hash l.name _ wf.name_hash
            (Spaces-Lacks b'#' l.trailing refl wf.trailed))))

  written-is_string_constant_line : is_string_constant_line (trim_start (written l)) ≡ false
  unfolding is_string_constant_line is_whitespace
  written-is_string_constant_line =
      rw (trim_start-Spaces l.indent _ wf.indented, trim_start-word l.type_str _ wf.typed)
        (rw
          (
            split_type_from_line-words l.type_str l.separator l.gap l.name (l.trailing ++ l.comment)
                wf.typed wf.separated wf.named,
            is_string_constant_line,
          )
          (rw
            (
              has-append b'=' l.name (l.trailing ++ l.comment) wf.name_equal,
              has-append b'=' l.trailing l.comment (Spaces-Lacks b'=' l.trailing refl wf.trailed),
            )
            wf.not_constant))

  stripped : strip_comments_respecting_string_constants (written l) ≡ words l l.trailing
  unfolding strip_comments_respecting_string_constants
  stripped = rw written-is_string_constant_line (
      ap strip_comments written-split
      ∙ strip_comments-comment (words l l.trailing) l.comment words-Lacks wf.commented)

  is_empty-line_text : is_empty (line_text l) ≡ false
  is_empty-line_text = is_empty-front l.type_str _ wf.typed.not_empty

  split-line_text : split_type_from_line (line_text l) ≡ some (l.type_str, l.name)
  split-line_text =
      ap (λ t. split_type_from_line (l.type_str ++ ((l.separator ∷ l.gap) ++ t)))
        (sym (append-nil l.name))
      ∙ split_type_from_line-words l.type_str l.separator l.gap l.name [] wf.typed wf.separated
          wf.named
      ∙ ap (λ t. some (l.type_str, t)) (append-nil l.name)

  has-name : has b'=' l.name ≡ false
  has-name = ap (has b'=') (sym (append-nil l.name)) ∙ has-append b'=' l.name [] wf.name_equal

  trimmed : trim (strip_comments_respecting_string_constants (written l)) ≡ line_text l
  trimmed =
      ap trim stripped
      ∙ trim-line l.indent l.type_str (l.separator ∷ l.gap) l.name l.trailing wf.indented wf.typed
          wf.named wf.trailed

-- What a line of a field is parsed to.
abbrev pub field_of : Package → FieldLine → Result ParseError FieldInfo
field_of pkg l = do
  field_type ← parse_type l.type_str pkg
  ok (record { field_type = field_type; field_name = l.name; default = none })

default_for-none : (v : Option RosVersion) → default_for v none ≡ none
default_for-none none = refl
default_for-none (some ros1) = refl
default_for-none (some ros2) = refl

parse_field_name_and_default-word :
    (s : Text) → Lacks is_whitespace s → parse_field_name_and_default s ≡ some (s, none)
unfolding parse_field_name_and_default
parse_field_name_and_default-word s h =
    rw (find-Lacks is_whitespace s h, parse_field_name_and_default) refl

parse_field-line_text :
    (pkg : Package) (l : FieldLine) → IsFieldLine l → parse_field (line_text l) pkg ≡ field_of pkg l
unfolding parse_field
parse_field-line_text pkg l wf = rw (split-line_text l wf) (
    rw (parse_field_name_and_default-word l.name wf.named.no_space)
      (rw (default_for-none pkg.version) refl))

pub parse_line-written :
    (pkg : Package) (l : FieldLine) (fields : List FieldInfo) (constants : List ConstantInfo)
    → IsFieldLine l
    → parse_line pkg (written l) fields constants
      ≡ (do field ← field_of pkg l; ok (fields ++ (field ∷ []), constants))
unfolding parse_line
parse_line-written pkg l fields constants wf = rw (trimmed l wf) (
    rw (is_empty-line_text l wf, split-line_text l wf)
      (rw (has-name l wf) (rw (parse_field-line_text pkg l wf) refl)))
