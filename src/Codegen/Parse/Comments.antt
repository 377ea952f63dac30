-- ===== src/Codegen/Parse/Comments.antt =====
-- A comment with an equals sign behind a string field, in roslibrust_codegen/src/parse/mod.rs.
use roslibrust.Base.{
  ℕ, suc, ◌+◌, ◌≡◌, refl, ap, sym, ◌∙◌, true, some, List, [], ◌∷◌, ◌++◌, append_assoc, Text, length,
  take-append, drop, ok, arith, ==_refl, Bool-cases, inl, inr, drop-past, ◌==◌, codes,
}
use roslibrust.Codegen.Strs.{is_whitespace, trim, trim_end, has, split}
use roslibrust.Codegen.Types.{Package, FieldType, FieldInfo, ConstantInfo}
use roslibrust.Codegen.Lacks.{Lacks, find-append, Lacks-append}
use roslibrust.Codegen.Parse.{parse_type, parse_field_type, parse_bounded_string, is_intrinsic_type}
use roslibrust.Codegen.Parse.Fields.{
  split_type_from_line, parse_constant_field, strip_comments_respecting_string_constants,
  is_string_constant_line,
}
use roslibrust.Codegen.Parse.Files.{parse_line}
use roslibrust.Codegen.Parse.Trimming.{
  IsWord, trim_start-word, split_type_from_line-words, trim_end-word,
}

-- What stands behind the type in `string NAME #BEFORE=AFTER`, up to the equals sign.
abbrev before_equal : Text → Text → Text
before_equal name before = name ++ (b' ' ∷ (b'#' ∷ before))

abbrev pub string_line : Text → Text → Text → Text
string_line name before after =
    codes "string" ++ ((b' ' ∷ []) ++ (name ++ ((b' ' ∷ (b'#' ∷ before)) ++ (b'=' ∷ after))))

string-IsWord : IsWord (codes "string")
unfolding is_whitespace
string-IsWord = record {
  not_empty = refl;
  no_space = (refl, (refl, (refl, (refl, (refl, (refl, tt))))));
}

has-behind : (k : ℕ) (s t : Text) → has k (s ++ (k ∷ t)) ≡ true
has-behind k [] t = rw (==_refl k) refl
has-behind k (x ∷ xs) t = elim (Bool-cases (x == k)) [
  | inl e ↦ rw e refl
  | inr e ↦ rw e (has-behind k xs t)
]

drop-behind : (s : Text) (x : ℕ) (t : Text) → drop (length s + 1) (s ++ (x ∷ t)) ≡ t
drop-behind s x t =
    let n : length s + 1 ≡ suc (length s) = omega arith in
    ap (λ k. drop k (s ++ (x ∷ t))) n ∙ drop-past s x t

parse_type-string :
    (pkg : Package)
    → (ft : FieldType) × (parse_type (codes "string") pkg ≡ ok ft)
      × (ft.field_type ≡ codes "string")
unfolding parse_type parse_field_type parse_bounded_string is_intrinsic_type split
parse_type-string pkg = (_, refl, refl)

module _ (name before after : Text) (named : IsWord name) (ended : IsWord after) where
  line-split :
      split_type_from_line (string_line name before after)
      ≡ some (codes "string", name ++ ((b' ' ∷ (b'#' ∷ before)) ++ (b'=' ∷ after)))
  unfolding is_whitespace
  line-split =
      split_type_from_line-words (codes "string") b' ' [] name
        ((b' ' ∷ (b'#' ∷ before)) ++ (b'=' ∷ after)) string-IsWord (refl, tt) named

  regroup :
      name ++ ((b' ' ∷ (b'#' ∷ before)) ++ (b'=' ∷ after))
      ≡ before_equal name before ++ (b'=' ∷ after)
  regroup = sym (append_assoc name (b' ' ∷ (b'#' ∷ before)) (b'=' ∷ after))

  has-rest : has b'=' (name ++ ((b' ' ∷ (b'#' ∷ before)) ++ (b'=' ∷ after))) ≡ true
  has-rest = ap (has b'=') regroup ∙ has-behind b'=' (before_equal name before) after

  unstripped :
      strip_comments_respecting_string_constants (string_line name before after)
      ≡ string_line name before after
  unfolding strip_comments_respecting_string_constants is_string_constant_line
  unstripped =
      rw
        (trim_start-word (codes "string")
          ((b' ' ∷ []) ++ (name ++ ((b' ' ∷ (b'#' ∷ before)) ++ (b'=' ∷ after)))) string-IsWord)
        (rw (line-split, is_string_constant_line) (rw has-rest refl))

  untrimmed : trim (string_line name before after) ≡ string_line name before after
  unfolding trim
  untrimmed =
      ap trim_end (
        trim_start-word (codes "string")
          ((b' ' ∷ []) ++ (name ++ ((b' ' ∷ (b'#' ∷ before)) ++ (b'=' ∷ after)))) string-IsWord)
      ∙ ap trim_end ends
      ∙ trim_end-word (codes "string" ++ ((b' ' ∷ []) ++ (before_equal name before ++ (b'=' ∷ []))))
          after ended
      ∙ sym ends
    where
      ends :
          string_line name before after
          ≡ (codes "string" ++ ((b' ' ∷ []) ++ (before_equal name before ++ (b'=' ∷ [])))) ++ after
      ends =
          ap (λ t. codes "string" ++ ((b' ' ∷ []) ++ t))
            (regroup ∙ sym (append_assoc (before_equal name before) (b'=' ∷ []) after))

-- A string field with a comment that holds an equals sign is read as a constant, whose name is the
-- field's name with the comment up to the equals sign and whose value is the rest of the comment.
pub string_comment_becomes_constant :
    (pkg : Package) (name before after : Text) (fields : List FieldInfo)
    (constants : List ConstantInfo)
    → IsWord name
    → Lacks (λ c. c == b'=') name
    → Lacks (λ c. c == b'=') before
    → IsWord after
    → parse_line pkg (string_line name before after) fields constants
      ≡ ok (
        fields,
        constants
            ++ (record {
              constant_type = codes "string";
              constant_name = trim (before_equal name before);
              constant_value = trim after;
            }
                ∷ []),
      )
unfolding parse_line parse_constant_field
string_comment_becomes_constant pkg name before after fields constants named hn hb ended =
    let (ft, parsed, typed) = parse_type-string pkg in
    rw (unstripped name before after named ended) (
      rw (untrimmed name before after named ended) (
        rw (line-split name before after named ended) (
          rw (has-rest name before after named ended) (
            rw (regroup name before after named ended) (
              rw
                (find-append (λ c. c == b'=') (before_equal name before) b'=' after
                  (Lacks-append (λ c. c == b'=') name _ hn (refl, (refl, hb))) refl)
                (rw parsed (
                  rw
                    (
                      take-append (before_equal name before) (b'=' ∷ after),
                      drop-behind (before_equal name before) b'=' after,
                    )
                    (rw typed refl))))))))
