-- ===== src/Common/TopicName.antt =====
-- roslibrust_common/src/topic_name.rs. The regular expression is written out as the automaton of
-- its pattern; `char::is_alphanumeric` is a parameter.
pub mod Validity
mod Tests
use roslibrust.Base.{
  is_whitespace, ℕ, Bool, true, false, not, ◌&&◌, ◌||◌, List, [], ◌∷◌, ◌++◌, Text, String, codes,
  starts_with, all, any, leb, ◌==◌, if◌then◌else◌, Result, ok, err,
}

-- The reasons why a name is refused.
pub data Failure : Type 0 where
  no_leading_slash whitespace bad_character trailing_slash no_match : Failure

pub record GlobalTopicName : Type 0 where
  pub inner : Text

abbrev pub is_alpha : ℕ → Bool
is_alpha c = (leb b'A' c && leb c b'Z') || (leb b'a' c && leb c b'z')

abbrev pub is_digit : ℕ → Bool
is_digit c = leb b'0' c && leb c b'9'

-- `[A-Za-z0-9_]`
abbrev pub is_word : ℕ → Bool
is_word c = is_alpha c || (is_digit c || c == b'_')

-- The rest of a name, behind a slash or `inside` a segment that has begun.
unfoldable pub matches : Bool → Text → Bool
matches inside [] = inside
matches inside (x ∷ xs) =
    let word = matches true xs in
    let next = matches false xs in
    if inside then (if x == b'/' then next else is_word x && word) else is_alpha x && word

-- `GLOBAL_NAME_REGEX.is_match`
unfoldable pub is_match : Text → Bool
unfolding matches
is_match [] = false
is_match (x ∷ xs) = x == b'/' && matches false xs

abbrev pub ends_with_slash : Text → Bool
ends_with_slash [] = false
ends_with_slash (x ∷ []) = x == b'/'
ends_with_slash (x ∷ y ∷ ys) = ends_with_slash (y ∷ ys)

-- One reason if the test is met.
abbrev when : Bool → Failure → List Failure
when true e = e ∷ []
when false e = []

abbrev pub validated : Text → List Failure → Result (List Failure) GlobalTopicName
validated name [] = ok (record { inner = name })
validated name (e ∷ es) = err (e ∷ es)

module _ (is_alphanumeric : ℕ → Bool) where
  abbrev pub is_allowed : ℕ → Bool
  is_allowed c = is_alphanumeric c || (c == b'_' || c == b'/')

  abbrev pub failures : Text → List Failure
  failures name =
      when (not (starts_with (codes "/") name)) no_leading_slash
      ++ (when (any is_whitespace name) whitespace
          ++ (when (not (all is_allowed name)) bad_character
              ++ (when (ends_with_slash name) trailing_slash
                  ++ when (not (is_match name)) no_match)))

  -- `GlobalTopicName::new` with `validate_global_name`
  unfoldable pub new : Text → Result (List Failure) GlobalTopicName
  new name = validated name (failures name)
