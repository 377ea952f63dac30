-- ===== src/Common/TopicName/Tests.antt =====
-- The names of the unit tests.
use roslibrust.Base.{ℕ, ◌≡◌, refl, Bool, true, false, ◌||◌, [], ◌∷◌, codes, all, map, not, ok, err}
use roslibrust.Common.TopicName.{is_alpha, is_digit, is_match, failures, new}
use roslibrust.Common.TopicName.Validity.{new-is_match}

abbrev ascii_alphanumeric : ℕ → Bool
ascii_alphanumeric c = is_alpha c || is_digit c

valid_names :
    all is_match (map codes ("/chatter" ∷ "/foo/bar/baz" ∷ "/foo_bar_baz" ∷ "/abc123/def_456" ∷ []))
    ≡ true
unfolding is_match
valid_names = refl

invalid_names :
    all
      (λ s. not (is_match s))
      (map codes
        ("chatter" ∷ "/chatter/" ∷ "/chatter " ∷ "~chatter" ∷ "/chatter-" ∷ "/empty//bad" ∷ []))
    ≡ true
unfolding is_match
invalid_names = refl

new-is_match_example :
    (is_match (codes "/foo/bar") ≡ true
      → new ascii_alphanumeric (codes "/foo/bar") ≡ ok (record { inner = codes "/foo/bar" }))
    × (is_match (codes "/foo/bar") ≡ false
        → new ascii_alphanumeric (codes "/foo/bar")
          ≡ err (failures ascii_alphanumeric (codes "/foo/bar")))
new-is_match_example = new-is_match ascii_alphanumeric (λ c h. h) (codes "/foo/bar")
