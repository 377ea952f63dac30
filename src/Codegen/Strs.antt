-- ===== src/Codegen/Strs.antt =====
-- The methods of `str` that roslibrust_codegen/src/parse uses, on lists of code points.
unfoldable pub use roslibrust.Base.{split, cons_head, is_whitespace}
use roslibrust.Base.{
  ℕ, suc, ◌+◌, ◌-◌, ◌*◌, ◌^◌, Bool, true, false, ◌&&◌, ◌||◌, Option, none, some, List, [], ◌∷◌,
  ◌++◌, Text, starts_with, drop, length, ltb, leb, ◌==◌, if◌then◌else◌,
}

abbrev pub is_empty : Text → Bool
is_empty [] = true
is_empty (x ∷ xs) = false

unfoldable pub trim_start : Text → Text
unfolding is_whitespace
trim_start [] = []
trim_start (x ∷ xs) = let rest = trim_start xs in if is_whitespace x then rest else x ∷ xs

unfoldable pub trim_end : Text → Text
unfolding is_whitespace
trim_end [] = []
trim_end (x ∷ xs) =
    let rest = trim_end xs in if is_empty rest && is_whitespace x then [] else x ∷ rest

unfoldable pub trim : Text → Text
unfolding trim_start trim_end
trim s = trim_end (trim_start s)

-- `s.contains(c)`
abbrev pub has : ℕ → Text → Bool
has c [] = false
has c (x ∷ xs) = x == c || has c xs

abbrev shift : Option ℕ → Option ℕ
shift none = none
shift (some n) = some (suc n)

-- `s.find(p)` for a text `p`
unfoldable pub find_str : Text → Text → Option ℕ
find_str p [] = if is_empty p then some 0 else none
find_str p (x ∷ xs) =
    let rest = find_str p xs in if starts_with p (x ∷ xs) then some 0 else shift rest

-- `s.strip_prefix(p)`
abbrev pub strip_prefix : Text → Text → Option Text
strip_prefix p s = if starts_with p s then some (drop (length p) s) else none

abbrev pub usize_mod : ℕ
usize_mod = 2 ^ 64

-- `s.parse::<usize>()` behind the sign.
unfoldable pub parse_digits : ℕ → Text → Option ℕ
parse_digits acc [] = some acc
parse_digits acc (x ∷ xs) =
    let next = acc * 10 + (x - b'0') in
    let rest = parse_digits next xs in
    if leb b'0' x && (leb x b'9' && ltb next usize_mod) then rest else none

-- `s.parse::<usize>()`: a `+` may stand in front; an empty number is an error.
unfoldable pub parse_usize : Text → Option ℕ
unfolding parse_digits
parse_usize [] = none
parse_usize (x ∷ []) = if x == b'+' then none else parse_digits 0 (x ∷ [])
parse_usize (x ∷ y ∷ ys) =
    if x == b'+' then parse_digits 0 (y ∷ ys) else parse_digits 0 (x ∷ y ∷ ys)

-- `s.lines()`: what stands before each line feed, without a carriage return at its end, and what
-- is left behind the last one.
abbrev pub strip_cr : Text → Text
strip_cr [] = []
strip_cr (x ∷ []) = if x == 13 then [] else x ∷ []
strip_cr (x ∷ y ∷ ys) = x ∷ strip_cr (y ∷ ys)

unfoldable pub lines_from : Text → Text → List Text
lines_from current [] = if is_empty current then [] else current ∷ []
lines_from current (x ∷ xs) = elim (x == 10) [
  | true ↦ strip_cr current ∷ lines_from [] xs
  | false ↦ lines_from (current ++ (x ∷ [])) xs
]

unfoldable pub lines : Text → List Text
unfolding lines_from
lines s = lines_from [] s
