-- ===== src/Common/Md5sum.antt =====
-- roslibrust_common/src/md5sum.rs: the md5sum of an expanded message definition. MD5 is a parameter:
-- the hexadecimal digest of a string. The recursion through the messages runs on fuel.
pub mod Cache
mod Tests
use roslibrust.Base.{
  ℕ, zero, suc, ◌+◌, ◌-◌, Bool, true, false, not, ◌&&◌, ◌||◌, Option, none, some, List, [], ◌∷◌,
  ◌++◌, map, Text, String, codes, text_eq, starts_with, find, drop, split, cons_head, is_whitespace,
  Map, get, insert, member, length, ltb, ◌==◌, if◌then◌else◌, Result, ok, err, panic, diverge,
  ◌>>=◌, any,
}
use roslibrust.Codegen.Strs.{is_empty, trim, trim_end, has, lines}

pub data Md5Error : Type 0 where
  empty_definition empty_root empty_section bad_section no_body unknown_message bad_line : Md5Error

-- `s.split(sep)` for a string, which passes over as many characters first.
abbrev pub split_from : Text → ℕ → Text → List Text
split_from sep skip [] = [] ∷ []
split_from sep (suc skip) (c ∷ s) = split_from sep skip s
split_from sep zero (c ∷ s) =
    let rest = split_from sep zero s in
    let behind = split_from sep (length sep - 1) s in
    if starts_with sep (c ∷ s) then [] ∷ behind else cons_head c rest

abbrev pub split_str : Text → Text → List Text
split_str sep s = split_from sep 0 s

-- `s.replace(from, to)`, which passes over as many characters first.
abbrev pub replace_from : Text → Text → ℕ → Text → Text
replace_from pattern to skip [] = []
replace_from pattern to (suc skip) (c ∷ s) = replace_from pattern to skip s
replace_from pattern to zero (c ∷ s) =
    let rest = replace_from pattern to zero s in
    let behind = replace_from pattern to (length pattern - 1) s in
    if starts_with pattern (c ∷ s) then to ++ behind else c ∷ rest

abbrev pub replace : Text → Text → Text → Text
replace pattern to s = replace_from pattern to 0 s

abbrev pieces : Text → List Text
pieces [] = [] ∷ []
pieces (c ∷ s) = let rest = pieces s in if is_whitespace c then [] ∷ rest else cons_head c rest

abbrev non_empty : List Text → List Text
non_empty [] = []
non_empty (s ∷ ss) = let rest = non_empty ss in if is_empty s then rest else s ∷ rest

abbrev pub split_whitespace : Text → List Text
split_whitespace s = non_empty (pieces s)

abbrev pub join : Text → List Text → Text
join sep [] = []
join sep (s ∷ []) = s
join sep (s ∷ ss) = s ++ (sep ++ join sep ss)

-- The first piece of a `split`, which has at least one.
abbrev pub first : List Text → Text
first [] = []
first (s ∷ ss) = s

-- A line of `clean_msg` behind the test for a comment line.
abbrev pub clean_line : Text → Text
clean_line line =
    replace (codes " = ") (codes "=")
      (join (codes " ") (split_whitespace (trim (first (split b'#' line)))))

-- The constants and the fields, in their order.
unfoldable pub clean_lines : List Text → List Text × List Text
clean_lines [] = ([], [])
clean_lines (raw ∷ rest) =
    let (constants, params) = clean_lines rest in
    let line = clean_line (trim raw) in
    if starts_with (codes "#") (trim raw) || is_empty line
    then (constants, params)
    else if has b'=' line
    then (line ∷ constants, params)
    else (constants, line ∷ params)

unfoldable pub clean_msg : Text → Text
clean_msg msg =
    let (constants, params) = clean_lines (lines msg) in
    trim (join (codes "\n") constants ++ (codes "\n" ++ join (codes "\n") params))

abbrev base_types : List Text
base_types = map codes (
    "bool" ∷ "byte" ∷ "int8" ∷ "int16" ∷ "int32" ∷ "int64" ∷ "uint8" ∷ "uint16" ∷ "uint32"
    ∷ "uint64" ∷ "float32" ∷ "float64" ∷ "time" ∷ "duration" ∷ "string" ∷ [])

-- The full name of a field's type, in a message of the package.
abbrev pub full_field_type : Text → Text → Text
full_field_type pkg_name field_type =
    if text_eq field_type (codes "Header")
    then codes "std_msgs/Header"
    else if has b'/' field_type
    then field_type
    else pkg_name ++ (b'/' ∷ field_type)

abbrev pub Hashes : Type 0
Hashes = Map Text

unfoldable pub is_base_type : Text → Bool
is_base_type field_type = member field_type base_types

abbrev pub get_def : Text → Map Text → Result Md5Error Text
get_def msg_type defs = elim (get msg_type defs) [ none ↦ err unknown_message | some def ↦ ok def ]

module _ (md5 : Text → Text) where
  -- A line of a definition; the call for another message takes and gives the cache.
  abbrev pub hash_type :
      (Text → Hashes → Result Md5Error (Text × Hashes))
      → Text
      → Hashes
      → Result Md5Error (Text × Hashes)
  hash_type sub full_type hashes = elim (get full_type hashes) [
    | some hash_value ↦ ok (hash_value, hashes)
    | none ↦ sub full_type hashes
  ]

  abbrev pub hash_line :
      (Text → Hashes → Result Md5Error (Text × Hashes))
      → Text
      → Text
      → List Text
      → Hashes
      → Result Md5Error (Text × Hashes)
  hash_line sub pkg_name line_raw (raw_field_type ∷ field_name ∷ rest) hashes =
      let field_type = first (split b'[' raw_field_type) in
      if is_base_type field_type then ok (line_raw, hashes) else (do
        (hash, hashes) ← hash_type sub (full_field_type pkg_name field_type) hashes
        ok (replace raw_field_type hash line_raw, hashes))
  hash_line sub pkg_name line_raw _ hashes = err bad_line

  unfoldable pub hash_lines :
      (Text → Hashes → Result Md5Error (Text × Hashes))
      → Text
      → List Text
      → Hashes
      → Result Md5Error (Text × Hashes)
  hash_lines sub pkg_name [] hashes = ok ([], hashes)
  hash_lines sub pkg_name (line_raw ∷ rest) hashes = do
    (line, hashes) ← hash_line sub pkg_name line_raw (split_whitespace line_raw) hashes
    (field_def, hashes) ← hash_lines sub pkg_name rest hashes
    ok (line ++ (codes "\n" ++ field_def), hashes)

  -- `message_definition_to_md5sum_recursive`
  unfoldable pub md5sum_recursive : ℕ → Map Text → Text → Hashes → Result Md5Error (Text × Hashes)
  md5sum_recursive zero defs msg_type hashes = diverge
  md5sum_recursive (suc n) defs msg_type hashes = do
    def ← get_def msg_type defs
    (field_def, hashes) ←
        hash_lines (md5sum_recursive n defs) (first (split b'/' msg_type)) (lines def) hashes
    ok (md5 (trim_end (trim field_def)), insert msg_type (md5 (trim_end (trim field_def))) hashes)

  -- The words of a section's first line; the second is taken by its index.
  abbrev pub second_word : List Text → Result Md5Error Text
  second_word (w ∷ v ∷ ws) = ok v
  second_word _ = panic

  abbrev pub add_body : Text → Text → Option ℕ → Map Text → Result Md5Error (Map Text)
  add_body section section_type none defs = err no_body
  add_body section section_type (some end_of_first_line) defs =
      ok (insert section_type (clean_msg (drop (suc end_of_first_line) section)) defs)

  abbrev pub add_section : Text → List Text → Map Text → Result Md5Error (Map Text)
  add_section section [] defs = err empty_section
  add_section section (line0 ∷ rest) defs =
      if starts_with (codes "MSG: ") line0
      then (do
        section_type ← second_word (split_whitespace line0)
        add_body section section_type (find (λ c. c == 10) section) defs)
      else err bad_section

  unfoldable pub add_sections : List Text → Map Text → Result Md5Error (Map Text)
  add_sections [] defs = ok defs
  add_sections (section ∷ sections) defs = do
    defs ← add_section section (lines section) defs
    add_sections sections defs

  abbrev separator : Text
  separator =
      codes "================================================================================\n"

  -- `from_message_definition`, on one step more than it has messages.
  unfoldable pub from_message_definition : Text → Text → Result Md5Error Text
  from_message_definition msg_name full_def =
      let sections = split_str separator full_def in
      let clean_root = clean_msg (first sections) in
      if is_empty full_def
      then err empty_definition
      else if is_empty clean_root
      then err empty_root
      else (do
        defs ← add_sections (drop 1 sections) (insert msg_name clean_root [])
        (hash, hashes) ← md5sum_recursive (suc (length defs)) defs msg_name []
        ok hash)
