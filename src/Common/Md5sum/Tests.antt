-- ===== src/Common/Md5sum/Tests.antt =====
-- Md5sums of concrete definitions, with the text itself in place of its digest.
use roslibrust.Base.{
  ◌≡◌, refl, [], ◌∷◌, Text, codes, split, is_whitespace, Map, get, insert, ok, err, panic, diverge,
  arith,
}
use roslibrust.Codegen.Strs.{trim, trim_start, trim_end, lines, lines_from}
use roslibrust.Common.Md5sum.{
  Hashes, unknown_message, is_base_type, hash_lines, clean_lines, clean_msg, md5sum_recursive,
  add_sections, from_message_definition,
}
use roslibrust.Common.Md5sum.Cache.{
  IsConsistent, plain_lines, plain_md5sum, md5sum_recursive-plain_md5sum,
}

abbrev digest : Text → Text
digest s = s

abbrev pose_and_point : Map Text
pose_and_point =
    (codes "p/Pose", codes "Point a\nPoint b") ∷ (codes "p/Point", codes "int32 x") ∷ []

md5sum_recursive-plain_md5sum_example :
    (later : Hashes) × (md5sum_recursive digest 2 pose_and_point (codes "p/Pose") []
      ≡ ok (codes "int32 x a\nint32 x b", later))
    × IsConsistent digest pose_and_point later
unfolding plain_md5sum plain_lines is_base_type get split trim trim_start trim_end lines
    is_whitespace
md5sum_recursive-plain_md5sum_example =
    md5sum_recursive-plain_md5sum digest 2 pose_and_point (codes "p/Pose")
      (codes "int32 x a\nint32 x b") [] (λ k v x m e p. absurd (ground (arith, e))) refl

-- Constants come first, without comments and spaces that do not count.
clean_msg_1 : clean_msg (codes "# c\nint32   x # d\nuint8 A = 1\n\n") ≡ codes "uint8 A=1\nint32 x"
unfolding clean_msg clean_lines split trim trim_start trim_end lines is_whitespace
clean_msg_1 = refl

-- A section without a type stops the program.
from_message_definition_1 :
    from_message_definition digest (codes "p/T") (
      codes
        "int32 a\n================================================================================\nMSG: \n")
    ≡ panic
unfolding from_message_definition add_sections clean_msg clean_lines split trim trim_start trim_end
    lines lines_from is_whitespace get insert
from_message_definition_1 = refl

-- The name of a field is changed where it has its type's name in it.
from_message_definition_2 :
    from_message_definition digest (codes "p/T") (
      codes
        "Foo inFoo\n================================================================================\nMSG: p/Foo\nint32 a\n")
    ≡ ok (codes "int32 a inint32 a")
unfolding from_message_definition add_sections md5sum_recursive hash_lines is_base_type clean_msg
    clean_lines split trim trim_start trim_end lines lines_from is_whitespace get insert
from_message_definition_2 = refl

-- A field of type `char` is taken for a message.
from_message_definition_3 :
    from_message_definition digest (codes "p/T") (codes "char c") ≡ err unknown_message
unfolding from_message_definition add_sections md5sum_recursive hash_lines is_base_type clean_msg
    clean_lines split trim trim_start trim_end lines lines_from is_whitespace get insert
from_message_definition_3 = refl

-- A message with a field of its own type is followed without end.
from_message_definition_4 : from_message_definition digest (codes "p/T") (codes "T a") ≡ diverge
unfolding from_message_definition add_sections md5sum_recursive hash_lines is_base_type clean_msg
    clean_lines split trim trim_start trim_end lines lines_from is_whitespace get insert
from_message_definition_4 = refl
