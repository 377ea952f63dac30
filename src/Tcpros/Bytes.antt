-- ===== src/Tcpros/Bytes.antt =====
-- Little-endian words and UTF-8, as the byteorder readers and writers and `String::from_utf8` of
-- the standard library treat them in roslibrust_ros1/src/tcpros.rs.
use roslibrust.Base.{
  ℕ, suc, zero, ◌+◌, ◌*◌, ◌/◌, ◌%◌, ◌^◌, ◌<◌, ◌≡◌, Bool, true, false, ◌&&◌, List, [], ◌∷◌, arith,
  ltb, leb, if◌then◌else◌,
}

abbrev pub IsByte : ℕ → Type 0
IsByte b = b < 256

abbrev pub u32_mod : ℕ
u32_mod = 2 ^ 32

-- `(n as u32).to_le_bytes()`: the lowest four bytes, lowest first.
abbrev pub le32 : ℕ → List ℕ
le32 n = (n % 256) ∷ (n / 256 % 256) ∷ (n / 65536 % 256) ∷ (n / 16777216 % 256) ∷ []

-- `u32::from_le_bytes`
abbrev pub of_le32 : ℕ → ℕ → ℕ → ℕ → ℕ
of_le32 a b c d = a + 256 * b + 65536 * c + 16777216 * d

pub of_le32-le32 :
    (n : ℕ)
    → n < u32_mod
    → of_le32 (n % 256) (n / 256 % 256) (n / 65536 % 256) (n / 16777216 % 256) ≡ n
of_le32-le32 n h = omega arith

-- `String::from_utf8(v).is_ok()`: `need` continuation bytes are due, the next of them between
-- `lo` and `hi`.
abbrev pub utf8_from : ℕ → ℕ → ℕ → List ℕ → Bool
utf8_from zero lo hi [] = true
utf8_from (suc need) lo hi [] = false
utf8_from (suc need) lo hi (b ∷ bs) = leb lo b && leb b hi && utf8_from need 0x80 0xbf bs
utf8_from zero lo hi (b ∷ bs) =
    let lead = λ (l h : ℕ). leb l b && leb b h in
    let one = utf8_from 1 0x80 0xbf bs in
    let two_low = utf8_from 2 0xa0 0xbf bs in
    let two = utf8_from 2 0x80 0xbf bs in
    let two_high = utf8_from 2 0x80 0x9f bs in
    let three_low = utf8_from 3 0x90 0xbf bs in
    let three = utf8_from 3 0x80 0xbf bs in
    let three_high = utf8_from 3 0x80 0x8f bs in
    let plain = utf8_from 0 0 0 bs in
    if ltb b 0x80
    then plain
    else if lead 0xc2 0xdf
    then one
    else if lead 0xe0 0xe0
    then two_low
    else if lead 0xed 0xed
    then two_high
    else if lead 0xe1 0xef
    then two
    else if lead 0xf0 0xf0
    then three_low
    else if lead 0xf4 0xf4
    then three_high
    else if lead 0xf1 0xf3
    then three
    else false

unfoldable pub is_utf8 : List ℕ → Bool
is_utf8 bs = utf8_from 0 0 0 bs
