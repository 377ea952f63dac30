-- ===== src/Tcpros/Header/RoundTrip.antt =====
-- `from_bytes` on the fields that `to_bytes` writes.
use roslibrust.Base.{
  ◌≢◌, ◌⊎◌, diverge, panic, err, Result-cases, length-drop, take, drop, ℕ, zero, suc, ◌<◌, ◌≤◌, ◌≡◌,
  refl, ◌∙◌, true, List, [], ◌∷◌, ◌++◌, arith, length, length-append, take-append, drop-append, All,
  Text, ge→ltb, ok,
}
use roslibrust.Tcpros.Bytes.{of_le32, u32_mod, le32, of_le32-le32, is_utf8}
use roslibrust.Tcpros.Header.{
  ConnectionHeader, IoError, empty_header, apply_field, from_bytes_loop, from_bytes,
}
use roslibrust.Tcpros.Header.Fields.{encode}

-- A field that the reader accepts: its length fits a `u32`, and it is valid UTF-8.
abbrev pub IsField : Text → Type 0
IsField f = (length f < u32_mod) × (is_utf8 f ≡ true)

unfoldable pub apply_fields : List Text → ConnectionHeader → ConnectionHeader
apply_fields [] h = h
apply_fields (f ∷ fs) h = apply_fields fs (apply_field f h)

-- One round of the loop on a whole field.
from_bytes_loop-field :
    (fuel : ℕ) (f : Text) (more : List ℕ) (h : ConnectionHeader)
    → IsField f
    → from_bytes_loop (suc fuel) ((le32 (length f) ++ f) ++ more) h
      ≡ from_bytes_loop fuel more (apply_field f h)
unfolding from_bytes_loop
from_bytes_loop-field fuel f more h (short, utf8) = rw (
  of_le32-le32 (length f) short,
  take-append f more,
  drop-append f more,
  ge→ltb (length (f ++ more)) (length f) (omega (arith, length-append f more)),
  utf8,
)

-- The reader handles a list of fields one by one, in order.
from_bytes_loop-encode :
    (fs : List Text) (fuel : ℕ) (h : ConnectionHeader)
    → All IsField fs
    → length fs ≤ fuel
    → from_bytes_loop fuel (encode fs) h ≡ ok (apply_fields fs h)
unfolding from_bytes_loop apply_fields
from_bytes_loop-encode [] zero h fits le = refl
from_bytes_loop-encode [] (suc fuel) h fits le = refl
from_bytes_loop-encode (f ∷ fs) zero h fits le = absurd (omega arith)
from_bytes_loop-encode (f ∷ fs) (suc fuel) h (fit, fits) le =
    from_bytes_loop-field fuel f (encode fs) h fit
    ∙ from_bytes_loop-encode fs fuel (apply_field f h) fits (omega arith)

length-encode : (fs : List Text) → length fs ≤ length (encode fs)
length-encode [] = omega arith
length-encode (f ∷ fs) =
    omega (arith, length-append (le32 (length f) ++ f) (encode fs), length-encode fs)

pub from_bytes-encode :
    (fs : List Text) → All IsField fs → from_bytes (encode fs) ≡ ok (apply_fields fs empty_header)
unfolding from_bytes
from_bytes-encode fs fits =
    from_bytes_loop-encode fs (length (encode fs)) empty_header fits (length-encode fs)

-- The loop stops on every input: each round takes four bytes at least.
from_bytes_loop-ends :
    (fuel : ℕ) (bytes : List ℕ) (h : ConnectionHeader)
    → length bytes ≤ fuel
    → (from_bytes_loop fuel bytes h ≢ diverge) × (from_bytes_loop fuel bytes h ≢ panic)
unfolding from_bytes_loop
from_bytes_loop-ends zero [] h le = (λ e. cc, λ e. cc)
from_bytes_loop-ends (suc fuel) [] h le = (λ e. cc, λ e. cc)
from_bytes_loop-ends zero (a ∷ more) h le = absurd (omega arith)
from_bytes_loop-ends (suc fuel) (a ∷ []) h le = (λ e. cc, λ e. cc)
from_bytes_loop-ends (suc fuel) (a ∷ b ∷ []) h le = (λ e. cc, λ e. cc)
from_bytes_loop-ends (suc fuel) (a ∷ b ∷ c ∷ []) h le = (λ e. cc, λ e. cc)
from_bytes_loop-ends (suc fuel) (a ∷ b ∷ c ∷ d ∷ more) h le =
    let n = of_le32 a b c d in
    let (stops, calm) =
      from_bytes_loop-ends fuel (drop n more) (apply_field (take n more) h)
        (omega (arith, length-drop n more)) in
    (λ e. ground (arith, stops), λ e. ground (arith, calm))

-- `from_bytes` returns a header or an error on every input, well formed or not.
pub from_bytes_total :
    (bytes : List ℕ)
    → ((h : ConnectionHeader) × (from_bytes bytes ≡ ok h))
      ⊎ ((e : IoError) × (from_bytes bytes ≡ err e))
unfolding from_bytes
from_bytes_total bytes =
    let (stops, calm) = from_bytes_loop-ends (length bytes) bytes empty_header (omega arith) in
    Result-cases (from_bytes_loop (length bytes) bytes empty_header) stops calm
