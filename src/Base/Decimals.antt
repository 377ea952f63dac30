-- ===== src/Base/Decimals.antt =====
-- `format!("{}", n)` and `str::parse::<usize>` for numbers.
use Prim.Native.Nat.{ℕ, zero, suc, ◌+◌, ◌/◌, ◌%◌}
use mathlib.Core.List.{[], ◌∷◌}
use roslibrust.Base.Tests.{ltb, if◌then◌else◌}
use roslibrust.Base.Texts.{Text}

-- The digits of `n` before `acc`; `n` rounds are enough.
unfoldable pub digits : ℕ → ℕ → Text → Text
digits zero n acc = acc
digits (suc fuel) n acc =
    let rest = digits fuel (n / 10) ((b'0' + n % 10) ∷ acc) in
    if ltb n 10 then (b'0' + n) ∷ acc else rest

unfoldable pub decimal : ℕ → Text
unfolding digits
decimal n = digits (suc n) n []
