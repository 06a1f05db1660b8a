-- ===== src/Common/Decimal.antt =====
-- `str(n)` and `f"{n:02d}"` of a natural number: its decimal digits.
use Prim.Native.Nat.{ℕ, zero, suc, ◌+◌, ◌/◌, ◌%◌}
use mathlib.Core.List.{[], ◌∷◌}
use onboard_ai.Common.Tests.{ltb, if◌then◌else◌}
use onboard_ai.Common.Text.{Text}

-- Each round takes one digit off, so that more rounds than the number are enough.
pub digits : ℕ → ℕ → Text → Text
digits zero n out = out
digits (suc fuel) n out =
    let rest = digits fuel (n / 10) ((48 + n % 10) ∷ out) in
    if ltb n 10 then (48 + n) ∷ out else rest

unfoldable pub decimal : ℕ → Text
unfolding digits
decimal n = digits (suc n) n []
