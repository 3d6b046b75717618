-- ===== src/Base/Decimal.antt =====
-- strconv.Itoa and strings.Join.
use Prim.Native.Nat.{ℕ, zero, suc, ◌+◌, ◌-◌, ◌/◌, ◌%◌}
use mathlib.Core.List.{List, [], ◌∷◌, ◌++◌}
use job_dock.Base.Tests.{ltb, if◌then◌else◌}
use job_dock.Base.Strings.{Text}
use job_dock.Base.Words.{Int64, modulus, sign_bit}

-- A value below 2 ^ 64 has at most twenty digits.
unfoldable pub decimal : ℕ → ℕ → Text → Text
decimal zero n digits = digits
decimal (suc fuel) n digits =
    let more = decimal fuel (n / 10) ((b'0' + n % 10) ∷ digits) in
    if ltb n 10 then (b'0' + n) ∷ digits else more

unfoldable pub itoa : Int64 → Text
unfolding decimal
itoa n = if ltb n sign_bit then decimal 20 n [] else b'-' ∷ decimal 20 (modulus - n) []

unfoldable pub join : Text → List Text → Text
join sep [] = []
join sep (part ∷ []) = part
join sep (part ∷ next ∷ parts) = part ++ sep ++ join sep (next ∷ parts)
