-- ===== src/Base/Words.antt =====
-- Go's int64 (and int, which has 64 bits here) as its two's complement bit pattern, a number
-- below 2 ^ 64. Sums and differences wrap; an order is by the signed value.
use Prim.Native.Nat.{ℕ, ◌+◌, ◌-◌, ◌%◌, ◌<◌, ◌≤◌}
use mathlib.Core.Path.{◌≡◌}
use mathlib.Core.Bool.{true, Bool}
use native.Mathlib.Omega.{arith}
use job_dock.Base.Tests.{ltb, eqb}

abbrev pub Int64 : Type 0
Int64 = ℕ

-- 2 ^ 64, and 2 ^ 63, the first pattern of a negative value.
abbrev pub modulus : ℕ
modulus = 0x1_0000_0000_0000_0000

abbrev pub sign_bit : ℕ
sign_bit = 0x8000_0000_0000_0000

unfoldable pub add64 : Int64 → Int64 → Int64
add64 a b = (a + b) % modulus

unfoldable pub sub64 : Int64 → Int64 → Int64
sub64 a b = (a + modulus - b) % modulus

-- The signed values in their order: flipping the sign bit makes the order that of the patterns.
unfoldable pub rank : Int64 → ℕ
rank a = (a + sign_bit) % modulus

unfoldable pub slt : Int64 → Int64 → Bool
slt a b = ltb (rank a) (rank b)

unfoldable pub eq64 : Int64 → Int64 → Bool
eq64 a b = eqb (rank a) (rank b)

-- The pattern of a value that is not negative.
abbrev pub IsAmount : Int64 → Type 0
IsAmount a = a < sign_bit

-- Amounts are compared as numbers.
pub slt-amount : (a b : ℕ) → IsAmount a → IsAmount b → slt a b ≡ ltb a b
unfolding slt rank
slt-amount a b ha hb = ground arith

pub add64-amount : (a b t : ℕ) → IsAmount t → a + b ≤ t → add64 a b ≡ a + b
unfolding add64
add64-amount a b t ht h = omega arith

pub sub64-amount : (a b : ℕ) → IsAmount a → b ≤ a → sub64 a b ≡ a - b
unfolding sub64
sub64-amount a b ha h = omega arith

-- What is free of a total, compared with a request. An allocation above the total leaves a
-- negative difference, which every request exceeds.
pub slt-sub64 :
    (t a r : ℕ) → IsAmount t → IsAmount a → IsAmount r → slt (sub64 t a) r ≡ ltb t (a + r)
unfolding slt rank sub64
slt-sub64 t a r ht ha hr = ground arith

pub eq64-amount : (a b : ℕ) → IsAmount a → IsAmount b → eq64 a b ≡ eqb a b
unfolding eq64 rank
eq64-amount a b ha hb = ground arith

pub eq64_refl : (a : ℕ) → eq64 a a ≡ true
unfolding eq64
eq64_refl a = ground arith
