-- ===== src/Base/Strings.antt =====
-- A Go string is its bytes. Comparison and order are those of the Go operators `==` and `<`.
use Prim.Native.Nat.{ℕ}
use Prim.Native.Char.{code}
use Prim.Native.String.{String}
use mathlib.Core.Path.{◌≡◌, refl}
use mathlib.Core.Bool.{Bool, true, false}
use mathlib.Core.List.{List, [], ◌∷◌}
use native.Mathlib.Omega.{arith}
use native.Mathlib.Decide.{ℕ_discrete}
use job_dock.Base.Tests.{ltb, holds, if◌then◌else◌}

abbrev pub Text : Type 0
Text = List ℕ

unfoldable pub Text-discrete : Discrete Text
unfolding ℕ_discrete
Text-discrete = hlevel ℕ_discrete

infix 50 ◌==◌
abbrev pub ◌==◌ : Text → Text → Bool
a == b = holds (Text-discrete a b)

-- A literal of the source, all of which are ASCII.
abbrev pub codes : String → Text
codes String.[] = []
codes (String.◌∷◌ c s) = code c ∷ codes s

unfoldable pub text_ltb : Text → Text → Bool
text_ltb [] [] = false
text_ltb [] (y ∷ ys) = true
text_ltb (x ∷ xs) [] = false
text_ltb (x ∷ xs) (y ∷ ys) = if ltb x y then true else if ltb y x then false else text_ltb xs ys

pub text_ltb_irrefl : (a : Text) → text_ltb a a ≡ false
unfolding text_ltb
text_ltb_irrefl [] = refl
text_ltb_irrefl (x ∷ xs) = ground (arith, text_ltb_irrefl xs)

pub text_ltb_trans :
    (a b c : Text) → text_ltb a b ≡ true → text_ltb b c ≡ true → text_ltb a c ≡ true
unfolding text_ltb
text_ltb_trans [] [] c p q = q
text_ltb_trans [] (y ∷ ys) [] p q = q
text_ltb_trans [] (y ∷ ys) (z ∷ zs) p q = refl
text_ltb_trans (x ∷ xs) [] c p q = ground arith
text_ltb_trans (x ∷ xs) (y ∷ ys) [] p q = q
text_ltb_trans (x ∷ xs) (y ∷ ys) (z ∷ zs) p q = ground (arith, text_ltb_trans xs ys zs)

-- Of two strings neither of which is less, each is the other.
pub text_ltb_antisym : (a b : Text) → text_ltb a b ≡ false → text_ltb b a ≡ false → a ≡ b
unfolding text_ltb
text_ltb_antisym [] [] p q = refl
text_ltb_antisym [] (y ∷ ys) p q = ground arith
text_ltb_antisym (x ∷ xs) [] p q = ground arith
text_ltb_antisym (x ∷ xs) (y ∷ ys) p q = ground (arith, text_ltb_antisym xs ys)
