-- ===== src/Go/Trim.antt =====
-- strings.TrimSpace: the white space of Unicode, read at the front of the bytes, and from their end
-- with the bytes of each encoding the other way round.
use job_dock.Base.{ℕ, zero, suc, Bool, ◌&&◌, ◌||◌, [], ◌∷◌, Text, eqb, leb, if◌then◌else◌}
use job_dock.Go.Bytes.{reverse}

-- Tab, line feed, vertical tab, form feed, carriage return and space.
abbrev is_ascii_space : ℕ → Bool
is_ascii_space c = leb 9 c && leb c 13 || eqb c 32

-- U+0085 and U+00A0.
abbrev is_pair : ℕ → ℕ → Bool
is_pair a b = eqb a 0xC2 && (eqb b 0x85 || eqb b 0xA0)

-- U+1680, U+2000 to U+200A, U+2028, U+2029, U+202F, U+205F and U+3000.
abbrev is_triple : ℕ → ℕ → ℕ → Bool
is_triple a b c =
    eqb a 0xE1 && eqb b 0x9A && eqb c 0x80
    || eqb a 0xE2
      && eqb b 0x80
      && (leb 0x80 c && leb c 0x8A || eqb c 0xA8 || eqb c 0xA9 || eqb c 0xAF)
    || eqb a 0xE2 && eqb b 0x81 && eqb c 0x9F
    || eqb a 0xE3 && eqb b 0x80 && eqb c 0x80

-- How many bytes the white space at the front has; the tests take the bytes as they come.
unfoldable pub space_width : (ℕ → ℕ → Bool) → (ℕ → ℕ → ℕ → Bool) → Text → ℕ
space_width pair triple [] = 0
space_width pair triple (a ∷ []) = if is_ascii_space a then 1 else 0
space_width pair triple (a ∷ b ∷ []) = if is_ascii_space a then 1 else if pair a b then 2 else 0
space_width pair triple (a ∷ b ∷ c ∷ text) =
    if is_ascii_space a then 1 else if pair a b then 2 else if triple a b c then 3 else 0

-- The rest, the first argument counting bytes of a space that are still to be dropped.
unfoldable pub trim_from : (Text → ℕ) → ℕ → Text → Text
trim_from width n [] = []
trim_from width (suc n) (c ∷ text) = trim_from width n text
trim_from width zero (c ∷ text) =
    let rest = λ (n : ℕ). trim_from width n text in
    elim (width (c ∷ text)) [ zero ↦ c ∷ text | suc n ↦ rest n ]

unfoldable pub trim_left : Text → Text
trim_left text = trim_from (space_width (λ a b. is_pair a b) (λ a b c. is_triple a b c)) 0 text

unfoldable pub trim_space : Text → Text
trim_space text = reverse (
    trim_from (space_width (λ b a. is_pair a b) (λ c b a. is_triple a b c)) 0
      (reverse (trim_left text)))
