-- ===== src/Go/Paths.antt =====
-- path.Clean, path.Base and path.IsAbs: a path is cut at its slashes, and its components go on a
-- stack, the last one first.
pub mod Cleaning
pub mod Inside
use job_dock.Base.{
  ℕ, Bool, true, false, not, ◌&&◌, ◌||◌, List, [], ◌∷◌, ◌++◌, Text, codes, eqb, is_empty, join,
  if◌then◌else◌, ◌==◌,
}
use job_dock.Go.Bytes.{reverse}

abbrev pub slash : ℕ
slash = 47

abbrev pub dot : Text
dot = 46 ∷ []

abbrev pub dot_dot : Text
dot_dot = 46 ∷ 46 ∷ []

-- The first component and the others.
unfoldable pub cut : Text → Text × List Text
cut [] = ([], [])
cut (c ∷ text) =
    let (part, parts) = cut text in if eqb c slash then ([], part ∷ parts) else (c ∷ part, parts)

unfoldable pub split_path : Text → List Text
split_path text = let (part, parts) = cut text in part ∷ parts

unfoldable pub is_abs : Text → Bool
is_abs [] = false
is_abs (c ∷ text) = eqb c slash

-- A component of `..` takes one off the stack if there is one that is not itself `..`.
unfoldable pub climb : Bool → List Text → List Text
climb rooted [] = if rooted then [] else dot_dot ∷ []
climb rooted (top ∷ stack) = if top == dot_dot then dot_dot ∷ top ∷ stack else stack

unfoldable pub clean_part : Bool → Text → List Text → List Text
clean_part rooted part stack =
    if is_empty part || (part == dot)
    then stack
    else if part == dot_dot
    then climb rooted stack
    else part ∷ stack

unfoldable pub clean_parts : Bool → List Text → List Text → List Text
clean_parts rooted [] stack = stack
clean_parts rooted (part ∷ parts) stack = clean_parts rooted parts (clean_part rooted part stack)

unfoldable pub clean_path : Text → Text
clean_path text =
    let rooted = is_abs text in
    let names = join (slash ∷ []) (reverse (clean_parts rooted (split_path text) [])) in
    if rooted then slash ∷ names else if is_empty names then dot else names

-- The slashes at the end of a path, read from its end.
unfoldable pub drop_slashes : Text → Text
drop_slashes [] = []
drop_slashes (c ∷ text) = let rest = drop_slashes text in if eqb c slash then rest else c ∷ text

unfoldable pub path_base : Text → Text
path_base [] = dot
path_base (c ∷ text) =
    let name = reverse (cut (drop_slashes (reverse (c ∷ text)))).0 in
    if is_empty name then slash ∷ [] else name
