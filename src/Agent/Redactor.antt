-- ===== src/Agent/Redactor.antt =====
-- internal/agent/redactor.go: the masking of secrets in the output of a container. The secrets are in
-- the order in which the loop over the map takes them.
pub mod Masked
pub mod Stream
use job_dock.Base.{
  ℕ, zero, suc, ◌+◌, ◌-◌, Bool, List, [], ◌∷◌, ◌++◌, Text, length, is_empty, keep, not, eqb, leb,
  ltb, if◌then◌else◌,
}
use job_dock.Go.Bytes.{has_prefix}

pub record StreamRedactor : Type 0 where
  pub secrets : List Text
  pub pending : Text
  pub max : ℕ

unfoldable pub longest : List Text → ℕ
longest [] = 0
longest (value ∷ values) =
    let rest = longest values in if ltb rest (length value) then length value else rest

unfoldable pub new_redactor : List Text → StreamRedactor
unfolding longest
new_redactor values =
    let secrets = keep (λ value. not (is_empty value)) values in
    record { secrets = secrets; pending = []; max = longest secrets }

abbrev pub star : ℕ
star = 42

-- The pass of `mask` for one secret: the first argument counts the bytes of a match that are still
-- to be overwritten; after them the search goes on.
unfoldable pub mask_secret : Text → ℕ → Text → Text
mask_secret secret n [] = []
mask_secret secret (suc n) (c ∷ bytes) = star ∷ mask_secret secret n bytes
mask_secret secret zero (c ∷ bytes) =
    let after = mask_secret secret (length secret - 1) bytes in
    let next = mask_secret secret zero bytes in
    if has_prefix (c ∷ bytes) secret then star ∷ after else c ∷ next

unfoldable pub mask : List Text → Text → Text
mask [] bytes = bytes
mask (secret ∷ secrets) bytes = mask secrets (mask_secret secret zero bytes)

abbrev pub take : ℕ → Text → Text
take zero t = []
take (suc n) [] = []
take (suc n) (c ∷ t) = c ∷ take n t

abbrev pub drop : ℕ → Text → Text
drop zero t = t
drop (suc n) [] = []
drop (suc n) (c ∷ t) = drop n t

unfoldable pub push : Text → StreamRedactor → StreamRedactor × Text
push bytes r =
    if eqb r.max 0
    then (r, bytes)
    else let combined = r.pending ++ bytes in
      if leb (length combined) (r.max - 1)
      then (record r { pending = combined }, [])
      else let cut = length combined - (r.max - 1) in
        let masked = mask r.secrets combined in
        (record r { pending = drop cut masked }, take cut masked)

unfoldable pub flush : StreamRedactor → StreamRedactor × Text
flush r = (record r { pending = [] }, mask r.secrets r.pending)
