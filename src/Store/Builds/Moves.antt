-- ===== src/Store/Builds/Moves.antt =====
-- The status of every build under the operations.
use job_dock.Base.{
  ◌≡◌, ◌≢◌, refl, sym, ◌⊎◌, inl, inr, Bool, true, false, List, [], ◌∷◌, ◌++◌, Text, any, All,
  All-map, All-here, All-snoc, All-keep, Memᴰ, keep, arith, Bool-cases,
}
use job_dock.Domain.Builds.{Build, BuildStatus, can_build_transition}
use job_dock.Store.Tables.{update}
use job_dock.Store.Builds.{has_build_id}

-- Every build of the second table has the name of one of the first, from whose status its own is
-- permitted, or a name that is new.
abbrev pub Came : List Build → Build → Type 0
Came before b =
    ((a : Build) × Memᴰ a before × (a.id ≡ b.id) × (can_build_transition a.status b.status ≡ true))
    ⊎ All (λ (a : Build). a.id ≢ b.id) before

abbrev pub Moves : List Build → List Build → Type 0
Moves before after = All (Came before) after

pub can_build_transition_refl : (s : BuildStatus) → can_build_transition s s ≡ true
unfolding can_build_transition
can_build_transition_refl s = ground arith

pub Moves-refl : (rows : List Build) → Moves rows rows
Moves-refl rows =
    All-map (λ b. Memᴰ b rows) (Came rows) rows
      (λ b m. inl (b, m, refl, can_build_transition_refl b.status)) (All-here rows)

pub Moves-keep : (test : Build → Bool) (rows : List Build) → Moves rows (keep test rows)
Moves-keep test rows = All-keep (Came rows) test rows (Moves-refl rows)

-- An UPDATE that sets no name and only permitted statuses.
update-Came :
    (test : Build → Bool) (set : Build → Build) (all rows : List Build)
    → ((b : Build)
        → test b ≡ true
        → ((set b).id ≡ b.id) × (can_build_transition b.status (set b).status ≡ true))
    → All (λ b. Memᴰ b all) rows
    → All (Came all) (update test set rows)
update-Came test set all [] h m = tt
update-Came test set all (b ∷ rows) h m =
    let rest = update-Came test set all rows h m.1 in
    elim (Bool-cases (test b)) [
      | inl hit ↦
          let (named, permitted) = h b hit in rw hit (inl (b, m.0, sym named, permitted), rest)
      | inr miss ↦ rw miss (inl (b, m.0, refl, can_build_transition_refl b.status), rest)
    ]

pub Moves-update :
    (test : Build → Bool) (set : Build → Build) (rows : List Build)
    → ((b : Build)
        → test b ≡ true
        → ((set b).id ≡ b.id) × (can_build_transition b.status (set b).status ≡ true))
    → Moves rows (update test set rows)
Moves-update test set rows h = update-Came test set rows rows h (All-here rows)

none_named :
    (id : Text) (rows : List Build)
    → any (has_build_id id) rows ≡ false
    → All (λ (a : Build). a.id ≢ id) rows
none_named id [] h = tt
none_named id (a ∷ rows) h = ((λ e. ground (arith, h, e)), none_named id rows (ground (arith, h)))

pub Moves-snoc :
    (b : Build) (rows : List Build)
    → any (has_build_id b.id) rows ≡ false
    → Moves rows (rows ++ b ∷ [])
Moves-snoc b rows new =
    All-snoc (Came rows) rows b (Moves-refl rows) (inr (none_named b.id rows new))
