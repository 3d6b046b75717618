-- ===== src/Store/Builds/Agreement.antt =====
-- internal/store: a build and its assignment. A build is under way exactly if it has an assignment
-- that is open and that nobody asked to cancel.
pub mod Updates
pub mod Queueing
pub mod Ending
pub mod Invariant
pub mod Stale
use job_dock.Base.{
  ◌≡◌, ◌≢◌, refl, sym, ap, ◌∙◌, subst, Bool, true, false, not, ◌||◌, ◌&&◌, List, [], ◌∷◌, ◌++◌,
  Text, All, All-map, All-here, Memᴰ, keep, any, map, arith, ◌==◌, IsKeyedBy, IsKeyedBy-snoc,
  map-IsKeyedBy, if◌then◌else◌,
}
use job_dock.Domain.Builds.{Build, BuildAssignment, ◌is_build◌, ◌is_assignment◌, build_building}
use job_dock.Store.Tables.{update}
use job_dock.Store.Builds.{BuildDb}
use job_dock.Store.Builds.Completion.{is_open}
use job_dock.Store.Builds.Marks.{marks, marks-snoc, marks-kept}

abbrev pub build_id_of : BuildAssignment → Text
build_id_of a = a.build_id

abbrev pub assignment_id_of : BuildAssignment → Text
assignment_id_of a = a.id

abbrev pub id_of : Build → Text
id_of b = b.id

abbrev pub is_under_way : Build → Bool
is_under_way b = b.status is_build build_building

abbrev pub is_live : BuildAssignment → Bool
is_live a = is_open a.status && not a.cancel_requested

pub record Agrees (db : BuildDb) : Type 0 where
  pub built : IsKeyedBy id_of db.builds
  pub named : IsKeyedBy assignment_id_of db.build_assignments
  pub one : IsKeyedBy build_id_of db.build_assignments
  pub agree :
      (i : Text)
      → marks id_of is_under_way i db.builds ≡ marks build_id_of is_live i db.build_assignments

-- How the marks of each key change.
abbrev pub Effect : Type 0
Effect = Text → Bool → Bool

abbrev pub stays : Effect
stays i was = was

abbrev pub turns_on : Text → Effect
turns_on id i was = was || (id == i)

abbrev pub turns_off : Text → Effect
turns_off id i was = was && not (id == i)

pub record BuildsShift (e : Effect) (before after : List Build) : Type 0 where
  pub keyed : IsKeyedBy id_of before → IsKeyedBy id_of after
  pub marked :
      (i : Text) → marks id_of is_under_way i after ≡ e i (marks id_of is_under_way i before)

pub record AssignmentsShift (e : Effect) (before after : List BuildAssignment) : Type 0 where
  pub named : IsKeyedBy assignment_id_of before → IsKeyedBy assignment_id_of after
  pub one : IsKeyedBy build_id_of before → IsKeyedBy build_id_of after
  pub marked :
      (i : Text) → marks build_id_of is_live i after ≡ e i (marks build_id_of is_live i before)

-- Where the two tables shift alike, they go on to agree.
pub shift-Agrees :
    (e : Effect) (db db' : BuildDb)
    → Agrees db
    → BuildsShift e db.builds db'.builds
    → AssignmentsShift e db.build_assignments db'.build_assignments
    → Agrees db'
shift-Agrees e db db' a bs ts = record {
  built = bs.keyed a.built;
  named = ts.named a.named;
  one = ts.one a.one;
  agree = λ i. bs.marked i ∙ ap (e i) (a.agree i) ∙ sym (ts.marked i);
}

pub builds-stay : (before after : List Build) → before ≡ after → BuildsShift stays before after
builds-stay before after same =
    subst (λ (rows : List Build). BuildsShift stays before rows) same
      (record { keyed = λ k. k; marked = λ i. refl })

pub assignments-stay :
    (before after : List BuildAssignment) → before ≡ after → AssignmentsShift stays before after
assignments-stay before after same =
    subst (λ (rows : List BuildAssignment). AssignmentsShift stays before rows) same
      (record { named = λ k. k; one = λ k. k; marked = λ i. refl })

-- An UPDATE that leaves the names alone.
pub update-IsKeyedBy :
    {A : Type 0} (key : A → Text) (test : A → Bool) (set : A → A) (rows : List A)
    → ((x : A) → key (set x) ≡ key x)
    → IsKeyedBy key rows
    → IsKeyedBy key (update test set rows)
update-IsKeyedBy key test set rows keeps k =
    map-IsKeyedBy key (λ x. if test x then set x else x) rows (λ x. ground (arith, keeps x)) k

pub everywhere : {A : Type 0} (P : A → Type 0) (rows : List A) → ((x : A) → P x) → All P rows
everywhere P [] h = tt
everywhere P (x ∷ rows) h = (h x, everywhere P rows h)
