-- ===== src/Store/Builds/Retention.antt =====
-- What of a build may be deleted, and when.
use job_dock.Base.{
  is_empty_of_ne, ◌≡◌, ◌≢◌, refl, sym, ap, ◌∙◌, subst, inl, inr, true, not, ◌||◌, ◌&&◌, List, [],
  ◌∷◌, Text, All-map, All-here, All-Memᴰ, Memᴰ, keep, arith, Bool-cases, any, IsKeyedBy,
  unique_by_key, keep-keep, keep_same, keep-all, any-found, any-Memᴰ, Memᴰ-kept, Memᴰ-keep,
  keep-All,
}
use job_dock.Domain.Status.{deleted}
use job_dock.Domain.Types.{Job}
use job_dock.Domain.Builds.{Build, ManagedArtifact}
use job_dock.Domain.ManagedArtifact.{managed_artifact_reference}
use job_dock.Store.Builds.{transaction, BuildDb, ok, err, conflict, build_row}
use job_dock.Store.Builds.Lifecycle.{delete_build, runs_image, begins}
use job_dock.Store.Builds.Artifacts.{
  garbage_collect_managed_artifacts, drop_all, is_garbage, dropped, reference_of,
}

module _ (before : Text) (db : BuildDb) where
  drop_all-keep :
      (garbage rows : List ManagedArtifact)
      → drop_all before db garbage rows
        ≡ keep (λ row. not (any (λ a. dropped before db a row) garbage)) rows
  unfolding drop_all
  drop_all-keep [] rows = sym (
      keep-all (λ _. true) rows
        (All-map (λ x. Memᴰ x rows) (λ _. true ≡ true) rows (λ _ _. refl) (All-here rows)))
  drop_all-keep (a ∷ garbage) rows =
      drop_all-keep garbage (keep (λ row. not (dropped before db a row)) rows)
      ∙ keep-keep (λ row. not (any (λ x. dropped before db x row) garbage))
          (λ row. not (dropped before db a row)) rows
      ∙ keep_same
          (λ row. not (dropped before db a row) && not (any (λ x. dropped before db x row) garbage))
          (λ row. not (dropped before db a row || any (λ x. dropped before db x row) garbage)) rows
          (All-map (λ x. Memᴰ x rows)
            (λ row.
              (not (dropped before db a row) && not (any (λ x. dropped before db x row) garbage))
              ≡ not (dropped before db a row || any (λ x. dropped before db x row) garbage))
            rows (λ row _. ground arith) (All-here rows))

  dropped-garbage :
      (rows : List ManagedArtifact) (row : ManagedArtifact)
      → IsKeyedBy (λ (a : ManagedArtifact). a.build_id) rows
      → Memᴰ row rows
      → any (λ a. dropped before db a row) (keep (is_garbage before db) rows)
        ≡ is_garbage before db row
  dropped-garbage rows row k m = elim (Bool-cases (is_garbage before db row)) [
    | inl garbage ↦
        any-Memᴰ (λ a. dropped before db a row) (keep (is_garbage before db) rows)
          (Memᴰ-kept (is_garbage before db) rows m garbage) (ground (arith, garbage))
        ∙ sym garbage
    | inr needed ↦
        elim (Bool-cases (any (λ a. dropped before db a row) (keep (is_garbage before db) rows))) [
          | inr none_drops ↦ none_drops ∙ sym needed
          | inl drops ↦
              let (a, found, e) =
                any-found (λ a. dropped before db a row) (keep (is_garbage before db) rows) drops in
              let same : row ≡ a =
                unique_by_key (λ (x : ManagedArtifact). x.build_id) rows row a k m
                  (Memᴰ-keep (is_garbage before db) rows found) (ground (arith, e)) in
              let bad : is_garbage before db a ≡ true =
                All-Memᴰ (λ x. is_garbage before db x ≡ true) (keep (is_garbage before db) rows)
                  (keep-All (is_garbage before db) rows) found in
              absurd (cc (needed, bad, same))
        ]
  ]

-- The collection of artifacts, of which each build has at most one, returns those that were last
-- referenced before the bound and that no job which is not deleted runs, and leaves exactly the
-- others, in their order.
pub garbage_collect_managed_artifacts-keep :
    (before : Text) (db : BuildDb)
    → IsKeyedBy (λ (a : ManagedArtifact). a.build_id) db.artifacts
    → (garbage_collect_managed_artifacts before db ≡ (
      record db { artifacts = keep (λ row. not (is_garbage before db row)) db.artifacts },
      keep (is_garbage before db) db.artifacts,
    ))
unfolding garbage_collect_managed_artifacts
garbage_collect_managed_artifacts-keep before db k =
    let garbage = keep (is_garbage before db) db.artifacts in
    ap (λ (rows : List ManagedArtifact). (record db { artifacts = rows }, garbage))
      (drop_all-keep before db garbage db.artifacts
        ∙ keep_same (λ row. not (any (λ a. dropped before db a row) garbage))
            (λ row. not (is_garbage before db row)) db.artifacts
            (All-map (λ x. Memᴰ x db.artifacts)
              (λ row.
                not (any (λ a. dropped before db a row) garbage) ≡ not (is_garbage before db row))
              db.artifacts (λ row m. ap not (dropped-garbage before db db.artifacts row k m))
              (All-here db.artifacts)))

runs-referenced :
    (id digest : Text) (db : BuildDb) (j : Job)
    → Memᴰ j db.main.jobs
    → j.status ≢ deleted
    → j.spec.image ≡ managed_artifact_reference id digest
    → any (runs_image (managed_artifact_reference id digest)) db.main.jobs ≡ true
runs-referenced id digest db j m alive image =
    any-Memᴰ (runs_image (managed_artifact_reference id digest)) db.main.jobs m
      (ground (arith, alive, image))

refused :
    (id digest : Text) (db : BuildDb) (row : Build)
    → build_row id db ≡ ok row
    → row.oci_digest ≡ digest
    → digest ≢ []
    → any (runs_image (managed_artifact_reference id digest)) db.main.jobs ≡ true
    → delete_build id db ≡ (db, err conflict)
unfolding delete_build transaction
refused id digest db row there digests some_digest runs =
    let named = is_empty_of_ne digest some_digest in
    elim (Bool-cases (begins row.status)) [
      | inl active ↦ rw (there, active) refl
      | inr ended ↦ rw (there, ended, digests, named, runs) refl
    ]

-- While a job that is not deleted runs the image of a build with a digest, the build is not deleted,
-- which is a conflict and changes nothing, and no collection removes its artifact, where each build
-- has at most one.
pub delete_build-protected :
    (id digest : Text) (db : BuildDb) (j : Job) (row : Build) (a : ManagedArtifact) (before : Text)
    → Memᴰ j db.main.jobs
    → j.status ≢ deleted
    → j.spec.image ≡ managed_artifact_reference id digest
    → build_row id db ≡ ok row
    → row.oci_digest ≡ digest
    → digest ≢ []
    → IsKeyedBy (λ (x : ManagedArtifact). x.build_id) db.artifacts
    → Memᴰ a db.artifacts
    → a.build_id ≡ id
    → a.digest ≡ digest
    → (delete_build id db ≡ (db, err conflict))
      × Memᴰ a (garbage_collect_managed_artifacts before db).0.artifacts
unfolding delete_build
delete_build-protected id digest db j row a before m alive image there digests some_digest k here
      of_build with_digest =
    let runs = runs-referenced id digest db j m alive image in
    let reference : reference_of a ≡ managed_artifact_reference id digest =
      ap (λ (t : Text). managed_artifact_reference t a.digest) of_build
      ∙ ap (λ (t : Text). managed_artifact_reference id t) with_digest in
    let needed : any (runs_image (reference_of a)) db.main.jobs ≡ true =
      subst (λ (t : Text). any (runs_image t) db.main.jobs ≡ true) (sym reference) runs in
    let left = garbage_collect_managed_artifacts-keep before db k in
    (
      refused id digest db row there digests some_digest runs,
      subst (λ (r : BuildDb × List ManagedArtifact). Memᴰ a r.0.artifacts) (sym left)
          (Memᴰ-kept (λ x. not (is_garbage before db x)) db.artifacts here
            (ground (arith, needed))),
    )
