-- ===== src/Tests/References.antt =====
-- A reference to a managed image.
use job_dock.Base.{refl, true, ◌↔◌, Text, ◌≡◌, codes}
use job_dock.Domain.ManagedArtifact.{
  matched_digest, matched_rest, until_mark, strip_prefix, managed_artifact_reference,
  parse_managed_artifact_reference, managed, is_digest,
}
use job_dock.Domain.ManagedArtifact.Reading.{parse_managed_artifact_reference-managed, is_name}

abbrev pub digest : Text
digest = codes "sha256:0123456789abcdef0123456789abcdef0123456789abcdef0123456789abcdef"

abbrev reference : Text
reference =
    codes
      "jobdock://build/b1@sha256:0123456789abcdef0123456789abcdef0123456789abcdef0123456789abcdef"

parse_managed_artifact_reference-managed_example :
    (parse_managed_artifact_reference reference ≡ managed (codes "b1") digest)
    ↔ (reference ≡ managed_artifact_reference (codes "b1") digest)
      × (is_name (codes "b1") ≡ true)
      × (is_digest digest ≡ true)
parse_managed_artifact_reference-managed_example =
    parse_managed_artifact_reference-managed reference (codes "b1") digest

reads_it : parse_managed_artifact_reference reference ≡ managed (codes "b1") digest
unfolding parse_managed_artifact_reference strip_prefix until_mark matched_rest matched_digest
    is_digest
reads_it = refl
