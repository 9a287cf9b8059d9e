-- ===== src/Learning/Tests.antt =====
-- A calibration model through its review.
use decepti_forge.Base.{◌≡◌, ◌↔◌, refl, true, false, some, ◌⊎◌}
use decepti_forge.Learning.Versions.{
  organization, under_review, approved, active, rejected, rolled_back, VersionView, to, activate,
  approve, ensure_same_organization, transition_allowed,
}
use decepti_forge.Learning.Lifecycle.{activate_iff}

abbrev version : VersionView
version = record {
  organization_id = some 7;
  scope = organization;
  status = under_review;
  feature_schema = "v1";
  requested_by = some 1;
  safety_preserved = true;
}

abbrev rejected_version : VersionView
rejected_version = record version { status = rejected }

activate_iff_example : (activate "v1" version 7 false ≡ to active) ↔ (
    (organization ≡ organization)
    × (version.organization_id ≡ some 7)
    × ((under_review ≡ approved) ⊎ (under_review ≡ rolled_back))
    × (version.feature_schema ≡ "v1")
    × (true ≡ true))
activate_iff_example = activate_iff "v1" version 7 false

approved_by_other : approve version 7 (some 2) ≡ to approved
unfolding approve ensure_same_organization transition_allowed
approved_by_other = refl
