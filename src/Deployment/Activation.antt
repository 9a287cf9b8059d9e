-- ===== src/Deployment/Activation.antt =====
-- When monitoring is activated, and that a disabled tripwire stays disabled.
use decepti_forge.Base.{
  ℕ, String, ◌==◌, ◌≡◌, refl, Bool, true, false, not, ◌&&◌, ◌||◌, List, [], ◌∷◌, Option, none, some,
  arith, inl, inr, ◌⊎◌, Bool-cases, Option-cases, All, map,
}
use decepti_forge.Deployment.Status.{Status, deployed, retired, rolled_back}
use decepti_forge.Deployment.Rows.{Item, Deployment, transition}
use decepti_forge.Deployment.Service.{Client, PullRequest, path_of}
use decepti_forge.Deployment.Verify.{
  verify, verify_items, verify_merged, verify_deploy, verify_removal, verify_request, verify_known,
  content_at, has_hash,
}

-- Every item's content at the merge has the approved digest.
abbrev pub Matches : (String → String) → List (String × String) → List Item → Type 0
Matches sha files is' = All (λ i. has_hash sha i (content_at i.target_path files) ≡ true) is'

verify_items-Matches :
    (sha : String → String) (files : List (String × String)) (is' : List Item)
    → (verify_items sha files is').0 ≡ true
    → Matches sha files is'
unfolding verify_items
verify_items-Matches sha files [] h = tt
verify_items-Matches sha files (i ∷ is') h =
    elim (Bool-cases (has_hash sha i (content_at i.target_path files))) [
      | inl fits ↦ (fits, verify_items-Matches sha files is' (rw fits at h))
      | inr differs ↦ absurd (ground (arith, differs))
    ]

abbrev pub is_deployed : Status → Bool
is_deployed deployed = true
is_deployed _ = false

-- The tripwires are as before, and the deployment did not become deployed.
pub record Kept (d d' : Deployment) : Type 0 where
  pub same_wires : d'.wires ≡ d.wires
  pub not_deployed : (not (is_deployed d'.status) || is_deployed d.status) ≡ true

module _ {W : Type 0} (client : Client W) (sha : String → String) (now : ℕ) where
  verify_deploy-cases :
      (merge_sha : String) (d : Deployment) (r : Option (List (String × String)) × W)
      → Kept d (verify_deploy sha client now merge_sha d r).row
        ⊎ ((files : List (String × String)) × (r.0 ≡ some files) × Matches sha files d.items)
  unfolding verify_deploy transition
  verify_deploy-cases merge_sha d (none, w) = inl (ground arith)
  verify_deploy-cases merge_sha d (some files, w) =
      elim (Bool-cases (verify_items sha files d.items).0) [
        | inl ok ↦ inr (files, refl, verify_items-Matches sha files d.items ok)
        | inr bad ↦ inl (rw bad (ground arith))
      ]

  verify_removal-Kept :
      (terminal : Status) (word kind : String) (d : Deployment)
      (r : Option (List (String × String)) × W)
      → is_deployed terminal ≡ false
      → Kept d (verify_removal sha client now terminal word kind d r).row
  unfolding verify_removal transition
  verify_removal-Kept terminal word kind d r h = ground arith

  verify_merged-cases :
      (merge_sha : String) (d : Deployment) (w : W)
      → Kept d (verify_merged sha client now merge_sha d w).row
        ⊎ ((files : List (String × String)) × ((client.get_files_at d.repository merge_sha
                (map path_of d.items)
                w).0
              ≡ some files)
            × Matches sha files d.items)
  unfolding verify_merged
  verify_merged-cases merge_sha d w =
      let got = client.get_files_at d.repository merge_sha (map path_of d.items) w in
      ground (
        arith,
        verify_deploy-cases merge_sha d got,
        verify_removal-Kept retired "retired" "retirement" d got refl,
        verify_removal-Kept rolled_back "rolled_back" "rollback" d got refl,
      )

  verify_request-cases :
      (d : Deployment) (r : Option PullRequest × W)
      → Kept d (verify_request sha client now d r).row
        ⊎ ((pr : PullRequest) × (merge_sha : String) × (files : List (String × String)) × (r.0
              ≡ some pr)
            × (pr.merged ≡ true)
            × (pr.merge_commit ≡ some merge_sha)
            × ((client.get_files_at d.repository merge_sha (map path_of d.items) r.1).0
                ≡ some files)
            × Matches sha files d.items)
  unfolding verify_request transition
  verify_request-cases d (none, w) = inl (ground arith)
  verify_request-cases d (some pr, w) = elim (Bool-cases (pr.closed && not pr.merged)) [
    | inl abandoned ↦ inl (rw abandoned (ground arith))
    | inr open' ↦ elim (Option-cases pr.merge_commit) [
      | inl no_commit ↦ inl (rw (open', no_commit) (ground arith))
      | inr (merge_sha, at) ↦ elim (Bool-cases pr.merged) [
        | inr unmerged ↦ inl (rw (open', at, unmerged) (ground arith))
        | inl merged ↦ elim (verify_merged-cases merge_sha d w) [
          | inl kept ↦ inl (rw (open', at, merged) kept)
          | inr (files, got, fits) ↦ inr (pr, merge_sha, files, refl, merged, at, got, fits)
        ]
      ]
    ]
  ]

  verify_known-cases :
      (known : Option ℕ) (d : Deployment) (w : W)
      → Kept d (verify_known sha client now known d w).row
        ⊎ ((n : ℕ) × (pr : PullRequest) × (merge_sha : String) × (files : List (String × String))
            × (known ≡ some n)
            × ((client.get_pull_request d.repository n w).0 ≡ some pr)
            × (pr.merged ≡ true)
            × (pr.merge_commit ≡ some merge_sha)
            × ((client.get_files_at d.repository merge_sha
                  (map path_of d.items)
                  (client.get_pull_request d.repository n w).1).0
                ≡ some files)
            × Matches sha files d.items)
  unfolding verify_known
  verify_known-cases none d w = inl (ground arith)
  verify_known-cases (some n) d w =
      elim (verify_request-cases d (client.get_pull_request d.repository n w)) [
        | inl kept ↦ inl kept
        | inr (pr, merge_sha, files, found, merged, at, got, fits) ↦
            inr (n, pr, merge_sha, files, refl, found, merged, at, got, fits)
      ]

  -- A verification that activates a tripwire, or makes a deployment deployed, has seen the pull
  -- request of the deployment merged, has read the files at its merge commit, and has found each
  -- item of the deployment among them with the digest that was approved. Any other verification
  -- leaves every tripwire as it was.
  pub activation_needs_merge :
      (o : ℕ) (d : Deployment) (w : W)
      → Kept d (verify sha client now o d w).row
        ⊎ ((n : ℕ) × (pr : PullRequest) × (merge_sha : String) × (files : List (String × String))
            × (d.pull_request ≡ some n)
            × ((client.get_pull_request d.repository n w).0 ≡ some pr)
            × (pr.merged ≡ true)
            × (pr.merge_commit ≡ some merge_sha)
            × ((client.get_files_at d.repository merge_sha
                  (map path_of d.items)
                  (client.get_pull_request d.repository n w).1).0
                ≡ some files)
            × Matches sha files d.items)
  unfolding verify
  activation_needs_merge o d w = elim (Bool-cases (d.organization == o)) [
    | inr foreign ↦ inl (rw foreign (ground arith))
    | inl own ↦ rw own (verify_known-cases d.pull_request d w)
  ]
