-- ===== src/Deployment/Verify.antt =====
-- `DeploymentService.verify` and the removal: what follows a merged pull request.
use decepti_forge.Base.{
  ℕ, String, ◌==◌, ltb, text_append, Bool, true, false, not, ◌&&◌, List, [], ◌∷◌, Option, none,
  some, if◌then◌else◌, str_eq, map, length,
}
use decepti_forge.Deployment.Status.{
  Status, deploying, deployed, deployed_unmonitored, verification_failed, cancelled, retiring,
  retired, rollback_pending, rolled_back,
}
use decepti_forge.Deployment.Rows.{
  Item, Change, Preview, Deployment, transition, add_audit, activate_tripwires, active_tripwires,
}
use decepti_forge.Deployment.Service.{
  PullRequest, Client, Run, not_found, client_error, finish, unchanged, path_of,
}

-- `merged.get(path)`
unfoldable pub content_at : String → List (String × String) → Option String
content_at path [] = none
content_at path ((p, c) ∷ files) = if str_eq p path then some c else content_at path files

abbrev pub changes_of : Option Preview → List Change
changes_of none = []
changes_of (some p) = p.changes

-- Every item's new status.
abbrev pub mark_items : String → List Item → List Item
mark_items word [] = []
mark_items word (i ∷ is') = record i { item_status = word } ∷ mark_items word is'

module _ (sha : String → String) where
  -- Whether the merged content of an item is the approved one.
  abbrev pub has_hash : Item → Option String → Bool
  has_hash i none = false
  has_hash i (some c) = str_eq (sha c) i.proposed_hash

  -- The loop over the items: whether all match, and the items as the loop leaves them.
  unfoldable pub verify_items : List (String × String) → List Item → Bool × List Item
  unfolding content_at
  verify_items files [] = (true, [])
  verify_items files (i ∷ is') =
      let (ok, rest) = verify_items files is' in
      if has_hash i (content_at i.target_path files)
      then (ok, record i { deployed_hash = some i.proposed_hash; item_status = "verified" } ∷ rest)
      else (false, i ∷ is')

  module _ {W : Type 0} (client : Client W) (now : ℕ) where
    -- From the audit of "verification_passed" on.
    unfoldable pub activate : (merge_sha : String) → Deployment → W → Run W
    unfolding transition activate_tripwires
    activate merge_sha d w =
        let changes = changes_of d.preview in
        let wires' = activate_tripwires changes merge_sha d.wires in
        let d' = record d { wires = wires' } in
        let active = length (active_tripwires wires') in
        if active == length changes && ltb 0 active
        then finish d'
            (transition deployed
              (λ r. record r {
                deployed_commit = some merge_sha;
                deployed_at = some now;
                activated_at = some now;
              })
              d')
            (add_audit "monitoring_activated") w
        else finish d'
            (transition deployed_unmonitored
              (λ r. record r {
                deployed_commit = some merge_sha;
                deployed_at = some now;
                failure_code = some "activation_failed";
              })
              d')
            (add_audit "monitoring_activation_failed") w

    -- `_verify_deploy`
    unfoldable pub verify_deploy :
        (merge_sha : String) → Deployment → Option (List (String × String)) × W → Run W
    unfolding activate verify_items transition
    verify_deploy merge_sha d (none, w) = record { answer = client_error; row = d; world = w }
    verify_deploy merge_sha d (some files, w) =
        let (ok, items') = verify_items files d.items in
        let d' = record d { items = items' } in
        if ok
        then activate merge_sha (add_audit "verification_passed" d') w
        else finish d'
            (transition verification_failed
              (λ r. record r { failure_code = some "verify_mismatch" }) d')
            (add_audit "verification_failed") w

    -- `_verify_removal`, for the terminal status with the word for its items and the kind of removal.
    unfoldable pub verify_removal :
        (terminal : Status)
        → (word kind : String) → Deployment
        → Option (List (String × String)) × W
        → Run W
    unfolding transition
    verify_removal terminal word kind d (none, w) = record {
      answer = client_error;
      row = d;
      world = w;
    }
    verify_removal terminal word kind d (some (f ∷ fs), w) =
        unchanged (add_audit (text_append kind "_verification_failed") d) w
    verify_removal terminal word kind d (some [], w) =
        finish d (transition terminal (λ r. record r { retired_at = some now }) d)
          (λ r.
            add_audit (text_append kind "_completed")
              (record r { items = mark_items word r.items }))
          w

    -- After the merge: by the status that the record had.
    unfoldable pub verify_merged : (merge_sha : String) → Deployment → W → Run W
    unfolding verify_deploy verify_removal
    verify_merged merge_sha d w =
        let files = client.get_files_at d.repository merge_sha (map path_of d.items) in
        elim d.status [
          | deploying ↦ verify_deploy merge_sha d (files w)
          | retiring ↦ verify_removal retired "retired" "retirement" d (files w)
          | rollback_pending ↦ verify_removal rolled_back "rolled_back" "rollback" d (files w)
          | _ ↦ unchanged d w
        ]

    unfoldable pub verify_request : Deployment → Option PullRequest × W → Run W
    unfolding verify_merged transition
    verify_request d (none, w) = record { answer = client_error; row = d; world = w }
    verify_request d (some pr, w) =
        if pr.closed && not pr.merged
        then finish d (transition cancelled (λ r. r) d) (add_audit "pr_closed_unmerged") w
        else elim pr.merge_commit [
          | none ↦ unchanged d w
          | some merge_sha ↦ if pr.merged then verify_merged merge_sha d w else unchanged d w
        ]

    unfoldable pub verify_known : Option ℕ → Deployment → W → Run W
    unfolding verify_request
    verify_known none d w = unchanged d w
    verify_known (some n) d w = verify_request d (client.get_pull_request d.repository n w)

    -- `verify`
    unfoldable pub verify : (organization : ℕ) → Deployment → W → Run W
    unfolding verify_known
    verify organization d w =
        if d.organization == organization
        then verify_known d.pull_request d w
        else record { answer = not_found; row = d; world = w }
