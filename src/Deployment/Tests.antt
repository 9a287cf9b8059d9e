-- ===== src/Deployment/Tests.antt =====
-- A deployment from draft to monitoring, and the theorems at concrete runs.
use decepti_forge.Base.{
  ℕ, ◌+◌, String, ◌≡◌, refl, true, false, ◌&&◌, List, [], ◌∷◌, none, some, inl, ◌⊎◌,
}
use decepti_forge.Deployment.Status.{draft, deploying, deployed, retiring, rejected, can_transition}
use decepti_forge.Deployment.Rows.{
  Item, Preview, Deployment, transition, activate_tripwires, clear_job, enqueue_job,
}
use decepti_forge.Deployment.Service.{Client, PullRequest, execute, invalid_transition}
use decepti_forge.Deployment.Verify.{
  verify, content_at, verify_items, verify_known, verify_request, verify_merged, verify_deploy,
  activate,
}
use decepti_forge.Deployment.Requests.{
  Settings, served, approve_deployment, submit_deployment, lifecycle_action, same_actor,
}
use decepti_forge.Deployment.Operations.{
  Operation, submit, approve, deploy, run_execute, run_verify, apply, apply_all,
}
use decepti_forge.Deployment.Steps.{has_approval}
use decepti_forge.Deployment.Approvals.{no_deploy_without_approval}
use decepti_forge.Deployment.Activation.{Kept, Matches, activation_needs_merge}
use decepti_forge.Deployment.Tripwires.{is_watched, disabled_forever}
use decepti_forge.Deployment.Requesting.{closed_removal_stuck}

abbrev merged_pull : PullRequest
merged_pull = record { closed = true; merged = true; merge_commit = some "m1" }

-- A repository whose pull requests are merged at once; its state counts them.
abbrev merging : Client ℕ
merging = record {
  get_branch = λ repo branch w. (some "base", w);
  create_branch = λ repo branch sha w. (some sha, w);
  commit_files = λ repo branch files removed w. (some "c1", w);
  open_pull_request = λ repo head base w. (some (w + 1), w + 1);
  get_pull_request = λ repo n w. (some merged_pull, w);
  get_files_at = λ repo sha paths w. (some (("a.env", "text") ∷ []), w);
}

abbrev closed_pull : PullRequest
closed_pull = record { closed = true; merged = false; merge_commit = none }

-- A repository whose pull requests are closed without a merge.
abbrev closing : Client ℕ
closing = record merging { get_pull_request = λ repo n w. (some closed_pull, w) }

abbrev plan : Preview
plan = record {
  base_branch = "main";
  changes = record { decoy_id = "d1"; trace = "t1"; path = "a.env" } ∷ [];
}

abbrev item : Item
item = record {
  target_path = "a.env";
  content = "text";
  proposed_hash = "text";
  deployed_hash = none;
  item_status = "planned";
}

abbrev fresh : Deployment
fresh = record {
  organization = 7;
  repository = "r1";
  number = "1";
  status = draft;
  requested_by = some 1;
  approved_by = none;
  base_commit = "base";
  source_branch = "";
  pull_request = none;
  preview = some plan;
  deployed_commit = none;
  deployed_at = none;
  activated_at = none;
  retired_at = none;
  failure_code = none;
  items = item ∷ [];
  wires = [];
  approvals = [];
  audit = [];
  jobs = [];
}

abbrev settings : Settings
settings = record { enabled = true; separate_approver = true }

abbrev digest : String → String
digest text = text

-- The requester's own approval is refused; another actor's leads to an active deployment.
abbrev rollout : List Operation
rollout =
    submit 7 (some 1)
    ∷ approve 7 (some 1)
    ∷ approve 7 (some 2)
    ∷ deploy 7 (some 1)
    ∷ run_execute 7 true
    ∷ run_verify 7 50
    ∷ []

rollout_deployed : (apply_all merging digest settings rollout fresh 0).0.status ≡ deployed
unfolding apply_all apply served submit_deployment approve_deployment lifecycle_action transition
    can_transition clear_job enqueue_job execute verify verify_known verify_request verify_merged
    verify_deploy verify_items content_at activate activate_tripwires
rollout_deployed = refl

no_deploy_without_approval_example :
    (has_approval (apply_all merging digest settings rollout fresh 0).0.approvals ≡ true)
    × ((true
          && same_actor
              (apply_all merging digest settings rollout fresh 0).0.approved_by
              (apply_all merging digest settings rollout fresh 0).0.requested_by)
        ≡ false)
no_deploy_without_approval_example =
    no_deploy_without_approval merging digest settings rollout fresh 0 refl
      (rw rollout_deployed refl)

abbrev refused_row : Deployment
refused_row = record fresh { status = rejected }

abbrev requested : Deployment
requested = record fresh { status = deploying; pull_request = some 1 }

activation_needs_merge_example :
    Kept requested (verify digest merging 50 7 requested 0).row
    ⊎ ((n : ℕ) × (pr : PullRequest) × (merge_sha : String) × (files : List (String × String))
        × (some 1 ≡ some n)
        × (some merged_pull ≡ some pr)
        × (pr.merged ≡ true)
        × (pr.merge_commit ≡ some merge_sha)
        × (some (("a.env", "text") ∷ []) ≡ some files)
        × Matches digest files (item ∷ []))
activation_needs_merge_example = activation_needs_merge merging digest 50 7 requested 0

abbrev wired : Deployment
wired = record requested {
  status = retiring;
  wires =
      record { wire_trace = "t1"; wire_path = "a.env"; commit = "m1"; wire_status = "active" } ∷ [];
}

abbrev disabled : Deployment
disabled = record requested {
  wires =
      record { wire_trace = "t1"; wire_path = "a.env"; commit = "m1"; wire_status = "retired" }
      ∷ [];
}

disabled-off : is_watched "t1" disabled.wires ≡ false
unfolding is_watched
disabled-off = refl

disabled_forever_example :
    is_watched "t1" (apply_all merging digest settings (run_verify 7 50 ∷ []) disabled 0).0.wires
    ≡ false
disabled_forever_example =
    disabled_forever merging digest settings "t1" (run_verify 7 50 ∷ []) disabled 0 refl
      disabled-off

-- Its base branch stands where it was approved.
abbrev ready : Deployment
ready = record fresh { status = deploying }

closed_removal_stuck_example :
    ((verify digest closing 50 7 wired 0).answer ≡ invalid_transition)
    × ((verify digest closing 50 7 wired 0).row ≡ wired)
closed_removal_stuck_example =
    closed_removal_stuck closing digest 50 wired 1 closed_pull 0 (inl refl) refl refl refl refl
