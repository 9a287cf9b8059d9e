-- ===== src/Deployment/Service.antt =====
-- `DeploymentService`: execute, verify and the removal. The repository client (the GitHub adapter) is
-- a parameter with a state of its own; a call of it answers none where `DeploymentClientError` is
-- raised. The digest `_sha`, the clock and the answer of the safety gate are arguments.
use decepti_forge.Base.{
  ℕ, String, ◌==◌, text_append, Bool, true, false, List, [], Option, none, some, if◌then◌else◌,
  str_eq, map,
}
use decepti_forge.Deployment.Status.{Status, deploying, failed}
use decepti_forge.Deployment.Rows.{Item, Preview, Deployment, transition, add_audit}

-- `PullRequestInfo`; `closed` is whether its state is "closed".
pub record PullRequest : Type 0 where
  pub closed : Bool
  pub merged : Bool
  pub merge_commit : Option String

-- `RepositoryDeploymentClient`
pub record Client (W : Type 0) : Type 0 where
  pub get_branch : (repo branch : String) → W → Option String × W
  pub create_branch : (repo branch sha : String) → W → Option String × W
  pub commit_files :
      (repo branch : String)
      → List (String × String)
      → (removed : List String) → W
      → Option String × W
  pub open_pull_request : (repo head base : String) → W → Option ℕ × W
  pub get_pull_request : (repo : String) → ℕ → W → Option PullRequest × W
  pub get_files_at : (repo sha : String) → List String → W → Option (List (String × String)) × W

pub data Answer : Type 0 where
  returned not_found invalid_transition client_error : Answer

pub record Run (W : Type 0) : Type 0 where
  pub answer : Answer
  pub row : Deployment
  pub world : W

-- A function's end, after a transition that may raise.
abbrev pub finish :
    {W : Type 0} → Deployment → Option Deployment → (Deployment → Deployment) → W → Run W
finish d none then' w = record { answer = invalid_transition; row = d; world = w }
finish d (some d') then' w = record { answer = returned; row = then' d'; world = w }

-- `_fail`
unfoldable pub fail_with : {W : Type 0} → Deployment → String → W → Run W
unfolding transition
fail_with d code w =
    finish d (transition failed (λ r. record r { failure_code = some code }) d)
      (add_audit "deployment_failed") w

abbrev pub unchanged : {W : Type 0} → Deployment → W → Run W
unchanged d w = record { answer = returned; row = d; world = w }

abbrev pub path_of : Item → String
path_of i = i.target_path

abbrev pub is_deploying : Status → Bool
is_deploying deploying = true
is_deploying _ = false

module _ {W : Type 0} (client : Client W) where
  -- The record of a pull request that was opened, and the handler of the client's error.
  opened : Deployment → (branch : String) → Option ℕ × W → Run W
  unfolding fail_with
  opened d branch (none, w) = fail_with d "provider_error" w
  opened d branch (some n, w) =
      unchanged
        (add_audit "pr_created" (record d { pull_request = some n; source_branch = branch })) w

  committed : Deployment → (branch base : String) → Option String × W → Run W
  unfolding fail_with opened
  committed d branch base (none, w) = fail_with d "provider_error" w
  committed d branch base (some sha, w) =
      opened (add_audit "commit_pushed" d) branch
        (client.open_pull_request d.repository branch base w)

  branched : Deployment → (branch base : String) → Option String × W → Run W
  unfolding fail_with committed
  branched d branch base (none, w) = fail_with d "provider_error" w
  branched d branch base (some sha, w) =
      committed (add_audit "branch_created" d) branch base (
        client.commit_files d.repository branch (map (λ i. (i.target_path, i.content)) d.items) []
          w)

  -- After the drift check: an existing pull request is kept.
  create_request : Deployment → (branch base : String) → Option ℕ → W → Run W
  unfolding branched
  create_request d branch base (some n) w = unchanged d w
  create_request d branch base none w =
      branched d branch base (client.create_branch d.repository branch d.base_commit w)

  drift_checked : Deployment → (branch base : String) → Option String × W → Run W
  unfolding fail_with create_request
  drift_checked d branch base (none, w) = fail_with d "provider_error" w
  drift_checked d branch base (some current, w) =
      if str_eq current d.base_commit
      then create_request d branch base d.pull_request w
      else fail_with (add_audit "stale_preview_detected" d) "base_changed" w

  execute_preview : Deployment → Bool → Option Preview → W → Run W
  unfolding fail_with drift_checked
  execute_preview d safe none w = fail_with d "no_preview" w
  execute_preview d safe (some p) w =
      if safe
      then drift_checked d (text_append "deceptiforge/decoy-" d.number) p.base_branch
          (client.get_branch d.repository p.base_branch w)
      else fail_with d "safety_failed" w

  -- `execute`; `safe` is the answer of `_resafe`.
  unfoldable pub execute : (organization : ℕ) → (safe : Bool) → Deployment → W → Run W
  unfolding execute_preview
  execute organization safe d w =
      if d.organization == organization
      then (if is_deploying d.status then execute_preview d safe d.preview w else unchanged d w)
      else record { answer = not_found; row = d; world = w }
