-- ===== src/Deployment/Rows.antt =====
-- The rows of one deployment (`DeploymentRepository`): its record, items, tripwires, approvals, audit
-- trail and jobs. A write of the session is a new state of these rows.
use decepti_forge.Base.{
  ℕ, String, Bool, not, List, [], ◌∷◌, ◌++◌, Option, none, some, if◌then◌else◌, str_eq, str_mem,
  map, select,
}
use decepti_forge.Deployment.Status.{Status, can_transition}

-- `DecoyDeploymentItemRecord`
pub record Item : Type 0 where
  pub target_path : String
  pub content : String
  pub proposed_hash : String
  pub deployed_hash : Option String
  pub item_status : String

-- `ChangeSetItem`, and the preview that holds them.
pub record Change : Type 0 where
  pub decoy_id : String
  pub trace : String
  pub path : String

pub record Preview : Type 0 where
  pub base_branch : String
  pub changes : List Change

-- `DeploymentTripwireRecord`
pub record Wire : Type 0 where
  pub wire_trace : String
  pub wire_path : String
  pub commit : String
  pub wire_status : String

-- `DeploymentApprovalRecord`
pub record Approval : Type 0 where
  pub actor : Option ℕ
  pub decision : String

-- `DecoyDeploymentRecord` with the rows that belong to it. The items stand in the order of their
-- paths, as `get_items` returns them.
pub record Deployment : Type 0 where
  pub organization : ℕ
  pub repository : String
  pub number : String
  pub status : Status
  pub requested_by : Option ℕ
  pub approved_by : Option ℕ
  pub base_commit : String
  pub source_branch : String
  pub pull_request : Option ℕ
  pub preview : Option Preview
  pub deployed_commit : Option String
  pub deployed_at : Option ℕ
  pub activated_at : Option ℕ
  pub retired_at : Option ℕ
  pub failure_code : Option String
  pub items : List Item
  pub wires : List Wire
  pub approvals : List Approval
  pub audit : List String
  pub jobs : List String

-- `transition`: none where `InvalidTransitionError` is raised; `fields` is the update of the fields.
unfoldable pub transition : Status → (Deployment → Deployment) → Deployment → Option Deployment
transition target fields d =
    if can_transition d.status target then some (fields (record d { status = target })) else none

-- `add_audit`, newest last.
abbrev pub add_audit : String → Deployment → Deployment
add_audit event d = record d { audit = d.audit ++ event ∷ [] }

-- `add_approval`
abbrev pub add_approval : Option ℕ → String → Deployment → Deployment
add_approval who what d = record d {
  approvals = d.approvals ++ record { actor = who; decision = what } ∷ [];
}

-- `clear_job`
unfoldable pub clear_job : String → Deployment → Deployment
clear_job job d = record d { jobs = select (λ j. not (str_eq j job)) d.jobs }

-- `enqueue_job`: one row for each type of job.
unfoldable pub enqueue_job : String → Deployment → Deployment
enqueue_job job d = if str_mem job d.jobs then d else record d { jobs = d.jobs ++ job ∷ [] }

-- `activate_tripwires`: one row for each trace, `IntegrityError` on a second.
unfoldable pub activate_tripwires : List Change → String → List Wire → List Wire
activate_tripwires [] sha wires = wires
activate_tripwires (c ∷ cs) sha wires = activate_tripwires cs sha (
    if str_mem c.trace (map (λ w. w.wire_trace) wires)
    then wires
    else wires
      ++ record { wire_trace = c.trace; wire_path = c.path; commit = sha; wire_status = "active" }
        ∷ [])

-- `set_tripwire_status`
abbrev pub set_tripwire_status : String → List Wire → List Wire
set_tripwire_status to [] = []
set_tripwire_status to (w ∷ ws) = record w { wire_status = to } ∷ set_tripwire_status to ws

abbrev pub is_active : Wire → Bool
is_active w = str_eq w.wire_status "active"

-- `active_tripwires`
abbrev pub active_tripwires : List Wire → List Wire
active_tripwires ws = select is_active ws
