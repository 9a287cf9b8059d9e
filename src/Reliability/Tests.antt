-- ===== src/Reliability/Tests.antt =====
-- A failover drill, and the theorems at concrete calls.
use decepti_forge.Base.{◌≡◌, ◌≢◌, refl, true, false, none, some, List, [], ◌∷◌}
use decepti_forge.Reliability.States.{
  FailoverState, normal, failover_requested, primary_fenced, standby_promoting, secondary_active,
  recovery_validation, failback_pending, can_transition,
}
use decepti_forge.Reliability.Failover.{
  Settings, Event, refused, current_state, latest_request, request, approve, move, Call, perform,
  perform_all, approve_failover, request_failover,
}
use decepti_forge.Reliability.History.{states, promotion_follows_fencing, advance_skips_approval}
use decepti_forge.Reliability.Fencing.{
  Runtime, primary, standby, passed, require_writes, require_side_effects, scheduler_allowed,
  no_split_brain,
}

abbrev approval : Settings
approval = record { epoch = 1; requires_approval = true }

-- The requester's own approval is refused, and an early promotion too.
abbrev drill : List Call
drill =
    request (some 1) "drill"
    ∷ approve (some 1) "self"
    ∷ move standby_promoting (some 1) "early"
    ∷ approve (some 2) "ok"
    ∷ move standby_promoting (some 1) "go"
    ∷ []

abbrev whole_drill : List Call
whole_drill =
    request (some 1) "drill"
    ∷ approve (some 2) "ok"
    ∷ move standby_promoting (some 1) "go"
    ∷ move secondary_active (some 1) "go"
    ∷ move recovery_validation (some 1) "go"
    ∷ move failback_pending (some 1) "go"
    ∷ []

drill-states :
    states (perform_all approval drill [])
    ≡ standby_promoting ∷ primary_fenced ∷ failover_requested ∷ normal ∷ []
unfolding perform_all perform states latest_request can_transition
drill-states = refl

promotion_follows_fencing_example :
    (rest : List FailoverState) × (states (perform_all approval drill [])
      ≡ standby_promoting ∷ primary_fenced ∷ failover_requested ∷ rest)
promotion_follows_fencing_example =
    promotion_follows_fencing approval drill
      (unfold perform_all perform latest_request can_transition in refl)

abbrev asked : Event
asked = record {
  from_state = normal;
  to_state = failover_requested;
  active_region_epoch = 1;
  requested_by = some 1;
  approved_by = none;
  reason = "drill";
}

advance_skips_approval_example :
    (current_state
        (perform_all approval (request (some 1) "why" ∷ move primary_fenced (some 1) "why" ∷ []) [])
      ≡ primary_fenced)
    × ((approve_failover approval (some 1) "why" (request_failover approval (some 1) "why" []).1).0
        ≡ refused 403)
advance_skips_approval_example =
    advance_skips_approval approval 1 "why" [] refl (unfold current_state can_transition in refl)

abbrev active_region : Runtime
active_region = record {
  cluster_role = primary;
  maintenance_mode = false;
  external_side_effects_enabled = true;
  schedulers_enabled = true;
  active_region_epoch = 3;
}

abbrev standby_region : Runtime
standby_region = record active_region { cluster_role = standby }

no_split_brain_example :
    (require_writes standby_region ≢ passed)
    × (require_side_effects standby_region ≢ passed)
    × (scheduler_allowed standby_region ≡ false)
no_split_brain_example =
    no_split_brain active_region standby_region (λ p q. cc) (unfold require_writes in refl)
