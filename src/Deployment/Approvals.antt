-- ===== src/Deployment/Approvals.antt =====
-- What any sequence of requests and jobs leaves true of approvals and of ended deployments.
use decepti_forge.Base.{
  ℕ, String, ◌≡◌, refl, ◌∙◌, Bool, true, false, not, ◌&&◌, ◌||◌, List, [], ◌∷◌, Option, arith, inl,
  inr, ◌⊎◌,
}
use decepti_forge.Deployment.Status.{
  Status, can_transition, draft, approved, rejected, deploying, deployed, deployed_unmonitored,
  verification_failed, failed_activation, cancelled, retiring, retired, rollback_pending,
  rolled_back, expired,
}
use decepti_forge.Deployment.Rows.{Deployment, transition, clear_job, enqueue_job}
use decepti_forge.Deployment.Service.{Client}
use decepti_forge.Deployment.Requests.{
  Settings, served, same_actor, submit_deployment, approve_deployment, reject_deployment,
  lifecycle_action,
}
use decepti_forge.Deployment.Operations.{
  Operation, submit, approve, reject, deploy, ask_retire, ask_rollback, run_execute, run_verify,
  run_retire, run_rollback, apply, apply_all,
}
use decepti_forge.Deployment.Steps.{
  IsStep, has_approval, has_approval-append, execute-IsStep, retire-IsStep, rollback-IsStep,
  verify-IsStep,
}

-- The statuses that no deployment leaves.
abbrev pub is_terminal : Status → Bool
is_terminal rejected = true
is_terminal cancelled = true
is_terminal retired = true
is_terminal rolled_back = true
is_terminal _ = false

-- The statuses that a deployment takes after its approval and before it is submitted again.
abbrev pub is_past_approval : Status → Bool
is_past_approval approved = true
is_past_approval deploying = true
is_past_approval deployed = true
is_past_approval deployed_unmonitored = true
is_past_approval verification_failed = true
is_past_approval failed_activation = true
is_past_approval retiring = true
is_past_approval retired = true
is_past_approval rollback_pending = true
is_past_approval rolled_back = true
is_past_approval expired = true
is_past_approval _ = false

module _ {W : Type 0} (client : Client W) (sha : String → String) (s : Settings) where
  abbrev is_approve : Operation → Bool
  is_approve (approve o a) = true
  is_approve _ = false

  apply-IsStep :
      (op : Operation) (d : Deployment) (w : W)
      → is_approve op ≡ false
      → IsStep d (apply client sha s op d w).0
  unfolding apply served submit_deployment reject_deployment lifecycle_action transition clear_job
      enqueue_job
  apply-IsStep (submit o a) d w h = ground arith
  apply-IsStep (approve o a) d w h = cc h
  apply-IsStep (reject o a) d w h =
      ground (arith, has_approval-append d.approvals (record { actor = a; decision = "rejected" }))
  apply-IsStep (deploy o a) d w h = ground arith
  apply-IsStep (ask_retire o a) d w h = ground arith
  apply-IsStep (ask_rollback o a) d w h = ground arith
  apply-IsStep (run_execute o safe) d w h = execute-IsStep client o safe d w
  apply-IsStep (run_verify o now) d w h = verify-IsStep client sha now o d w
  apply-IsStep (run_retire o) d w h = retire-IsStep client o d w
  apply-IsStep (run_rollback o) d w h = rollback-IsStep client o d w

  approve-edge :
      (o : ℕ) (a : Option ℕ) (d : Deployment)
      → ((served d (approve_deployment s o a d)).1.status ≡ d.status)
        ⊎ (can_transition d.status (served d (approve_deployment s o a d)).1.status ≡ true)
  unfolding served approve_deployment transition
  approve-edge o a d = ground arith

  approve-cases :
      (op : Operation) → ((o : ℕ) × (a : Option ℕ) × (op ≡ approve o a)) ⊎ (is_approve op ≡ false)
  approve-cases (approve o a) = inl (o, a, refl)
  approve-cases (submit o a) = inr refl
  approve-cases (reject o a) = inr refl
  approve-cases (deploy o a) = inr refl
  approve-cases (ask_retire o a) = inr refl
  approve-cases (ask_rollback o a) = inr refl
  approve-cases (run_execute o safe) = inr refl
  approve-cases (run_verify o now) = inr refl
  approve-cases (run_retire o) = inr refl
  approve-cases (run_rollback o) = inr refl

  apply-edge :
      (op : Operation) (d : Deployment) (w : W)
      → ((apply client sha s op d w).0.status ≡ d.status)
        ⊎ (can_transition d.status (apply client sha s op d w).0.status ≡ true)
  unfolding apply
  apply-edge op d w = elim (approve-cases op) [
    | inr other ↦ (apply-IsStep op d w other).edge
    | inl (o, a, same) ↦ rw same (approve-edge o a d)
  ]

  terminal_stuck : (t u : Status) → is_terminal t ≡ true → can_transition t u ≡ false
  unfolding can_transition
  terminal_stuck t u h = ground arith

  -- A deployment that was rejected, cancelled, retired or rolled back keeps that status through every
  -- later sequence of requests and jobs, whatever the repository client answers.
  pub terminal_forever :
      (ops : List Operation) (d : Deployment) (w : W)
      → is_terminal d.status ≡ true
      → (apply_all client sha s ops d w).0.status ≡ d.status
  unfolding apply_all
  terminal_forever [] d w h = refl
  terminal_forever (op ∷ ops) d w h =
      let r = apply client sha s op d w in
      let kept : r.0.status ≡ d.status = elim (apply-edge op d w) [
        | inl same ↦ same
        | inr moved ↦ cc (moved, terminal_stuck d.status r.0.status h)
      ] in
      terminal_forever ops r.0 r.1 (rw kept h) ∙ kept

  -- Before approval, or approved by somebody else.
  abbrev IsApproved : Deployment → Type 0
  IsApproved d =
      (not (is_past_approval d.status)
        || (has_approval d.approvals
            && not (s.separate_approver && same_actor d.approved_by d.requested_by)))
      ≡ true

  into_past :
      (t u : Status)
      → can_transition t u ≡ true
      → is_past_approval u ≡ true
      → (u ≡ approved) ⊎ (is_past_approval t ≡ true)
  unfolding can_transition
  into_past t u e h = ground arith

  -- A step that does not lead into `approved` keeps the approval.
  step-IsApproved : (d d' : Deployment) → IsStep d d' → IsApproved d → IsApproved d'
  step-IsApproved d d' st h = elim st.edge [
    | inl same ↦ ground (arith, st.kept_approval)
    | inr moved ↦ ground (arith, into_past d.status d'.status moved)
  ]

  approve-IsApproved :
      (o : ℕ) (a : Option ℕ) (d : Deployment)
      → IsApproved d
      → IsApproved (served d (approve_deployment s o a d)).1
  unfolding served approve_deployment transition can_transition
  approve-IsApproved o a d h =
      ground (arith, has_approval-append d.approvals (record { actor = a; decision = "approved" }))

  apply-IsApproved :
      (op : Operation) (d : Deployment) (w : W)
      → IsApproved d
      → IsApproved (apply client sha s op d w).0
  unfolding apply
  apply-IsApproved op d w h = elim (approve-cases op) [
    | inr other ↦ step-IsApproved d (apply client sha s op d w).0 (apply-IsStep op d w other) h
    | inl (o, a, same) ↦ rw same (approve-IsApproved o a d h)
  ]

  apply_all-IsApproved :
      (ops : List Operation) (d : Deployment) (w : W)
      → IsApproved d
      → IsApproved (apply_all client sha s ops d w).0
  unfolding apply_all
  apply_all-IsApproved [] d w h = h
  apply_all-IsApproved (op ∷ ops) d w h =
      let r = apply client sha s op d w in
      apply_all-IsApproved ops r.0 r.1 (apply-IsApproved op d w h)

  -- Whatever requests and jobs a draft has seen, in any order and with any answers of the repository
  -- client, if its status lies past the approval then an approval is among its rows; and where a
  -- separate approver is required, the last approver is not the requester, if both are known.
  pub no_deploy_without_approval :
      (ops : List Operation) (d : Deployment) (w : W)
      → d.status ≡ draft
      → is_past_approval (apply_all client sha s ops d w).0.status ≡ true
      → (has_approval (apply_all client sha s ops d w).0.approvals ≡ true)
        × ((s.separate_approver
              && same_actor
                  (apply_all client sha s ops d w).0.approved_by
                  (apply_all client sha s ops d w).0.requested_by)
            ≡ false)
  no_deploy_without_approval ops d w start past =
      let h : IsApproved d = rw start refl in ground (arith, apply_all-IsApproved ops d w h)
