-- ===== src/Deployment/Operations.antt =====
-- Every operation on a deployment, and the run of any sequence of them.
use decepti_forge.Base.{ℕ, String, Bool, List, [], ◌∷◌, Option}
use decepti_forge.Deployment.Rows.{Deployment}
use decepti_forge.Deployment.Service.{Client, execute}
use decepti_forge.Deployment.Verify.{verify}
use decepti_forge.Deployment.Removal.{retire, rollback}
use decepti_forge.Deployment.Requests.{
  Settings, served, submit_deployment, approve_deployment, reject_deployment, deploy_deployment,
  retire_deployment, rollback_deployment,
}

-- A request of a caller, or a job of the worker.
pub data Operation : Type 0 where
  submit approve reject deploy ask_retire ask_rollback :
      (organization : ℕ) (actor : Option ℕ) → Operation
  run_execute : (organization : ℕ) (safe : Bool) → Operation
  run_verify : (organization now : ℕ) → Operation
  run_retire run_rollback : (organization : ℕ) → Operation

module _ {W : Type 0} (client : Client W) (sha : String → String) (s : Settings) where
  unfoldable pub apply : Operation → Deployment → W → Deployment × W
  apply (submit o a) d w = ((served d (submit_deployment s o a d)).1, w)
  apply (approve o a) d w = ((served d (approve_deployment s o a d)).1, w)
  apply (reject o a) d w = ((served d (reject_deployment s o a d)).1, w)
  apply (deploy o a) d w = ((served d (deploy_deployment s o a d)).1, w)
  apply (ask_retire o a) d w = ((served d (retire_deployment s o a d)).1, w)
  apply (ask_rollback o a) d w = ((served d (rollback_deployment s o a d)).1, w)
  apply (run_execute o safe) d w = let r = execute client o safe d w in (r.row, r.world)
  apply (run_verify o now) d w = let r = verify sha client now o d w in (r.row, r.world)
  apply (run_retire o) d w = let r = retire client o d w in (r.row, r.world)
  apply (run_rollback o) d w = let r = rollback client o d w in (r.row, r.world)

  unfoldable pub apply_all : List Operation → Deployment → W → Deployment × W
  apply_all [] d w = (d, w)
  apply_all (op ∷ ops) d w = let (d', w') = apply op d w in apply_all ops d' w'
