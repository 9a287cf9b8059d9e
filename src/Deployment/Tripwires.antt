-- ===== src/Deployment/Tripwires.antt =====
-- A trace whose tripwire was disabled by a retirement or a rollback stays disabled.
use decepti_forge.Base.{
  ℕ, String, ◌≡◌, refl, Bool, true, false, ◌&&◌, ◌||◌, List, [], ◌∷◌, ◌++◌, Option, none, some,
  arith, inl, inr, Bool-cases, Option-cases, str_eq, str_mem, str_eq_iff, map,
}
use decepti_forge.Deployment.Status.{retiring}
use decepti_forge.Deployment.Rows.{
  Change, Wire, Deployment, transition, activate_tripwires, set_tripwire_status, is_active,
}
use decepti_forge.Deployment.Service.{Client, PullRequest, execute, fail_with, path_of}
use decepti_forge.Deployment.Verify.{
  verify, verify_items, verify_merged, verify_deploy, verify_removal, activate, verify_request,
  verify_known, changes_of,
}
use decepti_forge.Deployment.Removal.{retire, rollback, start_removal, removal_failed}
use decepti_forge.Deployment.Rows.{add_audit, clear_job, enqueue_job}
use decepti_forge.Deployment.Requests.{
  Settings, served, submit_deployment, approve_deployment, reject_deployment, lifecycle_action,
}
use decepti_forge.Deployment.Operations.{
  Operation, submit, approve, reject, deploy, ask_retire, ask_rollback, run_execute, run_verify,
  run_retire, run_rollback, apply, apply_all,
}

-- Whether a trace has a tripwire, and whether it has an active one.
abbrev pub is_wired : String → List Wire → Bool
is_wired t ws = str_mem t (map (λ w. w.wire_trace) ws)

unfoldable pub is_watched : String → List Wire → Bool
is_watched t [] = false
is_watched t (w ∷ ws) = (is_active w && str_eq w.wire_trace t) || is_watched t ws

-- A trace whose tripwires are all disabled.
abbrev pub IsSilenced : String → List Wire → Type 0
IsSilenced t ws = (is_wired t ws ≡ true) × (is_watched t ws ≡ false)

is_wired-append :
    (t : String) (ws : List Wire) (w : Wire)
    → is_wired t (ws ++ w ∷ []) ≡ is_wired t ws || str_eq t w.wire_trace
is_wired-append t [] w = ground arith
is_wired-append t (v ∷ ws) w = ground (arith, is_wired-append t ws w)

is_watched-append :
    (t : String) (ws : List Wire) (w : Wire)
    → is_watched t (ws ++ w ∷ []) ≡ is_watched t ws || (is_active w && str_eq w.wire_trace t)
unfolding is_watched
is_watched-append t [] w = ground arith
is_watched-append t (v ∷ ws) w = ground (arith, is_watched-append t ws w)

activate_tripwires-IsSilenced :
    (t sha : String) (cs : List Change) (ws : List Wire)
    → IsSilenced t ws
    → IsSilenced t (activate_tripwires cs sha ws)
unfolding activate_tripwires
activate_tripwires-IsSilenced t sha [] ws h = h
activate_tripwires-IsSilenced t sha (c ∷ cs) ws h = elim (Bool-cases (is_wired c.trace ws)) [
  | inl known ↦ rw known (activate_tripwires-IsSilenced t sha cs ws h)
  | inr new' ↦
      let w : Wire = record {
        wire_trace = c.trace;
        wire_path = c.path;
        commit = sha;
        wire_status = "active";
      } in
      let other : str_eq c.trace t ≡ false = elim (Bool-cases (str_eq c.trace t)) [
        | inr differs ↦ differs
        | inl same ↦ absurd (ground (arith, new', h.0, (str_eq_iff c.trace t).0 same))
      ] in
      rw new' (
        activate_tripwires-IsSilenced t sha cs (ws ++ w ∷ [])
          (ground (arith, is_wired-append t ws w, is_watched-append t ws w, other, h.0, h.1)))
]

set_tripwire_status-silences :
    (to : String) (t : String) (ws : List Wire)
    → str_eq to "active" ≡ false
    → (is_watched t (set_tripwire_status to ws) ≡ false)
      × (is_wired t (set_tripwire_status to ws) ≡ is_wired t ws)
unfolding is_watched
set_tripwire_status-silences to t [] h = (refl, refl)
set_tripwire_status-silences to t (w ∷ ws) h =
    ground (arith, set_tripwire_status-silences to t ws h)

module _ {W : Type 0} (client : Client W) where
  -- The retirement job of a deployment that is retiring leaves no tripwire active, whether the
  -- client's calls then succeed or fail.
  pub retire_disables :
      (o : ℕ) (d : Deployment) (w : W) (t : String)
      → d.organization ≡ o
      → d.status ≡ retiring
      → is_watched t (retire client o d w).row.wires ≡ false
  unfolding retire start_removal removal_failed transition
  retire_disables o d w t own now =
      ground (arith, set_tripwire_status-silences "retired" t d.wires refl)

  removal-IsSilenced :
      (o : ℕ) (d : Deployment) (w : W) (t : String)
      → IsSilenced t d.wires
      → IsSilenced t (retire client o d w).row.wires
        × IsSilenced t (rollback client o d w).row.wires
  unfolding retire rollback start_removal removal_failed transition
  removal-IsSilenced o d w t h = ground (
    arith,
    set_tripwire_status-silences "retired" t d.wires refl,
    set_tripwire_status-silences "disabled" t d.wires refl,
  )

  execute-wires :
      (o : ℕ) (safe : Bool) (d : Deployment) (w : W)
      → (execute client o safe d w).row.wires ≡ d.wires
  unfolding execute fail_with transition
  execute-wires o safe d w = ground arith

  module _ (sha : String → String) (now : ℕ) (t : String) where
    activate-IsSilenced :
        (merge_sha : String) (d : Deployment) (w : W)
        → IsSilenced t d.wires
        → IsSilenced t (activate sha client now merge_sha d w).row.wires
    unfolding activate transition
    activate-IsSilenced merge_sha d w h =
        ground (arith, activate_tripwires-IsSilenced t merge_sha (changes_of d.preview) d.wires h)

    verify_deploy-IsSilenced :
        (merge_sha : String) (d : Deployment) (r : Option (List (String × String)) × W)
        → IsSilenced t d.wires
        → IsSilenced t (verify_deploy sha client now merge_sha d r).row.wires
    unfolding verify_deploy transition
    verify_deploy-IsSilenced merge_sha d (none, w) h = h
    verify_deploy-IsSilenced merge_sha d (some files, w) h =
        let d' = record d { items = (verify_items sha files d.items).1 } in
        ground (arith, activate-IsSilenced merge_sha (add_audit "verification_passed" d') w h)

    verify_merged-IsSilenced :
        (merge_sha : String) (d : Deployment) (w : W)
        → IsSilenced t d.wires
        → IsSilenced t (verify_merged sha client now merge_sha d w).row.wires
    unfolding verify_merged verify_removal transition
    verify_merged-IsSilenced merge_sha d w h =
        let got = client.get_files_at d.repository merge_sha (map path_of d.items) w in
        ground (arith, verify_deploy-IsSilenced merge_sha d got h)

    verify_request-IsSilenced :
        (d : Deployment) (r : Option PullRequest × W)
        → IsSilenced t d.wires
        → IsSilenced t (verify_request sha client now d r).row.wires
    unfolding verify_request transition
    verify_request-IsSilenced d (none, w) h = h
    verify_request-IsSilenced d (some pr, w) h = elim (Option-cases pr.merge_commit) [
      | inl no_commit ↦ ground (arith, no_commit)
      | inr (merge_sha, at) ↦ ground (arith, at, verify_merged-IsSilenced merge_sha d w h)
    ]

    verify-IsSilenced :
        (o : ℕ) (d : Deployment) (w : W)
        → IsSilenced t d.wires
        → IsSilenced t (verify sha client now o d w).row.wires
    unfolding verify verify_known
    verify-IsSilenced o d w h = elim (Option-cases d.pull_request) [
      | inl no_request ↦ ground (arith, no_request)
      | inr (n, known) ↦
          ground
            (arith, known, verify_request-IsSilenced d (client.get_pull_request d.repository n w) h)
    ]

  module _ (sha : String → String) (s : Settings) (t : String) where
    apply-IsSilenced :
        (op : Operation) (d : Deployment) (w : W)
        → IsSilenced t d.wires
        → IsSilenced t (apply client sha s op d w).0.wires
    unfolding apply served submit_deployment approve_deployment reject_deployment lifecycle_action
        transition clear_job enqueue_job
    apply-IsSilenced (submit o a) d w h = ground arith
    apply-IsSilenced (approve o a) d w h = ground arith
    apply-IsSilenced (reject o a) d w h = ground arith
    apply-IsSilenced (deploy o a) d w h = ground arith
    apply-IsSilenced (ask_retire o a) d w h = ground arith
    apply-IsSilenced (ask_rollback o a) d w h = ground arith
    apply-IsSilenced (run_execute o safe) d w h = rw (execute-wires o safe d w) h
    apply-IsSilenced (run_verify o now) d w h = verify-IsSilenced sha now t o d w h
    apply-IsSilenced (run_retire o) d w h = (removal-IsSilenced o d w t h).0
    apply-IsSilenced (run_rollback o) d w h = (removal-IsSilenced o d w t h).1

    -- Once every tripwire of a trace is disabled, none becomes active again through any sequence of
    -- requests and jobs: a later verification finds the trace's row and skips it.
    pub disabled_forever :
        (ops : List Operation) (d : Deployment) (w : W)
        → is_wired t d.wires ≡ true
        → is_watched t d.wires ≡ false
        → is_watched t (apply_all client sha s ops d w).0.wires ≡ false
    unfolding apply_all
    disabled_forever [] d w wired off = off
    disabled_forever (op ∷ ops) d w wired off =
        let r = apply client sha s op d w in
        let next = apply-IsSilenced op d w (wired, off) in
        disabled_forever ops r.0 r.1 next.0 next.1
