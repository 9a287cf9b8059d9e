-- ===== src/Reliability/History.antt =====
-- What the event log shows after any calls of the service.
use decepti_forge.Base.{
  ℕ, ◌≡◌, ◌≢◌, refl, Bool, true, false, ◌⊎◌, inl, inr, Option, none, some, List, [], ◌∷◌, arith,
  String, Bool-cases,
}
use decepti_forge.Reliability.States.{
  FailoverState, normal, failover_requested, primary_fenced, standby_promoting, secondary_active,
  recovery_validation, failback_pending, can_transition,
}
use decepti_forge.Reliability.Failover.{
  Event, Log, Settings, moved, refused, current_state, latest_request, transition, request_failover,
  approve_failover, approve_failover-cases, Call, request, approve, move, perform, perform_all,
}

-- Every event starts where the one before it ended, along an edge of the table.
abbrev pub IsChained : Log → Type 0
IsChained [] = Unit
IsChained (e ∷ log) =
    (e.from_state ≡ current_state log)
    × (can_transition e.from_state e.to_state ≡ true)
    × IsChained log

-- The state that a log with an event `e` last was in before the newest one.
abbrev pub previous : Log → FailoverState
previous [] = normal
previous (e ∷ log) = current_state log

transition-IsChained :
    (c : Settings) (target : FailoverState) (req app : Option ℕ) (why : String) (log : Log)
    → IsChained log
    → IsChained (transition c target req app why log).1
unfolding transition
transition-IsChained c target req app why log h =
    elim (Bool-cases (can_transition (current_state log) target)) [
      | inl yes' ↦ rw yes' (refl, yes', h)
      | inr no' ↦ rw no' h
    ]

-- Every call is one attempted transition, or leaves the log alone.
perform-IsChained :
    (c : Settings) (call : Call) (log : Log) → IsChained log → IsChained (perform c call log).1
perform-IsChained c (request actor why) log h =
    unfold perform in transition-IsChained c failover_requested actor none why log h
perform-IsChained c (approve actor why) log h =
    unfold perform in
    (elim (approve_failover-cases c actor why log) [
      | inl kept ↦ rw kept h
      | inr a ↦
          rw a.same (transition-IsChained c primary_fenced a.event.requested_by actor why log h)
    ])
perform-IsChained c (move target actor why) log h =
    unfold perform in transition-IsChained c target none actor why log h

perform_all-IsChained :
    (c : Settings) (calls : List Call) (log : Log)
    → IsChained log
    → IsChained (perform_all c calls log)
unfolding perform_all
perform_all-IsChained c [] log h = h
perform_all-IsChained c (call ∷ calls) log h =
    perform_all-IsChained c calls (perform c call log).1 (perform-IsChained c call log h)

-- The table read backwards: where the last edge into a state can have come from.
into_promoting :
    (s : FailoverState) → can_transition s standby_promoting ≡ true → s ≡ primary_fenced
unfolding can_transition
into_promoting s h = ground arith

into_fenced : (s : FailoverState) → can_transition s primary_fenced ≡ true → s ≡ failover_requested
unfolding can_transition
into_fenced s h = ground arith

into_active :
    (s : FailoverState)
    → can_transition s secondary_active ≡ true
    → (s ≡ standby_promoting) ⊎ (s ≡ recovery_validation)
unfolding can_transition
into_active s h = ground arith

into_failback :
    (s : FailoverState) → can_transition s failback_pending ≡ true → s ≡ recovery_validation
unfolding can_transition
into_failback s h = ground arith

-- The states that a log went through, newest first.
unfoldable pub states : Log → List FailoverState
states [] = normal ∷ []
states (e ∷ log) = e.to_state ∷ states log

abbrev pub IsState : FailoverState → List FailoverState → Type 0
IsState s [] = ⊥
IsState s (x ∷ xs) = (x ≡ s) ⊎ IsState s xs

-- The states in which the primary may no longer write.
abbrev pub is_failed_over : FailoverState → Bool
is_failed_over primary_fenced = true
is_failed_over standby_promoting = true
is_failed_over secondary_active = true
is_failed_over recovery_validation = true
is_failed_over failback_pending = true
is_failed_over _ = false

into_failed_over :
    (s t : FailoverState)
    → can_transition s t ≡ true
    → is_failed_over t ≡ true
    → (t ≡ primary_fenced) ⊎ (is_failed_over s ≡ true)
unfolding can_transition
into_failed_over s t h f = ground arith

failed_over_fenced :
    (log : Log)
    → IsChained log
    → is_failed_over (current_state log) ≡ true
    → IsState primary_fenced (states log)
unfolding current_state states
failed_over_fenced [] h f = cc
failed_over_fenced (e ∷ log) h f = elim (into_failed_over e.from_state e.to_state h.1 f) [
  | inl fenced ↦ inl fenced
  | inr before ↦ inr (failed_over_fenced log h.2 (rw (← h.0) before))
]

states_head : (log : Log) → (rest : List FailoverState) × (states log ≡ current_state log ∷ rest)
unfolding current_state states
states_head [] = ([], refl)
states_head (e ∷ log) = (states log, refl)

promoted :
    (log : Log)
    → IsChained log
    → current_state log ≡ standby_promoting
    → (rest : List FailoverState) × (states log
        ≡ standby_promoting ∷ primary_fenced ∷ failover_requested ∷ rest)
unfolding current_state states
promoted [] h e = absurd (ground arith)
promoted (p ∷ []) h e = absurd (ground (arith, into_promoting p.from_state))
promoted (p ∷ q ∷ log) h e =
    let fenced : q.to_state ≡ primary_fenced =
      cc (h.0, into_promoting p.from_state (rw e at h.1)) in
    let asked : current_state log ≡ failover_requested =
      cc (h.2.0, into_fenced q.from_state (rw fenced at h.2.1)) in
    let (rest, top) = states_head log in (rest, cc (e, fenced, top, asked))

validated :
    (log : Log)
    → IsChained log
    → current_state log ≡ failback_pending
    → (rest : List FailoverState) × (states log ≡ failback_pending ∷ recovery_validation ∷ rest)
unfolding current_state states
validated [] h e = absurd (ground arith)
validated (p ∷ log) h e =
    let before : current_state log ≡ recovery_validation =
      cc (h.0, into_failback p.from_state (rw e at h.1)) in
    let (rest, top) = states_head log in (rest, cc (e, top, before))

-- Whatever calls the service has seen, a standby is being promoted only directly after the primary
-- was fenced, and the primary was fenced only directly after a failover request.
pub promotion_follows_fencing :
    (c : Settings) (calls : List Call)
    → current_state (perform_all c calls []) ≡ standby_promoting
    → (rest : List FailoverState) × (states (perform_all c calls [])
        ≡ standby_promoting ∷ primary_fenced ∷ failover_requested ∷ rest)
promotion_follows_fencing c calls h =
    promoted (perform_all c calls []) (perform_all-IsChained c calls [] tt) h

-- Whatever calls the service has seen, a secondary is active, validated or pending failback only
-- if the log shows that the primary was fenced.
pub failed_over_needs_fencing :
    (c : Settings) (calls : List Call)
    → is_failed_over (current_state (perform_all c calls [])) ≡ true
    → IsState primary_fenced (states (perform_all c calls []))
failed_over_needs_fencing c calls =
    failed_over_fenced (perform_all c calls []) (perform_all-IsChained c calls [] tt)

-- Whatever calls the service has seen, a failback is pending only directly after the recovery was
-- validated.
pub failback_follows_validation :
    (c : Settings) (calls : List Call)
    → current_state (perform_all c calls []) ≡ failback_pending
    → (rest : List FailoverState) × (states (perform_all c calls [])
        ≡ failback_pending ∷ recovery_validation ∷ rest)
failback_follows_validation c calls h =
    validated (perform_all c calls []) (perform_all-IsChained c calls [] tt) h

transition-moved :
    (c : Settings) (target s : FailoverState) (req app : Option ℕ) (why : String) (log : Log)
    → (transition c target req app why log).0 ≡ moved s
    → (can_transition (current_state log) target ≡ true) × (s ≡ target)
unfolding transition
transition-moved c target s req app why log h = ground arith

-- Where approval is required, an approval that succeeds comes from another actor than the latest
-- request, if both are known; it fences the primary, and it was made in the requested state.
pub approve_failover_separate :
    (c : Settings) (actor requester : ℕ) (why : String) (log : Log) (e : Event)
    → c.requires_approval ≡ true
    → latest_request log ≡ some e
    → e.requested_by ≡ some requester
    → (approve_failover c (some actor) why log).0 ≢ refused 403
    → (approve_failover c (some actor) why log).0 ≢ refused 409
    → (actor ≢ requester)
      × (current_state log ≡ failover_requested)
      × (current_state (approve_failover c (some actor) why log).1 ≡ primary_fenced)
unfolding approve_failover can_transition
approve_failover_separate c actor requester why log e req latest by not_same not_late = ground arith

-- The separation of duties stands in `approve_failover` alone: where approval is required, one
-- actor who requests a failover can fence the primary without any approval, by `advance`.
pub advance_skips_approval :
    (c : Settings) (actor : ℕ) (why : String) (log : Log)
    → c.requires_approval ≡ true
    → can_transition (current_state log) failover_requested ≡ true
    → (current_state
          (perform_all c (request (some actor) why ∷ move primary_fenced (some actor) why ∷ []) log)
        ≡ primary_fenced)
      × ((approve_failover c (some actor) why (request_failover c (some actor) why log).1).0
          ≡ refused 403)
unfolding perform_all perform can_transition latest_request
advance_skips_approval c actor why log req ready = (ground arith, ground arith)
