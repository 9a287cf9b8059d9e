-- ===== src/Reliability/Failover.antt =====
-- `FailoverService` over the event log of `ReliabilityRepository`. The log is the list of events,
-- newest first; it is the only state that the service reads and writes.
use decepti_forge.Base.{
  ℕ, ◌≡◌, refl, ◌⊎◌, inl, inr, Bool-cases, Bool, true, false, ◌&&◌, Option, none, some, List, [],
  ◌∷◌, ◌==◌, if◌then◌else◌, String,
}
use decepti_forge.Reliability.States.{
  FailoverState, normal, failover_requested, primary_fenced, can_transition,
}

-- `FailoverEventRecord`
pub record Event : Type 0 where
  pub from_state : FailoverState
  pub to_state : FailoverState
  pub active_region_epoch : ℕ
  pub requested_by : Option ℕ
  pub approved_by : Option ℕ
  pub reason : String

abbrev pub Log : Type 0
Log = List Event

-- The settings that the service reads.
pub record Settings : Type 0 where
  pub epoch : ℕ
  pub requires_approval : Bool

-- The new state, or a `FailoverError` with its status code.
pub data Outcome : Type 0 where
  moved : FailoverState → Outcome
  refused : (status_code : ℕ) → Outcome

-- `ReliabilityRepository.current_state`
unfoldable pub current_state : Log → FailoverState
current_state [] = normal
current_state (e ∷ log) = e.to_state

abbrev is_request : FailoverState → Bool
is_request failover_requested = true
is_request _ = false

-- `ReliabilityRepository.latest_request`
unfoldable pub latest_request : Log → Option Event
latest_request [] = none
latest_request (e ∷ log) = if is_request e.to_state then some e else latest_request log

-- `FailoverService._transition`
unfoldable pub transition :
    Settings → FailoverState → (requested_by approved_by : Option ℕ) → String → Log → Outcome × Log
unfolding current_state
transition c target req app why log =
    if can_transition (current_state log) target
    then (
      moved target,
      record {
        from_state = current_state log;
        to_state = target;
        active_region_epoch = c.epoch;
        requested_by = req;
        approved_by = app;
        reason = why;
      }
          ∷ log,
    )
    else (refused 409, log)

unfoldable pub request_failover : Settings → Option ℕ → String → Log → Outcome × Log
unfolding transition
request_failover c actor why = transition c failover_requested actor none why

-- Both actors are known and the same.
abbrev pub same_actor : Option ℕ → Option ℕ → Bool
same_actor (some a) (some b) = a == b
same_actor _ _ = false

approve_request : Settings → Option ℕ → String → Option Event → Log → Outcome × Log
unfolding transition
approve_request c actor why none log = (refused 409, log)
approve_request c actor why (some request) log =
    if is_request (current_state log)
    then (if c.requires_approval && same_actor actor request.requested_by
        then (refused 403, log)
        else transition c primary_fenced request.requested_by actor why log)
    else (refused 409, log)

unfoldable pub approve_failover : Settings → Option ℕ → String → Log → Outcome × Log
unfolding approve_request
approve_failover c actor why log = approve_request c actor why (latest_request log) log

unfoldable pub advance : Settings → FailoverState → Option ℕ → String → Log → Outcome × Log
unfolding transition
advance c target actor why = transition c target none actor why

-- A refused approval leaves the log alone; any other is the transition to `primary_fenced` on behalf
-- of the latest request, in the requested state, and by another actor where approval is required.
pub record Approved (c : Settings) (actor : Option ℕ) (why : String) (log : Log) : Type 0 where
  pub event : Event
  pub latest : latest_request log ≡ some event
  pub separate : (c.requires_approval && same_actor actor event.requested_by) ≡ false
  pub same :
      approve_failover c actor why log
      ≡ transition c primary_fenced event.requested_by actor why log

approve_request-cases :
    (c : Settings) (actor : Option ℕ) (why : String) (r : Option Event) (log : Log)
    → ((approve_request c actor why r log).1 ≡ log)
      ⊎ ((e : Event) × (r ≡ some e)
          × ((c.requires_approval && same_actor actor e.requested_by) ≡ false)
          × (approve_request c actor why r log
              ≡ transition c primary_fenced e.requested_by actor why log))
unfolding approve_request
approve_request-cases c actor why none log = inl refl
approve_request-cases c actor why (some e) log =
    elim (Bool-cases (is_request (current_state log))) [
      | inr other ↦ inl (rw other)
      | inl asked ↦ elim (Bool-cases (c.requires_approval && same_actor actor e.requested_by)) [
        | inl same ↦ inl (rw (asked, same))
        | inr separate ↦ inr (e, refl, separate, rw (asked, separate))
      ]
    ]

pub approve_failover-cases :
    (c : Settings) (actor : Option ℕ) (why : String) (log : Log)
    → ((approve_failover c actor why log).1 ≡ log) ⊎ Approved c actor why log
approve_failover-cases c actor why log =
    elim (approve_request-cases c actor why (latest_request log) log) [
      | inl kept ↦ inl (unfold approve_failover in kept)
      | inr (e, latest, separate, same) ↦ inr (record {
        event = e;
        latest = latest;
        separate = separate;
        same = unfold approve_failover in same;
      })
    ]

-- The calls of the service.
pub data Call : Type 0 where
  request : (actor : Option ℕ) → String → Call
  approve : (actor : Option ℕ) → String → Call
  move : FailoverState → (actor : Option ℕ) → String → Call

unfoldable pub perform : Settings → Call → Log → Outcome × Log
unfolding request_failover approve_failover advance
perform c (request actor why) log = request_failover c actor why log
perform c (approve actor why) log = approve_failover c actor why log
perform c (move target actor why) log = advance c target actor why log

unfoldable pub perform_all : Settings → List Call → Log → Log
perform_all c [] log = log
perform_all c (call ∷ calls) log = perform_all c calls (perform c call log).1
