-- ===== src/Export/Attempts.antt =====
-- services/integrations/worker.py: what one attempt leaves, and the attempts on one delivery.
use decepti_forge.Base.{
  ℕ, ◌+◌, ◌≤◌, ◌≡◌, Bool, true, false, not, ◌&&◌, ◌||◌, List, [], ◌∷◌, Option, none, some,
  if◌then◌else◌, ltb, str_eq, arith, count, Bool-cases, inl, inr,
}
use decepti_forge.Export.Worker.{
  DeliveryStatus, retrying, delivered, dead_lettered, Delivery, Integration, Result, Settings,
  mark_delivered, mark_retry, mark_dead_letter, settle, process,
}

-- The statuses that an attempt can leave.
abbrev pub is_settled : DeliveryStatus → Bool
is_settled delivered = true
is_settled dead_lettered = true
is_settled _ = false

abbrev pub is_retrying : DeliveryStatus → Bool
is_retrying retrying = true
is_retrying _ = false

-- Whether an error escapes: there is an active integration with a good endpoint, and no answer.
abbrev pub escapes : (endpoint_ok : Bool) → Option Result → Option Integration → Bool
escapes ok none (some i) = ok && str_eq i.state "active"
escapes ok _ _ = false

-- The delivery after an attempt; an error leaves it as it was, since the job is rolled back.
abbrev pub row_after : Delivery → Option (Delivery × Option Integration) → Delivery
row_after d none = d
row_after d (some (d', i)) = d'

-- An attempt from which no error escapes, whatever the destination, the endpoint and the integration,
-- ends a delivery or leaves it for a retry, without a lease and counted; it leaves it for a retry
-- only while another attempt is allowed; a blocked endpoint ends it.
pub process_settles :
    (s : Settings) (jitter : ℕ → ℕ → ℕ) (now : ℕ) (ok : Bool) (r : Option Result)
    (i : Option Integration) (d : Delivery)
    → escapes ok r i ≡ false
    → let d' = row_after d (process s jitter now ok r i d) in
      ((is_settled d'.status || is_retrying d'.status) ≡ true)
      × (d'.attempt_count ≡ d.attempt_count + 1)
      × (d'.lease_until ≡ none)
      × ((is_settled d'.status || ltb (d.attempt_count + 1) s.max_attempts) ≡ true)
      × ((is_settled d'.status || ok) ≡ true)
unfolding process settle mark_delivered mark_retry mark_dead_letter
process_settles s jitter now ok none none d h = ground (arith, h)
process_settles s jitter now ok none (some i) d h = ground (arith, h)
process_settles s jitter now ok (some r) none d h = ground (arith, h)
process_settles s jitter now ok (some r) (some i) d h = ground (arith, h)

pub process-escapes :
    (s : Settings) (jitter : ℕ → ℕ → ℕ) (now : ℕ) (ok : Bool) (r : Option Result)
    (i : Option Integration) (d : Delivery)
    → escapes ok r i ≡ true
    → process s jitter now ok r i d ≡ none
unfolding process
process-escapes s jitter now ok none none d h = cc h
process-escapes s jitter now ok none (some i) d h = ground (arith, h)
process-escapes s jitter now ok (some r) none d h = cc h
process-escapes s jitter now ok (some r) (some i) d h = cc h

-- An attempt on one delivery; `batch_commits` says whether its job went through with the other
-- deliveries of the batch, without which nothing of it is kept.
pub record Attempt : Type 0 where
  pub now : ℕ
  pub endpoint_ok : Bool
  pub answer : Option Result
  pub integration : Option Integration
  pub batch_commits : Bool

abbrev pub is_kept : Attempt → Bool
is_kept a = a.batch_commits && not (escapes a.endpoint_ok a.answer a.integration)

abbrev pub run_attempt : Settings → (ℕ → ℕ → ℕ) → Attempt → Delivery → Delivery
run_attempt s jitter a d =
    if a.batch_commits
    then row_after d (process s jitter a.now a.endpoint_ok a.answer a.integration d)
    else d

-- The attempts on one delivery, up to the first that ends it.
unfoldable pub process_all : Settings → (ℕ → ℕ → ℕ) → List Attempt → Delivery → Delivery
process_all s jitter [] d = d
process_all s jitter (a ∷ rest) d =
    if is_settled d.status then d else process_all s jitter rest (run_attempt s jitter a d)

run_attempt-lost :
    (s : Settings) (jitter : ℕ → ℕ → ℕ) (a : Attempt) (d : Delivery)
    → is_kept a ≡ false
    → run_attempt s jitter a d ≡ d
run_attempt-lost s jitter a d lost =
    elim (Bool-cases (escapes a.endpoint_ok a.answer a.integration)) [
      | inl escaped ↦
          let gone =
            process-escapes s jitter a.now a.endpoint_ok a.answer a.integration d escaped in
          rw gone (ground (arith, lost))
      | inr settled ↦ ground (arith, lost, settled)
    ]

run_attempt-kept :
    (s : Settings) (jitter : ℕ → ℕ → ℕ) (a : Attempt) (d : Delivery)
    → is_kept a ≡ true
    → ((run_attempt s jitter a d).attempt_count ≡ d.attempt_count + 1)
      × ((is_settled (run_attempt s jitter a d).status || ltb (d.attempt_count + 1) s.max_attempts)
          ≡ true)
run_attempt-kept s jitter a d kept =
    let quiet : escapes a.endpoint_ok a.answer a.integration ≡ false = ground (arith, kept) in
    let commits : a.batch_commits ≡ true = ground (arith, kept) in
    let (ended, counted, free, allowed, sent) =
      process_settles s jitter a.now a.endpoint_ok a.answer a.integration d quiet in
    rw commits (counted, allowed)

process_all-settled :
    (s : Settings) (jitter : ℕ → ℕ → ℕ) (attempts : List Attempt) (d : Delivery)
    → (is_settled d.status || ltb d.attempt_count s.max_attempts) ≡ true
    → s.max_attempts ≤ d.attempt_count + count is_kept attempts
    → is_settled (process_all s jitter attempts d).status ≡ true
unfolding process_all
process_all-settled s jitter [] d going enough = ground arith
process_all-settled s jitter (a ∷ rest) d going enough = elim (Bool-cases (is_settled d.status)) [
  | inl ended ↦ rw ended ended
  | inr open' ↦ elim (Bool-cases (is_kept a)) [
    | inr lost ↦
        rw (open', run_attempt-lost s jitter a d lost)
          (process_all-settled s jitter rest d going (ground (arith, lost, enough)))
    | inl kept ↦
        let (counted, allowed) = run_attempt-kept s jitter a d kept in
        rw open' (
          process_all-settled s jitter rest (run_attempt s jitter a d) (rw counted allowed)
            (ground (arith, counted, kept, enough)))
  ]
]

-- A delivery ends: after at most `max_attempts` attempts that are kept (one at least), with any
-- answers of the destination, it is delivered or dead. An attempt is kept if no error escapes from it
-- and its job commits; any number of others may stand between them, and change nothing.
pub process_all_ends :
    (s : Settings) (jitter : ℕ → ℕ → ℕ) (attempts : List Attempt) (d : Delivery)
    → 1 ≤ count is_kept attempts
    → s.max_attempts ≤ d.attempt_count + count is_kept attempts
    → is_settled (process_all s jitter attempts d).status ≡ true
unfolding process_all
process_all_ends s jitter [] d some' enough = absurd (omega (arith, some'))
process_all_ends s jitter (a ∷ rest) d some' enough = elim (Bool-cases (is_settled d.status)) [
  | inl ended ↦ rw ended ended
  | inr open' ↦ elim (Bool-cases (is_kept a)) [
    | inr lost ↦
        rw (open', run_attempt-lost s jitter a d lost)
          (process_all_ends s jitter rest d (ground (arith, lost, some'))
            (ground (arith, lost, enough)))
    | inl kept ↦
        let (counted, allowed) = run_attempt-kept s jitter a d kept in
        rw open' (
          process_all-settled s jitter rest (run_attempt s jitter a d) (rw counted allowed)
            (ground (arith, counted, kept, enough)))
  ]
]
