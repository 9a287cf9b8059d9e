-- ===== src/Export/Turns.antt =====
-- Two jobs of `DeliveryWorker` that commit one after the other.
use decepti_forge.Base.{
  ℕ, ◌+◌, ◌≡◌, subst, Bool, true, false, ◌||◌, List, [], ◌∷◌, Option, none, some, num_mem, ◌==◌,
  ==_iff, if◌then◌else◌, arith, ◌⊎◌, inl, inr, Bool-cases,
}
use decepti_forge.Export.Worker.{
  Delivery, DeliveryStatus, Integration, Result, Settings, process, settle, mark_delivered,
  mark_retry, mark_dead_letter,
}
use decepti_forge.Export.Attempts.{
  is_settled, is_retrying, escapes, row_after, process_settles, process-escapes,
}
use decepti_forge.Export.Claims.{claim_all, claim_deliveries, candidates, is_taken, claim_all-takes}
use decepti_forge.Export.Jobs.{
  State, Job, with_row, written, then_do, process_row, process_claimed, with_claimed, run_once,
}

-- Whether the first row with a number has a status that passes a test.
unfoldable pub holds : (DeliveryStatus → Bool) → ℕ → List Delivery → Bool
holds p m [] = false
holds p m (d ∷ ds) = let rest = holds p m ds in if d.number == m then p d.status else rest

abbrev is_any : DeliveryStatus → Bool
is_any st = true

abbrev is_done : DeliveryStatus → Bool
is_done st = is_settled st || is_retrying st

abbrev Sure : (DeliveryStatus → Bool) → ℕ → Option State → Type 0
Sure p m none = Unit
Sure p m (some (rows, t)) = holds p m rows ≡ true

done_any : (m : ℕ) (rows : List Delivery) → holds is_done m rows ≡ true → holds is_any m rows ≡ true
unfolding holds
done_any m [] h = h
done_any m (d ∷ ds) h = ground (arith, h, done_any m ds)

taken_any : (m : ℕ) (rows : List Delivery) → is_taken m rows ≡ true → holds is_any m rows ≡ true
unfolding holds is_taken
taken_any m [] h = h
taken_any m (d ∷ ds) h = ground (arith, h, taken_any m ds)

-- A row that an attempt is done with, and that is free to be claimed, waits for a retry.
done_free :
    (m : ℕ) (rows : List Delivery)
    → holds is_done m rows ≡ true
    → is_taken m rows ≡ false
    → holds is_retrying m rows ≡ true
unfolding holds is_taken
done_free m [] h free = h
done_free m (d ∷ ds) h free = ground (arith, h, free, done_free m ds)

module _ (s : Settings) (jitter : ℕ → ℕ → ℕ) where
  process_number :
      (now : ℕ) (ok : Bool) (r : Option Result) (i : Option Integration) (d : Delivery)
      → (row_after d (process s jitter now ok r i d)).number ≡ d.number
  unfolding process settle mark_delivered mark_retry mark_dead_letter
  process_number now ok none none d = ground arith
  process_number now ok none (some i) d = ground arith
  process_number now ok (some r) none d = ground arith
  process_number now ok (some r) (some i) d = ground arith

  process_done :
      (now : ℕ) (ok : Bool) (r : Option Result) (i : Option Integration) (d : Delivery)
      → (process s jitter now ok r i d ≡ none)
        ⊎ (is_done (row_after d (process s jitter now ok r i d)).status ≡ true)
  process_done now ok r i d = elim (Bool-cases (escapes ok r i)) [
    | inl escaped ↦ inl (process-escapes s jitter now ok r i d escaped)
    | inr quiet ↦ inr (process_settles s jitter now ok r i d quiet).0
  ]

  -- The row that is written in the place of `d`.
  written_own :
      (m : ℕ) (t : ℕ → Option Integration) (ds : List Delivery) (d : Delivery)
      (o : Option (Delivery × Option Integration))
      → (o ≡ none) ⊎ (is_done (row_after d o).status ≡ true)
      → (row_after d o).number ≡ d.number
      → (d.number == m) ≡ true
      → Sure is_done m (written t ds d o)
  unfolding holds
  written_own m t ds d none done same here = tt
  written_own m t ds d (some (d', i)) (inl gone) same here = absurd (cc gone)
  written_own m t ds d (some (d', i)) (inr done) same here = rw (same, here) done

  written_other :
      (p : DeliveryStatus → Bool) (m : ℕ) (t : ℕ → Option Integration) (ds : List Delivery)
      (d : Delivery) (o : Option (Delivery × Option Integration))
      → (row_after d o).number ≡ d.number
      → (d.number == m) ≡ false
      → holds p m (d ∷ ds) ≡ true
      → Sure p m (written t ds d o)
  unfolding holds
  written_other p m t ds d none same other h = tt
  written_other p m t ds d (some (d', i)) same other h = rw (same, other) (rw other at h)

  with_row_own :
      (p : DeliveryStatus → Bool) (m : ℕ) (d : Delivery) (o : Option State)
      → (d.number == m) ≡ true
      → p d.status ≡ true
      → Sure p m (with_row d o)
  unfolding holds
  with_row_own p m d none here h = tt
  with_row_own p m d (some (rows, t)) here h = rw here h

  with_row_other :
      (p : DeliveryStatus → Bool) (m : ℕ) (d : Delivery) (o : Option State)
      → (d.number == m) ≡ false
      → Sure p m o
      → Sure p m (with_row d o)
  unfolding holds
  with_row_other p m d none other h = tt
  with_row_other p m d (some (rows, t)) other h = rw other h

  process_row_own :
      (j : Job) (m : ℕ) (t : ℕ → Option Integration) (rows : List Delivery)
      → holds is_any m rows ≡ true
      → Sure is_done m (process_row s jitter j m t rows)
  unfolding process_row holds
  process_row_own j m t [] h = h
  process_row_own j m t (d ∷ ds) h =
      let ok = j.endpoint_ok m in
      let i = t d.integration_id in
      elim (Bool-cases (d.number == m)) [
        | inl here ↦ rw here (
            written_own m t ds d (process s jitter j.now ok (j.answer m) i d)
              (process_done j.now ok (j.answer m) i d) (process_number j.now ok (j.answer m) i d)
              here)
        | inr other ↦ rw other (
            with_row_other is_done m d (process_row s jitter j m t ds) other
              (process_row_own j m t ds (rw other at h)))
      ]

  process_row_other :
      (p : DeliveryStatus → Bool) (j : Job) (n m : ℕ) (t : ℕ → Option Integration)
      (rows : List Delivery)
      → (n == m) ≡ false
      → holds p m rows ≡ true
      → Sure p m (process_row s jitter j n t rows)
  unfolding process_row holds
  process_row_other p j n m t [] ne h = h
  process_row_other p j n m t (d ∷ ds) ne h =
      let ok = j.endpoint_ok n in
      let i = t d.integration_id in
      elim (Bool-cases (d.number == n)) [
        | inl own ↦ rw own (
            written_other p m t ds d (process s jitter j.now ok (j.answer n) i d)
              (process_number j.now ok (j.answer n) i d) (ground (arith, own, ne)) h)
        | inr other ↦ rw other (elim (Bool-cases (d.number == m)) [
          | inl here ↦ with_row_own p m d (process_row s jitter j n t ds) here (rw here at h)
          | inr far ↦
              with_row_other p m d (process_row s jitter j n t ds) far
                (process_row_other p j n m t ds ne (rw far at h))
        ])
      ]

  process_row_done :
      (j : Job) (n m : ℕ) (t : ℕ → Option Integration) (rows : List Delivery)
      → holds is_done m rows ≡ true
      → Sure is_done m (process_row s jitter j n t rows)
  process_row_done j n m t rows h = elim (Bool-cases (n == m)) [
    | inl same ↦ rw ((==_iff n m).0 same) (process_row_own j m t rows (done_any m rows h))
    | inr ne ↦ process_row_other is_done j n m t rows ne h
  ]

  Sure-then_do :
      (p q : DeliveryStatus → Bool) (m : ℕ) (o : Option State) (f : State → Option State)
      → Sure p m o
      → ((st : State) → holds p m st.0 ≡ true → Sure q m (f st))
      → Sure q m (then_do o f)
  Sure-then_do p q m none f h next = tt
  Sure-then_do p q m (some st) f h next = next st h

  process_claimed_done :
      (j : Job) (m : ℕ) (ns : List ℕ) (st : State)
      → holds is_done m st.0 ≡ true
      → Sure is_done m (process_claimed s jitter j ns st)
  unfolding process_claimed
  process_claimed_done j m [] st h = h
  process_claimed_done j m (n ∷ ns) st h =
      Sure-then_do is_done is_done m (process_row s jitter j n st.1 st.0)
        (process_claimed s jitter j ns) (process_row_done j n m st.1 st.0 h)
        (process_claimed_done j m ns)

  -- Every claimed delivery has had its attempt when the loop has ended without an error.
  process_claimed_reaches :
      (j : Job) (m : ℕ) (ns : List ℕ) (st : State)
      → holds is_any m st.0 ≡ true
      → num_mem m ns ≡ true
      → Sure is_done m (process_claimed s jitter j ns st)
  unfolding process_claimed
  process_claimed_reaches j m [] st h listed = absurd (cc listed)
  process_claimed_reaches j m (n ∷ ns) st h listed = elim (Bool-cases (n == m)) [
    | inl same ↦
        Sure-then_do is_done is_done m (process_row s jitter j n st.1 st.0)
          (process_claimed s jitter j ns)
          (rw ((==_iff n m).0 same) (process_row_own j m st.1 st.0 h)) (process_claimed_done j m ns)
    | inr ne ↦
        Sure-then_do is_any is_done m (process_row s jitter j n st.1 st.0)
          (process_claimed s jitter j ns) (process_row_other is_any j n m st.1 st.0 ne h)
          (λ st' h'. process_claimed_reaches j m ns st' h' (ground (arith, ne, listed)))
  ]

  with_claimed_done :
      (m : ℕ) (ns claimed : List ℕ) (o : Option State) (st : State)
      → (num_mem m ns ≡ true → Sure is_done m o)
      → with_claimed ns o ≡ some (claimed, st)
      → num_mem m claimed ≡ true
      → holds is_done m st.0 ≡ true
  with_claimed_done m ns claimed none st sure ran listed = absurd (cc ran)
  with_claimed_done m ns claimed (some st') st sure ran listed =
      let same_claims : ns ≡ claimed = cc ran in
      let same_state : st' ≡ st = cc ran in
      subst (λ (x : State). holds is_done m x.0 ≡ true) same_state (sure (rw same_claims listed))

  -- After a job, every delivery that it claimed has ended or waits for a retry.
  run_once_done :
      (j : Job) (st st' : State) (claimed : List ℕ) (m : ℕ)
      → run_once s jitter j st ≡ some (claimed, st')
      → num_mem m claimed ≡ true
      → holds is_done m st'.0 ≡ true
  unfolding run_once claim_deliveries
  run_once_done j (rows, t) st' claimed m ran listed =
      let until = j.claimed_at + j.lease in
      let ns = candidates j.claimed_at j.limit rows in
      let (won, rows') = claim_all j.claimed_at until ns rows in
      with_claimed_done m won claimed (process_claimed s jitter j won (rows', t)) st'
        (λ mine.
          process_claimed_reaches j m won (rows', t)
            (taken_any m rows' (claim_all-takes j.claimed_at until m ns rows mine).1) mine)
        ran listed

  -- Two workers claim a delivery in turn only for a retry. After a job has committed, a second
  -- worker's updates, with any candidates that it had read before or after, and at any time, claim
  -- none of the first job's deliveries that was delivered or is dead: those that they claim again
  -- are the ones that the first job has put to "retrying".
  pub no_double_claim :
      (j : Job) (st st' : State) (claimed : List ℕ) (m now until : ℕ) (stale : List ℕ)
      → run_once s jitter j st ≡ some (claimed, st')
      → num_mem m claimed ≡ true
      → num_mem m (claim_all now until stale st'.0).0 ≡ true
      → holds is_retrying m st'.0 ≡ true
  no_double_claim j st st' claimed m now until stale ran mine again =
      done_free m st'.0 (run_once_done j st st' claimed m ran mine)
        (claim_all-takes now until m stale st'.0 again).0
