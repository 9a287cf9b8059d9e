-- ===== src/Export/Blocked.antt =====
-- Jobs of `DeliveryWorker` from which an error escapes.
use decepti_forge.Base.{
  ℕ, zero, suc, ◌+◌, ◌≤◌, ◌≡◌, refl, true, false, List, [], ◌∷◌, ◌++◌, Option, none, All, ◌==◌,
  ==_iff, arith, inl, inr, Bool-cases, take, select, map,
}
use decepti_forge.Export.Worker.{Delivery, Integration, Settings}
use decepti_forge.Export.Attempts.{escapes, process-escapes}
use decepti_forge.Export.Claims.{
  is_waiting, is_due, is_free, leased, candidates, claim_one, claim_all, claim_deliveries,
}
use decepti_forge.Export.Jobs.{Job, process_row, process_claimed, run_once, run_job, run_jobs}

-- The rows before `d`: other deliveries, which do not wait for an attempt.
abbrev pub AreOver : Delivery → List Delivery → Type 0
AreOver d = All (λ (p : Delivery). (is_waiting p.status ≡ false) × ((p.number == d.number) ≡ false))

-- The updates leave the rows before `d` as they are, and `d` too where it is not free.
claim_one-kept :
    (now until n : ℕ) (d : Delivery) (ps ds : List Delivery)
    → AreOver d ps
    → is_free now d ≡ false
    → (rest : List Delivery) × ((claim_one now until n (ps ++ d ∷ ds)).1 ≡ ps ++ d ∷ rest)
unfolding claim_one
claim_one-kept now until n d [] ds over held = elim (Bool-cases (d.number == n)) [
  | inl own ↦ rw (own, held) (ds, refl)
  | inr other ↦ rw other ((claim_one now until n ds).1, refl)
]
claim_one-kept now until n d (p ∷ ps) ds ((ended, differs), over) held =
    elim (Bool-cases (p.number == n)) [
      | inl own ↦
          let busy : is_free now p ≡ false = ground (arith, ended) in rw (own, busy) (ds, refl)
      | inr other ↦
          let (rest, kept) = claim_one-kept now until n d ps ds over held in
          (rest, rw other (rw kept refl))
    ]

claim_all-kept :
    (now until : ℕ) (ns : List ℕ) (d : Delivery) (ps ds : List Delivery)
    → AreOver d ps
    → is_free now d ≡ false
    → (rest : List Delivery) × ((claim_all now until ns (ps ++ d ∷ ds)).1 ≡ ps ++ d ∷ rest)
unfolding claim_all
claim_all-kept now until [] d ps ds over held = (ds, refl)
claim_all-kept now until (n ∷ ns) d ps ds over held =
    let (rest, kept) = claim_one-kept now until n d ps ds over held in
    rw kept (claim_all-kept now until ns d ps rest over held)

claim_one-claims :
    (now until : ℕ) (d : Delivery) (ps ds : List Delivery)
    → AreOver d ps
    → is_free now d ≡ true
    → claim_one now until d.number (ps ++ d ∷ ds) ≡ (true, ps ++ leased until d ∷ ds)
unfolding claim_one
claim_one-claims now until d [] ds over free =
    let own : (d.number == d.number) ≡ true = (==_iff d.number d.number).1 refl in
    rw own (rw free refl)
claim_one-claims now until d (p ∷ ps) ds ((ended, differs), over) free =
    rw differs (rw (claim_one-claims now until d ps ds over free) refl)

select-due :
    (now : ℕ) (d : Delivery) (ps ds : List Delivery)
    → AreOver d ps
    → is_due now d ≡ true
    → select (is_due now) (ps ++ d ∷ ds) ≡ d ∷ select (is_due now) ds
select-due now d [] ds over due = rw due refl
select-due now d (p ∷ ps) ds ((ended, differs), over) due =
    let not_due : is_due now p ≡ false = ground (arith, ended) in
    rw not_due (select-due now d ps ds over due)

claim_deliveries-first :
    (now limit lease : ℕ) (d : Delivery) (ps ds : List Delivery)
    → 1 ≤ limit
    → AreOver d ps
    → is_due now d ≡ true
    → (claimed : List ℕ) × (rest : List Delivery) × (claim_deliveries now limit lease (ps ++ d ∷ ds)
        ≡ (d.number ∷ claimed, ps ++ leased (now + lease) d ∷ rest))
unfolding claim_deliveries candidates claim_all
claim_deliveries-first now zero lease d ps ds some' over due = absurd (omega (arith, some'))
claim_deliveries-first now (suc k) lease d ps ds some' over due =
    let until = now + lease in
    let ns = take k (map (λ (x : Delivery). x.number) (select (is_due now) ds)) in
    let (rest, kept) = claim_all-kept now until ns (leased until d) ps ds over refl in
    let free : is_free now d ≡ true = ground (arith, due) in
    (
      (claim_all now until ns (ps ++ leased until d ∷ ds)).0,
      rest,
      rw (select-due now d ps ds over due)
          (rw (claim_one-claims now until d ps ds over free) (rw kept refl)),
    )

module _ (s : Settings) (jitter : ℕ → ℕ → ℕ) where
  -- A job that takes one delivery at least, and in which a delivery is due and an error escapes.
  pub record IsBlockedBy (d : Delivery) (i : Option Integration) (j : Job) : Type 0 where
    pub takes : 1 ≤ j.limit
    pub due : is_due j.claimed_at d ≡ true
    pub escaping : escapes (j.endpoint_ok d.number) (j.answer d.number) i ≡ true

  process_row-escapes :
      (j : Job) (d : Delivery) (ps ds : List Delivery) (t : ℕ → Option Integration)
      → AreOver d ps
      → escapes (j.endpoint_ok d.number) (j.answer d.number) (t d.integration_id) ≡ true
      → process_row s jitter j d.number t (ps ++ d ∷ ds) ≡ none
  unfolding process_row
  process_row-escapes j d [] ds t over escaped =
      let own : (d.number == d.number) ≡ true = (==_iff d.number d.number).1 refl in
      rw own (
        rw
          (process-escapes s jitter j.now (j.endpoint_ok d.number) (j.answer d.number)
            (t d.integration_id) d escaped)
          refl)
  process_row-escapes j d (p ∷ ps) ds t ((ended, differs), over) escaped =
      rw differs (rw (process_row-escapes j d ps ds t over escaped) refl)

  run_once-escapes :
      (d : Delivery) (ps ds : List Delivery) (t : ℕ → Option Integration) (j : Job)
      → AreOver d ps
      → IsBlockedBy d (t d.integration_id) j
      → run_once s jitter j (ps ++ d ∷ ds, t) ≡ none
  unfolding run_once process_claimed
  run_once-escapes d ps ds t j over b =
      let held = leased (j.claimed_at + j.lease) d in
      let (claimed, rest, did) =
        claim_deliveries-first j.claimed_at j.limit j.lease d ps ds b.takes over b.due in
      rw did (rw (process_row-escapes j held ps rest t over b.escaping) refl)

  -- A delivery from which an error escapes in every job stops the whole export. As long as it is the
  -- oldest that waits for an attempt, it is due in every job, each job takes one delivery at least,
  -- and an error escapes from its attempt each time, as it does where the secret of its active
  -- integration cannot be decrypted, no number of jobs, whatever the destinations of the others
  -- answer, changes any delivery or integration: each job is rolled back with the attempts on the
  -- rest of its batch, and the failed attempt is not counted.
  pub oldest_blocks :
      (d : Delivery) (ps ds : List Delivery) (t : ℕ → Option Integration) (jobs : List Job)
      → AreOver d ps
      → All (IsBlockedBy d (t d.integration_id)) jobs
      → run_jobs s jitter jobs (ps ++ d ∷ ds, t) ≡ (ps ++ d ∷ ds, t)
  unfolding run_jobs run_job
  oldest_blocks d ps ds t [] over h = refl
  oldest_blocks d ps ds t (j ∷ js) over (b, h) =
      rw (run_once-escapes d ps ds t j over b) (oldest_blocks d ps ds t js over h)
