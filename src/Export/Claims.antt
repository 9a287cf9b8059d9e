-- ===== src/Export/Claims.antt =====
-- `claim_deliveries` of repositories/integrations.py. The rows stand in the order of their creation;
-- a delivery is named by its number.
use decepti_forge.Base.{
  ℕ, ◌+◌, ◌≡◌, refl, Bool, true, false, not, ◌&&◌, List, [], ◌∷◌, Option, none, some, take, select,
  map, if◌then◌else◌, leb, ltb, ◌==◌, num_mem, arith, Bool-cases, inl, inr, ==_iff,
}
use decepti_forge.Export.Worker.{Delivery, DeliveryStatus, queued, retrying, delivering}

abbrev pub is_waiting : DeliveryStatus → Bool
is_waiting queued = true
is_waiting retrying = true
is_waiting _ = false

abbrev pub is_unleased : (now : ℕ) → Option ℕ → Bool
is_unleased now none = true
is_unleased now (some until) = ltb until now

-- The condition of the update, and that of the query.
abbrev pub is_free : (now : ℕ) → Delivery → Bool
is_free now d = is_waiting d.status && is_unleased now d.lease_until

abbrev pub is_due : (now : ℕ) → Delivery → Bool
is_due now d = is_free now d && leb d.next_attempt_at now

-- The query: the numbers of the candidates.
unfoldable pub candidates : (now limit : ℕ) → List Delivery → List ℕ
candidates now limit rows = take limit (map (λ d. d.number) (select (is_due now) rows))

abbrev pub leased : (until : ℕ) → Delivery → Delivery
leased until d = record d { status = delivering; lease_until = some until }

-- The update of one row by its number: whether it changed a row, and the rows.
unfoldable pub claim_one : (now until number : ℕ) → List Delivery → Bool × List Delivery
claim_one now until n [] = (false, [])
claim_one now until n (d ∷ ds) =
    let (won, rest) = claim_one now until n ds in
    if d.number == n
    then (if is_free now d then (true, leased until d ∷ ds) else (false, d ∷ ds))
    else (won, d ∷ rest)

-- The loop over the candidates: the numbers that were claimed, and the rows.
unfoldable pub claim_all : (now until : ℕ) → List ℕ → List Delivery → List ℕ × List Delivery
unfolding claim_one
claim_all now until [] rows = ([], rows)
claim_all now until (n ∷ ns) rows =
    let (won, rows') = claim_one now until n rows in
    let (claimed, rows'') = claim_all now until ns rows' in
    (if won then n ∷ claimed else claimed, rows'')

unfoldable pub claim_deliveries : (now limit lease : ℕ) → List Delivery → List ℕ × List Delivery
unfolding candidates claim_all
claim_deliveries now limit lease rows = claim_all now (now + lease) (candidates now limit rows) rows

-- Whether a row with this number is being delivered, as the first row with the number is.
unfoldable pub is_taken : ℕ → List Delivery → Bool
is_taken n [] = false
is_taken n (d ∷ ds) = if d.number == n then not (is_waiting d.status) else is_taken n ds

claim_one-taken :
    (now until n m : ℕ) (rows : List Delivery)
    → is_taken m rows ≡ true
    → is_taken m (claim_one now until n rows).1 ≡ true
unfolding claim_one is_taken
claim_one-taken now until n m [] h = h
claim_one-taken now until n m (d ∷ ds) h = ground (arith, claim_one-taken now until n m ds)

claim_one-takes :
    (now until n : ℕ) (rows : List Delivery)
    → (claim_one now until n rows).0 ≡ true
    → (is_taken n rows ≡ false) × (is_taken n (claim_one now until n rows).1 ≡ true)
unfolding claim_one is_taken
claim_one-takes now until n [] h = cc h
claim_one-takes now until n (d ∷ ds) h = ground (arith, claim_one-takes now until n ds)

claim_one-refuses :
    (now until n : ℕ) (rows : List Delivery)
    → is_taken n rows ≡ true
    → (claim_one now until n rows).0 ≡ false
unfolding claim_one is_taken
claim_one-refuses now until n [] h = refl
claim_one-refuses now until n (d ∷ ds) h = ground (arith, claim_one-refuses now until n ds)

pub claim_all-taken :
    (now until m : ℕ) (ns : List ℕ) (rows : List Delivery)
    → is_taken m rows ≡ true
    → (is_taken m (claim_all now until ns rows).1 ≡ true)
      × (num_mem m (claim_all now until ns rows).0 ≡ false)
unfolding claim_all
claim_all-taken now until m [] rows h = (h, refl)
claim_all-taken now until m (n ∷ ns) rows h = elim (Bool-cases (m == n)) [
  | inl same ↦
      let m≡n = (==_iff m n).0 same in
      let (kept, absent) =
        claim_all-taken now until m ns (claim_one now until n rows).1
          (claim_one-taken now until n m rows h) in
      let lost : (claim_one now until n rows).0 ≡ false =
        rw m≡n at (claim_one-refuses now until m rows h) in
      (kept, rw lost absent)
  | inr other ↦
      let (kept, absent) =
        claim_all-taken now until m ns (claim_one now until n rows).1
          (claim_one-taken now until n m rows h) in
      (kept, ground (arith, other, absent))
]

-- What a claim has taken is being delivered, and was not before.
pub claim_all-takes :
    (now until m : ℕ) (ns : List ℕ) (rows : List Delivery)
    → num_mem m (claim_all now until ns rows).0 ≡ true
    → (is_taken m rows ≡ false) × (is_taken m (claim_all now until ns rows).1 ≡ true)
unfolding claim_all
claim_all-takes now until m [] rows h = cc h
claim_all-takes now until m (n ∷ ns) rows h =
    let rows' = (claim_one now until n rows).1 in
    elim (Bool-cases (m == n && (claim_one now until n rows).0)) [
      | inl here ↦
          let m≡n : m ≡ n = ground (arith, here) in
          let won : (claim_one now until n rows).0 ≡ true = ground (arith, here) in
          let (before, after) = claim_one-takes now until n rows won in
          (rw m≡n before, (claim_all-taken now until m ns rows' (rw m≡n after)).0)
      | inr later ↦
          let deeper : num_mem m (claim_all now until ns rows').0 ≡ true =
            ground (arith, later, h) in
          let (before, after) = claim_all-takes now until m ns rows' deeper in
          (
            elim (Bool-cases (is_taken m rows)) [
              | inr free ↦ free
              | inl taken ↦ absurd (cc (before, claim_one-taken now until n m rows taken))
            ],
            after,
          )
    ]
