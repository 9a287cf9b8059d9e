-- ===== src/Incident/Groups.antt =====
-- What the groups of `reconstruct` are.
use decepti_forge.Base.{
  ℕ, ◌+◌, ◌≤◌, min, max, String, ◌≡◌, refl, Bool, true, false, List, [], ◌∷◌, ◌++◌, if◌then◌else◌,
  leb, ltb, length, count, count-append, arith, All, All-map, Bool-cases, inl, inr,
  length-take_last,
}
use decepti_forge.Alerting.Types.{Alert, Severity, rank}
use decepti_forge.Sensor.Sequence.{one_if, rank-severity_at}
use decepti_forge.Incident.Engine.{
  Config, Group, members, related, place, place_all, insert, sorted, considered, reconstruct,
  highest_of, severity, IncidentType, is_multi,
}

-- The alerts of all groups.
unfoldable pub all_members : List Group → List Alert
all_members [] = []
all_members (g ∷ gs) = members g ++ all_members gs

count-place :
    (p : Alert → Bool) (c : Config) (a : Alert) (gs : List Group)
    → count p (all_members (place c a gs)) ≡ count p (all_members gs) + (if p a then 1 else 0)
unfolding place all_members
count-place p c a [] = ground arith
count-place p c a (g ∷ gs) =
    let joined = g.others ++ a ∷ [] in
    elim (Bool-cases (related c a g)) [
      | inl joins ↦ rw joins (
          ground (
            arith,
            count-append p g.others (a ∷ []),
            count-append p g.others (all_members gs),
            count-append p joined (all_members gs),
          ))
      | inr apart ↦ rw apart (
          ground (
            arith,
            count-place p c a gs,
            count-append p g.others (all_members gs),
            count-append p g.others (all_members (place c a gs)),
          ))
    ]

count-place_all :
    (p : Alert → Bool) (c : Config) (as' : List Alert) (gs : List Group)
    → count p (all_members (place_all c as' gs)) ≡ count p (all_members gs) + count p as'
unfolding place_all
count-place_all p c [] gs = omega arith
count-place_all p c (a ∷ as') gs =
    ground (arith, count-place p c a gs, count-place_all p c as' (place c a gs))

-- Every alert of a group after the first is related to the group as it was when the alert joined.
abbrev pub Grown : Config → Alert → (seen rest : List Alert) → Type 0
Grown c first seen [] = Unit
Grown c first seen (a ∷ rest) =
    (related c a (record { first = first; others = seen }) ≡ true)
    × Grown c first (seen ++ a ∷ []) rest

abbrev pub IsGroup : Config → Group → Type 0
IsGroup c g = Grown c g.first [] g.others

append-nil : (l : List Alert) → l ++ [] ≡ l
append-nil [] = refl
append-nil (a ∷ l) = rw (append-nil l) refl

append_assoc : (l m n : List Alert) → (l ++ m) ++ n ≡ l ++ (m ++ n)
append_assoc [] m n = refl
append_assoc (a ∷ l) m n = rw (append_assoc l m n) refl

Grown-append :
    (c : Config) (first a : Alert) (seen rest : List Alert)
    → Grown c first seen rest
    → related c a (record { first = first; others = seen ++ rest }) ≡ true
    → Grown c first seen (rest ++ a ∷ [])
Grown-append c first a seen [] h r = (rw (append-nil seen) at r, tt)
Grown-append c first a seen (b ∷ rest) h r =
    (h.0, Grown-append c first a (seen ++ b ∷ []) rest h.1 (rw (append_assoc seen (b ∷ []) rest) r))

place-IsGroup :
    (c : Config) (a : Alert) (gs : List Group) → All (IsGroup c) gs → All (IsGroup c) (place c a gs)
unfolding place
place-IsGroup c a [] h = (tt, tt)
place-IsGroup c a (g ∷ gs) h = elim (Bool-cases (related c a g)) [
  | inl joins ↦ rw joins (Grown-append c g.first a [] g.others h.0 joins, h.1)
  | inr apart ↦ rw apart (h.0, place-IsGroup c a gs h.1)
]

place_all-IsGroup :
    (c : Config) (as' : List Alert) (gs : List Group)
    → All (IsGroup c) gs
    → All (IsGroup c) (place_all c as' gs)
unfolding place_all
place_all-IsGroup c [] gs h = h
place_all-IsGroup c (a ∷ as') gs h = place_all-IsGroup c as' (place c a gs) (place-IsGroup c a gs h)

module _ (id_before : String → String → Bool) where
  count-insert :
      (p : Alert → Bool) (a : Alert) (l : List Alert)
      → count p (insert id_before a l) ≡ count p l + (if p a then 1 else 0)
  unfolding insert
  count-insert p a [] = ground arith
  count-insert p a (b ∷ l) = ground (arith, count-insert p a l)

  count-sorted : (p : Alert → Bool) (l : List Alert) → count p (sorted id_before l) ≡ count p l
  unfolding sorted
  count-sorted p [] = refl
  count-sorted p (a ∷ l) = ground (arith, count-insert p a (sorted id_before l), count-sorted p l)

  length-count : (l : List Alert) → count (λ a. true) l ≡ length l
  length-count [] = refl
  length-count (a ∷ l) = omega (arith, length-count l)

  length-sorted : (l : List Alert) → length (sorted id_before l) ≡ length l
  length-sorted l =
      omega (arith, length-count (sorted id_before l), length-count l, count-sorted (λ a. true) l)

  length-considered :
      (c : Config) (l : List Alert)
      → length (considered id_before c l) ≡ min c.max_alerts (length l)
  unfolding considered
  length-considered c l =
      ground (arith, length-sorted l, length-take_last c.max_alerts (sorted id_before l))

  -- No alert is lost or counted twice: while the backlog is within `max_alerts`, for every test of
  -- alerts as many members of the groups pass it as alerts of the backlog.
  pub reconstruct-count :
      (c : Config) (alerts : List Alert) (p : Alert → Bool)
      → length alerts ≤ c.max_alerts
      → count p (all_members (reconstruct id_before c alerts)) ≡ count p alerts
  unfolding reconstruct considered all_members
  reconstruct-count c alerts p few =
      let same : ltb c.max_alerts (length (sorted id_before alerts)) ≡ false =
        ground (arith, length-sorted alerts) in
      rw same
        (omega (arith, count-place_all p c (sorted id_before alerts) [], count-sorted p alerts))

  -- The cost is bounded: whatever the backlog, the groups together have `max_alerts` members at most,
  -- and as many as the backlog has alerts if it is smaller.
  pub reconstruct-length :
      (c : Config) (alerts : List Alert)
      → length (all_members (reconstruct id_before c alerts)) ≡ min c.max_alerts (length alerts)
  unfolding reconstruct all_members
  reconstruct-length c alerts = omega (
    arith,
    length-considered c alerts,
    count-place_all (λ a. true) c (considered id_before c alerts) [],
    length-count (all_members (place_all c (considered id_before c alerts) [])),
    length-count (considered id_before c alerts),
  )

  -- No group merges unrelated alerts: each alert after the first of its group shared a trace, decoy,
  -- placement or correlation id with a member that had joined before it, and began within the
  -- window after the latest sighting of those members.
  pub reconstruct-IsGroup :
      (c : Config) (alerts : List Alert) → All (IsGroup c) (reconstruct id_before c alerts)
  unfolding reconstruct
  reconstruct-IsGroup c alerts = place_all-IsGroup c (considered id_before c alerts) [] tt

highest_of-ge :
    (m : ℕ) (l : List Alert) → (m ≤ highest_of m l) × All (λ a. rank a.severity ≤ highest_of m l) l
highest_of-ge m [] = (omega arith, tt)
highest_of-ge m (a ∷ l) =
    let (top, rest) = highest_of-ge (max m (rank a.severity)) l in
    (omega (arith, top), (omega (arith, top), rest))

rank_le : (s : Severity) → rank s ≤ 4
rank_le s = ground arith

-- An incident is graded no lower than any of its alerts.
pub severity-ge_members :
    (g : Group) (k : IncidentType) → All (λ a. rank a.severity ≤ rank (severity g k)) (members g)
unfolding severity
severity-ge_members g k =
    let (top, rest) = highest_of-ge (rank g.first.severity) g.others in
    let graded = rank-severity_at (
      highest_of (rank g.first.severity) g.others
      + one_if (leb 3 (length (members g)))
      + one_if (is_multi k)) in
    (
      omega (arith, top, graded, rank_le g.first.severity),
      All-map (λ a. rank a.severity ≤ highest_of (rank g.first.severity) g.others) _ g.others
          (λ a le. omega (arith, le, graded, rank_le a.severity)) rest,
    )
