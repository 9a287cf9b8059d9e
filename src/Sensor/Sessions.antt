-- ===== src/Sensor/Sessions.antt =====
-- What the decisions add up to over a session.
use decepti_forge.Base.{
  ℕ, ◌+◌, ◌≤◌, max, String, ◌≡◌, ◌≢◌, Bool, true, false, not, ◌&&◌, ◌||◌, List, [], ◌∷◌, Option,
  none, some, if◌then◌else◌, ltb, arith, length, length-append, map, Bool-cases, inl, inr, ◌⊎◌,
}
use decepti_forge.Alerting.Types.{high, rank}
use decepti_forge.Sensor.Rules.{
  task_relevant, decoy, Violation, decoy_asset_touch, is_decoy, Policy, Aggregate, Activity,
  Decision, add, evaluate, file_read, is_some, is_denied_action, is_deletion, is_task_relevant,
  breadth, dependency_change, sensitive_access, cross_surface, tools_and_paths,
}

abbrev pub is_violation : Option Violation → Bool
is_violation none = false
is_violation (some v) = true

length-add :
    (s : String) (set : List String)
    → (length set ≤ length (add s set)) × (length (add s set) ≤ length set + 1)
length-add s set = ground (arith, length-append set (s ∷ []))

-- A decision counts itself, and no counter falls.
pub record Counted (g : Aggregate) (r : Decision × Aggregate) : Type 0 where
  pub counted :
      r.1.violation_count ≡ g.violation_count + (if is_violation r.0.violation then 1 else 0)
  pub graded : is_violation r.0.violation ≡ ltb 0 (rank r.0.severity)
  pub reads : g.file_reads ≤ r.1.file_reads
  pub sensitive_ones : g.sensitive_reads ≤ r.1.sensitive_reads
  pub paths : length g.unrelated_paths ≤ length r.1.unrelated_paths
  pub modified : (not g.modifications || r.1.modifications) ≡ true

module _ (path_matches : String → String → Bool) (p : Policy) (a : Activity) where
  breadth-Counted : (g : Aggregate) → Counted g (breadth path_matches p a g)
  unfolding breadth
  breadth-Counted g = ground (arith, length-add a.path g.unrelated_paths)

  dependency_change-Counted : (g : Aggregate) → Counted g (dependency_change path_matches p a g)
  unfolding dependency_change
  dependency_change-Counted g = ground (arith, breadth-Counted g)

  sensitive_access-Counted : (g : Aggregate) → Counted g (sensitive_access path_matches p a g)
  unfolding sensitive_access
  sensitive_access-Counted g = ground (
    arith,
    dependency_change-Counted g,
    dependency_change-Counted (record g { sensitive_reads = g.sensitive_reads + 1 }),
  )

  cross_surface-Counted : (g : Aggregate) → Counted g (cross_surface path_matches p a g)
  unfolding cross_surface
  cross_surface-Counted g = ground (arith, sensitive_access-Counted g)

  tools_and_paths-Counted : (g : Aggregate) → Counted g (tools_and_paths path_matches p a g)
  unfolding tools_and_paths
  tools_and_paths-Counted g = ground (arith, cross_surface-Counted g)

  -- Each decision counts itself: the session's count of violations grows by one exactly when the
  -- decision names a violation; a decision without one is of severity info and any other is above
  -- it; no counter ever falls, and a modification is never forgotten.
  pub evaluate-Counted : (g : Aggregate) → Counted g (evaluate path_matches p a g)
  unfolding evaluate
  evaluate-Counted g = elim (Bool-cases (is_some a.decoy_id || is_decoy a.path_class)) [
    | inl contact ↦ rw contact (ground arith)
    | inr free ↦ elim (Bool-cases (is_denied_action a.event_type)) [
      | inl denied ↦ rw (free, denied) (ground arith)
      | inr allowed ↦
          elim (Bool-cases (is_deletion a.event_type && not (is_task_relevant a.path_class))) [
            | inl deletes ↦ rw (free, allowed, deletes) (ground arith)
            | inr keeps ↦ rw (free, allowed, keeps) (tools_and_paths-Counted g)
          ]
    ]
  ]

  -- The contact with a decoy outranks every other rule: whatever the event, the tool, the policy and
  -- the session, the decision is a decoy touch of severity high.
  pub decoy_dominates :
      (g : Aggregate)
      → (a.decoy_id ≢ none) ⊎ (a.path_class ≡ decoy)
      → ((evaluate path_matches p a g).0.violation ≡ some decoy_asset_touch)
        × ((evaluate path_matches p a g).0.severity ≡ high)
        × ((evaluate path_matches p a g).1.violation_count ≡ g.violation_count + 1)
  unfolding evaluate
  decoy_dominates g h = ground arith

-- The read of a file that the task needs, by no tool.
abbrev pub read_of : String → Activity
read_of path = record {
  event_type = file_read;
  path = path;
  path_class = task_relevant;
  tool = "";
  resource_type = "";
  decoy_id = none;
}

-- A session: the aggregate after a list of events, and how many of the decisions were violations.
module _ (path_matches : String → String → Bool) (p : Policy) where
  unfoldable pub evaluate_all : List Activity → Aggregate → Aggregate
  evaluate_all [] g = g
  evaluate_all (a ∷ as') g = evaluate_all as' (evaluate path_matches p a g).1

  unfoldable pub violations : List Activity → Aggregate → ℕ
  violations [] g = 0
  violations (a ∷ as') g =
      let (d, g') = evaluate path_matches p a g in
      (if is_violation d.violation then 1 else 0) + violations as' g'

  -- Over any session the counter is the number of decisions that were violations.
  pub evaluate_all_counts :
      (as' : List Activity) (g : Aggregate)
      → (evaluate_all as' g).violation_count ≡ g.violation_count + violations as' g
  unfolding evaluate_all violations
  evaluate_all_counts [] g = omega arith
  evaluate_all_counts (a ∷ as') g = omega (
    arith,
    (evaluate-Counted path_matches p a g).counted,
    evaluate_all_counts as' (evaluate path_matches p a g).1,
  )

  plain_read :
      (path : String) (g : Aggregate)
      → p.denied_paths ≡ []
      → ((evaluate path_matches p (read_of path) g).1.file_reads ≡ g.file_reads + 1)
        × ((if ltb p.maximum_file_reads (g.file_reads + 1) then 1 else 0) ≤ (
            if is_violation (evaluate path_matches p (read_of path) g).0.violation then 1 else 0))
  unfolding evaluate tools_and_paths cross_surface sensitive_access dependency_change breadth
  plain_read path g open' = ground arith

  -- The budget of file reads is enforced on harmless reads too: with no denied paths, a session that
  -- has not yet exceeded a budget of m and reads n more task-relevant files has a violation for
  -- every read over the budget.
  pub read_budget :
      (paths : List String) (g : Aggregate)
      → p.denied_paths ≡ []
      → g.file_reads + length paths
        ≤ max p.maximum_file_reads g.file_reads + violations (map read_of paths) g
  unfolding violations
  read_budget [] g open' = omega arith
  read_budget (path ∷ paths) g open' = ground (
    arith,
    plain_read path g open',
    read_budget paths (evaluate path_matches p (read_of path) g).1 open',
  )
