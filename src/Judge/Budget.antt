-- ===== src/Judge/Budget.antt =====
-- A session that checks before it consumes keeps to its budgets.
use decepti_forge.Base.{
  ℕ, ◌≤◌, ◌<◌, ◌≡◌, ◌≢◌, ◌↔◌, refl, Bool, true, false, Option, none, some, List, [], ◌∷◌, arith,
}
use decepti_forge.Judge.Quota.{
  Action, analyze, interact, export, reset, other, Sandbox, Limits, Verdict, within, denied,
  budget_exhausted, check, consume, State, state, remaining,
}

-- One request of a judge: the endpoints check, and consume only what is within budget.
abbrev pub spend_checked : Verdict → Option Sandbox → Sandbox → Sandbox
spend_checked within (some r') r = r'
spend_checked _ _ r = r

unfoldable pub spend : Limits → Action → (now : ℕ) → Sandbox → Sandbox
spend l a now r = spend_checked (check l r a now) (consume r a now) r

unfoldable pub spend_all : Limits → List (Action × ℕ) → Sandbox → Sandbox
spend_all l [] r = r
spend_all l ((a, now) ∷ rest) r = spend_all l rest (spend l a now r)

-- No counter is above its limit.
pub record IsWithin (l : Limits) (r : Sandbox) : Type 0 where
  pub analyses : r.analysis_runs ≤ l.max_analysis_runs
  pub interacts : r.interactions ≤ l.max_interactions
  pub exported : r.exports ≤ l.max_exports

spend-IsWithin :
    (l : Limits) (a : Action) (now : ℕ) (r : Sandbox) → IsWithin l r → IsWithin l (spend l a now r)
unfolding spend check consume
spend-IsWithin l analyze now r h = ground arith
spend-IsWithin l interact now r h = ground arith
spend-IsWithin l export now r h = ground arith
spend-IsWithin l reset now r h = ground arith
spend-IsWithin l other now r h = ground arith

-- However a judge orders requests and resets, no budget of the session is ever exceeded.
pub spend_all-IsWithin :
    (l : Limits) (rs : List (Action × ℕ)) (r : Sandbox)
    → IsWithin l r
    → IsWithin l (spend_all l rs r)
unfolding spend_all
spend_all-IsWithin l [] r h = h
spend_all-IsWithin l ((a, now) ∷ rest) r h =
    spend_all-IsWithin l rest (spend l a now r) (spend-IsWithin l a now r h)

-- Spent budget never comes back: every counter of the session only grows, through resets too.
pub record IsAtLeast (r s : Sandbox) : Type 0 where
  pub analyses : r.analysis_runs ≤ s.analysis_runs
  pub interacts : r.interactions ≤ s.interactions
  pub exported : r.exports ≤ s.exports
  pub reset_count : r.resets ≤ s.resets

spend-IsAtLeast : (l : Limits) (a : Action) (now : ℕ) (r : Sandbox) → IsAtLeast r (spend l a now r)
unfolding spend check consume
spend-IsAtLeast l analyze now r = ground arith
spend-IsAtLeast l interact now r = ground arith
spend-IsAtLeast l export now r = ground arith
spend-IsAtLeast l reset now r = ground arith
spend-IsAtLeast l other now r = ground arith

IsAtLeast-trans : (r s t : Sandbox) → IsAtLeast r s → IsAtLeast s t → IsAtLeast r t
IsAtLeast-trans r s t h k = omega arith

spend_all-IsAtLeast :
    (l : Limits) (rs : List (Action × ℕ)) (r : Sandbox) → IsAtLeast r (spend_all l rs r)
unfolding spend_all
spend_all-IsAtLeast l [] r = omega arith
spend_all-IsAtLeast l ((a, now) ∷ rest) r =
    IsAtLeast-trans r (spend l a now r) (spend_all l rest (spend l a now r))
      (spend-IsAtLeast l a now r) (spend_all-IsAtLeast l rest (spend l a now r))

-- The actions that a budget counts.
abbrev pub is_budgeted : Action → Bool
is_budgeted analyze = true
is_budgeted interact = true
is_budgeted export = true
is_budgeted _ = false

abbrev pub exhausted : Action → Verdict
exhausted a = denied (record { action = a; reason = budget_exhausted; retry_after_seconds = none })

-- A budget that is spent is spent in every state with counters at least as high.
check-IsAtLeast :
    (l : Limits) (a : Action) (now later : ℕ) (r s : Sandbox)
    → is_budgeted a ≡ true
    → check l r a now ≢ within
    → IsAtLeast r s
    → check l s a later ≡ exhausted a
unfolding check
check-IsAtLeast l analyze now later r s b h le = ground arith
check-IsAtLeast l interact now later r s b h le = ground arith
check-IsAtLeast l export now later r s b h le = ground arith
check-IsAtLeast l reset now later r s b h le = cc
check-IsAtLeast l other now later r s b h le = cc

-- Once a budgeted action is refused, it is refused for the rest of the session: after any further
-- requests and resets, and at any time, it is denied as exhausted and without a Retry-After.
pub exhausted_forever :
    (l : Limits) (a : Action) (now later : ℕ) (rs : List (Action × ℕ)) (r : Sandbox)
    → is_budgeted a ≡ true
    → check l r a now ≢ within
    → check l (spend_all l rs r) a later ≡ exhausted a
exhausted_forever l a now later rs r b h =
    check-IsAtLeast l a now later r (spend_all l rs r) b h (spend_all-IsAtLeast l rs r)

-- What `state` reports is what `check` decides by: a budgeted action is within budget exactly when
-- its reported remaining budget is positive.
pub state-remaining :
    (l : Limits) (a : Action) (now : ℕ) (r : Sandbox)
    → is_budgeted a ≡ true
    → (q : State) × (state l r a ≡ some q) × ((check l r a now ≡ within) ↔ (0 < remaining q))
unfolding check state remaining
state-remaining l analyze now r b =
    (record { used = r.analysis_runs; limit = l.max_analysis_runs }, refl, ground arith)
state-remaining l interact now r b =
    (record { used = r.interactions; limit = l.max_interactions }, refl, ground arith)
state-remaining l export now r b =
    (record { used = r.exports; limit = l.max_exports }, refl, ground arith)
state-remaining l reset now r b = absurd (ground arith)
state-remaining l other now r b = absurd (ground arith)
