-- ===== src/Judge/Tests.antt =====
-- Runs of a session, and the theorems at a concrete sandbox.
use decepti_forge.Base.{ℕ, ◌≡◌, refl, List, [], ◌∷◌, none, some, arith}
use decepti_forge.Judge.Quota.{Action, analyze, interact, reset, Sandbox, Limits, check, consume}
use decepti_forge.Judge.Budget.{spend, spend_all, IsWithin, spend_all-IsWithin}

abbrev limits : Limits
limits = record {
  max_analysis_runs = 2;
  max_interactions = 1;
  max_exports = 0;
  reset_cooldown_seconds = 60;
}

abbrev fresh : Sandbox
fresh = record {
  analysis_runs = 0;
  interactions = 0;
  exports = 0;
  resets = 0;
  last_reset_at = none;
}

abbrev requests : List (Action × ℕ)
requests = (analyze, 1) ∷ (analyze, 2) ∷ (reset, 3) ∷ (analyze, 4) ∷ (reset, 5) ∷ (interact, 6) ∷ []

session : spend_all limits requests fresh ≡ record {
  analysis_runs = 2;
  interactions = 1;
  exports = 0;
  resets = 1;
  last_reset_at = some 3;
}
unfolding spend_all spend check consume
session = refl

spend_all-IsWithin_example : IsWithin limits (spend_all limits requests fresh)
spend_all-IsWithin_example = spend_all-IsWithin limits requests fresh (omega arith)

abbrev after_reset : Sandbox
after_reset = record fresh { resets = 1; last_reset_at = some 5 }
