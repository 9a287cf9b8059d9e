-- ===== src/Capacity/Tests.antt =====
-- Limits and admissions at concrete calls.
use decepti_forge.Base.{ℕ, ◌+◌, ◌≤◌, arith, String, false, List, [], ◌∷◌, none}
use decepti_forge.Capacity.Limits.{TenantLimits, LimitRow}
use decepti_forge.Capacity.Quota.{Key}
use decepti_forge.Capacity.Admission.{Call, ArePrompt, accepted_in, admissions_bound}

abbrev limits : TenantLimits
limits = record {
  tier = "small";
  events_per_second = 2;
  burst = 3;
  max_pending_jobs = 10;
  max_concurrent_scans = 1;
  max_concurrent_deployments = 1;
  max_report_jobs = 1;
}

abbrev rows : List LimitRow
rows = record { organization = "acme"; limits = limits; version = 1; updated_by = none } ∷ []

abbrev raised : TenantLimits
raised = record limits { tier = "large"; burst = 30 }

abbrev key : Key
key = record { tenant = "acme"; per_minute = false; index = 1 }

abbrev call : ℕ → String → Call
call now org = record {
  now = now;
  first_clock = now + 10;
  second_clock = now + 900_000;
  organization = org;
}

abbrev calls : List Call
calls = call 1_000_000 "acme" ∷ call 1_200_000 "other" ∷ call 1_500_000 "acme" ∷ []

calls-prompt : ArePrompt calls
calls-prompt = omega arith

admissions_bound_example : accepted_in (λ org. limits) key calls (λ j. none) ≤ 3
admissions_bound_example = admissions_bound (λ org. limits) key calls calls-prompt
