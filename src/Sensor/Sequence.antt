-- ===== src/Sensor/Sequence.antt =====
-- services/agent_sensor/sequence.py and the severity of an incident in classification.py.
use decepti_forge.Base.{
  ℕ, ◌+◌, ◌≤◌, min, ◌≡◌, refl, Bool, true, false, not, ◌&&◌, ◌||◌, List, [], ◌∷◌, if◌then◌else◌,
  leb, ◌==◌, arith, any, take_last,
}
use decepti_forge.Alerting.Types.{Severity, info, low, medium, high, critical, rank}
use decepti_forge.Sensor.Rules.{
  PathClass, adjacent, unrelated, is_sensitive, is_decoy, Violation, decoy_asset_touch,
  sensitive_file_access, repeated_sensitive_exploration, destructive_action_attempt,
  unapproved_tool_use, dependency_change_outside_scope, cross_repository_access,
  unexpected_database_access, unexpected_network_access, unexpected_mcp_resource_access,
}

abbrev pub is_probe : PathClass → Bool
is_probe unrelated = true
is_probe adjacent = true
is_probe _ = false

abbrev pub is_hit : PathClass → Bool
is_hit c = is_sensitive c || is_decoy c

-- The loop of `detect_escalation`, with its `probed`.
unfoldable pub scan : Bool → List PathClass → Bool
scan probed [] = false
scan probed (c ∷ cs) =
    let after_probe = scan true cs in
    let rest = scan probed cs in
    if is_probe c then after_probe else (if probed && is_hit c then true else rest)

unfoldable pub detect_escalation : List PathClass → Bool
unfolding scan
detect_escalation recent = scan false (take_last 20 recent)

-- A probe with a hit somewhere behind it.
unfoldable pub has_probe_then_hit : List PathClass → Bool
has_probe_then_hit [] = false
has_probe_then_hit (c ∷ cs) = (is_probe c && any is_hit cs) || has_probe_then_hit cs

probe_no_hit : (c : PathClass) → is_probe c ≡ true → is_hit c ≡ false
probe_no_hit c h = ground arith

scan-probed : (cs : List PathClass) → scan true cs ≡ any is_hit cs
unfolding scan
scan-probed [] = refl
scan-probed (c ∷ cs) = ground (arith, scan-probed cs, probe_no_hit c)

probe_then_hit-any : (cs : List PathClass) → has_probe_then_hit cs ≡ true → any is_hit cs ≡ true
unfolding has_probe_then_hit
probe_then_hit-any [] h = cc h
probe_then_hit-any (c ∷ cs) h = ground (arith, probe_then_hit-any cs)

scan-unprobed : (cs : List PathClass) → scan false cs ≡ has_probe_then_hit cs
unfolding scan has_probe_then_hit
scan-unprobed [] = refl
scan-unprobed (c ∷ cs) = ground (arith, scan-unprobed cs, scan-probed cs, probe_then_hit-any cs)

-- The one pass with a flag finds exactly the sessions among whose last twenty path classes an
-- unrelated or adjacent one comes anywhere before a sensitive one or a decoy.
pub detect_escalation_iff :
    (recent : List PathClass) → detect_escalation recent ≡ has_probe_then_hit (take_last 20 recent)
unfolding detect_escalation
detect_escalation_iff recent = scan-unprobed (take_last 20 recent)

pub data Exposure : Type 0 where
  scope_violation policy_violation sensitive_exploration cross_surface_exposure : Exposure
  destructive_attempt decoy_touch : Exposure

-- `exposure_for`
unfoldable pub exposure_for : Violation → Exposure
exposure_for decoy_asset_touch = decoy_touch
exposure_for sensitive_file_access = sensitive_exploration
exposure_for repeated_sensitive_exploration = sensitive_exploration
exposure_for destructive_action_attempt = destructive_attempt
exposure_for unapproved_tool_use = policy_violation
exposure_for dependency_change_outside_scope = policy_violation
exposure_for cross_repository_access = cross_surface_exposure
exposure_for unexpected_database_access = cross_surface_exposure
exposure_for unexpected_network_access = cross_surface_exposure
exposure_for unexpected_mcp_resource_access = cross_surface_exposure
exposure_for _ = scope_violation

abbrev pub base_severity : Exposure → Severity
base_severity scope_violation = low
base_severity policy_violation = medium
base_severity sensitive_exploration = medium
base_severity cross_surface_exposure = high
base_severity destructive_attempt = high
base_severity decoy_touch = high

-- `_ORDER[min(level, 4)]`
abbrev pub severity_at : ℕ → Severity
severity_at n =
    if n == 0
    then info
    else (if n == 1 then low else (if n == 2 then medium else (if n == 3 then high else critical)))

abbrev pub one_if : Bool → ℕ
one_if b = if b then 1 else 0

unfoldable pub incident_severity :
    Exposure → (violation_count : ℕ) → (cross_surface modifications : Bool) → Severity
incident_severity e violation_count cross_surface modifications = severity_at (
    min
      (rank (base_severity e)
        + one_if (leb 3 violation_count)
        + one_if cross_surface
        + one_if modifications)
      4)

pub rank-severity_at : (n : ℕ) → rank (severity_at (min n 4)) ≡ min n 4
rank-severity_at n = ground arith

-- The severity of an agent incident is never below that of its exposure, and it never falls when
-- violations are added, a second surface is touched or something was modified; three violations
-- raise every exposure by a level, up to critical.
pub incident_severity_mono :
    (e : Exposure) (n n' : ℕ) (c c' m m' : Bool)
    → n ≤ n'
    → (not c || c') ≡ true
    → (not m || m') ≡ true
    → (rank (incident_severity e n c m) ≤ rank (incident_severity e n' c' m'))
      × (rank (base_severity e) ≤ rank (incident_severity e n c m))
      × (min (rank (base_severity e) + 1) 4 ≤ rank (incident_severity e (n + 3) c m))
unfolding incident_severity
incident_severity_mono e n n' c c' m m' le lc lm = ground (
  arith,
  rank-severity_at (rank (base_severity e) + one_if (leb 3 n) + one_if c + one_if m),
  rank-severity_at (rank (base_severity e) + one_if (leb 3 n') + one_if c' + one_if m'),
  rank-severity_at (rank (base_severity e) + one_if (leb 3 (n + 3)) + one_if c + one_if m),
)
