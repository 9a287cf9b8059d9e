-- ===== src/Alerting/Scoring.antt =====
-- `AlertSeverityScorer`, with the score in hundredths of a point.
use decepti_forge.Base.{ℕ, ◌+◌, ◌*◌, ◌≤◌, min, String, ◌≡◌, leb, if◌then◌else◌, str_eq, arith}
use decepti_forge.Alerting.Types.{
  Severity, info, low, medium, high, critical, rank, MonitorType, file_content, repository,
  database_payload, text_payload, Event,
}

abbrev pub monitor_points : MonitorType → ℕ
monitor_points database_payload = 25
monitor_points repository = 20
monitor_points text_payload = 15
monitor_points file_content = 10

abbrev pub decoy_points : String → ℕ
decoy_points t = if str_eq t "database_record" then 20 else (if str_eq t "secret" then 15 else 10)

-- The score of `severity`: confidence and priority are in hundredths.
unfoldable pub score : (confidence : ℕ) → MonitorType → String → (priority count : ℕ) → ℕ
score confidence monitor decoy_type priority count =
    confidence * 35
    + 100 * monitor_points monitor
    + 100 * decoy_points decoy_type
    + priority * 15
    + 100 * min 10 (count * 2)

-- The ladder of thresholds.
unfoldable pub level : ℕ → Severity
level s =
    if leb 9000 s
    then critical
    else (if leb 7000 s
        then high
        else (if leb 4500 s then medium else (if leb 2500 s then low else info)))

unfoldable pub severity : Event → String → (priority count : ℕ) → Severity
unfolding score level
severity e decoy_type priority count =
    level (score e.confidence e.monitor_type decoy_type priority count)

level_mono : (s t : ℕ) → s ≤ t → rank (level s) ≤ rank (level t)
unfolding level
level_mono s t le = ground arith

score_mono :
    (c c' : ℕ) (m : MonitorType) (t : String) (p p' n n' : ℕ)
    → c ≤ c'
    → p ≤ p'
    → n ≤ n'
    → score c m t p n ≤ score c' m t p' n'
unfolding score
score_mono c c' m t p p' n n' hc hp hn = omega arith

-- A severity never falls when, on the same monitor and decoy type, the confidence, the placement
-- priority or the number of events grows.
pub severity_mono :
    (e e' : Event) (t : String) (p p' n n' : ℕ)
    → e.monitor_type ≡ e'.monitor_type
    → e.confidence ≤ e'.confidence
    → p ≤ p'
    → n ≤ n'
    → rank (severity e t p n) ≤ rank (severity e' t p' n')
severity_mono e e' t p p' n n' same hc hp hn =
    unfold severity in
    rw same
      (level_mono _ _ (score_mono e.confidence e'.confidence e'.monitor_type t p p' n n' hc hp hn))

score_floor :
    (c : ℕ) (m : MonitorType) (t : String) (n : ℕ) → 1 ≤ n → c * 35 + 3700 ≤ score c m t 100 n
unfolding score
score_floor c file_content t n one = ground arith
score_floor c repository t n one = ground arith
score_floor c database_payload t n one = ground arith
score_floor c text_payload t n one = ground arith

level_floor : (s : ℕ) → 4500 ≤ s → 2 + (if leb 7000 s then 1 else 0) ≤ rank (level s)
unfolding level
level_floor s h = ground arith

-- At the pipeline's placement priority of 1 no accepted event is scored below medium: from a
-- confidence of one half on the severity is medium at least, and a certain event is high at least,
-- on every monitor, for every decoy type and any number of events.
pub severity_floor :
    (e : Event) (t : String) (n : ℕ)
    → 50 ≤ e.confidence
    → 1 ≤ n
    → 2 + (if leb 100 e.confidence then 1 else 0) ≤ rank (severity e t 100 n)
severity_floor e t n c one =
    unfold severity in
    ground (
      arith,
      score_floor e.confidence e.monitor_type t n one,
      level_floor (score e.confidence e.monitor_type t 100 n),
    )
