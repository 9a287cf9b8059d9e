-- ===== src/Artifacts/Facts.antt =====
-- What concurrent ingests must agree on, as a map from episodes to facts: the abstract view of the
-- table of alerts, and the abstract upsert.
use mathlib.Core.List.{Permᴰ}
use decepti_forge.Base.{
  ℕ, ◌+◌, min, max, ◌≡◌, refl, ◌∙◌, ap, String, List, [], ◌∷◌, Option, none, some, arith, str_eq,
  if◌then◌else◌,
}
use decepti_forge.Alerting.Types.{Severity, Alert}
use decepti_forge.Alerting.Merge.{max_severity}

pub record Facts : Type 0 where
  pub events : ℕ
  pub first : ℕ
  pub last : ℕ
  pub severity : Severity
  pub confidence : ℕ

unfoldable pub join : Facts → Facts → Facts
join a b = record {
  events = a.events + b.events;
  first = min a.first b.first;
  last = max a.last b.last;
  severity = max_severity a.severity b.severity;
  confidence = max a.confidence b.confidence;
}

abbrev pub facts_of : Alert → Facts
facts_of a = record {
  events = a.event_count;
  first = a.first_seen;
  last = a.last_seen;
  severity = a.severity;
  confidence = a.confidence;
}

-- The facts of an episode after one more candidate for it.
unfoldable pub absorb : Alert → Option Facts → Option Facts
unfolding join
absorb c none = some (facts_of c)
absorb c (some f) = some (join f (facts_of c))

-- The facts of the episode with an id after a run of candidates.
unfoldable pub replay : (id : String) → List Alert → Option Facts → Option Facts
replay id [] f = f
replay id (c ∷ cs) f = replay id cs (if str_eq c.alert_id id then absorb c f else f)

join_swap : (f a b : Facts) → join (join f a) b ≡ join (join f b) a
unfolding join
join_swap f a b = ground arith

join_comm : (a b : Facts) → join a b ≡ join b a
unfolding join
join_comm a b = ground arith

absorb_swap : (a b : Alert) (f : Option Facts) → absorb b (absorb a f) ≡ absorb a (absorb b f)
unfolding absorb
absorb_swap a b none = ap some (join_comm (facts_of a) (facts_of b))
absorb_swap a b (some f) = ap some (join_swap f (facts_of a) (facts_of b))

step_swap :
    (id : String) (a b : Alert) (f : Option Facts)
    → (if str_eq b.alert_id id
        then absorb b (if str_eq a.alert_id id then absorb a f else f)
        else (if str_eq a.alert_id id then absorb a f else f))
      ≡ (if str_eq a.alert_id id
          then absorb a (if str_eq b.alert_id id then absorb b f else f)
          else (if str_eq b.alert_id id then absorb b f else f))
step_swap id a b f = ground (arith, absorb_swap a b f)

-- The order of the candidates does not matter.
pub replay_perm :
    (id : String) {cs ds : List Alert} (f : Option Facts)
    → Permᴰ cs ds
    → replay id cs f ≡ replay id ds f
unfolding replay
replay_perm id f Permᴰ.nil = refl
replay_perm id f (Permᴰ.cons {b = b} e p) = rw e (replay_perm id _ p)
replay_perm id f (Permᴰ.swap {a' = a'} {b' = b'} {l = l} e e') =
    rw (e, e') (ap (replay id l) (step_swap id b' a' f))
replay_perm id f (Permᴰ.trans p q) = replay_perm id f p ∙ replay_perm id f q
