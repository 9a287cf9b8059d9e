-- ===== src/Alerting/Bounds.antt =====
-- Every alert that the pipeline holds meets the bounds of the `NormalizedAlert` model.
use decepti_forge.Base.{
  ℕ, ◌≤◌, String, List, [], ◌∷◌, ◌++◌, Option, none, some, arith, leb, inl, inr, All, length,
  length-append, length-take_last, Bool-cases, str_eq,
}
use decepti_forge.Alerting.Types.{Event, Alert, Tripwire}
use decepti_forge.Alerting.Merge.{combine_alerts}
use decepti_forge.Alerting.Pipeline.{
  Config, window, is_valid, entry_of, key_of, gap, is_match, nearer, matching_alert, evidence_of,
  update_alert, store_alert, create_alert, outcome, ingest,
}

-- The bounds of the model's fields, and the order of the sightings.
pub record IsWellFormed (a : Alert) : Type 0 where
  pub ordered : a.first_seen ≤ a.last_seen
  pub counted : 1 ≤ a.event_count
  pub confident : a.confidence ≤ 100
  pub some_evidence : 1 ≤ length a.evidence
  pub few_evidence : length a.evidence ≤ 5
  pub some_events : 1 ≤ length a.raw_event_ids
  pub few_events : length a.raw_event_ids ≤ 20

create_alert-IsWellFormed :
    (id_of : String → String → ℕ → String) (org : String) (c : Config) (e : Event) (t : Tripwire)
    → e.confidence ≤ 100
    → IsWellFormed (create_alert id_of org c e t)
unfolding create_alert
create_alert-IsWellFormed id_of org c e t h = omega arith

update_alert-IsWellFormed :
    (a : Alert) (e : Event) (t : Tripwire)
    → e.confidence ≤ 100
    → IsWellFormed a
    → IsWellFormed (update_alert a e t)
unfolding update_alert
update_alert-IsWellFormed a e t h w = omega (
  arith,
  length-take_last 5 (a.evidence ++ evidence_of e ∷ []),
  length-append a.evidence (evidence_of e ∷ []),
  length-take_last 20 (a.raw_event_ids ++ e.event_id ∷ []),
  length-append a.raw_event_ids (e.event_id ∷ []),
)

-- The merge of two alerts keeps every bound of the model.
pub combine_alerts-IsWellFormed :
    (a b : Alert) → IsWellFormed a → IsWellFormed b → IsWellFormed (combine_alerts a b)
unfolding combine_alerts
combine_alerts-IsWellFormed a b wa wb = omega (
  arith,
  length-take_last 5 (a.evidence ++ b.evidence),
  length-append a.evidence b.evidence,
  length-take_last 20 (a.raw_event_ids ++ b.raw_event_ids),
  length-append a.raw_event_ids b.raw_event_ids,
)

-- What holds of an optional alert, if there is one.
abbrev pub Holds {ℓ} : (Alert → Type ℓ) → Option Alert → Type ℓ
Holds P none = Unit
Holds P (some a) = P a

pub nearer-Holds {ℓ} :
    (P : Alert → Type ℓ) (e : Event) (a : Alert) (o : Option Alert)
    → P a
    → Holds P o
    → Holds P (nearer e a o)
nearer-Holds P e a none pa po = pa
nearer-Holds P e a (some d) pa po = elim (Bool-cases (leb (gap e a) (gap e d))) [
  | inl first ↦ rw first pa
  | inr second ↦ rw second po
]

-- The match is one of the alerts.
pub matching_alert-Holds {ℓ} :
    (P : Alert → Type ℓ) (c : Config) (k : String) (e : Event) (alerts : List Alert)
    → All P alerts
    → Holds P (matching_alert c k e alerts)
unfolding matching_alert
matching_alert-Holds P c k e [] h = tt
matching_alert-Holds P c k e (a ∷ as') h =
    let rest = matching_alert-Holds P c k e as' h.1 in
    elim (Bool-cases (is_match c k e a)) [
      | inl fits ↦ rw fits (nearer-Holds P e a (matching_alert c k e as') h.0 rest)
      | inr other ↦ rw other rest
    ]

pub store_alert-All {ℓ} :
    (P : Alert → Type ℓ) (a : Alert) (alerts : List Alert)
    → P a
    → All P alerts
    → All P (store_alert a alerts)
unfolding store_alert
store_alert-All P a [] pa h = (pa, tt)
store_alert-All P a (b ∷ bs) pa h = elim (Bool-cases (str_eq b.alert_id a.alert_id)) [
  | inl same ↦ rw same (pa, h.1)
  | inr other ↦ rw other (h.0, store_alert-All P a bs pa h.1)
]

outcome-IsWellFormed :
    (id_of : String → String → ℕ → String) (org : String) (c : Config) (e : Event) (t : Tripwire)
    (o : Option Alert)
    → e.confidence ≤ 100
    → Holds IsWellFormed o
    → IsWellFormed (outcome id_of org c e t o)
unfolding outcome
outcome-IsWellFormed id_of org c e t none h w = create_alert-IsWellFormed id_of org c e t h
outcome-IsWellFormed id_of org c e t (some a) h w = elim (Bool-cases (leb (gap e a) (window c))) [
  | inl near ↦ rw near (update_alert-IsWellFormed a e t h w)
  | inr far ↦ rw far (create_alert-IsWellFormed id_of org c e t h)
]

-- Ingesting any event, valid or not, matched or new, keeps every alert of the pipeline well formed:
-- sightings in order, one event at least, one to five pieces of evidence, one to twenty event ids.
pub ingest-IsWellFormed :
    (id_of : String → String → ℕ → String) (org : String) (c : Config) (e : Event)
    (t : Option Tripwire) (alerts : List Alert)
    → e.confidence ≤ 100
    → All IsWellFormed alerts
    → All IsWellFormed (ingest id_of org c e t alerts).1
unfolding ingest
ingest-IsWellFormed id_of org c e t alerts h w =
    let found = matching_alert-Holds IsWellFormed c (key_of e) e alerts w in
    let new' =
      outcome-IsWellFormed id_of org c e (entry_of t e) (matching_alert c (key_of e) e alerts) h
        found in
    elim (Bool-cases (is_valid e)) [
      | inl valid ↦ rw valid (store_alert-All IsWellFormed _ alerts new' w)
      | inr refused ↦ rw refused w
    ]
