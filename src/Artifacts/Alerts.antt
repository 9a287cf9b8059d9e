-- ===== src/Artifacts/Alerts.antt =====
-- The alerts of repositories/artifacts.py: the record of an alert, the upsert of a candidate and the
-- lookup of related alerts. The size guard is given as a test on alerts, since it measures the text
-- that pydantic writes; sealing a text and reading it again gives the text back (Secrets). Rows stand
-- in the order of their creation, and a transaction that raises leaves them as they were.
use decepti_forge.Base.{
  ℕ, String, Bool, false, ◌&&◌, ◌||◌, List, [], ◌∷◌, ◌++◌, Option, none, some, if◌then◌else◌, leb,
  ◌==◌, str_eq, any, select, take_last, map,
}
use decepti_forge.Alerting.Types.{Alert}
use decepti_forge.Alerting.Merge.{combine_alerts}

-- `AlertRecord`, with the columns that are written again and the alert of `data`; the other columns
-- repeat fields of the alert that no merge changes.
pub record Row : Type 0 where
  pub organization : String
  pub event_count : ℕ
  pub first_seen : ℕ
  pub last_seen : ℕ
  pub alert : Alert

-- `_alert_record`
abbrev pub alert_record : (organization : String) → Alert → Row
alert_record org a = record {
  organization = org;
  event_count = a.event_count;
  first_seen = a.first_seen;
  last_seen = a.last_seen;
  alert = a;
}

-- The primary key, and the unique constraint `uq_alert_episode`.
abbrev pub conflicts : (organization : String) → Alert → Row → Bool
conflicts org c r =
    str_eq r.alert.alert_id c.alert_id
    || (str_eq r.organization org
        && (str_eq r.alert.deduplication_key c.deduplication_key
            && r.alert.episode_bucket == c.episode_bucket))

-- What the upsert returns or raises.
pub data Upserted : Type 0 where
  upserted : Alert → Upserted
  artifact_too_large : Upserted
  no_result_found : Upserted

module _ (too_large : Alert → Bool) where
  -- The row with the id of the candidate is merged with it.
  unfoldable pub merge_row : Alert → List Row → Upserted × List Row
  merge_row c [] = (no_result_found, [])
  merge_row c (r ∷ rs) =
      let (result, rest) = merge_row c rs in
      let merged = combine_alerts r.alert c in
      if str_eq r.alert.alert_id c.alert_id
      then (if too_large merged
          then (artifact_too_large, r ∷ rs)
          else (upserted merged, alert_record r.organization merged ∷ rs))
      else (result, r ∷ rest)

  -- `upsert_alert_atomic`
  unfoldable pub upsert_alert_atomic :
      (organization : String) → Alert → List Row → Upserted × List Row
  unfolding merge_row
  upsert_alert_atomic org c rows =
      if too_large c
      then (artifact_too_large, rows)
      else if any (conflicts org c) rows
      then merge_row c rows
      else (upserted c, rows ++ alert_record org c ∷ [])

-- `related_alerts`: the conditions of the query.
abbrev pub same_text : Option String → String → Bool
same_text none s = false
same_text (some t) s = str_eq s t

module _ (trace_identifier decoy_id : String) (placement_id correlation_id : Option String)
    (window_start window_end : ℕ) where
  abbrev pub key_match : Row → Bool
  key_match r =
      str_eq r.alert.trace_identifier trace_identifier
      || (str_eq r.alert.decoy_id decoy_id
          || (same_text placement_id r.alert.placement_id
              || same_text correlation_id r.alert.correlation_id))

  abbrev pub is_related : (organization : String) → Row → Bool
  is_related org r =
      str_eq r.organization org
      && (key_match r && (leb window_start r.last_seen && leb r.first_seen window_end))

  -- `related_alerts`: the latest `limit` of them, oldest first.
  unfoldable pub related_alerts : (organization : String) → (limit : ℕ) → List Row → List Alert
  related_alerts org limit rows =
      map (λ (r : Row). r.alert) (take_last limit (select (is_related org) rows))
