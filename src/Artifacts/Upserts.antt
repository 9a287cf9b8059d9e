-- ===== src/Artifacts/Upserts.antt =====
-- One upsert, on the rows and on the facts of the episodes.
use decepti_forge.Base.{
  ℕ, ◌≡◌, ◌≢◌, refl, sym, ◌∙◌, String, Bool, true, false, List, [], ◌∷◌, ◌++◌, Option, none, some,
  if◌then◌else◌, arith, str_eq, str_eq_iff, str_eq_refl, any, All, All-append, Bool-cases, inl, inr,
}
use decepti_forge.Alerting.Types.{Alert}
use decepti_forge.Alerting.Merge.{combine_alerts}
use decepti_forge.Artifacts.Alerts.{
  Row, alert_record, conflicts, Upserted, upserted, artifact_too_large, no_result_found, merge_row,
  upsert_alert_atomic,
}
use decepti_forge.Artifacts.Facts.{Facts, facts_of, join, absorb, replay}

-- The facts of the first row with an id.
unfoldable pub facts_in : (id : String) → List Row → Option Facts
facts_in id [] = none
facts_in id (r ∷ rs) =
    if str_eq r.alert.alert_id id then some (facts_of r.alert) else facts_in id rs

abbrev pub is_upserted : Upserted → Bool
is_upserted (upserted a) = true
is_upserted _ = false

keys_eq :
    (org : String) (c : Alert) (r : Row)
    → str_eq r.alert.alert_id c.alert_id ≡ false
    → conflicts org c r ≡ true
    → (r.organization ≡ org)
      × (r.alert.deduplication_key ≡ c.deduplication_key)
      × (r.alert.episode_bucket ≡ c.episode_bucket)
keys_eq org c r other h = ground (
  arith,
  other,
  h,
  str_eq_iff r.organization org,
  str_eq_iff r.alert.deduplication_key c.deduplication_key,
)

abbrev pub has_id : String → List Row → Bool
has_id id rows = any (λ (r : Row). str_eq r.alert.alert_id id) rows

merge_row-result :
    (too_large : Alert → Bool) (c : Alert) (rows : List Row)
    → has_id c.alert_id rows ≡ true
    → (merge_row too_large c rows).0 ≢ no_result_found
unfolding merge_row
merge_row-result too_large c [] h = cc h
merge_row-result too_large c (r ∷ rs) h = ground (arith, merge_row-result too_large c rs)

combine_facts : (a c : Alert) → facts_of (combine_alerts a c) ≡ join (facts_of a) (facts_of c)
unfolding combine_alerts join
combine_facts a c = refl

combine_id : (a c : Alert) → (combine_alerts a c).alert_id ≡ a.alert_id
unfolding combine_alerts
combine_id a c = refl

merge_row-facts :
    (too_large : Alert → Bool) (id : String) (c : Alert) (rows : List Row)
    → has_id c.alert_id rows ≡ true
    → let (result, rows') = merge_row too_large c rows in
      facts_in id rows'
      ≡ (if is_upserted result then replay id (c ∷ []) (facts_in id rows) else facts_in id rows)
unfolding merge_row facts_in replay absorb
merge_row-facts too_large id c [] h = absurd (cc h)
merge_row-facts too_large id c (r ∷ rs) h = ground (
  arith,
  merge_row-facts too_large id c rs,
  combine_facts r.alert c,
  combine_id r.alert c,
  str_eq_iff r.alert.alert_id c.alert_id,
  str_eq_iff r.alert.alert_id id,
  str_eq_iff c.alert_id id,
)

add_row-facts :
    (id org : String) (c : Alert) (rows : List Row)
    → has_id c.alert_id rows ≡ false
    → facts_in id (rows ++ alert_record org c ∷ []) ≡ replay id (c ∷ []) (facts_in id rows)
unfolding facts_in replay absorb
add_row-facts id org c [] h = ground arith
add_row-facts id org c (r ∷ rs) h = ground (
  arith,
  add_row-facts id org c rs,
  str_eq_iff r.alert.alert_id c.alert_id,
  str_eq_iff r.alert.alert_id id,
  str_eq_iff c.alert_id id,
  str_eq_refl c.alert_id,
)

merge_row-small :
    (too_large : Alert → Bool) (c : Alert) (rows : List Row)
    → ((a : Alert) → too_large a ≡ false)
    → (merge_row too_large c rows).0 ≢ artifact_too_large
unfolding merge_row
merge_row-small too_large c [] small = λ e. cc e
merge_row-small too_large c (r ∷ rs) small =
    ground (arith, merge_row-small too_large c rs small, small (combine_alerts r.alert c))

stored_cases :
    (too_large : Alert → Bool) (org : String) (c : Alert) (rows : List Row)
    → ((a : Alert) → too_large a ≡ false)
    → (upsert_alert_atomic too_large org c rows).0 ≢ no_result_found
    → is_upserted (upsert_alert_atomic too_large org c rows).0 ≡ true
unfolding upsert_alert_atomic
stored_cases too_large org c rows small found =
    ground (arith, small c, merge_row-small too_large c rows small, found)

module _ (id_of : String → String → ℕ → String) where
  -- The id is derived from the organization and the episode, as the pipeline derives it.
  abbrev pub IsKeyed : (organization : String) → Alert → Type 0
  IsKeyed org a = a.alert_id ≡ id_of org a.deduplication_key a.episode_bucket

  abbrev pub IsKeyedRow : Row → Type 0
  IsKeyedRow r = IsKeyed r.organization r.alert

  conflicts-id :
      (org : String) (c : Alert) (r : Row)
      → IsKeyed org c
      → IsKeyedRow r
      → conflicts org c r ≡ true
      → str_eq r.alert.alert_id c.alert_id ≡ true
  conflicts-id org c r kc kr h = elim (Bool-cases (str_eq r.alert.alert_id c.alert_id)) [
    | inl same ↦ same
    | inr other ↦
        let (o, k, b) = keys_eq org c r other h in
        absurd (cc (other, kc, kr, o, k, b, str_eq_refl c.alert_id))
  ]

  has_row :
      (org : String) (c : Alert) (rows : List Row)
      → IsKeyed org c
      → All IsKeyedRow rows
      → any (conflicts org c) rows ≡ has_id c.alert_id rows
  has_row org c [] kc kr = refl
  has_row org c (r ∷ rs) kc kr =
      ground (arith, conflicts-id org c r kc kr.0, has_row org c rs kc kr.1)

  combine-IsKeyed : (org : String) (a c : Alert) → IsKeyed org a → IsKeyed org (combine_alerts a c)
  unfolding combine_alerts
  combine-IsKeyed org a c ka = ka

  merge_row-keyed :
      (too_large : Alert → Bool) (c : Alert) (rows : List Row)
      → All IsKeyedRow rows
      → All IsKeyedRow (merge_row too_large c rows).1
  unfolding merge_row
  merge_row-keyed too_large c [] kr = kr
  merge_row-keyed too_large c (r ∷ rs) kr = elim (Bool-cases (str_eq r.alert.alert_id c.alert_id)) [
    | inr other ↦ rw other (kr.0, merge_row-keyed too_large c rs kr.1)
    | inl same ↦ elim (Bool-cases (too_large (combine_alerts r.alert c))) [
      | inl large ↦ rw (same, large) kr
      | inr small ↦ rw (same, small) (combine-IsKeyed r.organization r.alert c kr.0, kr.1)
    ]
  ]

  pub upsert-keyed :
      (too_large : Alert → Bool) (org : String) (c : Alert) (rows : List Row)
      → IsKeyed org c
      → All IsKeyedRow rows
      → All IsKeyedRow (upsert_alert_atomic too_large org c rows).1
  unfolding upsert_alert_atomic
  upsert-keyed too_large org c rows kc kr = elim (Bool-cases (too_large c)) [
    | inl large ↦ rw large kr
    | inr small ↦ elim (Bool-cases (any (conflicts org c) rows)) [
      | inl there ↦ rw (small, there) (merge_row-keyed too_large c rows kr)
      | inr fresh ↦ rw (small, fresh) (All-append IsKeyedRow rows _ kr (kc, tt))
    ]
  ]

  pub upsert-facts :
      (too_large : Alert → Bool) (org id : String) (c : Alert) (rows : List Row)
      → IsKeyed org c
      → All IsKeyedRow rows
      → let (result, rows') = upsert_alert_atomic too_large org c rows in
        facts_in id rows'
        ≡ (if is_upserted result then replay id (c ∷ []) (facts_in id rows) else facts_in id rows)
  unfolding upsert_alert_atomic replay
  upsert-facts too_large org id c rows kc kr = elim (Bool-cases (too_large c)) [
    | inl large ↦ rw large
    | inr small ↦ elim (Bool-cases (any (conflicts org c) rows)) [
      | inl there ↦
          rw (small, there)
            (merge_row-facts too_large id c rows (sym (has_row org c rows kc kr) ∙ there))
      | inr fresh ↦
          rw (small, fresh) (add_row-facts id org c rows (sym (has_row org c rows kc kr) ∙ fresh))
    ]
  ]

  upsert-result :
      (too_large : Alert → Bool) (org : String) (c : Alert) (rows : List Row)
      → IsKeyed org c
      → All IsKeyedRow rows
      → (upsert_alert_atomic too_large org c rows).0 ≢ no_result_found
  unfolding upsert_alert_atomic
  upsert-result too_large org c rows kc kr =
      ground (arith, has_row org c rows kc kr, merge_row-result too_large c rows)

  pub upsert-stored :
      (too_large : Alert → Bool) (org : String) (c : Alert) (rows : List Row)
      → ((a : Alert) → too_large a ≡ false)
      → IsKeyed org c
      → All IsKeyedRow rows
      → is_upserted (upsert_alert_atomic too_large org c rows).0 ≡ true
  upsert-stored too_large org c rows small kc kr =
      stored_cases too_large org c rows small (upsert-result too_large org c rows kc kr)
