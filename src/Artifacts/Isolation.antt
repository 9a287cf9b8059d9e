-- ===== src/Artifacts/Isolation.antt =====
-- An upsert for one organization leaves the rows of the others as they are.
use decepti_forge.Base.{
  ℕ, ◌≡◌, ◌≢◌, refl, sym, ◌∙◌, String, Bool, true, false, List, [], ◌∷◌, ◌++◌, arith, str_eq,
  str_eq_iff, select, All,
}
use decepti_forge.Alerting.Types.{Alert}
use decepti_forge.Artifacts.Alerts.{Row, alert_record, merge_row, upsert_alert_atomic}
use decepti_forge.Artifacts.Upserts.{IsKeyed, IsKeyedRow}

-- The rows of an organization.
unfoldable pub rows_of : (organization : String) → List Row → List Row
rows_of org rows = select (λ (r : Row). str_eq r.organization org) rows

added_other :
    (other org : String) (c : Alert) (rows : List Row)
    → other ≢ org
    → rows_of other (rows ++ alert_record org c ∷ []) ≡ rows_of other rows
unfolding rows_of
added_other other org c [] ne = ground (arith, ne, str_eq_iff org other)
added_other other org c (r ∷ rs) ne = ground (arith, added_other other org c rs ne)

module _ (id_of : String → String → ℕ → String) where
  -- Episodes of different organizations have different ids.
  abbrev pub IsInjective : Type 0
  IsInjective =
      (org org' key key' : String) (bucket bucket' : ℕ)
      → id_of org key bucket ≡ id_of org' key' bucket'
      → org ≡ org'

  row_other :
      (org other : String) (c : Alert) (r : Row)
      → IsInjective
      → other ≢ org
      → IsKeyed id_of org c
      → IsKeyedRow id_of r
      → str_eq r.alert.alert_id c.alert_id ≡ true
      → str_eq r.organization other ≡ false
  row_other org other c r inj ne kc kr same =
      let ids : r.alert.alert_id ≡ c.alert_id = (str_eq_iff r.alert.alert_id c.alert_id).0 same in
      let owner = inj r.organization org _ _ _ _ (sym kr ∙ ids ∙ kc) in
      ground (arith, owner, ne, str_eq_iff r.organization other)

  merge_row_other :
      (too_large : Alert → Bool) (org other : String) (c : Alert) (rows : List Row)
      → IsInjective
      → other ≢ org
      → IsKeyed id_of org c
      → All (IsKeyedRow id_of) rows
      → rows_of other (merge_row too_large c rows).1 ≡ rows_of other rows
  unfolding merge_row rows_of
  merge_row_other too_large org other c [] inj ne kc kr = refl
  merge_row_other too_large org other c (r ∷ rs) inj ne kc kr = ground (
    arith,
    row_other org other c r inj ne kc kr.0,
    merge_row_other too_large org other c rs inj ne kc kr.1,
  )

  -- Where the ids are derived from the episodes and differ between organizations, an upsert for one
  -- organization changes no row of another, whatever its outcome.
  pub upsert_isolated :
      (too_large : Alert → Bool) (org other : String) (c : Alert) (rows : List Row)
      → IsInjective
      → other ≢ org
      → IsKeyed id_of org c
      → All (IsKeyedRow id_of) rows
      → rows_of other (upsert_alert_atomic too_large org c rows).1 ≡ rows_of other rows
  unfolding upsert_alert_atomic rows_of
  upsert_isolated too_large org other c rows inj ne kc kr = ground (
    arith,
    merge_row_other too_large org other c rows inj ne kc kr,
    added_other other org c rows ne,
  )
