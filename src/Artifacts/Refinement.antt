-- ===== src/Artifacts/Refinement.antt =====
-- The table of alerts refines a map from episodes to facts.
use mathlib.Core.List.{Permᴰ}
use mathlib.Core.List.Permᴰ
use decepti_forge.Base.{
  ℕ, ◌≡◌, refl, sym, ap, ◌∙◌, String, Bool, false, List, [], ◌∷◌, if◌then◌else◌, All, All-perm,
  Bool-cases, inl, inr, map,
}
use decepti_forge.Alerting.Types.{Alert}
use decepti_forge.Artifacts.Alerts.{Row, upsert_alert_atomic}
use decepti_forge.Artifacts.Facts.{replay, replay_perm}
use decepti_forge.Artifacts.Upserts.{
  facts_in, is_upserted, IsKeyed, IsKeyedRow, upsert-keyed, upsert-facts, upsert-stored,
}

-- A run of upserts: the candidates that were stored, and the rows.
unfoldable pub upsert_all :
    (too_large : Alert → Bool) → List (String × Alert) → List Row → List Alert × List Row
unfolding upsert_alert_atomic
upsert_all too_large [] rows = ([], rows)
upsert_all too_large ((org, c) ∷ cs) rows =
    let (result, rows') = upsert_alert_atomic too_large org c rows in
    let (stored, rows'') = upsert_all too_large cs rows' in
    (if is_upserted result then c ∷ stored else stored, rows'')

module _ (id_of : String → String → ℕ → String) where
  -- The table refines the map: whatever candidates of any organizations arrive, with ids that are
  -- derived from their episodes, the row of every id holds the facts that the stored candidates add
  -- up to on the map, and every row keeps the id of its episode.
  pub upsert_all_refines :
      (too_large : Alert → Bool) (id : String) (cs : List (String × Alert)) (rows : List Row)
      → All (λ (c : String × Alert). IsKeyed id_of c.0 c.1) cs
      → All (IsKeyedRow id_of) rows
      → let (stored, rows') = upsert_all too_large cs rows in
        (facts_in id rows' ≡ replay id stored (facts_in id rows)) × All (IsKeyedRow id_of) rows'
  unfolding upsert_all replay
  upsert_all_refines too_large id [] rows kc kr = (refl, kr)
  upsert_all_refines too_large id ((org, c) ∷ cs) rows kc kr =
      let (result, rows') = upsert_alert_atomic too_large org c rows in
      let step = upsert-facts id_of too_large org id c rows kc.0 kr in
      let (facts, keyed) =
        upsert_all_refines too_large id cs rows' kc.1
          (upsert-keyed id_of too_large org c rows kc.0 kr) in
      let stored = (upsert_all too_large cs rows').0 in
      (
        elim (Bool-cases (is_upserted result)) [
          | inl put ↦ rw put (facts ∙ ap (replay id stored) (rw put at step))
          | inr kept ↦ rw kept (facts ∙ ap (replay id stored) (rw kept at step))
        ],
        keyed,
      )

  upsert_all-stored :
      (too_large : Alert → Bool) (cs : List (String × Alert)) (rows : List Row)
      → ((a : Alert) → too_large a ≡ false)
      → All (λ (c : String × Alert). IsKeyed id_of c.0 c.1) cs
      → All (IsKeyedRow id_of) rows
      → (upsert_all too_large cs rows).0 ≡ map (λ (c : String × Alert). c.1) cs
  unfolding upsert_all
  upsert_all-stored too_large [] rows small kc kr = refl
  upsert_all-stored too_large ((org, c) ∷ cs) rows small kc kr =
      let stored = upsert-stored id_of too_large org c rows small kc.0 kr in
      rw stored (
        ap (c ∷◌) (
          upsert_all-stored too_large cs (upsert_alert_atomic too_large org c rows).1 small kc.1
            (upsert-keyed id_of too_large org c rows kc.0 kr)))

  -- The order in which the candidates of concurrent ingests reach the table does not matter to the
  -- count, the first and last sighting, the severity and the confidence of any episode, while no
  -- artifact is too large and the ids are derived from the episodes.
  pub upsert_all_order :
      (too_large : Alert → Bool) (id : String) {cs ds : List (String × Alert)} (rows : List Row)
      → ((a : Alert) → too_large a ≡ false)
      → Permᴰ cs ds
      → All (λ (c : String × Alert). IsKeyed id_of c.0 c.1) cs
      → All (IsKeyedRow id_of) rows
      → facts_in id (upsert_all too_large cs rows).1 ≡ facts_in id (upsert_all too_large ds rows).1
  upsert_all_order too_large id {cs} {ds} rows small p kc kr =
      let kd = All-perm (λ (c : String × Alert). IsKeyed id_of c.0 c.1) p kc in
      let by_cs = (upsert_all_refines too_large id cs rows kc kr).0 in
      let by_ds = (upsert_all_refines too_large id ds rows kd kr).0 in
      let swapped = replay_perm id (facts_in id rows) (Permᴰ.map (λ (c : String × Alert). c.1) p) in
      (rw (upsert_all-stored too_large cs rows small kc kr) at by_cs)
      ∙ swapped
      ∙ sym (rw (upsert_all-stored too_large ds rows small kd kr) at by_ds)
