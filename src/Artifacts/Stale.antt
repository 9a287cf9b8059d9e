-- ===== src/Artifacts/Stale.antt =====
-- The retirement of stale incidents, against one pass over the table.
use decepti_forge.Base.{
  IsDistinct, ℕ, ◌*◌, ◌-◌, ◌≡◌, refl, String, Bool, false, not, ◌&&◌, List, [], ◌∷◌, some,
  if◌then◌else◌, arith, str_eq, str_eq_iff, str_eq_refl, str_mem, map, count, Bool-cases, inl, inr,
}
use decepti_forge.Alerting.Pipeline.{second}
use decepti_forge.Artifacts.Incidents.{
  Incident, IncidentRow, merge_incident, incidents_of, is_kept, retired, retire_all,
  retire_stale_incidents,
}

abbrev pub incident_ids : List IncidentRow → List String
incident_ids rows = map (λ (r : IncidentRow). r.incident.incident_id) rows

-- Whether a row is the organization's and due to be retired.
abbrev pub is_due : (cutoff : ℕ) → (organization : String) → IncidentRow → Bool
is_due cutoff org r = str_eq r.owner org && not (is_kept cutoff r.incident)

-- The reference: in one pass, the due rows are retired.
abbrev pub retire_row : (now cutoff : ℕ) → (organization : String) → IncidentRow → IncidentRow
retire_row now cutoff org r =
    if is_due cutoff org r then record r { incident = retired now r.incident } else r

not_mem :
    (id other : String) (names : List String)
    → str_mem id (other ∷ names) ≡ false
    → (str_eq id other ≡ false) × (str_mem id names ≡ false)
not_mem id other names h = ground (arith, h)

own_ids :
    (id org : String) (rows : List IncidentRow)
    → str_mem id (incident_ids rows) ≡ false
    → str_mem id (map (λ (i : Incident). i.incident_id) (incidents_of org rows)) ≡ false
unfolding incidents_of
own_ids id org [] h = refl
own_ids id org (r ∷ rs) h = ground (arith, h, own_ids id org rs)

none_due :
    (now cutoff : ℕ) (org : String) (rows : List IncidentRow)
    → count (is_due cutoff org) (map (retire_row now cutoff org) rows) ≡ 0
none_due now cutoff org [] = refl
none_due now cutoff org (r ∷ rs) = ground (arith, none_due now cutoff org rs)

module _ (too_large : Incident → Bool) where
  -- A row with another id is passed over by every merge.
  retire_all-skip :
      (now cutoff : ℕ) (org : String) (is : List Incident) (r : IncidentRow)
      (rows : List IncidentRow)
      → str_mem r.incident.incident_id (map (λ (i : Incident). i.incident_id) is) ≡ false
      → let (n, rows') = retire_all too_large now cutoff org is rows in
        retire_all too_large now cutoff org is (r ∷ rows) ≡ (n, r ∷ rows')
  unfolding retire_all merge_incident
  retire_all-skip now cutoff org [] r rows absent = refl
  retire_all-skip now cutoff org (i ∷ is) r rows absent =
      let (other, rest) = not_mem r.incident.incident_id i.incident_id _ absent in
      let merged = merge_incident org (retired now i) rows in
      ground (
        arith,
        other,
        retire_all-skip now cutoff org is r rows rest,
        retire_all-skip now cutoff org is r merged rest,
      )

  pub retire_all_lem :
      (now cutoff : ℕ) (org : String) (rows : List IncidentRow)
      → ((i : Incident) → too_large i ≡ false)
      → IsDistinct (incident_ids rows)
      → retire_all too_large now cutoff org (incidents_of org rows) rows
        ≡ (some (count (is_due cutoff org) rows), map (retire_row now cutoff org) rows)
  unfolding retire_all merge_incident incidents_of
  retire_all_lem now cutoff org [] small d = refl
  retire_all_lem now cutoff org (r ∷ rs) small (absent, d) =
      let ih = retire_all_lem now cutoff org rs small d in
      let absent' = own_ids r.incident.incident_id org rs absent in
      let is = incidents_of org rs in
      elim (Bool-cases (str_eq r.owner org)) [
        | inr foreign ↦ rw (foreign, retire_all-skip now cutoff org is r rs absent', ih)
        | inl own ↦
            let owner = (str_eq_iff r.owner org).0 own in
            elim (Bool-cases (is_kept cutoff r.incident)) [
              | inl kept ↦ rw (own, kept, retire_all-skip now cutoff org is r rs absent', ih)
              | inr due ↦
                  rw
                    (
                      own,
                      due,
                      small (retired now r.incident),
                      str_eq_refl r.incident.incident_id,
                      retire_all-skip now cutoff org is
                          (record { owner = org; incident = retired now r.incident }) rs absent',
                      ih,
                    )
                    (ground (arith, owner))
            ]
      ]

  -- With incident ids that are a primary key and no artifact too large, the retirement marks exactly
  -- the organization's incidents that are not stale yet and were last seen before the cutoff, keeps
  -- every other row and the order, deletes nothing, returns how many it marked, and has nothing left
  -- to mark when it is run again.
  pub retire_stale_once :
      (org : String) (now stale_after : ℕ) (rows : List IncidentRow)
      → ((i : Incident) → too_large i ≡ false)
      → IsDistinct (incident_ids rows)
      → let cutoff = now - stale_after * second in
        let (n, rows') = retire_stale_incidents too_large org now stale_after rows in
        (n ≡ some (count (is_due cutoff org) rows))
        × (rows' ≡ map (retire_row now cutoff org) rows)
        × (count (is_due cutoff org) rows' ≡ 0)
  unfolding retire_stale_incidents
  retire_stale_once org now stale_after rows small d =
      let cutoff = now - stale_after * second in
      rw (retire_all_lem now cutoff org rows small d) (refl, refl, none_due now cutoff org rows)
