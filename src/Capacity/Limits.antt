-- ===== src/Capacity/Limits.antt =====
-- services/capacity.py: the limits of tenants. The table is a list of rows, at most one for an
-- organization, and setting a limit writes the row's audit fields as well.
use decepti_forge.Base.{
  ℕ, ◌+◌, String, ◌≡◌, refl, true, false, ◌&&◌, not, List, [], ◌∷◌, Option, none, some,
  if◌then◌else◌, leb, ltb, str_eq, str_eq_refl, str_eq_iff, str_mem, arith, any,
}

-- `TenantLimits`
pub record TenantLimits : Type 0 where
  pub tier : String
  pub events_per_second : ℕ
  pub burst : ℕ
  pub max_pending_jobs : ℕ
  pub max_concurrent_scans : ℕ
  pub max_concurrent_deployments : ℕ
  pub max_report_jobs : ℕ

-- `TenantLimitRecord`
pub record LimitRow : Type 0 where
  pub organization : String
  pub limits : TenantLimits
  pub version : ℕ
  pub updated_by : Option String

-- What `_validate` raises.
pub data Invalid : Type 0 where
  invalid_tier limits_not_positive burst_below_rate : Invalid

-- `_validate`. The limits are integers in the source; those that are negative are refused like 0.
unfoldable pub validate : TenantLimits → Option Invalid
validate l =
    if not (str_mem l.tier ("small" ∷ "medium" ∷ "large" ∷ []))
    then some invalid_tier
    else if any (λ (n : ℕ). leb n 0)
        (l.events_per_second ∷ l.burst ∷ l.max_pending_jobs ∷ l.max_concurrent_scans
          ∷ l.max_concurrent_deployments ∷ l.max_report_jobs ∷ [])
    then some limits_not_positive
    else if ltb l.burst l.events_per_second
    then some burst_below_rate
    else none

module _ (default_limits : TenantLimits) where
  -- `TenantCapacityService.limits`
  unfoldable pub limits_for : (organization : String) → List LimitRow → TenantLimits
  limits_for org [] = default_limits
  limits_for org (r ∷ rs) = if str_eq r.organization org then r.limits else limits_for org rs

-- The part of `set_limits` behind the validation.
unfoldable pub write_limits :
    (organization : String) → TenantLimits → (actor : Option String) → List LimitRow → List LimitRow
write_limits org l actor [] =
    record { organization = org; limits = l; version = 1; updated_by = actor } ∷ []
write_limits org l actor (r ∷ rs) =
    let rest = write_limits org l actor rs in
    if str_eq r.organization org
    then record {
      organization = r.organization;
      limits = l;
      version = r.version + 1;
      updated_by = actor;
    }
      ∷ rs
    else r ∷ rest

-- `TenantCapacityService.set_limits`: the error, or the limits read back; and the rows.
pub data SetResult : Type 0 where
  refused : Invalid → SetResult
  now_in_force : TenantLimits → SetResult

module _ (default_limits : TenantLimits) where
  abbrev written : (organization : String) → List LimitRow → SetResult × List LimitRow
  unfolding limits_for
  written org rows = (now_in_force (limits_for default_limits org rows), rows)

  unfoldable pub set_limits :
      (organization : String)
      → TenantLimits
      → (actor : Option String) → List LimitRow
      → SetResult × List LimitRow
  unfolding validate write_limits written
  set_limits org l actor rows = elim (validate l) [
    | some error ↦ (refused error, rows)
    | none ↦ written org (write_limits org l actor rows)
  ]

module _ (default_limits : TenantLimits) where
  write_limits-read :
      (org other : String) (l : TenantLimits) (actor : Option String) (rows : List LimitRow)
      → limits_for default_limits other (write_limits org l actor rows)
        ≡ (if str_eq org other then l else limits_for default_limits other rows)
  unfolding write_limits limits_for
  write_limits-read org other l actor [] = refl
  write_limits-read org other l actor (r ∷ rs) = ground (
    arith,
    write_limits-read org other l actor rs,
    str_eq_iff r.organization org,
    str_eq_iff r.organization other,
    str_eq_iff org other,
  )

  -- Limits that are set are in force for their organization and for no other: the call returns them
  -- and they are read back, while the limits of every other organization stay as they were; limits
  -- that do not pass the validation are refused and change nothing.
  pub set_limits_read :
      (org other : String) (l : TenantLimits) (actor : Option String) (rows : List LimitRow)
      → let (result, rows') = set_limits default_limits org l actor rows in
        (elim (validate l) [ none ↦ now_in_force l | some e ↦ refused e ] ≡ result)
        × (limits_for default_limits other rows' ≡ (
            if str_eq org other && elim (validate l) [ none ↦ true | some e ↦ false ]
            then l
            else limits_for default_limits other rows))
  unfolding set_limits
  set_limits_read org other l actor rows = ground (
    arith,
    write_limits-read org other l actor rows,
    write_limits-read org org l actor rows,
    str_eq_refl org,
  )
