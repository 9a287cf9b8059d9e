-- ===== src/Alerting/Totals.antt =====
-- The events of a pipeline's alerts added up, distinct ids, and what the search for a match finds.
use decepti_forge.Base.{
  ℕ, ◌+◌, String, ◌≡◌, ◌≢◌, refl, sym, subst, true, false, List, [], ◌∷◌, Option, none, some, arith,
  inl, inr, All, All-map, All-map₂, Bool-cases, str_eq, str_eq_iff,
}
use decepti_forge.Alerting.Types.{Event, Alert}
use decepti_forge.Alerting.Pipeline.{Config, is_match, nearer, matching_alert, store_alert}
use decepti_forge.Alerting.Bounds.{Holds, nearer-Holds, store_alert-All}

-- The events that the alerts of a pipeline stand for.
unfoldable pub total : List Alert → ℕ
total [] = 0
total (a ∷ as') = a.event_count + total as'

-- No two alerts share an id.
abbrev pub IsDistinct : List Alert → Type 0
IsDistinct [] = Unit
IsDistinct (a ∷ as') = All (λ b. str_eq a.alert_id b.alert_id ≡ false) as' × IsDistinct as'

pub store_alert-IsDistinct :
    (a : Alert) (l : List Alert) → IsDistinct l → IsDistinct (store_alert a l)
unfolding store_alert
store_alert-IsDistinct a [] d = (tt, tt)
store_alert-IsDistinct a (b ∷ l) d = elim (Bool-cases (str_eq b.alert_id a.alert_id)) [
  | inl same ↦ rw same (
    All-map (λ x. str_eq b.alert_id x.alert_id ≡ false) (λ x. str_eq a.alert_id x.alert_id ≡ false)
        l (λ x ne. rw (← (str_eq_iff b.alert_id a.alert_id).0 same) ne) d.0,
    d.1,
  )
  | inr other ↦ rw other (
    store_alert-All (λ x. str_eq b.alert_id x.alert_id ≡ false) a l other d.0,
    store_alert-IsDistinct a l d.1,
  )
]

-- Storing under a fresh id adds the alert's events.
pub total-store_fresh :
    (a : Alert) (l : List Alert)
    → All (λ b. str_eq b.alert_id a.alert_id ≡ false) l
    → total (store_alert a l) ≡ total l + a.event_count
unfolding store_alert total
total-store_fresh a [] fresh = omega arith
total-store_fresh a (b ∷ l) fresh = ground (arith, fresh.0, total-store_fresh a l fresh.1)

-- Storing under the id of `old` replaces its events.
abbrev pub Replaces : List Alert → Alert → Type 0
Replaces l old =
    (a : Alert)
    → a.alert_id ≡ old.alert_id
    → total (store_alert a l) + old.event_count ≡ total l + a.event_count

pub All-Replaces : (l : List Alert) → IsDistinct l → All (Replaces l) l
unfolding store_alert total
All-Replaces [] d = tt
All-Replaces (b ∷ l) d = (
  λ a same.
      let here : str_eq b.alert_id a.alert_id ≡ true =
        (str_eq_iff b.alert_id a.alert_id).1 (sym same) in
      rw here (omega arith),
  All-map₂ (Replaces l) (λ x. str_eq b.alert_id x.alert_id ≡ false) (Replaces (b ∷ l)) l
      (λ x r ne a same.
        let other : str_eq b.alert_id a.alert_id ≡ false =
          subst (λ i. str_eq b.alert_id i ≡ false) (sym same) ne in
        rw other (omega (arith, r a same)))
      (All-Replaces l d.1) d.0,
)

nearer-ne_none : (e : Event) (a : Alert) (o : Option Alert) → nearer e a o ≢ none
nearer-ne_none e a none h = cc
nearer-ne_none e a (some b) h = ground arith

-- If the search finds nothing, no alert matches; what it finds does match.
pub matching_alert-none :
    (c : Config) (k : String) (e : Event) (l : List Alert)
    → matching_alert c k e l ≡ none
    → All (λ a. is_match c k e a ≡ false) l
unfolding matching_alert
matching_alert-none c k e [] h = tt
matching_alert-none c k e (a ∷ l) h = elim (Bool-cases (is_match c k e a)) [
  | inl fits ↦ absurd (nearer-ne_none e a (matching_alert c k e l) (rw fits at h))
  | inr other ↦ (other, matching_alert-none c k e l (rw other at h))
]

pub matching_alert-matches :
    (c : Config) (k : String) (e : Event) (l : List Alert)
    → Holds (λ a. is_match c k e a ≡ true) (matching_alert c k e l)
unfolding matching_alert
matching_alert-matches c k e [] = tt
matching_alert-matches c k e (a ∷ l) = elim (Bool-cases (is_match c k e a)) [
  | inl fits ↦ rw fits (
      nearer-Holds (λ x. is_match c k e x ≡ true) e a (matching_alert c k e l) fits
        (matching_alert-matches c k e l))
  | inr other ↦ rw other (matching_alert-matches c k e l)
]

-- If no alert matches, the search finds nothing.
pub matching_alert-unmatched :
    (c : Config) (k : String) (e : Event) (l : List Alert)
    → All (λ a. is_match c k e a ≡ false) l
    → matching_alert c k e l ≡ none
unfolding matching_alert
matching_alert-unmatched c k e [] h = refl
matching_alert-unmatched c k e (a ∷ l) h = rw h.0 (matching_alert-unmatched c k e l h.1)
