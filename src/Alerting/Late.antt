-- ===== src/Alerting/Late.antt =====
-- services/alerting/engine.py: ingest of an event that arrives late.
use mathlib.Core.List.{Memᴰ}
use decepti_forge.Base.{ℕ, ◌+◌, String, ◌≡◌, sym, subst, true, false, List, [], ◌∷◌, Option, All}
use decepti_forge.Alerting.Types.{Event, Alert, Tripwire}
use decepti_forge.Alerting.Pipeline.{
  Config, is_valid, entry_of, key_of, is_match, create_alert, outcome, ingest, episode_of,
}
use decepti_forge.Alerting.Totals.{
  total, IsDistinct, Replaces, All-Replaces, matching_alert-unmatched,
}

All-member {ℓ κ} : {A : Type ℓ} (P : A → Type κ) (x : A) (l : List A) → Memᴰ x l → All P l → P x
All-member P x [] m h = elim m [ ]
All-member P x (y ∷ l) (Memᴰ.head same) h = subst P (sym same) h.0
All-member P x (y ∷ l) (Memᴰ.tail deeper) h = All-member P x l deeper h.1

-- An event whose own episode already has an alert replaces that alert, if it is near none of the
-- pipeline's alerts: where the alerts have distinct ids, the event is valid and no alert is a match
-- for it, the events that the replaced alert had counted are lost, and the new event is counted.
pub ingest_late_overwrites :
    (id_of : String → String → ℕ → String) (org : String) (c : Config) (e : Event)
    (t : Option Tripwire) (a : Alert) (alerts : List Alert)
    → is_valid e ≡ true
    → IsDistinct alerts
    → Memᴰ a alerts
    → a.alert_id ≡ id_of org (key_of e) (episode_of c e)
    → All (λ (b : Alert). is_match c (key_of e) e b ≡ false) alerts
    → total (ingest id_of org c e t alerts).1 + a.event_count ≡ total alerts + 1
unfolding ingest outcome create_alert
ingest_late_overwrites id_of org c e t a alerts valid distinct held same far =
    let replaces = All-member (Replaces alerts) a alerts held (All-Replaces alerts distinct) in
    rw valid (
      rw (matching_alert-unmatched c (key_of e) e alerts far)
        (replaces (create_alert id_of org c e (entry_of t e)) (sym same)))
