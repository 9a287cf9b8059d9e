-- ===== src/Alerting/Counts.antt =====
-- services/alerting/engine.py: ingest over valid events in order.
use decepti_forge.Base.{
  ℕ, ◌+◌, ◌*◌, ◌/◌, ◌≤◌, ◌<◌, max, String, ◌≡◌, refl, sym, subst, ◌∙◌, true, false, List, [], ◌∷◌,
  Option, none, some, arith, leb, inl, inr, All, All-map, All-map₂, length, Bool-cases, str_eq,
  str_eq_iff,
}
use decepti_forge.Alerting.Types.{Event, Alert, Tripwire}
use decepti_forge.Alerting.Pipeline.{
  Config, window, second, is_valid, entry_of, key_of, gap, is_match, matching_alert, episode_of,
  update_alert, store_alert, create_alert, outcome, ingest,
}
use decepti_forge.Alerting.Bounds.{Holds, matching_alert-Holds, store_alert-All}
use decepti_forge.Alerting.Totals.{
  total, IsDistinct, store_alert-IsDistinct, total-store_fresh, Replaces, All-Replaces,
  matching_alert-none, matching_alert-matches,
}

-- The width of an episode bucket.
abbrev pub width : Config → ℕ
width c = max 1 c.window_seconds * second

div_mul-le : (n w : ℕ) → n / w * w ≤ n
div_mul-le n w = grind arith

lt-next_bucket : (n w : ℕ) → 0 < w → n < n / w * w + w
lt-next_bucket n w pos = grind arith

-- An alert of the event's own bucket and surface is a match.
same_bucket_matches :
    (c : Config) (e : Event) (a : Alert)
    → 1 ≤ c.window_seconds
    → a.last_seen ≤ e.timestamp
    → a.deduplication_key ≡ key_of e
    → episode_of c e * width c ≤ a.last_seen
    → is_match c (key_of e) e a ≡ true
same_bucket_matches c e a pos le key start =
    let next = lt-next_bucket e.timestamp (width c) (omega arith) in
    let near : gap e a ≤ window c = omega arith in
    ground (arith, near, (str_eq_iff a.deduplication_key (key_of e)).1 key)

module _ (id_of : String → String → ℕ → String) (org : String) (c : Config) where
  -- An alert sits in the bucket that its id names, and was last seen by `now`.
  pub record IsPlaced (now : ℕ) (a : Alert) : Type 0 where
    pub named : a.alert_id ≡ id_of org a.deduplication_key a.episode_bucket
    pub started : a.episode_bucket * width c ≤ a.last_seen
    pub past : a.last_seen ≤ now

  create_alert-IsPlaced :
      (e : Event) (t : Tripwire) → IsPlaced e.timestamp (create_alert id_of org c e t)
  unfolding create_alert
  create_alert-IsPlaced e t = record {
    named = refl;
    started = div_mul-le e.timestamp (width c);
    past = omega arith;
  }

  update_alert-IsPlaced :
      (e : Event) (t : Tripwire) (now : ℕ) (a : Alert)
      → now ≤ e.timestamp
      → IsPlaced now a
      → IsPlaced e.timestamp (update_alert a e t)
  unfolding update_alert
  update_alert-IsPlaced e t now a le p = record {
    named = p.named;
    started = omega (arith, p.started);
    past = omega (arith, p.past);
  }

  -- No alert of an earlier event holds the id of a new alert, if none matches the event.
  unmatched_fresh :
      (e : Event) (t : Tripwire) (now : ℕ) (a : Alert)
      → 1 ≤ c.window_seconds
      → ((k k' : String) (b b' : ℕ) → id_of org k b ≡ id_of org k' b' → (k ≡ k') × (b ≡ b'))
      → now ≤ e.timestamp
      → IsPlaced now a
      → is_match c (key_of e) e a ≡ false
      → str_eq a.alert_id (create_alert id_of org c e t).alert_id ≡ false
  unfolding create_alert
  unmatched_fresh e t now a pos inj le p far =
      elim (Bool-cases (str_eq a.alert_id (id_of org (key_of e) (episode_of c e)))) [
        | inr fresh ↦ fresh
        | inl taken ↦
            let same = (str_eq_iff a.alert_id (id_of org (key_of e) (episode_of c e))).0 taken in
            let (key, bucket) =
              inj a.deduplication_key (key_of e) a.episode_bucket (episode_of c e)
                (sym p.named ∙ same) in
            let near =
              same_bucket_matches c e a pos (omega (arith, p.past)) key
                (subst (λ b. b * width c ≤ a.last_seen) bucket p.started) in
            cc (near, far)
      ]

  -- A pipeline that has seen no event after `now`.
  pub record IsInOrder (now : ℕ) (alerts : List Alert) : Type 0 where
    pub distinct : IsDistinct alerts
    pub placed : All (IsPlaced now) alerts

  store-IsInOrder :
      (a : Alert) (now later : ℕ) (alerts : List Alert)
      → now ≤ later
      → IsPlaced later a
      → IsInOrder now alerts
      → IsInOrder later (store_alert a alerts)
  store-IsInOrder a now later alerts le pa h = record {
    distinct = store_alert-IsDistinct a alerts h.distinct;
    placed = store_alert-All (IsPlaced later) a alerts pa (
        All-map (IsPlaced now) (IsPlaced later) alerts
          (λ x p. record { named = p.named; started = p.started; past = omega (arith, p.past) })
          h.placed);
  }

  module _ (pos : 1 ≤ c.window_seconds)
      (inj : (k k' : String) (b b' : ℕ)
        → id_of org k b ≡ id_of org k' b'
        → (k ≡ k') × (b ≡ b')) where
    outcome_counts :
        (e : Event) (t : Tripwire) (now : ℕ) (alerts : List Alert) (o : Option Alert)
        → matching_alert c (key_of e) e alerts ≡ o
        → now ≤ e.timestamp
        → IsInOrder now alerts
        → Holds (Replaces alerts) o
        → Holds (λ a. is_match c (key_of e) e a ≡ true) o
        → Holds (IsPlaced now) o
        → (total (store_alert (outcome id_of org c e t o) alerts) ≡ total alerts + 1)
          × IsPlaced e.timestamp (outcome id_of org c e t o)
    unfolding outcome
    outcome_counts e t now alerts none found le h r m p = (
      total-store_fresh (create_alert id_of org c e t) alerts (
          All-map₂ (IsPlaced now) (λ a. is_match c (key_of e) e a ≡ false) _ alerts
            (λ a placed far. unmatched_fresh e t now a pos inj le placed far) h.placed
            (matching_alert-none c (key_of e) e alerts found)),
      create_alert-IsPlaced e t,
    )
    outcome_counts e t now alerts (some a) found le h r m p =
        let near : leb (gap e a) (window c) ≡ true = ground arith in
        rw near (
          omega (arith, r (update_alert a e t) (unfold update_alert in refl)),
          update_alert-IsPlaced e t now a le p,
        )

    ingest-IsInOrder :
        (e : Event) (t : Option Tripwire) (now : ℕ) (alerts : List Alert)
        → is_valid e ≡ true
        → now ≤ e.timestamp
        → IsInOrder now alerts
        → (total (ingest id_of org c e t alerts).1 ≡ total alerts + 1)
          × IsInOrder e.timestamp (ingest id_of org c e t alerts).1
    unfolding ingest
    ingest-IsInOrder e t now alerts valid le h =
        let o = matching_alert c (key_of e) e alerts in
        let (counted, placed) =
          outcome_counts e (entry_of t e) now alerts o refl le h
            (matching_alert-Holds (Replaces alerts) c (key_of e) e alerts
              (All-Replaces alerts h.distinct))
            (matching_alert-matches c (key_of e) e alerts)
            (matching_alert-Holds (IsPlaced now) c (key_of e) e alerts h.placed) in
        rw valid (
          counted,
          store-IsInOrder (outcome id_of org c e (entry_of t e) o) now e.timestamp alerts le placed
              h,
        )

-- A run of the pipeline over events with their tripwires.
unfoldable pub ingest_all :
    (id_of : String → String → ℕ → String) (org : String) (c : Config)
    → List (Event × Option Tripwire)
    → List Alert
    → List Alert
ingest_all id_of org c [] alerts = alerts
ingest_all id_of org c ((e, t) ∷ es) alerts =
    ingest_all id_of org c es (ingest id_of org c e t alerts).1

-- Every event is valid, and none is older than the one before it.
abbrev pub InOrder : ℕ → List (Event × Option Tripwire) → Type 0
InOrder now [] = Unit
InOrder now ((e, t) ∷ es) = (is_valid e ≡ true) × (now ≤ e.timestamp) × InOrder e.timestamp es

ingest_all-total :
    (id_of : String → String → ℕ → String) (org : String) (c : Config) (pos : 1 ≤ c.window_seconds)
    (inj : (k k' : String) (b b' : ℕ) → id_of org k b ≡ id_of org k' b' → (k ≡ k') × (b ≡ b'))
    (es : List (Event × Option Tripwire)) (now : ℕ) (alerts : List Alert)
    → InOrder now es
    → IsInOrder id_of org c now alerts
    → total (ingest_all id_of org c es alerts) ≡ total alerts + length es
unfolding ingest_all
ingest_all-total id_of org c pos inj [] now alerts o h = omega arith
ingest_all-total id_of org c pos inj ((e, t) ∷ es) now alerts o h =
    let (counted, next) = ingest-IsInOrder id_of org c pos inj e t now alerts o.0 o.1 h in
    let rest =
      ingest_all-total id_of org c pos inj es e.timestamp (ingest id_of org c e t alerts).1 o.2
        next in
    omega (arith, rest, counted)

-- Valid events that arrive in the order of their timestamps are each counted exactly once: from an
-- empty pipeline, with a deduplication window of at least one second and an id digest free of
-- collisions, if every event passes the pipeline's check of its texts and its confidence and none is
-- older than the one before it, the event counts of all alerts add up to the number of events, however
-- the events are spread over surfaces and episodes.
pub ingest_all_counts :
    (id_of : String → String → ℕ → String) (org : String) (c : Config)
    (es : List (Event × Option Tripwire))
    → 1 ≤ c.window_seconds
    → ((k k' : String) (b b' : ℕ) → id_of org k b ≡ id_of org k' b' → (k ≡ k') × (b ≡ b'))
    → InOrder 0 es
    → total (ingest_all id_of org c es []) ≡ length es
unfolding total
ingest_all_counts id_of org c es pos inj o =
    omega (
      arith,
      ingest_all-total id_of org c pos inj es 0 [] o (record { distinct = tt; placed = tt }),
    )
