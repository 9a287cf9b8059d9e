-- ===== src/Export/Minimized.antt =====
-- services/integrations/profiles.py: apply_profile, what it drops and what it keeps.
use decepti_forge.Base.{ℕ, ◌≡◌, refl, String, Bool, true, false, some, inl, inr, Bool-cases, ltb}
use decepti_forge.Export.Envelope.{
  Envelope, PayloadProfile, minimal, standard, analyst, compliance_summary,
}
use decepti_forge.Export.Profiles.{drop_narrative, shape, bound_size, apply_profile}

abbrev sent : (Envelope → ℕ) → PayloadProfile → Bool → ℕ → Envelope → Envelope
sent size profile include max_bytes e = shape profile (drop_narrative include e)

bound_size-narrative :
    (size : Envelope → ℕ) (max_bytes : ℕ) (e : Envelope) (t : String)
    → (bound_size size max_bytes e).narrative_summary ≡ some t
    → e.narrative_summary ≡ some t
bound_size-narrative size max_bytes e t out = elim (Bool-cases (ltb max_bytes (size e))) [
  | inl long ↦ absurd (cc (rw long at out))
  | inr short ↦ rw short at out
]

drop_narrative-some :
    (include : Bool) (e : Envelope) (t : String)
    → (drop_narrative include e).narrative_summary ≡ some t
    → (include ≡ true) × (e.narrative_summary ≡ some t)
drop_narrative-some true e t out = (refl, out)
drop_narrative-some false e t out = absurd (cc out)

shape-narrative :
    (profile : PayloadProfile) (e : Envelope) (t : String)
    → (shape profile e).narrative_summary ≡ some t
    → (profile ≡ analyst) × (e.narrative_summary ≡ some t)
shape-narrative minimal e t out = absurd (cc out)
shape-narrative standard e t out = absurd (cc out)
shape-narrative analyst e t out = (refl, out)
shape-narrative compliance_summary e t out = absurd (cc out)

-- A narrative leaves only with the profile for analysts, where the integration includes narratives,
-- and it is the one of the event.
pub narrative_consented :
    (size : Envelope → ℕ) (profile : PayloadProfile) (include : Bool) (max_bytes : ℕ) (e : Envelope)
    (t : String)
    → (apply_profile size profile include max_bytes e).narrative_summary ≡ some t
    → (profile ≡ analyst) × (include ≡ true) × (e.narrative_summary ≡ some t)
unfolding apply_profile
narrative_consented size profile include max_bytes e t out =
    let kept = drop_narrative include e in
    let (for_analyst, whole) =
      shape-narrative profile kept t
        (bound_size-narrative size max_bytes (shape profile kept) t out) in
    let (included, same) = drop_narrative-some include e t whole in (for_analyst, included, same)
