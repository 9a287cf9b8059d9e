-- ===== src/Alerting/Tests/SampleIds.antt =====
-- A digest without collisions, for the tests: the episode number in unary, then the key.
use Prim.Native.String.{String, ◌∷◌}
use decepti_forge.Base.{ℕ, zero, suc, ◌≡◌, refl, ap}

abbrev pub numbered : String → ℕ → String
numbered k zero = "\0" ∷ k
numbered k (suc n) = "\u{1}" ∷ numbered k n

abbrev pub sample_id : String → String → ℕ → String
sample_id org k n = numbered k n

pub numbered_inj : (k k' : String) (n n' : ℕ) → numbered k n ≡ numbered k' n' → (k ≡ k') × (n ≡ n')
numbered_inj k k' zero zero h = (cc h, refl)
numbered_inj k k' zero (suc n') h = cc h
numbered_inj k k' (suc n) zero h = cc h
numbered_inj k k' (suc n) (suc n') h =
    let (same, rest) = numbered_inj k k' n n' (cc h) in (same, ap suc rest)
