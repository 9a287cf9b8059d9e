-- ===== src/Secrets/Fields.antt =====
-- Texts that are joined with a separator, and how they are taken apart at the first one.
use Prim.Native.Char.{Char, code}
use native.Mathlib.Nat.{suc_inj}
use text.Mathlib.TextLemmas.{nil-append, cons-append}
use decepti_forge.Base.{
  String, text_append, ◌≡◌, refl, ◌∙◌, sym, ap, Bool, true, false, not, ◌&&◌, ◌==◌, Option, none,
  some, if◌then◌else◌, arith, List, [], ◌∷◌, length,
}

-- The text up to the first separator, and the text behind it if there is one.
unfoldable pub cut : (separator : Char) → String → String × Option String
cut sep String.[] = ("", none)
cut sep (String.◌∷◌ c s) =
    let (before, after) = cut sep s in
    if code c == code sep then ("", some s) else (String.◌∷◌ c before, after)

-- Whether a text has no separator.
unfoldable pub lacks : (separator : Char) → String → Bool
lacks sep String.[] = true
lacks sep (String.◌∷◌ c s) = not (code c == code sep) && lacks sep s

lacks_cons :
    (sep c : Char) (a : String)
    → lacks sep (String.◌∷◌ c a) ≡ true
    → ((code c == code sep) ≡ false) × (lacks sep a ≡ true)
unfolding lacks
lacks_cons sep c a h = ground (arith, h)

pub cut-append :
    (sep : Char) (a s : String)
    → lacks sep a ≡ true
    → cut sep (text_append a (String.◌∷◌ sep s)) ≡ (a, some s)
unfolding cut lacks
cut-append sep String.[] s h = rw nil-append (ground (arith))
cut-append sep (String.◌∷◌ c a) s h =
    let (other, rest) = lacks_cons sep c a h in rw (cons-append, other, cut-append sep a s rest)

-- `separator.join(texts)`
unfoldable pub join : (separator : Char) → List String → String
join sep [] = ""
join sep (s ∷ []) = s
join sep (s ∷ t ∷ rest) = text_append s (String.◌∷◌ sep (join sep (t ∷ rest)))

pub cut-join :
    (sep : Char) (s t : String) (rest : List String)
    → lacks sep s ≡ true
    → cut sep (join sep (s ∷ t ∷ rest)) ≡ (s, some (join sep (t ∷ rest)))
unfolding join
cut-join sep s t rest h = cut-append sep s (join sep (t ∷ rest)) h

abbrev pub Lacks : (separator : Char) → List String → Type 0
Lacks sep [] = Unit
Lacks sep (s ∷ rest) = (lacks sep s ≡ true) × Lacks sep rest

cut-none : (sep : Char) (s : String) → lacks sep s ≡ true → cut sep s ≡ (s, none)
unfolding cut lacks
cut-none sep String.[] h = refl
cut-none sep (String.◌∷◌ c s) h =
    let (other, rest) = lacks_cons sep c s h in rw (other, cut-none sep s rest)

abbrev text_or : String → Option String → String
text_or other none = other
text_or other (some s) = s

-- Two joined texts of as many parts are equal only if the parts are, where no part has the separator.
pub join-injective :
    (sep : Char) (ss ts : List String)
    → length ss ≡ length ts
    → Lacks sep ss
    → Lacks sep ts
    → join sep ss ≡ join sep ts
    → ss ≡ ts
unfolding join
join-injective sep [] [] n ls lt e = refl
join-injective sep [] (t ∷ ts) n ls lt e = absurd (omega (arith, n))
join-injective sep (s ∷ ss) [] n ls lt e = absurd (omega (arith, n))
join-injective sep (s ∷ []) (t ∷ []) n ls lt e = ap (◌∷ []) e
join-injective sep (s ∷ []) (t ∷ t' ∷ ts) n ls lt e = absurd (omega (arith, n))
join-injective sep (s ∷ s' ∷ ss) (t ∷ []) n ls lt e = absurd (omega (arith, n))
join-injective sep (s ∷ s' ∷ ss) (t ∷ t' ∷ ts) n (l, ls) (m, ms) e =
    let parts : (s, some (join sep (s' ∷ ss))) ≡ (t, some (join sep (t' ∷ ts))) =
      sym (cut-join sep s s' ss l) ∙ ap (cut sep) e ∙ cut-join sep t t' ts m in
    let tails = ap (λ (p : String × Option String). text_or "" p.1) parts in
    let rest = join-injective sep (s' ∷ ss) (t' ∷ ts) (suc_inj n) ls ms tails in
    rw (ap (λ (p : String × Option String). p.0) parts, rest) refl
