-- ===== src/Base/Text.antt =====
-- Membership of texts and numbers in a collection, as Python's `in` tests it.
use Prim.Native.Nat.{ℕ}
use mathlib.Core.Path.{◌≡◌}
use Prim.Native.String.{String}
use mathlib.Core.Bool.{Bool, true, false, ◌||◌, ◌&&◌}
use mathlib.Core.List.{List, [], ◌∷◌}
use text.Mathlib.Text.{◌==◌ as str_eq}
use decepti_forge.Base.Tests.{◌==◌}

-- `s in texts`
abbrev pub str_mem : String → List String → Bool
str_mem s [] = false
str_mem s (t ∷ ts) = str_eq s t || str_mem s ts

-- `n in numbers`
abbrev pub num_mem : ℕ → List ℕ → Bool
num_mem n [] = false
num_mem n (m ∷ ms) = n == m || num_mem n ms

-- `ts <= us` on sets
abbrev pub str_subset : List String → List String → Bool
str_subset [] us = true
str_subset (t ∷ ts) us = str_mem t us && str_subset ts us

-- Whether a text is not empty, as Python's truth test reads it.
abbrev pub is_text : String → Bool
is_text String.[] = false
is_text (String.◌∷◌ c s) = true

-- No text stands twice in a list.
abbrev pub IsDistinct : List String → Type 0
IsDistinct [] = Unit
IsDistinct (s ∷ ss) = (str_mem s ss ≡ false) × IsDistinct ss
