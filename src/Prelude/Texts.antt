-- ===== src/Prelude/Texts.antt =====
-- Finite sets of texts, as lists.
use Prim.Native.String.{String}
use mathlib.Core.Path.{◌≡◌}
use mathlib.Core.Logic.{◌↔◌}
use mathlib.Core.Bool.{Bool, true, false}
use mathlib.Core.List.{List, [], ◌∷◌}
use native.Mathlib.Omega.{arith}
use text.Mathlib.Text.{◌==◌ as str_eq}
use text.Mathlib.TextEquality.{eq_iff}
use actions_runner_scaleset.Prelude.Tests.{if◌then◌else◌}
use actions_runner_scaleset.Prelude.Lists.{In}

-- `_, ok := set[k]`, and `slices.Contains`
unfoldable pub contains : String → List String → Bool
contains k [] = false
contains k (x ∷ xs) = let rest = contains k xs in if str_eq x k then true else rest

pub contains_iff : (k : String) (xs : List String) → (contains k xs ≡ true) ↔ In k xs
unfolding contains
contains_iff k [] = (λ h. cc, λ m. absurd m)
contains_iff k (x ∷ xs) = ground (arith, eq_iff x k, contains_iff k xs)

-- No text twice.
abbrev pub Distinct : List String → Type 0
Distinct [] = Unit {0}
Distinct (x ∷ xs) = (contains x xs ≡ false) × Distinct xs
