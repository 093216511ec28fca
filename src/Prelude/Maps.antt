-- ===== src/Prelude/Maps.antt =====
-- A Go map with string keys, as a function, and the list of the keys in the order of insertion
-- that the program keeps beside it.
use Prim.Native.String.{String}
use mathlib.Core.Path.{◌≡◌, refl}
use mathlib.Core.Bool.{Bool, false, ◌||◌}
use mathlib.Core.Option.{Option, none, some}
use mathlib.Core.List.{List, [], ◌∷◌, ◌++◌}
use native.Mathlib.Omega.{arith}
use text.Mathlib.Text.{◌==◌ as str_eq}
use harness_ai.Prelude.Tests.{if◌then◌else◌}

abbrev pub Map {ℓ} : Type ℓ → Type ℓ
Map V = String → Option V

-- `make(map[string]V)`
abbrev pub empty_map {ℓ} : {V : Type ℓ} → Map V
empty_map k = none

-- `m[k] = v`
abbrev pub put {ℓ} : {V : Type ℓ} → Map V → String → V → Map V
put m k v j = if str_eq k j then some v else m j

-- Membership of a text in a list.
abbrev pub elem : String → List String → Bool
elem k [] = false
elem k (x ∷ xs) = str_eq x k || elem k xs

pub elem-append : (k : String) (xs ys : List String) → elem k (xs ++ ys) ≡ (elem k xs || elem k ys)
elem-append k [] ys = refl
elem-append k (x ∷ xs) ys = ground (arith, elem-append k xs ys)

-- No text stands twice.
abbrev pub Distinct : List String → Type 0
Distinct [] = Unit
Distinct (x ∷ xs) = (elem x xs ≡ false) × Distinct xs
