-- ===== src/GoMap/Defs.antt =====
-- Go's maps: lookup, assignment, and `range` in an order that the language leaves open.
use nacos_operator.Prelude.{ℕ, String, ◌≡◌, Option, none, some, List, [], ◌∷◌, ◌==◌, if◌then◌else◌}

abbrev pub GoMap {ℓ} : Type ℓ → Type ℓ
GoMap V = List (String × V)

module _ {ℓ} {V : Type ℓ} where
  -- `v, ok := m[k]`
  abbrev pub lookup : String → GoMap V → Option V
  lookup k [] = none
  lookup k ((j, v) ∷ m) = if j == k then some v else lookup k m

  -- `m[k] = v`
  abbrev pub assign : String → V → GoMap V → GoMap V
  assign k v [] = (k, v) ∷ []
  assign k v ((j, w) ∷ m) = if j == k then (j, v) ∷ m else (j, w) ∷ assign k v m

  -- No key twice: what a Go map guarantees.
  abbrev pub IsMap : GoMap V → Type ℓ
  IsMap [] = Unit
  IsMap ((k, v) ∷ m) = (lookup k m ≡ none) × IsMap m

-- The order in which `range` visits the entries of a map: any order that visits each entry once.
-- The number tells the loops of one function apart, since each may choose an order of its own.
pub record RangeOrder : Type 1 where
  pub visit : ℕ → (V : Type 0) → GoMap V → GoMap V
  pub visit-IsMap : (n : ℕ) (V : Type 0) (m : GoMap V) → IsMap m → IsMap (visit n V m)
  pub visit-lookup :
      (n : ℕ) (V : Type 0) (m : GoMap V)
      → IsMap m
      → (k : String) → lookup k (visit n V m) ≡ lookup k m
