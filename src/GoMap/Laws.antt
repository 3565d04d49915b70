-- ===== src/GoMap/Laws.antt =====
-- The laws of lookup and assignment.
use nacos_operator.Prelude.{String, ◌≡◌, refl, some, [], ◌∷◌, ◌==◌, eq_iff, if◌then◌else◌, arith}
use nacos_operator.GoMap.Defs.{GoMap, lookup, assign, IsMap}

module _ {ℓ} {V : Type ℓ} where
  pub lookup-assign :
      (k j : String) (v : V) (m : GoMap V)
      → lookup j (assign k v m) ≡ (if k == j then some v else lookup j m)
  lookup-assign k j v [] = refl
  lookup-assign k j v ((i, w) ∷ m) =
      ground (arith, eq_iff k j, eq_iff i k, eq_iff i j, lookup-assign k j v m)

  pub assign-IsMap : (k : String) (v : V) (m : GoMap V) → IsMap m → IsMap (assign k v m)
  assign-IsMap k v [] h = ground arith
  assign-IsMap k v ((i, w) ∷ m) h =
      ground (arith, eq_iff i k, eq_iff k i, lookup-assign k i v m, assign-IsMap k v m h.1)
