-- ===== src/GoMap/Loops.antt =====
-- The loops by which the merge package joins lists by a key.
use nacos_operator.Prelude.{String, none, some, List, [], ◌∷◌, ◌++◌}
use nacos_operator.GoMap.Defs.{GoMap, lookup, assign, RangeOrder}

module _ {V : Type 0} where
  -- `for _, v := range xs { m[key(v)] = v }`
  abbrev pub create_from : (V → String) → GoMap V → List V → GoMap V
  create_from key m [] = m
  create_from key m (x ∷ xs) = create_from key (assign (key x) x m) xs

  abbrev pub create_map : (V → String) → List V → GoMap V
  create_map key xs = create_from key [] xs

  -- `for k, v := range entries { m[k] = g(k, v) }`
  abbrev pub assign_all : (String → V → V) → GoMap V → GoMap V → GoMap V
  assign_all g m [] = m
  assign_all g m ((k, v) ∷ es) = assign_all g (assign k (g k v) m) es

  -- `if orig, ok := originals[k]; ok { merge(orig, v) } else { v }`
  abbrev pub merge_entry : (V → V → V) → GoMap V → String → V → V
  merge_entry merge originals k v = elim (lookup k originals) [
    | some orig ↦ merge orig v
    | none ↦ v
  ]

  -- `for _, v := range m { out = append(out, v) }`
  abbrev pub map_values : GoMap V → List V
  map_values [] = []
  map_values ((k, v) ∷ m) = v ∷ map_values m

  -- Copy the originals into an empty map, then merge the overrides into it.
  unfoldable pub merged_map : RangeOrder → (V → String) → (V → V → V) → List V → List V → GoMap V
  merged_map order key merge originals overrides =
      let original_map = create_map key originals in
      let override_map = create_map key overrides in
      assign_all (merge_entry merge original_map)
        (assign_all (λ k v. v) [] (order.visit 0 V original_map)) (order.visit 1 V override_map)

  -- The values of that map, in the order of a third loop.
  unfoldable pub merged_values : RangeOrder → (V → String) → (V → V → V) → List V → List V → List V
  merged_values order key merge originals overrides =
      map_values (order.visit 2 V (merged_map order key merge originals overrides))

  -- The originals that no override names and those merged with their override, then the rest.
  abbrev pub new_only : GoMap V → GoMap V → List V
  new_only originals [] = []
  new_only originals ((k, v) ∷ es) = elim (lookup k originals) [
    | some _ ↦ new_only originals es
    | none ↦ v ∷ new_only originals es
  ]

  abbrev pub with_overrides : (V → V → V) → GoMap V → GoMap V → List V
  with_overrides merge overrides [] = []
  with_overrides merge overrides ((k, v) ∷ es) =
      elim (lookup k overrides) [ some o ↦ merge v o | none ↦ v ]
      ∷ with_overrides merge overrides es

  unfoldable pub appended_values :
      RangeOrder → (V → String) → (V → V → V) → List V → List V → List V
  appended_values order key merge originals overrides =
      let original_map = create_map key originals in
      let override_map = create_map key overrides in
      with_overrides merge override_map (order.visit 0 V original_map)
      ++ new_only original_map (order.visit 1 V override_map)
