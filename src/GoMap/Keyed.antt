-- ===== src/GoMap/Keyed.antt =====
-- What the joining loops produce: at each key the last original and the last override, merged,
-- each key once, whatever order the `range` loops take.
use nacos_operator.Prelude.{
  String, ◌≡◌, refl, sym, ◌∙◌, Option, none, some, List, [], ◌∷◌, eq_iff, eq_refl, arith,
}
use nacos_operator.GoMap.Defs.{GoMap, lookup, assign, IsMap, RangeOrder}
use nacos_operator.GoMap.Laws.{lookup-assign, assign-IsMap}
use nacos_operator.GoMap.Sorting.{
  find_by, find_last, IsDistinct, IsSorted, sort_by, find_by-sort_by, sort_by-IsSorted,
  IsSorted-canonical,
}
use nacos_operator.GoMap.Loops.{
  create_from, create_map, assign_all, merge_entry, map_values, merged_map, merged_values,
}

module _ {V : Type 0} where
  abbrev pub or_else : Option V → Option V → Option V
  or_else (some v) d = some v
  or_else none d = d

  -- The merge of what may be missing on either side.
  abbrev pub combine : (V → V → V) → Option V → Option V → Option V
  combine f none o = o
  combine f (some a) none = some a
  combine f (some a) (some b) = some (f a b)

  -- The value in a map is at its own key.
  abbrev pub IsKeyed : (V → String) → GoMap V → Type 0
  IsKeyed key m = (k : String) (v : V) → lookup k m ≡ some v → key v ≡ k

  -- Merging the two elements with one key gives an element with that key.
  abbrev pub KeyKept : (V → String) → (V → V → V) → List V → List V → Type 0
  KeyKept key merge originals overrides =
      (k : String) (a b : V)
      → find_last key k originals ≡ some a
      → find_last key k overrides ≡ some b
      → key (merge a b) ≡ k

  pub lookup-create_from :
      (key : V → String) (k : String) (xs : List V) (m : GoMap V)
      → lookup k (create_from key m xs) ≡ or_else (find_last key k xs) (lookup k m)
  lookup-create_from key k [] m = refl
  lookup-create_from key k (x ∷ xs) m =
      ground (arith, lookup-create_from key k xs (assign (key x) x m), lookup-assign (key x) k x m)

  pub lookup-create_map :
      (key : V → String) (k : String) (xs : List V)
      → lookup k (create_map key xs) ≡ find_last key k xs
  lookup-create_map key k xs = ground (arith, lookup-create_from key k xs [])

  pub create_from-IsMap :
      (key : V → String) (xs : List V) (m : GoMap V) → IsMap m → IsMap (create_from key m xs)
  create_from-IsMap key [] m h = h
  create_from-IsMap key (x ∷ xs) m h =
      create_from-IsMap key xs (assign (key x) x m) (assign-IsMap (key x) x m h)

  pub create_map-IsMap : (key : V → String) (xs : List V) → IsMap (create_map key xs)
  create_map-IsMap key xs = create_from-IsMap key xs [] tt

  assign_all-IsMap : (g : String → V → V) (es m : GoMap V) → IsMap m → IsMap (assign_all g m es)
  assign_all-IsMap g [] m h = h
  assign_all-IsMap g ((k, v) ∷ es) m h =
      assign_all-IsMap g es (assign k (g k v) m) (assign-IsMap k (g k v) m h)

  abbrev at_key : (String → V → V) → String → Option V → Option V
  at_key g k none = none
  at_key g k (some v) = some (g k v)

  lookup-assign_all :
      (g : String → V → V) (k : String) (es m : GoMap V)
      → IsMap es
      → lookup k (assign_all g m es) ≡ or_else (at_key g k (lookup k es)) (lookup k m)
  lookup-assign_all g k [] m h = refl
  lookup-assign_all g k ((j, v) ∷ es) m h = ground (
    arith,
    eq_iff j k,
    lookup-assign_all g k es (assign j (g j v) m) h.1,
    lookup-assign j k (g j v) m,
  )

  pub find_last-key :
      (key : V → String) (k : String) (xs : List V) (v : V)
      → find_last key k xs ≡ some v
      → key v ≡ k
  find_last-key key k [] v h = cc
  find_last-key key k (x ∷ xs) v h = ground (arith, eq_iff (key x) k, find_last-key key k xs v)

  tail-IsKeyed :
      (key : V → String) (j : String) (w : V) (m : GoMap V)
      → IsMap ((j, w) ∷ m)
      → IsKeyed key ((j, w) ∷ m)
      → IsKeyed key m
  tail-IsKeyed key j w m h kd k v e = ground (arith, eq_iff j k, kd k v)

  pub find_by-map_values :
      (key : V → String) (k : String) (m : GoMap V)
      → IsMap m
      → IsKeyed key m
      → find_by key k (map_values m) ≡ lookup k m
  find_by-map_values key k [] h kd = refl
  find_by-map_values key k ((j, w) ∷ m) h kd =
      ground
        (arith, eq_refl j, kd j w, find_by-map_values key k m h.1 (tail-IsKeyed key j w m h kd))

  pub map_values-IsDistinct :
      (key : V → String) (m : GoMap V) → IsMap m → IsKeyed key m → IsDistinct key (map_values m)
  map_values-IsDistinct key [] h kd = tt
  map_values-IsDistinct key ((j, w) ∷ m) h kd = (
    ground (
      arith,
      eq_refl j,
      kd j w,
      find_by-map_values key (key w) m h.1 (tail-IsKeyed key j w m h kd),
    ),
    map_values-IsDistinct key m h.1 (tail-IsKeyed key j w m h kd),
  )

  pub combine-key :
      (key : V → String) (f : V → V → V) (k : String) (o p : Option V) (v : V)
      → ((a : V) → o ≡ some a → key a ≡ k)
      → ((b : V) → p ≡ some b → key b ≡ k)
      → ((a b : V) → o ≡ some a → p ≡ some b → key (f a b) ≡ k)
      → combine f o p ≡ some v
      → key v ≡ k
  combine-key key f k none p v ho hp hf e = hp v e
  combine-key key f k (some a) none v ho hp hf e = ho v e
  combine-key key f k (some a) (some b) v ho hp hf e = cc (hf a b refl refl)

module _ {V : Type 0} (order : RangeOrder) (key : V → String) (merge : V → V → V)
    (originals overrides : List V) where
  pub merged_map-IsMap : IsMap (merged_map order key merge originals overrides)
  unfolding merged_map
  merged_map-IsMap =
      assign_all-IsMap (merge_entry merge (create_map key originals))
        (order.visit 1 V (create_map key overrides))
        (assign_all (λ k v. v) [] (order.visit 0 V (create_map key originals)))
        (assign_all-IsMap (λ k v. v) (order.visit 0 V (create_map key originals)) [] tt)

  pub lookup-merged_map :
      (k : String)
      → lookup k (merged_map order key merge originals overrides)
        ≡ combine merge (find_last key k originals) (find_last key k overrides)
  unfolding merged_map
  lookup-merged_map k = ground (
    arith,
    lookup-assign_all (merge_entry merge (create_map key originals)) k
        (order.visit 1 V (create_map key overrides))
        (assign_all (λ k v. v) [] (order.visit 0 V (create_map key originals)))
        (order.visit-IsMap 1 V (create_map key overrides) (create_map-IsMap key overrides)),
    lookup-assign_all (λ k v. v) k (order.visit 0 V (create_map key originals)) []
        (order.visit-IsMap 0 V (create_map key originals) (create_map-IsMap key originals)),
    order.visit-lookup 0 V (create_map key originals) (create_map-IsMap key originals) k,
    order.visit-lookup 1 V (create_map key overrides) (create_map-IsMap key overrides) k,
    lookup-create_map key k originals,
    lookup-create_map key k overrides,
  )

  module _ (kept : KeyKept key merge originals overrides) where
    merged_map-IsKeyed : IsKeyed key (merged_map order key merge originals overrides)
    merged_map-IsKeyed k v e =
        combine-key key merge k (find_last key k originals) (find_last key k overrides) v
          (find_last-key key k originals) (find_last-key key k overrides) (kept k)
          (sym (lookup-merged_map k) ∙ e)

    visited-IsKeyed : IsKeyed key (order.visit 2 V (merged_map order key merge originals overrides))
    visited-IsKeyed k v e = merged_map-IsKeyed k v (
        sym (
          order.visit-lookup 2 V (merged_map order key merge originals overrides) merged_map-IsMap
            k)
        ∙ e)

    visited-IsMap : IsMap (order.visit 2 V (merged_map order key merge originals overrides))
    visited-IsMap =
        order.visit-IsMap 2 V (merged_map order key merge originals overrides) merged_map-IsMap

    pub merged_values-IsDistinct :
        IsDistinct key (merged_values order key merge originals overrides)
    unfolding merged_values
    merged_values-IsDistinct = map_values-IsDistinct key _ visited-IsMap visited-IsKeyed

    pub find_by-merged_values :
        (k : String)
        → find_by key k (merged_values order key merge originals overrides)
          ≡ combine merge (find_last key k originals) (find_last key k overrides)
    unfolding merged_values
    find_by-merged_values k =
        find_by-map_values key k _ visited-IsMap visited-IsKeyed
        ∙ order.visit-lookup 2 V (merged_map order key merge originals overrides) merged_map-IsMap k
        ∙ lookup-merged_map k

    -- The sorted list of the merged values.
    pub find_by-sorted_values :
        (k : String)
        → find_by key k (sort_by key (merged_values order key merge originals overrides))
          ≡ combine merge (find_last key k originals) (find_last key k overrides)
    find_by-sorted_values k =
        find_by-sort_by key k _ merged_values-IsDistinct ∙ find_by-merged_values k

    pub sorted_values-IsSorted :
        IsSorted key (sort_by key (merged_values order key merge originals overrides))
    sorted_values-IsSorted = sort_by-IsSorted key _ merged_values-IsDistinct

-- Sorting makes the result one and the same for all orders of the loops.
pub sorted_values_order_free :
    {V : Type 0} (order order' : RangeOrder) (key : V → String) (merge : V → V → V)
    (originals overrides : List V)
    → KeyKept key merge originals overrides
    → sort_by key (merged_values order key merge originals overrides)
      ≡ sort_by key (merged_values order' key merge originals overrides)
sorted_values_order_free order order' key merge originals overrides kept =
    IsSorted-canonical key _ _ (sorted_values-IsSorted order key merge originals overrides kept)
      (sorted_values-IsSorted order' key merge originals overrides kept)
      (λ k.
        find_by-sorted_values order key merge originals overrides kept k
        ∙ sym (find_by-sorted_values order' key merge originals overrides kept k))
