-- ===== src/GoMap/Listed.antt =====
-- The sorted values of a map, in whatever order a `range` loop lists them.
use nacos_operator.Prelude.{ℕ, String, ◌≡◌, refl, sym, ◌∙◌, inl, List, [], ◌∷◌, eq_iff, arith}
use nacos_operator.GoMap.Defs.{GoMap, lookup, assign, IsMap, RangeOrder}
use nacos_operator.GoMap.Laws.{lookup-assign}
use nacos_operator.GoMap.Sorting.{
  find_by, IsDistinct, IsSorted, sort_by, find_by-Above, find_by-sort_by, sort_by-IsSorted,
  IsSorted-canonical,
}
use nacos_operator.GoMap.Loops.{create_from, create_map, map_values}
use nacos_operator.GoMap.Keyed.{
  IsKeyed, lookup-create_map, find_last-key, find_by-map_values, map_values-IsDistinct,
}

module _ {V : Type 0} (key : V → String) where
  sorted-IsDistinct : (xs : List V) → IsSorted key xs → IsDistinct key xs
  sorted-IsDistinct [] s = tt
  sorted-IsDistinct (x ∷ xs) s =
      (find_by-Above key (key x) (key x) xs (inl refl) s.0, sorted-IsDistinct xs s.1)

  -- Sorting a sorted list changes nothing.
  pub sort_by-sorted : (xs : List V) → IsSorted key xs → sort_by key xs ≡ xs
  sort_by-sorted xs s =
      IsSorted-canonical key _ _ (sort_by-IsSorted key xs (sorted-IsDistinct xs s)) s
        (λ k. find_by-sort_by key k xs (sorted-IsDistinct xs s))

  module _ (order : RangeOrder) (n : ℕ) (m : GoMap V) (is_map : IsMap m)
      (keyed : IsKeyed key m) where
    visited-IsKeyed : IsKeyed key (order.visit n V m)
    visited-IsKeyed k v e = keyed k v (sym (order.visit-lookup n V m is_map k) ∙ e)

    pub find_by-listed :
        (k : String) → find_by key k (sort_by key (map_values (order.visit n V m))) ≡ lookup k m
    find_by-listed k =
        find_by-sort_by key k _
          (map_values-IsDistinct key _ (order.visit-IsMap n V m is_map) visited-IsKeyed)
        ∙ find_by-map_values key k _ (order.visit-IsMap n V m is_map) visited-IsKeyed
        ∙ order.visit-lookup n V m is_map k

    pub listed-IsSorted : IsSorted key (sort_by key (map_values (order.visit n V m)))
    listed-IsSorted =
        sort_by-IsSorted key _
          (map_values-IsDistinct key _ (order.visit-IsMap n V m is_map) visited-IsKeyed)

  pub create_map-IsKeyed : (xs : List V) → IsKeyed key (create_map key xs)
  create_map-IsKeyed xs k v e = find_last-key key k xs v (sym (lookup-create_map key k xs) ∙ e)

  pub create_from-IsKeyed :
      (xs : List V) (m : GoMap V) → IsKeyed key m → IsKeyed key (create_from key m xs)
  create_from-IsKeyed [] m kd = kd
  create_from-IsKeyed (x ∷ xs) m kd =
      create_from-IsKeyed xs (assign (key x) x m)
        (λ k v e. ground (arith, lookup-assign (key x) k x m, eq_iff (key x) k, kd k v))
