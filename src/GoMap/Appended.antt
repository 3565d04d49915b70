-- ===== src/GoMap/Appended.antt =====
-- What `appended_values` produces: the same elements as the merged map.
use nacos_operator.Prelude.{
  String, ◌≡◌, refl, sym, ◌∙◌, Option, none, some, List, [], ◌∷◌, ◌++◌, eq_iff, eq_refl, arith,
}
use nacos_operator.GoMap.Defs.{GoMap, lookup, IsMap, RangeOrder}
use nacos_operator.GoMap.Sorting.{
  find_by, find_last, IsDistinct, IsSorted, sort_by, find_by-sort_by, sort_by-IsSorted,
  IsSorted-canonical,
}
use nacos_operator.GoMap.Loops.{create_map, with_overrides, new_only, appended_values}
use nacos_operator.GoMap.Keyed.{
  combine, or_else, IsKeyed, KeyKept, lookup-create_map, create_map-IsMap, find_last-key,
}

module _ {V : Type 0} (key : V → String) where
  find_by-append :
      (k : String) (xs ys : List V)
      → find_by key k (xs ++ ys) ≡ or_else (find_by key k xs) (find_by key k ys)
  find_by-append k [] ys = refl
  find_by-append k (x ∷ xs) ys = ground (arith, find_by-append k xs ys)

  append-IsDistinct :
      (xs ys : List V)
      → IsDistinct key xs
      → IsDistinct key ys
      → ((k : String) (v : V) → find_by key k xs ≡ some v → find_by key k ys ≡ none)
      → IsDistinct key (xs ++ ys)
  append-IsDistinct [] ys dx dy apart = dy
  append-IsDistinct (x ∷ xs) ys dx dy apart = (
    ground (arith, find_by-append (key x) xs ys, apart (key x) x, eq_refl (key x)),
    append-IsDistinct xs ys dx.1 dy λ k v e. ground (arith, apart k v, apart k x, eq_iff (key x) k),
  )

  module _ (merge : V → V → V) (om : GoMap V) where
    abbrev entry : V → Option V → V
    entry v none = v
    entry v (some o) = merge v o

    abbrev EntryKept : GoMap V → Type 0
    EntryKept es = (k : String) (v : V) → lookup k es ≡ some v → key (entry v (lookup k om)) ≡ k

    EntryKept-tail :
        (j : String) (w : V) (es : GoMap V)
        → IsMap ((j, w) ∷ es)
        → EntryKept ((j, w) ∷ es)
        → EntryKept es
    EntryKept-tail j w es h kept k v e = ground (arith, eq_iff j k, kept k v)

    abbrev merged : String → Option V → Option V
    merged k none = none
    merged k (some v) = some (entry v (lookup k om))

    find_by-with_overrides :
        (k : String) (es : GoMap V)
        → IsMap es
        → EntryKept es
        → find_by key k (with_overrides merge om es) ≡ merged k (lookup k es)
    find_by-with_overrides k [] h kept = refl
    find_by-with_overrides k ((j, w) ∷ es) h kept = ground (
      arith,
      eq_refl j,
      eq_iff j k,
      kept j w,
      find_by-with_overrides k es h.1 (EntryKept-tail j w es h kept),
    )

    with_overrides-IsDistinct :
        (es : GoMap V) → IsMap es → EntryKept es → IsDistinct key (with_overrides merge om es)
    with_overrides-IsDistinct [] h kept = tt
    with_overrides-IsDistinct ((j, w) ∷ es) h kept = (
      ground (
        arith,
        eq_refl j,
        kept j w,
        find_by-with_overrides (key (entry w (lookup j om))) es h.1 (EntryKept-tail j w es h kept),
      ),
      with_overrides-IsDistinct es h.1 (EntryKept-tail j w es h kept),
    )

  tail-IsKeyed :
      (j : String) (w : V) (m : GoMap V)
      → IsMap ((j, w) ∷ m)
      → IsKeyed key ((j, w) ∷ m)
      → IsKeyed key m
  tail-IsKeyed j w m h kd k v e = ground (arith, eq_iff j k, kd k v)

  find_by-new_only :
      (k : String) (om es : GoMap V)
      → IsMap es
      → IsKeyed key es
      → find_by key k (new_only om es) ≡ elim (lookup k om) [ none ↦ lookup k es | some _ ↦ none ]
  find_by-new_only k om [] h kd = ground arith
  find_by-new_only k om ((j, w) ∷ es) h kd = ground (
    arith,
    eq_refl j,
    eq_iff j k,
    kd j w,
    find_by-new_only k om es h.1 (tail-IsKeyed j w es h kd),
  )

  new_only-IsDistinct :
      (om es : GoMap V) → IsMap es → IsKeyed key es → IsDistinct key (new_only om es)
  new_only-IsDistinct om [] h kd = tt
  new_only-IsDistinct om ((j, w) ∷ es) h kd = ground (
    arith,
    eq_refl j,
    kd j w,
    find_by-new_only j om es h.1 (tail-IsKeyed j w es h kd),
    new_only-IsDistinct om es h.1 (tail-IsKeyed j w es h kd),
  )

module _ {V : Type 0} (order : RangeOrder) (key : V → String) (merge : V → V → V)
    (originals overrides : List V) (kept : KeyKept key merge originals overrides) where
  abbrev dm : GoMap V
  dm = create_map key originals

  abbrev om : GoMap V
  om = create_map key overrides

  kept_entry : EntryKept key merge om (order.visit 0 V dm)
  kept_entry k v e = go (lookup k om) refl (
      sym (lookup-create_map key k originals)
      ∙ sym (order.visit-lookup 0 V dm (create_map-IsMap key originals) k)
      ∙ e)
    where
      go :
          (o : Option V)
          → lookup k om ≡ o
          → find_last key k originals ≡ some v
          → key (entry key merge om v o) ≡ k
      go none f g = find_last-key key k originals v g
      go (some b) f g = kept k v b g (sym (lookup-create_map key k overrides) ∙ f)

  visited_new-IsKeyed : IsKeyed key (order.visit 1 V om)
  visited_new-IsKeyed k v e = find_last-key key k overrides v (
      sym (lookup-create_map key k overrides)
      ∙ sym (order.visit-lookup 1 V om (create_map-IsMap key overrides) k)
      ∙ e)

  visited_old-IsMap : IsMap (order.visit 0 V dm)
  visited_old-IsMap = order.visit-IsMap 0 V dm (create_map-IsMap key originals)

  visited_new-IsMap : IsMap (order.visit 1 V om)
  visited_new-IsMap = order.visit-IsMap 1 V om (create_map-IsMap key overrides)

  pub find_by-appended_values :
      (k : String)
      → find_by key k (appended_values order key merge originals overrides)
        ≡ combine merge (find_last key k originals) (find_last key k overrides)
  unfolding appended_values
  find_by-appended_values k = ground (
    arith,
    find_by-append key k (with_overrides merge om (order.visit 0 V dm))
        (new_only dm (order.visit 1 V om)),
    find_by-with_overrides key merge om k (order.visit 0 V dm) visited_old-IsMap kept_entry,
    find_by-new_only key k dm (order.visit 1 V om) visited_new-IsMap visited_new-IsKeyed,
    order.visit-lookup 0 V dm (create_map-IsMap key originals) k,
    order.visit-lookup 1 V om (create_map-IsMap key overrides) k,
    lookup-create_map key k originals,
    lookup-create_map key k overrides,
  )

  pub appended_values-IsDistinct :
      IsDistinct key (appended_values order key merge originals overrides)
  unfolding appended_values
  appended_values-IsDistinct =
      append-IsDistinct key (with_overrides merge om (order.visit 0 V dm))
        (new_only dm (order.visit 1 V om))
        (with_overrides-IsDistinct key merge om (order.visit 0 V dm) visited_old-IsMap kept_entry)
        (new_only-IsDistinct key dm (order.visit 1 V om) visited_new-IsMap visited_new-IsKeyed)
        (λ k v e. ground (
          arith,
          find_by-with_overrides key merge om k (order.visit 0 V dm) visited_old-IsMap kept_entry,
          find_by-new_only key k dm (order.visit 1 V om) visited_new-IsMap visited_new-IsKeyed,
          order.visit-lookup 0 V dm (create_map-IsMap key originals) k,
        ))

  pub find_by-sorted_appended :
      (k : String)
      → find_by key k (sort_by key (appended_values order key merge originals overrides))
        ≡ combine merge (find_last key k originals) (find_last key k overrides)
  find_by-sorted_appended k =
      find_by-sort_by key k _ appended_values-IsDistinct ∙ find_by-appended_values k

  pub sorted_appended-IsSorted :
      IsSorted key (sort_by key (appended_values order key merge originals overrides))
  sorted_appended-IsSorted = sort_by-IsSorted key _ appended_values-IsDistinct

-- Sorting makes the result one and the same for all orders of the loops.
pub sorted_appended_order_free :
    {V : Type 0} (order order' : RangeOrder) (key : V → String) (merge : V → V → V)
    (originals overrides : List V)
    → KeyKept key merge originals overrides
    → sort_by key (appended_values order key merge originals overrides)
      ≡ sort_by key (appended_values order' key merge originals overrides)
sorted_appended_order_free order order' key merge originals overrides kept =
    IsSorted-canonical key _ _ (sorted_appended-IsSorted order key merge originals overrides kept)
      (sorted_appended-IsSorted order' key merge originals overrides kept)
      (λ k.
        find_by-sorted_appended order key merge originals overrides kept k
        ∙ sym (find_by-sorted_appended order' key merge originals overrides kept k))
