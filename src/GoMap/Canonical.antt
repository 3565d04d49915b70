-- ===== src/GoMap/Canonical.antt =====
-- Joining with nothing changes nothing, and joining twice is joining once, for lists that are
-- already in the form that the joins produce.
use nacos_operator.Prelude.{
  String, ◌≡◌, refl, sym, ap, ◌∙◌, Option, none, some, List, [], ◌∷◌, eq_iff, str_lt_irrefl, arith,
}
use nacos_operator.GoMap.Defs.{RangeOrder}
use nacos_operator.GoMap.Sorting.{
  find_by, find_last, Above, IsSorted, sort_by, find_by-Above, IsSorted-canonical,
}
use nacos_operator.GoMap.Loops.{merged_values, appended_values}
use nacos_operator.GoMap.Keyed.{combine, KeyKept, find_by-sorted_values, sorted_values-IsSorted}
use nacos_operator.GoMap.Appended.{find_by-sorted_appended, sorted_appended-IsSorted}

module _ {V : Type 0} (key : V → String) where
  find_last-Above : (k : String) (xs : List V) → Above key k xs → find_last key k xs ≡ none
  find_last-Above k [] a = refl
  find_last-Above k (x ∷ xs) a =
      ground (arith, find_last-Above k xs a.1, eq_iff (key x) k, str_lt_irrefl k)

  -- In a sorted list the last element with a key is the first.
  pub find_last-sorted :
      (k : String) (xs : List V) → IsSorted key xs → find_last key k xs ≡ find_by key k xs
  find_last-sorted k [] s = refl
  find_last-sorted k (x ∷ xs) s = ground (
    arith,
    find_last-sorted k xs s.1,
    find_by-Above key k (key x) xs,
    eq_iff (key x) k,
    find_last-Above (key x) xs s.0,
  )

  combine-none : (f : V → V → V) (o : Option V) → combine f o none ≡ o
  combine-none f none = refl
  combine-none f (some a) = refl

  combine-absorb :
      (f : V → V → V) (o p : Option V)
      → ((a b : V) → f (f a b) b ≡ f a b)
      → ((b : V) → f b b ≡ b)
      → combine f (combine f o p) p ≡ combine f o p
  combine-absorb f none none h i = refl
  combine-absorb f none (some b) h i = ap some (i b)
  combine-absorb f (some a) none h i = refl
  combine-absorb f (some a) (some b) h i = ap some (h a b)

module _ {V : Type 0} (order : RangeOrder) (key : V → String) (merge : V → V → V) where
  pub sorted_values-nil :
      (xs : List V) → IsSorted key xs → sort_by key (merged_values order key merge xs []) ≡ xs
  sorted_values-nil xs s =
      IsSorted-canonical key _ _ (sorted_values-IsSorted order key merge xs [] kept) s λ k.
        find_by-sorted_values order key merge xs [] kept k
        ∙ combine-none key merge (find_last key k xs)
        ∙ find_last-sorted key k xs s
    where
      kept : KeyKept key merge xs []
      kept k a b e f = cc

  pub sorted_appended-nil :
      (xs : List V) → IsSorted key xs → sort_by key (appended_values order key merge xs []) ≡ xs
  sorted_appended-nil xs s =
      IsSorted-canonical key _ _ (sorted_appended-IsSorted order key merge xs [] kept) s λ k.
        find_by-sorted_appended order key merge xs [] kept k
        ∙ combine-none key merge (find_last key k xs)
        ∙ find_last-sorted key k xs s
    where
      kept : KeyKept key merge xs []
      kept k a b e f = cc

  module _ (kept : (xs ys : List V) → KeyKept key merge xs ys)
      (absorb : (a b : V) → merge (merge a b) b ≡ merge a b) (same : (b : V) → merge b b ≡ b) where
    pub sorted_values-absorb :
        (xs ys : List V)
        → let joined = sort_by key (merged_values order key merge xs ys) in
          sort_by key (merged_values order key merge joined ys) ≡ joined
    sorted_values-absorb xs ys =
        let joined : List V = sort_by key (merged_values order key merge xs ys) in
        IsSorted-canonical key _ _
          (sorted_values-IsSorted order key merge joined ys (kept joined ys))
          (sorted_values-IsSorted order key merge xs ys (kept xs ys))
          λ k.
            find_by-sorted_values order key merge joined ys (kept joined ys) k
            ∙ ap (λ o. combine merge o (find_last key k ys))
                (find_last-sorted key k joined
                    (sorted_values-IsSorted order key merge xs ys (kept xs ys))
                  ∙ find_by-sorted_values order key merge xs ys (kept xs ys) k)
            ∙ combine-absorb key merge (find_last key k xs) (find_last key k ys) absorb same
            ∙ sym (find_by-sorted_values order key merge xs ys (kept xs ys) k)

    pub sorted_appended-absorb :
        (xs ys : List V)
        → let joined = sort_by key (appended_values order key merge xs ys) in
          sort_by key (appended_values order key merge joined ys) ≡ joined
    sorted_appended-absorb xs ys =
        let joined : List V = sort_by key (appended_values order key merge xs ys) in
        IsSorted-canonical key _ _
          (sorted_appended-IsSorted order key merge joined ys (kept joined ys))
          (sorted_appended-IsSorted order key merge xs ys (kept xs ys))
          λ k.
            find_by-sorted_appended order key merge joined ys (kept joined ys) k
            ∙ ap (λ o. combine merge o (find_last key k ys))
                (find_last-sorted key k joined
                    (sorted_appended-IsSorted order key merge xs ys (kept xs ys))
                  ∙ find_by-sorted_appended order key merge xs ys (kept xs ys) k)
            ∙ combine-absorb key merge (find_last key k xs) (find_last key k ys) absorb same
            ∙ sym (find_by-sorted_appended order key merge xs ys (kept xs ys) k)
