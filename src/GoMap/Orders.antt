-- ===== src/GoMap/Orders.antt =====
-- Two orders of a `range` loop, as concrete values of `RangeOrder`.
use nacos_operator.Prelude.{
  ℕ, String, ◌≡◌, refl, [], ◌∷◌, eq_iff, if◌then◌else◌, arith, nat_eq, Bool-cases, inl, inr,
}
use nacos_operator.GoMap.Defs.{GoMap, lookup, IsMap, RangeOrder}

-- The order in which the entries were first assigned.
abbrev pub in_order : RangeOrder
in_order = record {
  visit = λ n V m. m;
  visit-IsMap = λ n V m h. h;
  visit-lookup = λ n V m h k. refl;
}

abbrev pub swap_two {ℓ} : {V : Type ℓ} → GoMap V → GoMap V
swap_two (x ∷ y ∷ m) = y ∷ x ∷ m
swap_two m = m

pub swap_two-IsMap : (V : Type 0) (m : GoMap V) → IsMap m → IsMap (swap_two m)
swap_two-IsMap V ((j, v) ∷ (k, w) ∷ m) h = ground (arith, eq_iff j k, eq_iff k j)
swap_two-IsMap V [] h = h
swap_two-IsMap V (x ∷ []) h = h

pub swap_two-lookup :
    (V : Type 0) (m : GoMap V) → IsMap m → (i : String) → lookup i (swap_two m) ≡ lookup i m
swap_two-lookup V ((j, v) ∷ (k, w) ∷ m) h i = ground (arith, eq_iff j i, eq_iff k i, eq_iff k j)
swap_two-lookup V [] h i = refl
swap_two-lookup V (x ∷ []) h i = refl

-- The same, but the loop `n` exchanges the first two entries.
abbrev pub swapped_visit : ℕ → ℕ → (V : Type 0) → GoMap V → GoMap V
swapped_visit n i V m = if nat_eq i n then swap_two m else m

pub swapped_visit-IsMap :
    (n i : ℕ) (V : Type 0) (m : GoMap V) → IsMap m → IsMap (swapped_visit n i V m)
swapped_visit-IsMap n i V m h = elim (Bool-cases (nat_eq i n)) [
  | inl e ↦ rw e (swap_two-IsMap V m h)
  | inr e ↦ rw e h
]

pub swapped_visit-lookup :
    (n i : ℕ) (V : Type 0) (m : GoMap V)
    → IsMap m
    → (k : String) → lookup k (swapped_visit n i V m) ≡ lookup k m
swapped_visit-lookup n i V m h k = elim (Bool-cases (nat_eq i n)) [
  | inl e ↦ rw e (swap_two-lookup V m h k)
  | inr e ↦ rw e refl
]

abbrev pub swapped_at : ℕ → RangeOrder
swapped_at n = record {
  visit = swapped_visit n;
  visit-IsMap = swapped_visit-IsMap n;
  visit-lookup = swapped_visit-lookup n;
}
