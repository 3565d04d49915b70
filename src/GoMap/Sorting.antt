-- ===== src/GoMap/Sorting.antt =====
-- `sort.SliceStable` by a string key, the first element with a key, and the canonical form: two
-- strictly sorted lists that hold the same element at each key are equal.
use nacos_operator.Prelude.{
  String, ◌≡◌, refl, sym, ap, ◌∙◌, ◌⊎◌, inl, inr, true, Option, none, some, List, [], ◌∷◌, ◌==◌,
  eq_iff, eq_refl, str_lt, str_lt_trans, str_lt_irrefl, str_lt_total, Bool-cases, if◌then◌else◌,
  arith,
}

module _ {ℓ} {A : Type ℓ} (key : A → String) where
  -- `x` goes before the elements with its own key, so elements with one key keep their order.
  abbrev pub insert_sorted : A → List A → List A
  insert_sorted x [] = x ∷ []
  insert_sorted x (y ∷ ys) = if str_lt (key y) (key x) then y ∷ insert_sorted x ys else x ∷ y ∷ ys

  abbrev pub sort_by : List A → List A
  sort_by [] = []
  sort_by (x ∷ xs) = insert_sorted x (sort_by xs)

  -- The first element with the key `k`.
  abbrev pub find_by : String → List A → Option A
  find_by k [] = none
  find_by k (x ∷ xs) = if key x == k then some x else find_by k xs

  -- The last element with the key `k`.
  abbrev pub find_last : String → List A → Option A
  find_last k [] = none
  find_last k (x ∷ xs) = elim (find_last k xs) [
    | some y ↦ some y
    | none ↦ if key x == k then some x else none
  ]

  abbrev pub Above : String → List A → Type 0
  Above k [] = Unit
  Above k (x ∷ xs) = (str_lt k (key x) ≡ true) × Above k xs

  -- Sorted by key, and no key twice.
  abbrev pub IsSorted : List A → Type 0
  IsSorted [] = Unit
  IsSorted (x ∷ xs) = Above (key x) xs × IsSorted xs

  -- No key twice, in any order.
  abbrev pub IsDistinct : List A → Type ℓ
  IsDistinct [] = Unit
  IsDistinct (x ∷ xs) = (find_by (key x) xs ≡ none) × IsDistinct xs

  find_by-insert_sorted :
      (k : String) (x : A) (xs : List A)
      → find_by (key x) xs ≡ none
      → find_by k (insert_sorted x xs) ≡ (if key x == k then some x else find_by k xs)
  find_by-insert_sorted k x [] h = refl
  find_by-insert_sorted k x (y ∷ ys) h = ground (
    arith,
    eq_iff (key x) k,
    eq_iff (key y) k,
    eq_iff (key y) (key x),
    find_by-insert_sorted k x ys,
  )

  pub find_by-sort_by :
      (k : String) (xs : List A) → IsDistinct xs → find_by k (sort_by xs) ≡ find_by k xs
  find_by-sort_by k [] h = refl
  find_by-sort_by k (x ∷ xs) h =
      find_by-insert_sorted k x (sort_by xs) (find_by-sort_by (key x) xs h.1 ∙ h.0)
      ∙ ap (λ o. if key x == k then some x else o) (find_by-sort_by k xs h.1)

  Above-trans : (j k : String) (xs : List A) → str_lt j k ≡ true → Above k xs → Above j xs
  Above-trans j k [] h a = tt
  Above-trans j k (x ∷ xs) h a = (str_lt_trans j k (key x) h a.0, Above-trans j k xs h a.1)

  Above-insert_sorted :
      (k : String) (x : A) (xs : List A)
      → str_lt k (key x) ≡ true
      → Above k xs
      → Above k (insert_sorted x xs)
  Above-insert_sorted k x [] h a = (h, tt)
  Above-insert_sorted k x (y ∷ ys) h a = elim (Bool-cases (str_lt (key y) (key x))) [
    | inl e ↦ rw e (a.0, Above-insert_sorted k x ys h a.1)
    | inr e ↦ rw e (h, a)
  ]

  insert_sorted-IsSorted :
      (x : A) (xs : List A)
      → find_by (key x) xs ≡ none
      → IsSorted xs
      → IsSorted (insert_sorted x xs)
  insert_sorted-IsSorted x [] f s = (tt, tt)
  insert_sorted-IsSorted x (y ∷ ys) f s = elim (Bool-cases (str_lt (key y) (key x))) [
    | inl e ↦ rw e (
      Above-insert_sorted (key y) x ys e s.0,
      insert_sorted-IsSorted x ys (ground (arith, eq_iff (key y) (key x))) s.1,
    )
    | inr e ↦ rw e (elim (str_lt_total (key y) (key x) e) [
      | inl same ↦ absurd (ground (arith, eq_iff (key y) (key x)))
      | inr less ↦ ((less, Above-trans (key x) (key y) ys less s.0), s)
    ])
  ]

  pub sort_by-IsSorted : (xs : List A) → IsDistinct xs → IsSorted (sort_by xs)
  sort_by-IsSorted [] h = tt
  sort_by-IsSorted (x ∷ xs) h =
      insert_sorted-IsSorted x (sort_by xs) (find_by-sort_by (key x) xs h.1 ∙ h.0)
        (sort_by-IsSorted xs h.1)

  pub find_by-Above :
      (j k : String) (xs : List A)
      → (j ≡ k) ⊎ (str_lt j k ≡ true)
      → Above k xs
      → find_by j xs ≡ none
  find_by-Above j k [] h a = refl
  find_by-Above j k (x ∷ xs) (inl h) a =
      ground
        (arith, eq_iff (key x) j, eq_iff j k, str_lt_irrefl k, find_by-Above j k xs (inl h) a.1)
  find_by-Above j k (x ∷ xs) (inr h) a = ground (
    arith,
    eq_iff (key x) j,
    str_lt_trans j k (key x) h a.0,
    str_lt_irrefl j,
    find_by-Above j k xs (inr h) a.1,
  )

  abbrev SameFind : List A → List A → Type ℓ
  SameFind xs ys = (k : String) → find_by k xs ≡ find_by k ys

  find_by-head : (x : A) (xs : List A) → find_by (key x) (x ∷ xs) ≡ some x
  find_by-head x xs = rw eq_refl refl

  SameFind-tail :
      (x y : A) (xs ys : List A)
      → key x ≡ key y
      → Above (key x) xs
      → Above (key y) ys
      → SameFind (x ∷ xs) (y ∷ ys)
      → SameFind xs ys
  SameFind-tail x y xs ys e a b h k = elim (Bool-cases (key x == k)) [
    | inl same ↦ ground (
      arith,
      eq_iff (key x) k,
      find_by-Above k (key x) xs (inl (sym ((eq_iff (key x) k).0 same))) a,
      find_by-Above k (key y) ys (inl (sym ((eq_iff (key x) k).0 same) ∙ e)) b,
    )
    | inr other ↦ ground (arith, eq_iff (key x) k, eq_iff (key y) k, h k)
  ]

  heads_ordered :
      (x y : A) (xs ys : List A)
      → str_lt (key x) (key y) ≡ true
      → Above (key y) ys
      → SameFind (x ∷ xs) (y ∷ ys)
      → ⊥
  heads_ordered x y xs ys e b h = ground (
    arith,
    h (key x),
    find_by-head x xs,
    eq_iff (key y) (key x),
    str_lt_irrefl (key x),
    find_by-Above (key x) (key y) ys (inr e) b,
  )

  pub IsSorted-canonical : (xs ys : List A) → IsSorted xs → IsSorted ys → SameFind xs ys → xs ≡ ys
  IsSorted-canonical [] [] s t h = refl
  IsSorted-canonical [] (y ∷ ys) s t h = cc (h (key y), find_by-head y ys)
  IsSorted-canonical (x ∷ xs) [] s t h = cc (h (key x), find_by-head x xs)
  IsSorted-canonical (x ∷ xs) (y ∷ ys) s t h = elim (Bool-cases (str_lt (key x) (key y))) [
    | inl e ↦ absurd (heads_ordered x y xs ys e t.0 h)
    | inr e ↦ elim (str_lt_total (key x) (key y) e) [
      | inr f ↦ absurd (heads_ordered y x ys xs f s.0 (λ k. sym (h k)))
      | inl same ↦ cc (
        h (key x),
        find_by-head x xs,
        find_by-head y ys,
        IsSorted-canonical xs ys s.1 t.1 (SameFind-tail x y xs ys same s.0 t.0 h),
      )
    ]
  ]
