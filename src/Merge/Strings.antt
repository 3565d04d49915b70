-- ===== src/Merge/Strings.antt =====
-- `StringSlices`: the first slice, then what the second adds.
use nacos_operator.Prelude.{
  String, ◌≡◌, refl, true, false, ◌||◌, List, [], ◌∷◌, ◌++◌, eq_iff, eq_refl, Bool-cases, inl, inr,
  if◌then◌else◌, arith,
}
use nacos_operator.Merge.Scalars.{contains_string, append_missing, string_slices}

contains_string-append :
    (s : String) (xs ys : List String)
    → contains_string (xs ++ ys) s ≡ (contains_string xs s || contains_string ys s)
unfolding contains_string
contains_string-append s [] ys = refl
contains_string-append s (x ∷ xs) ys = ground (arith, contains_string-append s xs ys)

contains_string-append_missing :
    (s : String) (xs ys : List String)
    → contains_string (append_missing xs ys) s ≡ (contains_string xs s || contains_string ys s)
unfolding append_missing contains_string
contains_string-append_missing s xs [] = ground arith
contains_string-append_missing s xs (y ∷ ys) = ground (
  arith,
  contains_string-append_missing s (if contains_string xs y then xs else xs ++ y ∷ []) ys,
  contains_string-append s xs (y ∷ []),
  eq_iff y s,
)

-- Every string of `ys` is among `xs`.
abbrev Covers : List String → List String → Type 0
Covers xs [] = Unit
Covers xs (y ∷ ys) = (contains_string xs y ≡ true) × Covers xs ys

append_missing-covered : (xs ys : List String) → Covers xs ys → append_missing xs ys ≡ xs
unfolding append_missing
append_missing-covered xs [] h = refl
append_missing-covered xs (y ∷ ys) h = rw h.0 (append_missing-covered xs ys h.1)

-- No string twice.
abbrev pub NoRepeat : List String → Type 0
NoRepeat [] = Unit
NoRepeat (x ∷ xs) = (contains_string xs x ≡ false) × NoRepeat xs

NoRepeat-snoc :
    (xs : List String) (y : String)
    → NoRepeat xs
    → contains_string xs y ≡ false
    → NoRepeat (xs ++ y ∷ [])
unfolding contains_string
NoRepeat-snoc [] y h e = (refl, tt)
NoRepeat-snoc (x ∷ xs) y h e = (
  ground (arith, contains_string-append x xs (y ∷ []), eq_iff x y, eq_iff y x),
  NoRepeat-snoc xs y h.1 (ground arith),
)

append_missing-NoRepeat : (xs ys : List String) → NoRepeat xs → NoRepeat (append_missing xs ys)
unfolding append_missing
append_missing-NoRepeat xs [] h = h
append_missing-NoRepeat xs (y ∷ ys) h = elim (Bool-cases (contains_string xs y)) [
  | inl e ↦ rw e (append_missing-NoRepeat xs ys h)
  | inr e ↦ rw e (append_missing-NoRepeat (xs ++ y ∷ []) ys (NoRepeat-snoc xs y h e))
]

Covers-contains_string :
    (xs ys : List String)
    → ((s : String) → contains_string ys s ≡ true → contains_string xs s ≡ true)
    → Covers xs ys
unfolding contains_string
Covers-contains_string xs [] h = tt
Covers-contains_string xs (y ∷ ys) h =
    (h y (rw eq_refl refl), Covers-contains_string xs ys (λ s e. h s (ground arith)))

-- A string is in the merged list exactly when it is in one of the two.
pub string_slices-union :
    (xs ys : List String) (s : String)
    → contains_string (string_slices xs ys) s ≡ (contains_string xs s || contains_string ys s)
unfolding string_slices
string_slices-union xs ys s = contains_string-append_missing s xs ys

-- If the first list has no string twice, the merged list has none twice, whatever the second list
-- is.
pub string_slices-NoRepeat : (xs ys : List String) → NoRepeat xs → NoRepeat (string_slices xs ys)
unfolding string_slices
string_slices-NoRepeat xs ys h = append_missing-NoRepeat xs ys h

-- Merging the same second list again changes nothing.
pub string_slices-absorb :
    (xs ys : List String) → string_slices (string_slices xs ys) ys ≡ string_slices xs ys
unfolding string_slices
string_slices-absorb xs ys = append_missing-covered (append_missing xs ys) ys (
    Covers-contains_string (append_missing xs ys) ys
      (λ s e. ground (arith, contains_string-append_missing s xs ys)))

-- `merged` has no string twice, the strings of the two lists and no others, and takes in nothing
-- more of the second.
abbrev pub IsUnion : List String → List String → List String → Type 0
IsUnion xs ys merged =
    NoRepeat merged
    × ((s : String) → contains_string merged s ≡ (contains_string xs s || contains_string ys s))
    × (string_slices merged ys ≡ merged)

-- If the first list has no string twice, the merged list has none twice, it has exactly the strings
-- of the two lists, and merging the same second list again changes nothing.
pub string_slices-IsUnion :
    (xs ys : List String) → NoRepeat xs → IsUnion xs ys (string_slices xs ys)
string_slices-IsUnion xs ys h =
    (string_slices-NoRepeat xs ys h, string_slices-union xs ys, string_slices-absorb xs ys)
