-- ===== src/Prelude/Order.antt =====
-- Go's `<` on strings, and that it is a strict total order.
use Prim.Native.Nat.{ℕ, Ordering, compare as compare_ℕ}
use Prim.Native.Char.{code}
use Prim.Native.String.compare
use Prim.Native.String.{String, [], ◌∷◌, compare, then}
use mathlib.Core.Path.{◌≡◌, refl, sym, ◌∙◌, ap}
use mathlib.Core.Logic.{◌⊎◌, inl, inr}
use mathlib.Core.Bool.{Bool, true, false}
use native.Mathlib.Omega.{arith}
use text.Mathlib.Text.{is_lt}
use text.Mathlib.TextEquality.{path_by_compare}
use text.Mathlib.TextPositions.{compare_refl}

abbrev pub str_lt : String → String → Bool
str_lt s t = is_lt (compare s t)

compare_ℕ_trans :
    (a b c : ℕ)
    → compare_ℕ a b ≡ Ordering.lt
    → compare_ℕ b c ≡ Ordering.lt
    → compare_ℕ a c ≡ Ordering.lt
compare_ℕ_trans a b c p q = ground arith

then_trans :
    (o p q r s t : Ordering)
    → (o ≡ Ordering.lt → p ≡ Ordering.lt → q ≡ Ordering.lt)
    → (o ≡ Ordering.eq → q ≡ p)
    → (p ≡ Ordering.eq → q ≡ o)
    → (r ≡ Ordering.lt → s ≡ Ordering.lt → t ≡ Ordering.lt)
    → then o r ≡ Ordering.lt
    → then p s ≡ Ordering.lt
    → then q t ≡ Ordering.lt
then_trans o p q r s t a b c d e f = ground arith

code_compare_eq_left : (a b c : ℕ) → compare_ℕ a b ≡ Ordering.eq → compare_ℕ a c ≡ compare_ℕ b c
code_compare_eq_left a b c h = ground arith

code_compare_eq_right : (a b c : ℕ) → compare_ℕ b c ≡ Ordering.eq → compare_ℕ a c ≡ compare_ℕ a b
code_compare_eq_right a b c h = ground arith

pub compare_trans :
    (s t u : String)
    → compare s t ≡ Ordering.lt
    → compare t u ≡ Ordering.lt
    → compare s u ≡ Ordering.lt
compare_trans [] [] u p q = cc
compare_trans [] (d ∷ t) [] p q = cc (compare.cons-nil d t)
compare_trans [] (d ∷ t) (e ∷ u) p q = compare.nil-cons e u
compare_trans (c ∷ s) [] u p q = cc (compare.cons-nil c s)
compare_trans (c ∷ s) (d ∷ t) [] p q = cc (compare.cons-nil d t)
compare_trans (c ∷ s) (d ∷ t) (e ∷ u) p q =
    compare.cons-cons c e s u
    ∙ then_trans (compare_ℕ (code c) (code d)) (compare_ℕ (code d) (code e))
        (compare_ℕ (code c) (code e)) (compare s t) (compare t u) (compare s u)
        (compare_ℕ_trans (code c) (code d) (code e))
        (code_compare_eq_left (code c) (code d) (code e))
        (code_compare_eq_right (code c) (code d) (code e)) (compare_trans s t u)
        (sym (compare.cons-cons c d s t) ∙ p) (sym (compare.cons-cons d e t u) ∙ q)

flip_ℕ : (a b : ℕ) → compare_ℕ a b ≡ Ordering.gt → compare_ℕ b a ≡ Ordering.lt
flip_ℕ a b h = ground arith

flip_eq : (a b : ℕ) → compare_ℕ a b ≡ Ordering.eq → compare_ℕ b a ≡ Ordering.eq
flip_eq a b h = ground arith

then_flip :
    (o p r s : Ordering)
    → (o ≡ Ordering.gt → p ≡ Ordering.lt)
    → (o ≡ Ordering.eq → p ≡ Ordering.eq)
    → (r ≡ Ordering.gt → s ≡ Ordering.lt)
    → then o r ≡ Ordering.gt
    → then p s ≡ Ordering.lt
then_flip o p r s a b c d = ground arith

pub compare_flip : (s t : String) → compare s t ≡ Ordering.gt → compare t s ≡ Ordering.lt
compare_flip [] [] p = cc (compare.nil-nil)
compare_flip [] (d ∷ t) p = cc (compare.nil-cons d t)
compare_flip (c ∷ s) [] p = compare.nil-cons c s
compare_flip (c ∷ s) (d ∷ t) p =
    compare.cons-cons d c t s
    ∙ then_flip (compare_ℕ (code c) (code d)) (compare_ℕ (code d) (code c)) (compare s t)
        (compare t s) (flip_ℕ (code c) (code d)) (flip_eq (code c) (code d)) (compare_flip s t)
        (sym (compare.cons-cons c d s t) ∙ p)

is_lt-lt : (o : Ordering) → is_lt o ≡ true → o ≡ Ordering.lt
is_lt-lt o h = ground arith

pub str_lt_trans : (s t u : String) → str_lt s t ≡ true → str_lt t u ≡ true → str_lt s u ≡ true
str_lt_trans s t u p q =
    ap is_lt (compare_trans s t u (is_lt-lt (compare s t) p) (is_lt-lt (compare t u) q))

pub str_lt_irrefl : (s : String) → str_lt s s ≡ false
str_lt_irrefl s = ap is_lt (compare_refl s)

-- Two different strings are ordered one way or the other.
pub str_lt_total : (s t : String) → str_lt s t ≡ false → (s ≡ t) ⊎ (str_lt t s ≡ true)
str_lt_total s t h = go (compare s t) refl h
  where
    go : (o : Ordering) → compare s t ≡ o → is_lt o ≡ false → (s ≡ t) ⊎ (str_lt t s ≡ true)
    go Ordering.lt e f = cc
    go Ordering.eq e f = inl (path_by_compare s t e)
    go Ordering.gt e f = inr (ap is_lt (compare_flip s t e))
