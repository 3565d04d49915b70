-- ===== src/Prelude/Characters.antt =====
-- Laws of texts, character by character.
use Prim.Native.Nat.{ℕ}
use Prim.Native.Char.{Char, code}
use Prim.Native.String as Text
use Prim.Native.String.compare
use Prim.Native.String.{String, ◌++◌ as ◌+++◌, compare, then}
use Prim.Native.String.append.{nil, cons}
use mathlib.Core.Path.{◌≡◌, refl, sym, ap, ap₂, ◌∙◌}
use mathlib.Core.Logic.{inl, inr}
use mathlib.Core.Bool.{false, ◌||◌}
use native.Mathlib.Omega.{arith}
use text.Mathlib.Text.{◌==◌, is_eq}
use text.Mathlib.TextLemmas.{append_assoc}
use text.Mathlib.TextPositions.{compare_self}
use nacos_operator.Prelude.Base.{nat_eq, Bool-cases}
use nacos_operator.Prelude.Text.{contains_char, replace_char}

pub cons_append : (c : Char) (s t : String) → Text.◌∷◌ c s +++ t ≡ Text.◌∷◌ c (s +++ t)
cons_append c s t = λ i. cons c s t i

pub nil_append : (t : String) → "" +++ t ≡ t
nil_append t = λ i. nil t i

pub contains_char-append :
    (k : ℕ) (s t : String) → contains_char k (s +++ t) ≡ (contains_char k s || contains_char k t)
unfolding contains_char
contains_char-append k Text.[] t = ap (contains_char k) (nil_append t)
contains_char-append k (Text.◌∷◌ c s) t =
    ap (contains_char k) (cons_append c s t) ∙ ground (arith, contains_char-append k s t)

pub replace_char-append :
    (k : ℕ) (new s t : String)
    → replace_char k new (s +++ t) ≡ replace_char k new s +++ replace_char k new t
unfolding replace_char
replace_char-append k new Text.[] t =
    ap (replace_char k new) (nil_append t) ∙ sym (nil_append (replace_char k new t))
replace_char-append k new (Text.◌∷◌ c s) t =
    ap (replace_char k new) (cons_append c s t) ∙ elim (Bool-cases (nat_eq (code c) k)) [
      | inl e ↦
          rw (e, replace_char-append k new s t)
            (sym (append_assoc new (replace_char k new s) (replace_char k new t)))
      | inr e ↦
          rw (e, replace_char-append k new s t)
            (sym (cons_append c (replace_char k new s) (replace_char k new t)))
    ]

-- The character that is replaced is gone, if it is not in what replaces it.
pub contains_char-replace_char_self :
    (k : ℕ) (new s : String)
    → contains_char k new ≡ false
    → contains_char k (replace_char k new s) ≡ false
unfolding contains_char replace_char
contains_char-replace_char_self k new Text.[] h = refl
contains_char-replace_char_self k new (Text.◌∷◌ c s) h = elim (Bool-cases (nat_eq (code c) k)) [
  | inl e ↦ rw (e, contains_char-append, h) (contains_char-replace_char_self k new s h)
  | inr e ↦ rw (e, e) (contains_char-replace_char_self k new s h)
]

-- No other character comes in, but with what replaces one.
pub contains_char-replace_char_other :
    (j k : ℕ) (new s : String)
    → contains_char j new ≡ false
    → contains_char j s ≡ false
    → contains_char j (replace_char k new s) ≡ false
unfolding contains_char replace_char
contains_char-replace_char_other j k new Text.[] h g = refl
contains_char-replace_char_other j k new (Text.◌∷◌ c s) h g =
    let head : nat_eq (code c) j ≡ false = ground arith in
    let tail : contains_char j s ≡ false = ground arith in
    elim (Bool-cases (nat_eq (code c) k)) [
      | inl e ↦ rw (e, contains_char-append, h) (contains_char-replace_char_other j k new s h tail)
      | inr e ↦ rw (e, head) (contains_char-replace_char_other j k new s h tail)
    ]

-- A common beginning does not matter to a comparison.
compare-append : (n s t : String) → compare (n +++ s) (n +++ t) ≡ compare s t
compare-append Text.[] s t = ap₂ compare (nil_append s) (nil_append t)
compare-append (Text.◌∷◌ c n) s t =
    ap₂ compare (cons_append c n s) (cons_append c n t)
    ∙ compare.cons-cons c c (n +++ s) (n +++ t)
    ∙ ap (λ o. then o (compare (n +++ s) (n +++ t))) (compare_self (code c))
    ∙ compare-append n s t

pub eq-append : (n s t : String) → (n +++ s == n +++ t) ≡ (s == t)
eq-append n s t = ap is_eq (compare-append n s t)
