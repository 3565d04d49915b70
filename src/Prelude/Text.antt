-- ===== src/Prelude/Text.antt =====
-- The functions of Go's `strings` that the operator calls, over the characters of a text.
use Prim.Native.Nat.{ℕ, zero, suc, ◌/◌, ◌%◌}
use Prim.Native.Char.{code}
use Prim.Native.String as Text
use Prim.Native.String.{String, ◌++◌ as ◌+++◌}
use mathlib.Core.Bool.{Bool, false, ◌||◌}
use nacos_operator.Prelude.Base.{ℤ, pos, negsuc, nat_eq, ltb, if◌then◌else◌}

-- strings.Contains for a separator of one character
unfoldable pub contains_char : ℕ → String → Bool
contains_char k Text.[] = false
contains_char k (Text.◌∷◌ c s) = nat_eq (code c) k || contains_char k s

-- strings.Split(s, sep)[0] for a separator of one character
unfoldable pub before_char : ℕ → String → String
before_char k Text.[] = ""
before_char k (Text.◌∷◌ c s) = if nat_eq (code c) k then "" else Text.◌∷◌ c (before_char k s)

-- strings.Index(s, sep) > 0 for a separator of one character
unfoldable pub index_pos : ℕ → String → Bool
unfolding contains_char
index_pos k Text.[] = false
index_pos k (Text.◌∷◌ c s) = if nat_eq (code c) k then false else contains_char k s

-- strings.ReplaceAll for a text of one character
unfoldable pub replace_char : ℕ → String → String → String
replace_char k new Text.[] = ""
replace_char k new (Text.◌∷◌ c s) =
    let rest = replace_char k new s in if nat_eq (code c) k then new +++ rest else Text.◌∷◌ c rest

-- s[:n] of a text of single bytes, where `len(s) > n` or else all of it
unfoldable pub take_chars : ℕ → String → String
take_chars zero s = ""
take_chars (suc n) Text.[] = ""
take_chars (suc n) (Text.◌∷◌ c s) = Text.◌∷◌ c (take_chars n s)

-- s[0 : len(s)-1] of a text that ends in a single byte
unfoldable pub drop_last_char : String → String
drop_last_char Text.[] = ""
drop_last_char (Text.◌∷◌ c Text.[]) = ""
drop_last_char (Text.◌∷◌ c (Text.◌∷◌ d s)) = Text.◌∷◌ c (drop_last_char (Text.◌∷◌ d s))

abbrev digit : ℕ → String
digit zero = "0"
digit (suc zero) = "1"
digit (suc (suc zero)) = "2"
digit (suc (suc (suc zero))) = "3"
digit (suc (suc (suc (suc zero)))) = "4"
digit (suc (suc (suc (suc (suc zero))))) = "5"
digit (suc (suc (suc (suc (suc (suc zero)))))) = "6"
digit (suc (suc (suc (suc (suc (suc (suc zero))))))) = "7"
digit (suc (suc (suc (suc (suc (suc (suc (suc zero)))))))) = "8"
digit _ = "9"

-- The fuel is one more than the number, which has fewer digits.
show_digits : ℕ → ℕ → String
show_digits zero n = ""
show_digits (suc fuel) n =
    let rest = show_digits fuel (n / 10) in if ltb n 10 then digit n else rest +++ digit (n % 10)

unfoldable pub show_nat : ℕ → String
unfolding show_digits
show_nat n = show_digits (suc n) n

-- strconv.Itoa
unfoldable pub itoa : ℤ → String
unfolding show_nat
itoa (pos n) = show_nat n
itoa (negsuc n) = "-" +++ show_nat (suc n)
