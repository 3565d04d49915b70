-- ===== src/Operator/Escaped.antt =====
-- The escaping of the user and the password in the DSN.
use Prim.Native.Char.{Char, code}
use Prim.Native.String as Text
use text.Mathlib.TextEquality.{Char-path}
use nacos_operator.Prelude.{
  ℕ, zero, suc, String, ◌≡◌, refl, sym, ap, ◌∙◌, true, false, inl, inr, Bool-cases, nat_eq, ◌+++◌,
  Bool, ◌||◌, ◌/◌, ◌%◌, contains_char, replace_char, cons_append, nil_append, replace_char-append,
  contains_char-replace_char_self, contains_char-replace_char_other, if◌then◌else◌, arith,
}
use nacos_operator.Operator.Pg.{url_query_escape}

-- None of the characters that end a part of a URL's authority.
abbrev pub HasNoSeparator : String → Type 0
HasNoSeparator s =
    (contains_char b'@' s ≡ false)
    × (contains_char b':' s ≡ false)
    × (contains_char b'/' s ≡ false)
    × (contains_char b'?' s ≡ false)
    × (contains_char b'#' s ≡ false)

abbrev stays :
    (j k : ℕ) (new s : String)
    → contains_char j new ≡ false
    → contains_char j s ≡ false
    → contains_char j (replace_char k new s) ≡ false
stays = contains_char-replace_char_other

-- An escaped text has none of the characters that end a part of a URL's authority: `@`, `:`, `/`,
-- `?` and `#`.
pub url_query_escape-HasNoSeparator : (s : String) → HasNoSeparator (url_query_escape s)
unfolding url_query_escape contains_char
url_query_escape-HasNoSeparator s =
    let s1 : String = replace_char b'@' "%40" s in
    let s2 : String = replace_char b':' "%3A" s1 in
    let s3 : String = replace_char b'/' "%2F" s2 in
    let s4 : String = replace_char b'?' "%3F" s3 in
    (
      stays _ b'#' "%23" s4 refl (
          stays _ b'?' "%3F" s3 refl (
            stays _ b'/' "%2F" s2 refl
              (stays _ b':' "%3A" s1 refl (contains_char-replace_char_self b'@' "%40" s refl)))),
      stays _ b'#' "%23" s4 refl (
          stays _ b'?' "%3F" s3 refl
            (stays _ b'/' "%2F" s2 refl (contains_char-replace_char_self b':' "%3A" s1 refl))),
      stays _ b'#' "%23" s4 refl
          (stays _ b'?' "%3F" s3 refl (contains_char-replace_char_self b'/' "%2F" s2 refl)),
      stays _ b'#' "%23" s4 refl (contains_char-replace_char_self b'?' "%3F" s3 refl),
      contains_char-replace_char_self b'#' "%23" s4 refl,
    )

url_query_escape-append :
    (s t : String) → url_query_escape (s +++ t) ≡ url_query_escape s +++ url_query_escape t
unfolding url_query_escape
url_query_escape-append s t =
    rw
      (
        replace_char-append, replace_char-append, replace_char-append, replace_char-append,
        replace_char-append,
      )
      refl

-- The characters that end a part of a URL's authority.
abbrev is_separator : ℕ → Bool
is_separator n = nat_eq n b'@' || nat_eq n b':' || nat_eq n b'/' || nat_eq n b'?' || nat_eq n b'#'

-- The character at a position.
char_at : ℕ → String → String
char_at n Text.[] = ""
char_at zero (Text.◌∷◌ c s) = Text.◌∷◌ c ""
char_at (suc n) (Text.◌∷◌ c s) = char_at n s

abbrev hex_digit : ℕ → String
hex_digit n = char_at n "0123456789ABCDEF"

-- The escape of one character: a percent sign and the two hexadecimal digits of its code.
abbrev percent_encoded_char : Char → String
percent_encoded_char c =
    if is_separator (code c)
    then "%" +++ hex_digit (code c / 16) +++ hex_digit (code c % 16)
    else Text.◌∷◌ c ""

-- Each character on its own, in one pass.
pub percent_encoded : String → String
percent_encoded Text.[] = ""
percent_encoded (Text.◌∷◌ c s) = percent_encoded_char c +++ percent_encoded s

same_char : (c d : Char) → nat_eq (code c) (code d) ≡ true → c ≡ d
same_char c d h = Char-path c d (ground arith)

url_query_escape-one : (c : Char) → url_query_escape (Text.◌∷◌ c "") ≡ percent_encoded_char c
unfolding url_query_escape replace_char char_at
url_query_escape-one c = elim (Bool-cases (nat_eq (code c) b'@')) [
  | inl e ↦ rw (same_char c "@" e) refl
  | inr at ↦ elim (Bool-cases (nat_eq (code c) b':')) [
    | inl e ↦ rw (same_char c ":" e) refl
    | inr colon ↦ elim (Bool-cases (nat_eq (code c) b'/')) [
      | inl e ↦ rw (same_char c "/" e) refl
      | inr slash ↦ elim (Bool-cases (nat_eq (code c) b'?')) [
        | inl e ↦ rw (same_char c "?" e) refl
        | inr mark ↦ elim (Bool-cases (nat_eq (code c) b'#')) [
          | inl e ↦ rw (same_char c "#" e) refl
          | inr hash ↦ rw (at, colon, slash, mark, hash) refl
        ]
      ]
    ]
  ]
]

url_query_escape-cons :
    (c : Char) (s : String)
    → url_query_escape (Text.◌∷◌ c s) ≡ percent_encoded_char c +++ url_query_escape s
url_query_escape-cons c s =
    ap url_query_escape (sym (cons_append c "" s ∙ ap (Text.◌∷◌ c) (nil_append s)))
    ∙ url_query_escape-append (Text.◌∷◌ c "") s
    ∙ ap (λ (u : String). u +++ url_query_escape s) (url_query_escape-one c)

-- The five replacements, one after the other, are one pass over the text that escapes each of the
-- characters `@`, `:`, `/`, `?` and `#` by a percent sign and the two hexadecimal digits of its code,
-- and leaves every other character as it is, a percent sign too: no escape is escaped again.
pub url_query_escape-percent_encoded : (s : String) → url_query_escape s ≡ percent_encoded s
unfolding percent_encoded
url_query_escape-percent_encoded Text.[] = unfold url_query_escape replace_char in refl
url_query_escape-percent_encoded (Text.◌∷◌ c s) =
    url_query_escape-cons c s
    ∙ ap (λ (u : String). percent_encoded_char c +++ u) (url_query_escape-percent_encoded s)
