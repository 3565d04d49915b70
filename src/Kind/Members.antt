-- ===== src/Kind/Members.antt =====
-- The address list of a cluster.
use nacos_operator.Prelude.{
  ℕ, zero, suc, String, ◌≡◌, refl, sym, ap, ◌∙◌, false, some, ◌==◌, ◌+++◌, pos, drop_last_char,
  cons_append, nil_append,
}
use Prim.Native.Char.{Char}
use Prim.Native.String as Text
use Prim.Native.String.compare.{cons-nil}
use text.Mathlib.Text.{is_eq}
use text.Mathlib.TextLemmas.{append_assoc}
use nacos_operator.Go.{done}
use nacos_operator.Api.{Nacos}
use nacos_operator.Kind.Cluster.{member_address, service_loop, nacos_servers, without_last}

drop_last_char-space : (x : String) → drop_last_char (x +++ " ") ≡ x
unfolding drop_last_char
drop_last_char-space Text.[] = refl
drop_last_char-space (Text.◌∷◌ c Text.[]) = ap drop_last_char (cons_append c "" " ")
drop_last_char-space (Text.◌∷◌ c (Text.◌∷◌ d s)) =
    ap drop_last_char (cons_append c (Text.◌∷◌ d s) " ")
    ∙ ap (λ t. drop_last_char (Text.◌∷◌ c t)) (cons_append d s " ")
    ∙ ap (λ t. Text.◌∷◌ c (drop_last_char t)) (sym (cons_append d s " "))
    ∙ ap (λ t. Text.◌∷◌ c t) (drop_last_char-space (Text.◌∷◌ d s))

cons_not_empty : (c : Char) (s : String) → (Text.◌∷◌ c s == "") ≡ false
cons_not_empty c s = ap is_eq (λ i. cons-nil c s i)

space_behind : (x : String) → (x +++ " " == "") ≡ false
space_behind Text.[] = refl
space_behind (Text.◌∷◌ c s) = ap (λ t. t == "") (cons_append c s " ") ∙ cons_not_empty c (s +++ " ")

-- `left` addresses from `i` on, a space before each.
abbrev pub spaced : Nacos → ℕ → ℕ → String
spaced nacos zero i = ""
spaced nacos (suc left) i = " " +++ member_address nacos i +++ spaced nacos left (suc i)

regroup : (x a b : String) → (((x +++ " ") +++ a) +++ b) +++ " " ≡ (x +++ " " +++ a +++ b) +++ " "
regroup x a b = simp append_assoc

shift : (x a : String) → (x +++ " ") +++ a +++ " " ≡ ((x +++ " ") +++ a) +++ " "
shift x a = simp append_assoc

service_loop-spaced :
    (nacos : Nacos) (left i : ℕ) (x : String)
    → service_loop nacos left i (x +++ " ") ≡ (x +++ spaced nacos left i) +++ " "
unfolding service_loop
service_loop-spaced nacos zero i x = simp append_assoc
service_loop-spaced nacos (suc left) i x =
    ap (λ (t : String). service_loop nacos left (suc i) t) (shift x (member_address nacos i))
    ∙ service_loop-spaced nacos left (suc i) ((x +++ " ") +++ member_address nacos i)
    ∙ regroup x (member_address nacos i) (spaced nacos left (suc i))

service_loop-all :
    (nacos : Nacos) (n : ℕ)
    → service_loop nacos (suc n) 0 "" ≡ (member_address nacos 0 +++ spaced nacos n 1) +++ " "
unfolding service_loop
service_loop-all nacos n =
    ap (λ (t : String). service_loop nacos n 1 t) (nil_append (member_address nacos 0 +++ " "))
    ∙ service_loop-spaced nacos n 1 (member_address nacos 0)

without_last-space : {W : Type 0} (x : String) (w : W) → without_last (x +++ " ") w ≡ (done x, w)
without_last-space x w = rw (space_behind x, drop_last_char-space x) refl

-- With `n + 1` replicas the list is built without a panic, and is the addresses of the members from
-- 0 to `n`, a space between two.
pub nacos_servers-spaced :
    {W : Type 0} (nacos : Nacos) (n : ℕ) (w : W)
    → nacos.spec.replicas ≡ some (pos (suc n))
    → nacos_servers nacos w ≡ (done (member_address nacos 0 +++ spaced nacos n 1), w)
unfolding nacos_servers
nacos_servers-spaced nacos n w h = rw h (
    ap (λ (t : String). without_last t w) (service_loop-all nacos n)
    ∙ without_last-space (member_address nacos 0 +++ spaced nacos n 1) w)
