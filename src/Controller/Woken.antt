-- ===== src/Controller/Woken.antt =====
-- Which resources a change of a config map wakes.
use nacos_operator.Prelude.{
  String, ◌≡◌, refl, Bool, false, ◌||◌, ◌&&◌, inl, inr, List, [], ◌∷◌, ◌==◌, Bool-cases, arith,
}
use nacos_operator.Go.{ok}
use nacos_operator.Api.{Nacos}
use nacos_operator.Controller.Watch.{references, requests_for, find_nacos_for_config_map}

-- Whether a request is in a list.
abbrev pub is_requested : String → String → List (String × String) → Bool
is_requested ns n [] = false
is_requested ns n ((a, b) ∷ rs) = (a == ns && b == n) || is_requested ns n rs

-- Whether a resource of the name refers to the config map.
abbrev pub some_refers : String → String → String → List Nacos → Bool
some_refers name ns n [] = false
some_refers name ns n (r ∷ rs) =
    (references name r && r.namespace == ns && r.name == n) || some_refers name ns n rs

requests_for-exact :
    (name ns n : String) (rs : List Nacos)
    → is_requested ns n (requests_for name rs) ≡ some_refers name ns n rs
unfolding requests_for
requests_for-exact name ns n [] = refl
requests_for-exact name ns n (r ∷ rs) = elim (Bool-cases (references name r)) [
  | inl e ↦ ground (arith, e, requests_for-exact name ns n rs)
  | inr e ↦ ground (arith, e, requests_for-exact name ns n rs)
]

-- Of a successful listing, a namespace and name are requested exactly when a resource of that
-- namespace and name refers to the config map.
pub find_nacos_for_config_map-exact :
    (name ns n : String) (rs : List Nacos)
    → is_requested ns n (find_nacos_for_config_map name (ok rs)) ≡ some_refers name ns n rs
unfolding find_nacos_for_config_map
find_nacos_for_config_map-exact name ns n rs = requests_for-exact name ns n rs
