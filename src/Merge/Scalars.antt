-- ===== src/Merge/Scalars.antt =====
-- The guards of the merge package, `if override.X != zero { merged.X = override.X }`, one for each
-- kind of field, and the string slices and maps of pkg/util/merge/merge.go.
use nacos_operator.Prelude.{
  String, Bool, false, Option, none, some, List, [], ◌∷◌, ◌++◌, ◌==◌, ◌||◌, ℤ, pos, int_eq,
  if◌then◌else◌,
}
use nacos_operator.GoMap.{GoMap, RangeOrder}
use nacos_operator.GoMap.Loops.{assign_all}

abbrev pub over_str : String → String → String
over_str original override = if override == "" then original else override

abbrev pub over_int : ℤ → ℤ → ℤ
over_int original override = if int_eq override (pos 0) then original else override

abbrev pub over_bool : Bool → Bool → Bool
over_bool original override = if override then override else original

abbrev pub over_opt {ℓ} : {A : Type ℓ} → Option A → Option A → Option A
over_opt original none = original
over_opt original (some a) = some a

-- contains.String
unfoldable pub contains_string : List String → String → Bool
contains_string [] s = false
contains_string (x ∷ xs) s = x == s || contains_string xs s

-- The loop of `StringSlices`.
unfoldable pub append_missing : List String → List String → List String
append_missing merged [] = merged
append_missing merged (s ∷ ss) =
    append_missing (if contains_string merged s then merged else merged ++ s ∷ []) ss

unfoldable pub string_slices : List String → List String → List String
unfolding append_missing contains_string
string_slices slice1 slice2 = append_missing slice1 slice2

unfoldable pub string_to_string_map : RangeOrder → GoMap String → GoMap String → GoMap String
string_to_string_map order map1 map2 =
    assign_all (λ k v. v) (assign_all (λ k v. v) [] (order.visit 0 String map1))
      (order.visit 1 String map2)

unfoldable pub string_to_bool_map : RangeOrder → GoMap Bool → GoMap Bool → GoMap Bool
string_to_bool_map order map1 map2 =
    assign_all (λ k v. v) (assign_all (λ k v. v) [] (order.visit 0 Bool map1))
      (order.visit 1 Bool map2)
