-- ===== src/Kind/ConfigMaps.antt =====
-- The config maps: the old single file, and the merged file of the configuration management.
use nacos_operator.Prelude.{
  String, Bool, Option, none, some, is_some, [], ◌∷◌, ◌==◌, ◌+++◌, ◌||◌, take_chars, if◌then◌else◌,
}
use nacos_operator.GoMap.{RangeOrder, lookup}
use nacos_operator.Errors.{new_err, code_parameter_error}
use nacos_operator.Go.{ok, fail, Go, my_error, error_text, pure, panic, ◌>>=◌}
use nacos_operator.Types.{ConfigMap}
use nacos_operator.Api.{Nacos, ConfigMapRef}
use nacos_operator.K8s.Interface.{ResourceApi}
use nacos_operator.Kind.Names.{object_labels, object_meta, generate_name}

-- `nacos.Spec.UserConfigRef != nil || nacos.Spec.InternalConfigRef != nil`
abbrev pub manages_config : Nacos → Bool
manages_config nacos = is_some nacos.spec.user_config_ref || is_some nacos.spec.internal_config_ref

unfoldable pub final_config_name : Nacos → String
final_config_name nacos =
    if nacos.spec.final_config_name == ""
    then nacos.name +++ "-final-config"
    else nacos.spec.final_config_name

unfoldable pub build_config_map : RangeOrder → Nacos → ConfigMap
unfolding object_labels generate_name
build_config_map order nacos = record {
  meta = object_meta nacos (generate_name nacos) (object_labels order nacos) nacos.annotations;
  contents = ("custom.properties", nacos.spec.config) ∷ [];
}

abbrev ref_key : ConfigMapRef → String → String
ref_key ref default = if ref.key == "" then default else ref.key

abbrev content_at : {W : Type 0} → String → String → Option String → Go W String
content_at kind key (some content) = pure content
content_at kind key none =
    panic (my_error (new_err code_parameter_error (kind +++ " key not found: %s") (key ∷ [])))

module _ {W : Type 0} (config_maps : ResourceApi W ConfigMap) (nacos : Nacos) where
  -- The content that a reference leads to; a missing reference or an empty name is no content.
  unfoldable pub referenced_content :
      (kind lower default_key : String) → Option ConfigMapRef → Go W String
  referenced_content kind lower default_key none w = pure "" w
  referenced_content kind lower default_key (some ref) w =
      if ref.name == "" then pure "" w else elim (config_maps.get nacos.namespace ref.name w) [
        | ok cm ↦
            content_at kind (ref_key ref default_key) (lookup (ref_key ref default_key) cm.contents)
              w
        | fail e ↦
            panic
              (my_error (
                new_err code_parameter_error ("Failed to get " +++ lower +++ " ConfigMap %s: %v")
                  (ref.name ∷ error_text e ∷ [])))
              w
      ]

-- The internal part first, so that the user's lines come later in the file.
unfoldable pub merged_content : String → String → String
merged_content internal_content user_content =
    (if internal_content == ""
      then ""
      else "# ===== Internal Configuration =====\n" +++ internal_content +++ "\n\n")
    +++ (if user_content == ""
        then ""
        else "# ===== User Configuration =====\n" +++ user_content +++ "\n")

unfoldable pub build_merged_config_map :
    {W : Type 0} → RangeOrder → ResourceApi W ConfigMap → Nacos → Go W ConfigMap
unfolding referenced_content merged_content final_config_name object_labels
build_merged_config_map order config_maps nacos = do
  internal ←
      referenced_content config_maps nacos "Internal-config" "internal-config" "internal.properties"
        nacos.spec.internal_config_ref
  user ←
      referenced_content config_maps nacos "User-config" "user-config" "user.properties"
        nacos.spec.user_config_ref
  pure (record {
    meta =
        object_meta nacos (final_config_name nacos) (object_labels order nacos) nacos.annotations;
    contents = ("application.properties", merged_content internal user) ∷ [];
  })

-- The first 16 characters of the SHA-256.
unfoldable pub compute_config_digest : (String → String) → String → String
compute_config_digest sha256_hex content = take_chars 16 (sha256_hex content)

-- The script of the database job.
unfoldable pub build_mysql_config_map : RangeOrder → Nacos → String → ConfigMap
unfolding object_labels
build_mysql_config_map order nacos sql = record {
  meta = object_meta nacos (nacos.name +++ "-mysql-sql-init") (object_labels order nacos) [];
  contents = ("SQL_SCRIPT", sql) ∷ [];
}
