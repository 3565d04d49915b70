-- ===== src/Kind/Environment.antt =====
-- The environment of the Nacos container.
use nacos_operator.Prelude.{
  String, Bool, true, false, none, List, [], ◌∷◌, ◌++◌, ◌==◌, itoa, if◌then◌else◌,
}
use nacos_operator.Go.{Go, pure, ◌>>=◌}
use nacos_operator.Types.{EnvVar}
use nacos_operator.Api.{NacosSpec, Certification, Database}
use nacos_operator.K8s.{dereference}

abbrev pub env_var : String → String → EnvVar
env_var name value = record { name = name; value = value; value_from = none }

-- strconv.FormatBool
abbrev format_bool : Bool → String
format_bool true = "true"
format_bool false = "false"

-- Each case of the switch appends to the list of the spec again, not to the list so far.
unfoldable pub mode_env : NacosSpec → List EnvVar
mode_env spec =
    if spec.function_mode == "naming"
    then spec.env ++ env_var "FUNCTION_MODE" "naming" ∷ []
    else if spec.function_mode == "config"
    then spec.env ++ env_var "FUNCTION_MODE" "config" ∷ []
    else spec.env ++ env_var "PREFER_HOST_MODE" "hostname" ∷ []

abbrev pub auth_env : Certification → List EnvVar
auth_env c =
    if c.enabled
    then env_var "NACOS_AUTH_ENABLE" (format_bool c.enabled)
      ∷ env_var "NACOS_AUTH_TOKEN_EXPIRE_SECONDS" c.token_expire_seconds
      ∷ env_var "NACOS_AUTH_TOKEN" c.token
      ∷ env_var "NACOS_AUTH_CACHE_ENABLE" (format_bool c.cache_enabled)
      ∷ []
    else []

abbrev pub database_env : Database → List EnvVar
database_env d =
    if d.type_database == "embedded"
    then env_var "EMBEDDED_STORAGE" "embedded" ∷ []
    else if d.type_database == "mysql"
    then env_var "SPRING_DATASOURCE_PLATFORM" d.type_database
      ∷ env_var "MYSQL_SERVICE_HOST" d.mysql_host
      ∷ env_var "MYSQL_SERVICE_PORT" d.mysql_port
      ∷ env_var "MYSQL_SERVICE_DB_NAME" d.mysql_db
      ∷ env_var "MYSQL_SERVICE_USER" d.mysql_user
      ∷ env_var "MYSQL_SERVICE_PASSWORD" d.mysql_password
      ∷ []
    else []

abbrev start_mode_env : {W : Type 0} → NacosSpec → Go W (List EnvVar)
start_mode_env spec =
    if spec.type == "standalone" then pure (env_var "MODE" "standalone" ∷ []) else (do
      replicas ← dereference spec.replicas
      pure (env_var "NACOS_REPLICAS" (itoa replicas) ∷ []))

unfoldable pub build_env : {W : Type 0} → NacosSpec → Go W (List EnvVar)
unfolding mode_env
build_env spec = do
  mode ← start_mode_env spec
  pure (((mode_env spec ++ auth_env spec.certification) ++ database_env spec.database) ++ mode)

-- The five variables of the containers that reach the database.
abbrev pub mysql_env : Database → List EnvVar
mysql_env d =
    env_var "MYSQL_HOST" d.mysql_host
    ∷ env_var "MYSQL_DB" d.mysql_db
    ∷ env_var "MYSQL_PORT" d.mysql_port
    ∷ env_var "MYSQL_USER" d.mysql_user
    ∷ env_var "MYSQL_PASS" d.mysql_password
    ∷ []
