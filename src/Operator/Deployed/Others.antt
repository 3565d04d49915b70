-- ===== src/Operator/Deployed/Others.antt =====
-- What an operation that ends leaves of the objects of its own kind that have another name.
use nacos_operator.Prelude.{String, ◌≡◌, sym, ap, ◌∙◌, ◌==◌, ◌+++◌}
use nacos_operator.Go.{done}
use nacos_operator.K8s.{create_or_update_service, create_if_not_exists_config_map}
use nacos_operator.K8s.Stored.{config_map_name, service_name}
use nacos_operator.K8s.Untouched.{
  Untouched, create_or_update_service-read, create_if_not_exists_config_map-read,
}
use nacos_operator.K8s.Laws.{OtherThan}
use nacos_operator.Kind.{build_mysql_config_map}
use nacos_operator.Operator.Services.{Services, State}
use nacos_operator.Operator.Ensure.{
  ensure_client_service, ensure_mysql_config_map, own_service, own_config_map, sql_text,
}
use nacos_operator.Operator.Inversion.{continue-done}
use nacos_operator.Operator.Owned.{
  KeepsName, ensured-done, owned_service-done, owned_config_map-done,
}
use nacos_operator.Operator.Served.{built_client}

module _ {W A : Type 0} (services : Services W) (keeps_name : KeepsName services) (n : String)
    {read : W → A} where
  pub client-reads :
      Untouched services.api.services service_name (OtherThan n) read
      → (s s' : State W) → OtherThan n (built_client services s).meta.name
      → ensure_client_service services s ≡ (done tt, s')
      → read s'.world ≡ read s.world
  unfolding ensure_client_service
  client-reads law s s' other h =
      let b = built_client services s in
      let (svc, s1, e1, h1) = continue-done (own_service services s.nacos b s) _ tt s' h in
      let (meta, named, e, same) = owned_service-done services keeps_name s.nacos b svc s s1 e1 in
      let call = create_or_update_service services.api.services s.nacos.namespace svc in
      let (written, _) = ensured-done services call s1 s' tt h1 in
      ap (λ (r : _ × W). read r.1) (sym written)
      ∙ create_or_update_service-read law s.nacos.namespace svc s1.world
          (ap (λ name. name == n) (ap service_name e ∙ named) ∙ other)
      ∙ ap (λ (x : State W). read x.world) same

  pub script-reads :
      Untouched services.api.config_maps config_map_name (OtherThan n) read
      → (s s' : State W) → OtherThan n (s.nacos.name +++ "-mysql-sql-init")
      → ensure_mysql_config_map services s ≡ (done tt, s')
      → read s'.world ≡ read s.world
  unfolding ensure_mysql_config_map build_mysql_config_map
  script-reads law s s' other h =
      let b =
        build_mysql_config_map services.order s.nacos
          (sql_text services (services.read_file "config/sql/nacos-mysql.sql" s.world)) in
      let (cm, s1, e1, h1) = continue-done (own_config_map services s.nacos b s) _ tt s' h in
      let (named, _, same) = owned_config_map-done services keeps_name s.nacos b cm s s1 e1 in
      let call = create_if_not_exists_config_map services.api.config_maps s.nacos.namespace cm in
      let (written, _) = ensured-done services call s1 s' tt h1 in
      ap (λ (r : _ × W). read r.1) (sym written)
      ∙ create_if_not_exists_config_map-read law s.nacos.namespace cm s1.world
          (ap (λ name. name == n) named ∙ other)
      ∙ ap (λ (x : State W). read x.world) same
