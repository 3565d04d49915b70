-- ===== src/Operator/Owned.antt =====
-- The steps that the Ensure operations share: the owner reference, and a call that must not fail.
use nacos_operator.Prelude.{◌≡◌, ap, sym, ◌∙◌, Option, none, some}
use nacos_operator.Go.{KubeError, Outcome, done, panics, ok, ensure_normal}
use nacos_operator.Types.{ObjectMeta, ConfigMap, Service}
use nacos_operator.Api.{Nacos}
use nacos_operator.Operator.Services.{Services, State}
use nacos_operator.Operator.Ensure.{ensured, own_service, own_config_map}
use nacos_operator.Operator.Inversion.{ensure_reply-done}

module _ {W : Type 0} (services : Services W) where
  -- An owner reference leaves the name of the object.
  abbrev pub KeepsName : Type 0
  KeepsName =
      (n : Nacos) (meta owned : ObjectMeta)
      → services.set_controller_reference n meta ≡ ok owned
      → owned.name ≡ meta.name

  ensure_normal_end :
      (answer : Option KubeError × W) (n : Nacos) (s' : State W) (t : Unit)
      → ensure_normal answer.0 (record { nacos = n; world = answer.1 }) ≡ (done t, s')
      → (answer ≡ (none, s'.world)) × (s'.nacos ≡ n)
  unfolding ensure_normal
  ensure_normal_end (none, w) n s' t h = (
    ap (λ (r : Outcome Unit × State W). (none, r.1.world)) h,
    ap (λ (r : Outcome Unit × State W). r.1.nacos) (sym h),
  )
  ensure_normal_end (some e, w) n s' t h = cc

  pub ensured-done :
      (call : W → Option KubeError × W) (s s' : State W) (t : Unit)
      → ensured services call s ≡ (done t, s')
      → (call s.world ≡ (none, s'.world)) × (s'.nacos ≡ s.nacos)
  ensured-done call s s' t h = ensure_normal_end (call s.world) s.nacos s' t h

module _ {W : Type 0} (services : Services W) (keeps_name : KeepsName services) where
  pub owned_service-done :
      (nacos : Nacos) (built svc : Service) (s s' : State W)
      → own_service services nacos built s ≡ (done svc, s')
      → (meta : ObjectMeta) × (meta.name ≡ built.meta.name)
        × (svc ≡ record built { meta = meta })
        × (s' ≡ s)
  owned_service-done nacos built svc s s' h =
      let (meta, scr, e) =
        ensure_reply-done (services.set_controller_reference nacos built.meta) _ svc s s' h in
      (
        meta,
        keeps_name nacos built.meta meta scr,
        ap (λ (r : Outcome Service × State W). elim r.0 [ done x ↦ x | panics _ ↦ svc ]) (sym e),
        ap (λ (r : Outcome Service × State W). r.1) (sym e),
      )

  pub owned_config_map-done :
      (nacos : Nacos) (built cm : ConfigMap) (s s' : State W)
      → own_config_map services nacos built s ≡ (done cm, s')
      → (cm.meta.name ≡ built.meta.name) × (cm.contents ≡ built.contents) × (s' ≡ s)
  owned_config_map-done nacos built cm s s' h =
      let (meta, scr, e) =
        ensure_reply-done (services.set_controller_reference nacos built.meta) _ cm s s' h in
      let same : cm ≡ record built { meta = meta } =
        ap (λ (r : Outcome ConfigMap × State W). elim r.0 [ done c ↦ c | panics _ ↦ cm ]) (sym e) in
      (
        ap (λ (c : ConfigMap). c.meta.name) same ∙ keeps_name nacos built.meta meta scr,
        ap (λ (c : ConfigMap). c.contents) same,
        ap (λ (r : Outcome ConfigMap × State W). r.1) (sym e),
      )
