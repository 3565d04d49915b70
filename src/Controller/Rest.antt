-- ===== src/Controller/Rest.antt =====
-- The steps before MakeEnsure change nothing of the resource but its status, and MakeEnsure keeps the
-- number of replicas.
use nacos_operator.Prelude.{ℕ, ℤ, Option, none, some, String, ◌≡◌, sym, ap, subst, ◌∙◌}
use nacos_operator.Go.{Outcome, done, Go}
use nacos_operator.Api.{Nacos, NacosStatus}
use nacos_operator.Operator.Services.{Services, State, set_nacos}
use nacos_operator.Operator.{
  start_creating, admin_rotated, call_status_update, pre_check, pg_ensure, rotate_admin,
  make_ensure, set_config_digest,
}
use nacos_operator.Operator.Keeps.{Keeps, keeps_rules}
use nacos_operator.Operator.Session.Written.{pg_ensure-Keeps, rotate_admin-Keeps}
use nacos_operator.Operator.Unmoved.{KeepsRest, with_status}
use nacos_operator.Operator.Ensured.{make_ensure-Keeps}
use nacos_operator.Kind.Validated.{validation_field-replicas}

module _ {W : Type 0} (services : Services W) where
  -- The resource is `n`, but for the status.
  abbrev pub Is : Nacos → State W → Type 0
  Is n s = (t : NacosStatus) × (s.nacos ≡ with_status n t)

  module _ (n : Nacos) (rest : KeepsRest services n) where
    writes_status :
        (f : NacosStatus → NacosStatus)
        → Keeps (Is n) (set_nacos (λ x. record x { status = f x.status }))
    writes_status f = record {
      at = λ s h. (f h.0, ap (λ (x : Nacos). record x { status = f x.status }) h.1);
    }

    call_status_update-Keeps : Keeps (Is n) (call_status_update services)
    call_status_update-Keeps = record {
      at = λ s h. (
        (services.status_update (with_status n h.0) s.world).0.1.status,
        ap (λ (x : Nacos). (services.status_update x s.world).0.1) h.1 ∙ rest h.0 s.world,
      );
    }

    starts : Keeps (Is n) (set_nacos (start_creating services))
    starts = record {
      at = λ s h.
          ((start_creating services (with_status n h.0)).status, ap (start_creating services) h.1);
    }

    pub pre_check-Is : Keeps (Is n) (pre_check services)
    unfolding pre_check
    pre_check-Is = search (keeps_rules, starts) depth 12

    rotates :
        (version sum : String) (time : ℕ)
        → Keeps (Is n) (set_nacos (admin_rotated services version sum time))
    rotates version sum time = record {
      at = λ s h. (
        (admin_rotated services version sum time (with_status n h.0)).status,
        ap (admin_rotated services version sum time) h.1,
      );
    }

    pub pg_ensure-Is : Keeps (Is n) (pg_ensure services)
    pg_ensure-Is =
        pg_ensure-Keeps services (λ s w h. h) call_status_update-Keeps (λ v t. writes_status _)
          rotates

    pub rotate_admin-Is : Keeps (Is n) (rotate_admin services)
    rotate_admin-Is =
        rotate_admin-Keeps services (λ s w h. h) call_status_update-Keeps (λ v t. writes_status _)
          rotates

    pub kept_end :
        (m : Go (State W) (Unit {0})) (s s' : State W)
        → Keeps (Is n) m
        → m s ≡ (done tt, s')
        → Is n s
        → Is n s'
    kept_end m s s' km e h = subst (λ (r : Outcome Unit × State W). Is n r.1) e (km.at s h)

  -- MakeEnsure keeps the number of replicas.
  set_config_digest-replicas :
      (r : Option ℤ) (o : Option String)
      → Keeps (λ (s : State W). s.nacos.spec.replicas ≡ r) (set_config_digest services o)
  set_config_digest-replicas r none = record { at = λ s h. h }
  set_config_digest-replicas r (some c) = record { at = λ s h. h }

  make_ensure-replicas :
      (r : Option ℤ) → Keeps (λ (s : State W). s.nacos.spec.replicas ≡ r) (make_ensure services)
  make_ensure-replicas r =
      make_ensure-Keeps services (λ s w h. h)
        (record { at = λ s h. validation_field-replicas s.nacos.spec ∙ h })
        (set_config_digest-replicas r) (λ s h. h) (λ s h. h)

  pub make_ensure-same_replicas :
      (r : Option ℤ) (s s' : State W)
      → make_ensure services s ≡ (done tt, s')
      → s.nacos.spec.replicas ≡ r
      → s'.nacos.spec.replicas ≡ r
  make_ensure-same_replicas r s s' e h =
      ap (λ (x : Outcome Unit × State W). x.1.nacos.spec.replicas) (sym e)
      ∙ (make_ensure-replicas r).at s h
