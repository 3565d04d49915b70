-- ===== src/Controller/Achieved.antt =====
-- What a reconcile has brought about when its work ends with `true`.
use nacos_operator.Prelude.{
  ℕ, ℤ, Option, some, ◌≤◌, ◌*◌, length, String, ◌≡◌, refl, sym, ap, subst, ◌∙◌, Bool, true, false,
  List, ◌==◌, ◌+++◌, pos,
}
use nacos_operator.Go.{ok, Outcome, done, panics}
use nacos_operator.Types.{Pod, StatefulSet}
use nacos_operator.Api.{Nacos, phase_running}
use nacos_operator.K8s.Laws.{KubeLaws}
use nacos_operator.Kind.{manages_config, final_config_name}
use nacos_operator.Operator.Services.{Services, State}
use nacos_operator.Operator.{
  update_last_event, update_status_running, check_kind, check_nacos, resolve_identity_header,
  pre_check, pg_ensure, rotate_admin, make_ensure, check_and_make_heal, operator_update_status,
}
use nacos_operator.Go.Inversion.{continue-done}
use nacos_operator.Operator.Owned.{KeepsName}
use nacos_operator.Operator.Unmoved.{KeepsRest, with_status}
use nacos_operator.Operator.Members.{AllAnswer, check_nacos-AllAnswer}
use nacos_operator.Operator.Quorum.{all_ready, check_kind-quorum}
use nacos_operator.Operator.Sent.{Sends, update_status_running-Sends}
use nacos_operator.Operator.Deployed.Defs.{validated, IsDeployed}
use nacos_operator.Operator.Deployed.Cluster.{make_ensure-IsDeployed}
use nacos_operator.Controller.Reconciler.{steps, reconcile_work}
use nacos_operator.Controller.Outcomes.{EndsAs, reconcile_work-EndsAs}
use nacos_operator.Controller.Rest.{
  make_ensure-same_replicas, Is, kept_end, pre_check-Is, pg_ensure-Is, rotate_admin-Is,
}

module _ {W : Type 0} (services : Services W) where
  -- When the work ends with `true`, so have the six steps.
  steps_end :
      (s s' : State W) (r : Outcome (Unit {0}) × State W)
      → EndsAs services s r
      → steps services s ≡ r
      → reconcile_work services s ≡ (done true, s')
      → steps services s ≡ (done tt, s')
  steps_end s s' (done tt, s1) ends e h =
      e ∙ ap (λ (x : Outcome Bool × State W). (done tt, x.1)) (sym ends ∙ h)
  steps_end s s' (panics p, s1) ends e h = cc

  -- The conditions on the resource do not look at its status.
  still-IsDeployed :
      KubeLaws services.api
      → KeepsName services
      → (n : Nacos) (s s' : State W) → Is services n s
      → (validated n).spec.type ≡ "cluster"
      → manages_config (validated n) ≡ true
      → (n.name +++ "-mysql-sql-init" == final_config_name (validated n)) ≡ false
      → make_ensure services s ≡ (done tt, s')
      → IsDeployed services (validated s.nacos) s.world s'
  unfolding final_config_name
  still-IsDeployed laws keeps_name n s s' (t, e) typed managed other =
      make_ensure-IsDeployed services laws keeps_name s s'
        (ap (λ (x : Nacos). (validated x).spec.type) e ∙ typed)
        (ap (λ (x : Nacos). manages_config (validated x)) e ∙ managed)
        (ap (λ (x : Nacos). x.name +++ "-mysql-sql-init" == final_config_name (validated x)) e
          ∙ other)

  -- The six steps of a work that ended with `true`, one after the other.
  record Done (s s' : State W) : Type 0 where
    s0 : State W
    s1 : State W
    s2 : State W
    s3 : State W
    asked : State W
    s4 : State W
    pods : List Pod
    prechecked : pre_check services s ≡ (done tt, s0)
    initialized : pg_ensure services s0 ≡ (done tt, s1)
    rotated : rotate_admin services s1 ≡ (done tt, s2)
    ensured : make_ensure services s2 ≡ (done tt, s3)
    listed : check_kind services s3 ≡ (done pods, asked)
    checked : check_nacos services pods asked ≡ (done tt, s4)
    reported : update_status_running services s4 ≡ (done tt, s')

  steps-Done : (s s' : State W) → reconcile_work services s ≡ (done true, s') → Done s s'
  unfolding steps check_and_make_heal operator_update_status
  steps-Done s s' h =
      let h0 = steps_end s s' (steps services s) (reconcile_work-EndsAs services s) refl h in
      let (_, s0, e0, h1) = continue-done (pre_check services s) _ tt s' h0 in
      let (_, s1, e1, h2) = continue-done (pg_ensure services s0) _ tt s' h1 in
      let (_, s2, e2, h3) = continue-done (rotate_admin services s1) _ tt s' h2 in
      let (_, s3, e3, h4) = continue-done (make_ensure services s2) _ tt s' h3 in
      let (_, s4, e4, h5) = continue-done (check_and_make_heal services s3) _ tt s' h4 in
      let (pods, asked, listed, checked) = continue-done (check_kind services s3) _ tt s4 e4 in
      let (_, s5, e5, h6) = continue-done (update_status_running services s4) _ tt s' h5 in
      record {
        s0 = s0;
        s1 = s1;
        s2 = s2;
        s3 = s3;
        asked = asked;
        s4 = s4;
        pods = pods;
        prechecked = e0;
        initialized = e1;
        rotated = e2;
        ensured = e3;
        listed = listed;
        checked = checked;
        reported = e5 ∙ h6;
      }

  -- The resource is as it was when MakeEnsure begins, but for the status.
  before_ensure :
      (s s' : State W) (d : Done s s') → KeepsRest services s.nacos → Is services s.nacos d.s2
  before_ensure s s' d rest =
      kept_end services s.nacos rest (rotate_admin services) d.s1 d.s2
        (rotate_admin-Is services s.nacos rest) d.rotated
        (kept_end services s.nacos rest (pg_ensure services) d.s0 d.s1
          (pg_ensure-Is services s.nacos rest) d.initialized
          (kept_end services s.nacos rest (pre_check services) s d.s0
            (pre_check-Is services s.nacos rest) d.prechecked (s.nacos.status, refl)))

  -- `found` is the state in which the objects were stored, `built` the one in which the pods were
  -- asked, and `ready` the one that was reported.
  pub record Achieved (n : ℕ) (s s' : State W) : Type 0 where
    pub found : State W
    pub built : State W
    pub asked : State W
    pub ready : State W
    pub pods : List Pod
    pub leader : String
    pub sent : Nacos
    pub resource : found.nacos ≡ record s.nacos { status = found.nacos.status }
    pub deployed : IsDeployed services (validated found.nacos) found.world built
    pub listed : check_kind services built ≡ (done pods, asked)
    pub set : StatefulSet
    pub stored :
        services.api.stateful_sets.get built.nacos.namespace built.nacos.name built.world ≡ ok set
    pub wants : set.spec.replicas ≡ some (pos n)
    pub half : n ≤ 2 * length pods
    pub are_ready : all_ready pods ≡ true
    pub answers :
        AllAnswer services
          (resolve_identity_header services asked.nacos asked.world)
          (some (pos n))
          asked.world
          leader
          pods
    pub reports :
        Sends services ready s' sent (update_last_event services (pos 200) "" true ready).1.world
    pub running : sent.status.phase ≡ phase_running

  -- If the work ends with `true`, for a resource with `n` replicas that is a cluster once it is
  -- validated and that refers to a configuration, then the merged file, the headless service and
  -- the client service, each with its ports, its selector and its type, where an empty type is
  -- `ClusterIP`, were stored as they are built from the resource, whose status alone may have
  -- changed since; after that the stored stateful set wanted `n` replicas, at least half of `n`
  -- pods were listed, all of them ready, and each of these answered with `n` servers, all of them
  -- up and naming no other leader than one; and the last thing that was sent is a status in the
  -- phase `Running`. This is for a server in which a successful create or update stores the
  -- contents of a config map and the ports, the selector and the type of a service as they are
  -- sent, an empty type as `ClusterIP`, and a request changes no object of another kind or name; an
  -- owner reference that keeps the name of an object; an answer to a status update of the resource,
  -- with the specification that it had when the work began, that differs from what was sent in the
  -- status alone; and a final name that is not the name of the config map of the database script.
  pub reconcile_work-Achieved :
      KubeLaws services.api
      → KeepsName services
      → (n : ℕ) (s s' : State W) → KeepsRest services s.nacos
      → s.nacos.spec.replicas ≡ some (pos n)
      → (validated s.nacos).spec.type ≡ "cluster"
      → manages_config (validated s.nacos) ≡ true
      → (s.nacos.name +++ "-mysql-sql-init" == final_config_name (validated s.nacos)) ≡ false
      → reconcile_work services s ≡ (done true, s')
      → Achieved n s s'
  reconcile_work-Achieved laws keeps_name n s s' rest replicas typed managed other h =
      let d : Done s s' = steps-Done s s' h in
      let is : Is services s.nacos d.s2 = before_ensure s s' d rest in
      let counted =
        make_ensure-same_replicas services (some (pos n)) d.s2 d.s3 d.ensured
          (ap (λ (x : Nacos). x.spec.replicas) is.1 ∙ replicas) in
      let (set, stored, wants, half, are_ready, same) =
        check_kind-quorum services n d.s3 d.asked d.pods counted d.listed in
      let (leader, answers, _) = check_nacos-AllAnswer services d.pods d.asked d.s4 d.checked in
      let (sent, sends, running, _) = update_status_running-Sends services d.s4 in
      record {
        found = d.s2;
        built = d.s3;
        asked = d.asked;
        ready = d.s4;
        pods = d.pods;
        leader = leader;
        sent = sent;
        resource = is.1 ∙ ap (with_status s.nacos) (ap (λ (x : Nacos). x.status) (sym is.1));
        deployed =
            still-IsDeployed laws keeps_name s.nacos d.s2 d.s3 is typed managed other d.ensured;
        listed = d.listed;
        set = set;
        stored = stored;
        wants = wants;
        half = half;
        are_ready = are_ready;
        answers =
            subst
              (λ (r : Option ℤ).
                AllAnswer services (resolve_identity_header services d.asked.nacos d.asked.world) r
                  d.asked.world leader d.pods)
              (ap (λ (x : Nacos). x.spec.replicas) same ∙ counted) answers;
        reports =
            subst
              (λ (x : State W).
                Sends services d.s4 x sent
                  (update_last_event services (pos 200) "" true d.s4).1.world)
              (ap (λ (r : Outcome Unit × State W). r.1) d.reported) sends;
        running = running;
      }
