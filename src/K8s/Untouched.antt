-- ===== src/K8s/Untouched.antt =====
-- What the requests of one kind of object leave as it was: any reading of the server that the API
-- leaves alone.
use nacos_operator.Prelude.{
  String, ◌≡◌, refl, ◌∙◌, Bool, true, false, Option, none, some, List, [], ◌∷◌, if◌then◌else◌,
}
use nacos_operator.Go.{
  KubeError, not_found, failure, Reply, ok, fail, Go, Outcome, done, panics, continue, ◌>>=◌, pure,
}
use nacos_operator.Types.{ConfigMap, Service, StatefulSet, Job, PersistentVolumeClaim}
use nacos_operator.K8s.Interface.{ResourceApi}
use nacos_operator.K8s.Objects.{
  create_if_not_exists_config_map, create_or_update_config_map, create_or_update_service,
  create_if_not_exists_job, create_absent, after_update, after_get,
}
use nacos_operator.K8s.StatefulSets.{
  dereference, first, check_first_claims, check_volume_claim_templates, Marshal,
  create_or_update_stateful_set, check_sts, apply_operator, Operator, no_change, update, delete,
}

-- A request that writes objects whose names satisfy `P` leaves what `read` reads.
pub record Untouched {W R A : Type 0} (api : ResourceApi W R) (name : R → String)
    (P : String → Type 0) (read : W → A) : Type 0 where
  pub creates : (ns : String) (r : R) (w : W) → P (name r) → read (api.create ns r w).1 ≡ read w
  pub updates : (ns : String) (r : R) (w : W) → P (name r) → read (api.update ns r w).1 ≡ read w
  pub deletes : (ns n : String) (w : W) → P n → read (api.delete ns n w).1 ≡ read w

module _ {W R A : Type 0} {api : ResourceApi W R} {name : R → String} {P : String → Type 0}
    {read : W → A} (law : Untouched api name P read) (ns : String) (r : R)
    (named : P (name r)) where
  create_absent-read :
      (e : KubeError) (w : W) → read (create_absent (api.create ns r) e w).1 ≡ read w
  create_absent-read (not_found _) w = law.creates ns r w named
  create_absent-read (failure text) w = refl

  after_get-read :
      (found : R → W → Option KubeError × W)
      → ((stored : R) (v : W) → read (found stored v).1 ≡ read v)
      → (answer : Reply R) (w : W) → read (after_get (api.create ns r) found answer w).1 ≡ read w
  after_get-read found f (ok stored) w = f stored w
  after_get-read found f (fail e) w = create_absent-read e w

  after_update-read :
      (answer : Option KubeError × W)
      → read (after_update (api.create ns r) answer).1 ≡ read answer.1
  after_update-read (none, v) = refl
  after_update-read (some e, v) = create_absent-read e v

module _ {W A : Type 0} {P : String → Type 0} {read : W → A} where
  pub create_or_update_config_map-read :
      {api : ResourceApi W ConfigMap} (law : Untouched api (λ cm. cm.meta.name) P read)
      (ns : String) (cm : ConfigMap) (w : W)
      → P cm.meta.name
      → read (create_or_update_config_map api ns cm w).1 ≡ read w
  unfolding create_or_update_config_map
  create_or_update_config_map-read {api = api} law ns cm w named =
      after_get-read law ns cm named _ (λ stored v. law.updates ns _ v named)
        (api.get ns cm.meta.name w) w

  pub create_if_not_exists_config_map-read :
      {api : ResourceApi W ConfigMap} (law : Untouched api (λ cm. cm.meta.name) P read)
      (ns : String) (cm : ConfigMap) (w : W)
      → P cm.meta.name
      → read (create_if_not_exists_config_map api ns cm w).1 ≡ read w
  unfolding create_if_not_exists_config_map
  create_if_not_exists_config_map-read {api = api} law ns cm w named =
      after_update-read law ns cm named (api.update ns cm w) ∙ law.updates ns cm w named

  pub create_or_update_service-read :
      {api : ResourceApi W Service} (law : Untouched api (λ s. s.meta.name) P read) (ns : String)
      (s : Service) (w : W)
      → P s.meta.name
      → read (create_or_update_service api ns s w).1 ≡ read w
  unfolding create_or_update_service
  create_or_update_service-read {api = api} law ns s w named =
      after_get-read law ns s named _ (λ stored v. law.updates ns _ v named)
        (api.get ns s.meta.name w) w

  pub create_if_not_exists_job-read :
      {api : ResourceApi W Job} (law : Untouched api (λ j. j.meta.name) P read) (ns : String)
      (j : Job) (w : W)
      → P j.meta.name
      → read (create_if_not_exists_job api ns j w).1 ≡ read w
  unfolding create_if_not_exists_job
  create_if_not_exists_job-read {api = api} law ns j w named =
      after_get-read law ns j named _ (λ stored v. refl) (api.get ns j.meta.name w) w

-- `m` leaves what `read` reads.
record Leaves {W A B : Type 0} (read : W → A) (m : Go W B) : Type 0 where
  at : (w : W) → read (m w).1 ≡ read w

module _ {W A : Type 0} {read : W → A} where
  Leaves-pure : {B : Type 0} (b : B) → Leaves read (pure b)
  Leaves-pure b = record { at = λ w. refl }

  Leaves-if :
      {B : Type 0} (b : Bool) (m n : Go W B)
      → Leaves read m
      → Leaves read n
      → Leaves read (if b then m else n)
  Leaves-if true m n lm ln = lm
  Leaves-if false m n lm ln = ln

  Leaves-dereference : {B : Type 0} (o : Option B) → Leaves read (dereference o)
  Leaves-dereference none = record { at = λ w. refl }
  Leaves-dereference (some b) = record { at = λ w. refl }

  Leaves-first : {B : Type 0} (xs : List B) → Leaves read (first xs)
  Leaves-first [] = record { at = λ w. refl }
  Leaves-first (x ∷ xs) = record { at = λ w. refl }

  continue-read :
      {B C : Type 0} (r : Outcome B × W) (f : B → Go W C)
      → ((b : B) → Leaves read (f b))
      → read (continue r f).1 ≡ read r.1
  continue-read (done b, w) f lf = (lf b).at w
  continue-read (panics p, w) f lf = refl

  Leaves-bind :
      {B C : Type 0} (m : Go W B) (f : B → Go W C)
      → Leaves read m
      → ((b : B) → Leaves read (f b))
      → Leaves read (m >>= f)
  Leaves-bind m f lm lf = record { at = λ w. continue-read (m w) f lf ∙ lm.at w }

  ruleset leave_rules = (Leaves-pure, Leaves-if, Leaves-dereference, Leaves-first, Leaves-bind)

  module _ (marshal : Marshal) where
    -- The comparison of two stateful sets makes no request.
    check_first_claims-Leaves :
        (old new : PersistentVolumeClaim) → Leaves read (check_first_claims marshal old new)
    check_first_claims-Leaves old new = search leave_rules

    check_volume_claim_templates-Leaves :
        (olds news : List PersistentVolumeClaim)
        → Leaves read (check_volume_claim_templates marshal olds news)
    unfolding check_volume_claim_templates
    check_volume_claim_templates-Leaves [] [] = search leave_rules
    check_volume_claim_templates-Leaves [] (n ∷ ns) = search leave_rules
    check_volume_claim_templates-Leaves (o ∷ os) [] = search leave_rules
    check_volume_claim_templates-Leaves (o ∷ os) (n ∷ ns) =
        search (leave_rules, check_first_claims-Leaves)

    check_sts-Leaves : (old new : StatefulSet) → Leaves read (check_sts marshal old new)
    unfolding check_sts
    check_sts-Leaves old new = search (leave_rules, check_volume_claim_templates-Leaves) depth 20

    module _ {api : ResourceApi W StatefulSet} {P : String → Type 0}
        (law : Untouched api (λ s. s.meta.name) P read) (everything : (n : String) → P n)
        (ns : String) (ss : StatefulSet) where
      apply_operator-Leaves :
          (stored : StatefulSet) (op : Operator)
          → Leaves read (apply_operator marshal api ns ss stored op)
      unfolding apply_operator
      apply_operator-Leaves stored no_change = Leaves-pure none
      apply_operator-Leaves stored update = record { at = λ w. law.updates ns _ w (everything _) }
      apply_operator-Leaves stored delete = record { at = λ w. law.deletes ns _ w (everything _) }

      answered :
          (w : W) (answer : Reply StatefulSet)
          → api.get ns ss.meta.name w ≡ answer
          → read (create_or_update_stateful_set marshal api ns ss w).1 ≡ read w
      unfolding create_or_update_stateful_set
      answered w (ok stored) e =
          rw (create_or_update_stateful_set, e)
            ((Leaves-bind (check_sts marshal stored ss) (apply_operator marshal api ns ss stored)
                (check_sts-Leaves stored ss) (apply_operator-Leaves stored)).at
              w)
      answered w (fail (not_found _)) e =
          rw (create_or_update_stateful_set, e) (law.creates ns ss w (everything _))
      answered w (fail (failure text)) e = rw (create_or_update_stateful_set, e) refl

      pub create_or_update_stateful_set-read :
          (w : W) → read (create_or_update_stateful_set marshal api ns ss w).1 ≡ read w
      create_or_update_stateful_set-read w = answered w (api.get ns ss.meta.name w) refl
