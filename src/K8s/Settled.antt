-- ===== src/K8s/Settled.antt =====
-- When a stored stateful set needs no further request.
use nacos_operator.Prelude.{
  ℕ, String, ◌≡◌, refl, sym, ap, ◌⊎◌, inl, inr, ◌∙◌, Option, none, some, List, [], ◌∷◌, ℤ, true,
  length,
}
use nacos_operator.GoMap.{GoMap}
use nacos_operator.Go.{KubeError, not_found, ok, fail, Outcome, done, panics, lift}
use nacos_operator.Types.{
  StatefulSet, StatefulSetSpec, Container, PersistentVolumeClaim, ResourceRequirements, EnvVar,
}
use nacos_operator.K8s.Interface.{ResourceApi}
use nacos_operator.K8s.StatefulSets.{
  Marshal, create_or_update_stateful_set, check_sts, update, apply_operator,
}

-- What the comparison of two stateful sets reads.
abbrev pub compared_container : List Container → Option (ResourceRequirements × List EnvVar)
compared_container [] = none
compared_container (c ∷ cs) = some (c.resources, c.env)

abbrev Compared : Type 0
Compared = ResourceRequirements × Option String × ℕ

abbrev pub compared_claims : List PersistentVolumeClaim → Option Compared
compared_claims [] = none
compared_claims (c ∷ cs) = some (c.spec.resources, c.spec.storage_class_name, length cs)

abbrev pub compared :
    StatefulSetSpec
    → Option (ResourceRequirements × List EnvVar)
      × GoMap String
      × Option ℤ
      × Option (ResourceRequirements × Option String × ℕ)
compared s = (
  compared_container s.template.spec.containers,
  s.template.annotations,
  s.replicas,
  compared_claims s.volume_claim_templates,
)

-- What the API server promises of a stateful set: a successful request stores what is compared of
-- the specification that was sent, once the server has filled in what it leaves out. `fill` is what
-- the server fills in: one replica where none are given, a `v1` in a reference to a field, a name
-- of the storage class.
pub record StoresFilled {W : Type 0} (api : ResourceApi W StatefulSet)
    (fill : StatefulSetSpec → StatefulSetSpec) : Type 0 where
  pub create_stores :
      (ns : String) (r : StatefulSet) (w w' : W)
      → api.create ns r w ≡ (none, w')
      → (stored : StatefulSet) × (api.get ns r.meta.name w' ≡ ok stored)
        × (compared stored.spec ≡ compared (fill r.spec))
  pub update_stores :
      (ns : String) (r : StatefulSet) (w w' : W)
      → api.update ns r w ≡ (none, w')
      → (stored : StatefulSet) × (api.get ns r.meta.name w' ≡ ok stored)
        × (compared stored.spec ≡ compared (fill r.spec))

-- A container, the replicas, and the storage class of the first claim, if there is a claim: without
-- them the comparison panics.
abbrev pub HasClass : List PersistentVolumeClaim → Type 0
HasClass [] = Unit
HasClass (c ∷ cs) = (class : String) × (c.spec.storage_class_name ≡ some class)

pub record IsComplete (spec : StatefulSetSpec) : Type 0 where
  pub container : Container
  pub others : List Container
  pub containers : spec.template.spec.containers ≡ container ∷ others
  pub count : ℤ
  pub replicas : spec.replicas ≡ some count
  pub claims : HasClass spec.volume_claim_templates

-- Two texts that differ in case at most: a text is one of them.
abbrev pub FoldsItself : Marshal → Type 0
FoldsItself marshal = (text : String) → marshal.equal_fold text text ≡ true

module _ {W : Type 0} (marshal : Marshal) (folds : FoldsItself marshal) where
  module _ (api : ResourceApi W StatefulSet) (fill : StatefulSetSpec → StatefulSetSpec)
      (laws : StoresFilled api fill) where
    -- The two cases in which the operation stores the stateful set: nothing is stored yet, or the
    -- comparison asks for an update.
    abbrev pub IsOutdated : String → StatefulSet → W → Type 0
    IsOutdated ns new w =
        ((text : String) × (api.get ns new.meta.name w ≡ fail (not_found text)))
        ⊎ ((old : StatefulSet) × (api.get ns new.meta.name w ≡ ok old)
            × (check_sts marshal old new w ≡ (done update, w)))

    ended :
        (answer : Option KubeError × W) (w' : W)
        → lift (λ (v : W). answer) w' ≡ (done none, w')
        → answer ≡ (none, w')
    ended answer w' h =
        ap
          (λ (r : Outcome (Option KubeError) × W).
            (elim r.0 [ done e ↦ e | panics _ ↦ answer.0 ], r.1))
          h

    abbrev sent : StatefulSet → StatefulSet → StatefulSet
    sent old new = record new {
      meta = record new.meta { resource_version = old.meta.resource_version };
    }

    stored :
        (ns : String) (new : StatefulSet) (w w' : W)
        → IsOutdated ns new w
        → create_or_update_stateful_set marshal api ns new w ≡ (done none, w')
        → (s : StatefulSet) × (api.get ns new.meta.name w' ≡ ok s)
          × (compared s.spec ≡ compared (fill new.spec))
    unfolding create_or_update_stateful_set apply_operator
    stored ns new w w' (inl (text, absent)) h =
        let created : create_or_update_stateful_set marshal api ns new w
            ≡ lift (api.create ns new) w =
          rw (create_or_update_stateful_set, absent) refl in
        laws.create_stores ns new w w' (ended (api.create ns new w) w' (sym created ∙ h))
    stored ns new w w' (inr (old, found, asked)) h =
        let updated : create_or_update_stateful_set marshal api ns new w
            ≡ lift (api.update ns (sent old new)) w =
          rw (create_or_update_stateful_set, found, asked) refl in
        laws.update_stores ns (sent old new) w w'
          (ended (api.update ns (sent old new) w) w' (sym updated ∙ h))
