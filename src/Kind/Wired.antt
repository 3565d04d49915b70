-- ===== src/Kind/Wired.antt =====
-- How the objects that are built refer to one another: mounts to volumes, services to pods.
use nacos_operator.Prelude.{
  String, ◌≡◌, refl, sym, ap, subst, Bool, true, false, ◌||◌, ◌&&◌, Option, none, some, List, [],
  ◌∷◌, ◌++◌, ◌==◌, eq_refl, if◌then◌else◌, arith,
}
use nacos_operator.GoMap.{RangeOrder}
use nacos_operator.Go.Inversion.{continue-done}
use nacos_operator.Go.{Go, Outcome, done, panics, continue, pure}
use nacos_operator.Types.{
  Container, VolumeMount, Volume, VolumeSource, PersistentVolumeClaim, StatefulSet, StatefulSetSpec,
  EnvVar, EmptyDirVolumeSource, Blob,
}
use nacos_operator.Api.{Nacos, Storage}
use nacos_operator.Kind.Environment.{build_env}
use nacos_operator.Kind.Jobs.{add_check_database}
use nacos_operator.Kind.ConfigMaps.{manages_config}
use nacos_operator.Kind.Storage.{
  sized, claim_defaults, storage_of, Additions, no_additions, volume_mount_at, storage_additions,
}
use nacos_operator.Kind.Workload.{
  config_additions, assemble_stateful_set, build_stateful_set, checks_database, nacos_container,
}
use nacos_operator.Kind.Endpoints.{build_service, build_client_service}

-- Whether a volume or a claim has the name.
abbrev pub has_volume : List Volume → String → Bool
has_volume [] name = false
has_volume (v ∷ vs) name = v.name == name || has_volume vs name

abbrev pub has_claim : List PersistentVolumeClaim → String → Bool
has_claim [] name = false
has_claim (c ∷ cs) name = c.name == name || has_claim cs name

abbrev pub mounts_declared : List Volume → List PersistentVolumeClaim → List VolumeMount → Bool
mounts_declared vs cs [] = true
mounts_declared vs cs (m ∷ ms) =
    (has_volume vs m.name || has_claim cs m.name) && mounts_declared vs cs ms

-- Every mount of every container names a volume or a claim.
abbrev pub all_declared : List Volume → List PersistentVolumeClaim → List Container → Bool
all_declared vs cs [] = true
all_declared vs cs (c ∷ rest) = mounts_declared vs cs c.volume_mounts && all_declared vs cs rest

-- The three forms of the additions for the data: none, a volume `db`, or a claim.
data StorageForm : Additions → Type 0 where
  nothing : StorageForm no_additions
  volume :
      (source : VolumeSource)
      → StorageForm (record {
        volumes = record { name = "db"; source = source } ∷ [];
        mounts = volume_mount_at "db" "/home/nacos/data" "" ∷ [];
        claims = [];
      })
  claim :
      (pvc : PersistentVolumeClaim)
      → StorageForm (record {
        volumes = [];
        mounts = volume_mount_at pvc.name "/home/nacos/data" "" ∷ [];
        claims = pvc ∷ [];
      })

-- Those for the configuration: none, or a volume `config` that is mounted.
data ConfigForm : Additions → Type 0 where
  without : ConfigForm no_additions
  mounted :
      (source : VolumeSource) (path file : String)
      → ConfigForm (record {
        volumes = record { name = "config"; source = source } ∷ [];
        mounts = volume_mount_at "config" path file ∷ [];
        claims = [];
      })

choose-ConfigForm :
    (a b : Bool) (x y z : Additions)
    → ConfigForm x
    → ConfigForm y
    → ConfigForm z
    → ConfigForm (if a then x else if b then y else z)
choose-ConfigForm true b x y z fx fy fz = fx
choose-ConfigForm false true x y z fx fy fz = fy
choose-ConfigForm false false x y z fx fy fz = fz

config_additions-ConfigForm : (nacos : Nacos) → ConfigForm (config_additions nacos)
unfolding config_additions
config_additions-ConfigForm nacos =
    choose-ConfigForm (manages_config nacos) (nacos.spec.config == "") _ _ _ (mounted _ _ _) without
      (mounted _ _ _)

forms-declared :
    (s c : Additions)
    → StorageForm s
    → ConfigForm c
    → mounts_declared (s.volumes ++ c.volumes) s.claims (s.mounts ++ c.mounts) ≡ true
forms-declared _ _ nothing without = refl
forms-declared _ _ nothing (mounted source path file) = refl
forms-declared _ _ (volume source) without = refl
forms-declared _ _ (volume source) (mounted source' path file) = refl
forms-declared _ _ (claim pvc) without = rw (eq_refl pvc.name) refl
forms-declared _ _ (claim pvc) (mounted source path file) = ground (arith, eq_refl pvc.name)

module _ {W : Type 0} where
  abbrev StorageEnds : Outcome Additions × W → Type 0
  StorageEnds (done a, w) = StorageForm a
  StorageEnds (panics p, w) = Unit

  claimed-StorageEnds :
      (r : Outcome PersistentVolumeClaim × W)
      → StorageEnds (
          continue r λ pvc. pure (record {
            volumes = [];
            mounts = volume_mount_at pvc.name "/home/nacos/data" "" ∷ [];
            claims = pvc ∷ [];
          }))
  claimed-StorageEnds (done pvc, w) = claim pvc
  claimed-StorageEnds (panics p, w) = tt

  storage_of-StorageEnds :
      (parse_quantity : String → Option String) (size : String) (path : Option Blob)
      (dir : Option EmptyDirVolumeSource) (c : Option PersistentVolumeClaim) (w : W)
      → StorageEnds (storage_of parse_quantity size path dir c w)
  storage_of-StorageEnds parse_quantity size (some path) dir c w = volume _
  storage_of-StorageEnds parse_quantity size none (some dir) c w = volume _
  storage_of-StorageEnds parse_quantity size none none (some c) w =
      claimed-StorageEnds (sized parse_quantity size (claim_defaults c) w)
  storage_of-StorageEnds parse_quantity size none none none w = nothing

  storage_additions-StorageEnds :
      (parse_quantity : String → Option String) (v : Storage) (w : W)
      → StorageEnds (storage_additions parse_quantity v w)
  unfolding storage_additions
  storage_additions-StorageEnds parse_quantity v w =
      storage_of-StorageEnds parse_quantity v.persistent_volume_size v.host_path v.empty_dir
        v.volume_claim_template w

-- What holds of a built stateful set: the containers' mounts are declared, and its pods have the
-- labels that it selects and that the two services select.
abbrev pub IsWired : RangeOrder → Nacos → StatefulSetSpec → Type 0
IsWired order nacos spec =
    (all_declared spec.template.spec.volumes spec.volume_claim_templates
        spec.template.spec.containers
      ≡ true)
    × (spec.selector
        ≡ some (record { match_labels = spec.template.labels; match_expressions = [] }))
    × ((build_service order nacos).spec.selector ≡ spec.template.labels)
    × ((build_client_service order nacos).spec.selector ≡ spec.template.labels)

assembled-IsWired :
    (order : RangeOrder) (nacos : Nacos) (env : List EnvVar) (storage : Additions)
    → StorageForm storage
    → IsWired order nacos
        (assemble_stateful_set order nacos env storage (config_additions nacos)).spec
unfolding assemble_stateful_set nacos_container build_service build_client_service
assembled-IsWired order nacos env storage form = (
  rw (forms-declared storage (config_additions nacos) form (config_additions-ConfigForm nacos))
      refl,
  refl,
  refl,
  refl,
)

-- The check of the database leaves the wiring alone.
checked-IsWired :
    (order : RangeOrder) (nacos : Nacos) (ss : StatefulSet) (check : Bool)
    → IsWired order nacos ss.spec
    → IsWired order nacos (if check then add_check_database nacos ss else ss).spec
unfolding add_check_database
checked-IsWired order nacos ss true h = h
checked-IsWired order nacos ss false h = h

module _ {W : Type 0} (order : RangeOrder) (parse_quantity : String → Option String)
    (own : StatefulSet → Go W StatefulSet)
    (own_spec : (ss owned : StatefulSet) (w w' : W)
      → own ss w ≡ (done owned, w')
      → owned.spec ≡ ss.spec) where
  -- In a stateful set that is built, every mount of every container names a volume of the pod or a
  -- volume claim of the set, whatever storage and configuration the specification asks for; the
  -- set selects its pods by exactly the labels it gives them, and so do the service of the members
  -- and the service of the clients. This is for an owner reference that leaves the specification
  -- of the set as it is.
  pub build_stateful_set-IsWired :
      (nacos : Nacos) (ss : StatefulSet) (w w' : W)
      → build_stateful_set order parse_quantity own nacos w ≡ (done ss, w')
      → IsWired order nacos ss.spec
  unfolding build_stateful_set
  build_stateful_set-IsWired nacos ss w w' h =
      let (env, w1, e1, h1) = continue-done (build_env nacos.spec w) _ ss w' h in
      let (storage, w2, e2, h2) =
        continue-done (storage_additions parse_quantity nacos.spec.volume w1) _ ss w' h1 in
      let assembled : StatefulSet =
        assemble_stateful_set order nacos env storage (config_additions nacos) in
      let (owned, w3, e3, h3) = continue-done (own assembled w2) _ ss w' h2 in
      let form : StorageForm storage =
        subst (StorageEnds {W = W}) e2
          (storage_additions-StorageEnds parse_quantity nacos.spec.volume w1) in
      let same : ss
          ≡ (if checks_database nacos.spec then add_check_database nacos owned else owned) =
        ap (λ (r : Outcome StatefulSet × W). elim r.0 [ done s ↦ s | panics _ ↦ ss ]) (sym h3) in
      subst (λ (s : StatefulSet). IsWired order nacos s.spec) (sym same)
        (checked-IsWired order nacos owned (checks_database nacos.spec) (
          subst (IsWired order nacos) (sym (own_spec assembled owned w2 w3 e3))
            (assembled-IsWired order nacos env storage form)))
