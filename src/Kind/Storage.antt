-- ===== src/Kind/Storage.antt =====
-- buildStatefulset: the storage of the stateful set, a volume or a volume claim.
use nacos_operator.Prelude.{
  String, false, ◌||◌, is_some, map_option, Option, none, some, List, [], ◌∷◌, ◌==◌, if◌then◌else◌,
}
use nacos_operator.GoMap.{GoMap, assign}
use nacos_operator.Go.{Go, runtime_error, pure, panic, ◌>>=◌}
use nacos_operator.Types.{
  VolumeMount, Volume, VolumeSource, zero_volume_source, PersistentVolumeClaim,
  EmptyDirVolumeSource, Blob,
}
use nacos_operator.Api.{Storage}

abbrev pub volume_mount_at : String → String → String → VolumeMount
volume_mount_at name path sub = record {
  name = name;
  read_only = false;
  mount_path = path;
  sub_path = sub;
  mount_propagation = none;
  sub_path_expr = "";
}

-- The volumes, the mounts and the volume claims that are added to the stateful set.
pub record Additions : Type 0 where
  pub volumes : List Volume
  pub mounts : List VolumeMount
  pub claims : List PersistentVolumeClaim

abbrev pub no_additions : Additions
no_additions = record { volumes = []; mounts = []; claims = [] }

abbrev db_volume : VolumeSource → Additions
db_volume source = record {
  volumes = record { name = "db"; source = source } ∷ [];
  mounts = volume_mount_at "db" "/home/nacos/data" "" ∷ [];
  claims = [];
}

-- The size becomes the storage request of the claim.
abbrev requests_of : Option (GoMap String) → GoMap String
requests_of none = []
requests_of (some m) = m

abbrev pub sized :
    {W : Type 0}
    → (String → Option String)
    → String
    → PersistentVolumeClaim
    → Go W PersistentVolumeClaim
sized parse_quantity size pvc = if size == "" then pure pvc else elim (parse_quantity size) [
  | none ↦ panic (runtime_error "cannot parse the quantity")
  | some quantity ↦ pure (record pvc {
    spec = record pvc.spec {
      resources = record pvc.spec.resources {
        requests = some (assign "storage" quantity (requests_of pvc.spec.resources.requests));
      };
    };
  })
]

abbrev sized_requests : Option String → Option (GoMap String) → Option (GoMap String)
sized_requests (some quantity) (some m) = some (assign "storage" quantity m)
sized_requests _ requests = requests

abbrev or_read_write_once : List String → List String
or_read_write_once [] = "ReadWriteOnce" ∷ []
or_read_write_once (m ∷ ms) = m ∷ ms

abbrev pub claim_defaults : PersistentVolumeClaim → PersistentVolumeClaim
claim_defaults pvc = record pvc {
  name = if pvc.name == "" then "db" else pvc.name;
  spec = record pvc.spec { access_modes = or_read_write_once pvc.spec.access_modes };
}

abbrev claim_additions :
    {W : Type 0} → (String → Option String) → String → PersistentVolumeClaim → Go W Additions
claim_additions parse_quantity size claim = do
  pvc ← sized parse_quantity size (claim_defaults claim)
  pure (record {
    volumes = [];
    mounts = volume_mount_at pvc.name "/home/nacos/data" "" ∷ [];
    claims = pvc ∷ [];
  })

-- The claim that is built shares its map of requests with the claim of the resource, so the size is
-- written into both, if there is a map.
abbrev shared_claim :
    (String → Option String) → String → PersistentVolumeClaim → PersistentVolumeClaim
shared_claim parse_quantity size claim = record claim {
  spec = record claim.spec {
    resources = record claim.spec.resources {
      requests = sized_requests (parse_quantity size) claim.spec.resources.requests;
    };
  };
}

-- What building the stateful set leaves of the storage of the resource.
unfoldable pub shared_storage : (String → Option String) → Storage → Storage
shared_storage parse_quantity v =
    if is_some v.host_path || is_some v.empty_dir || v.persistent_volume_size == ""
    then v
    else record v {
      volume_claim_template =
          map_option (shared_claim parse_quantity v.persistent_volume_size) v.volume_claim_template;
    }

-- The host path first, then the empty directory, then the volume claim.
abbrev pub storage_of :
    {W : Type 0}
    → (String → Option String)
    → String
    → Option Blob
    → Option EmptyDirVolumeSource
    → Option PersistentVolumeClaim
    → Go W Additions
storage_of parse_quantity size (some path) dir claim =
    pure (db_volume (record zero_volume_source { host_path = some path }))
storage_of parse_quantity size none (some dir) claim =
    pure (db_volume (record zero_volume_source { empty_dir = some dir }))
storage_of parse_quantity size none none (some claim) = claim_additions parse_quantity size claim
storage_of parse_quantity size none none none = pure no_additions

unfoldable pub storage_additions :
    {W : Type 0} → (String → Option String) → Storage → Go W Additions
storage_additions parse_quantity v =
    storage_of parse_quantity v.persistent_volume_size v.host_path v.empty_dir
      v.volume_claim_template
