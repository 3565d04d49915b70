-- ===== src/Operator/Unmoved/Defs.antt =====
-- The part of the status that a reconcile reports.
use nacos_operator.Prelude.{String, ◌≡◌, Bool, List}
use nacos_operator.Api.{Nacos, NacosStatus, Event}
use nacos_operator.Operator.Services.{Services}

-- The phase, the health and the events.
abbrev pub Status : String → Bool → List Event → NacosStatus → Type 0
Status phase healthy events status =
    (status.phase ≡ phase) × (status.healthy ≡ healthy) × (status.event ≡ events)

abbrev pub Has : String → Bool → List Event → Nacos → Type 0
Has phase healthy events nacos = Status phase healthy events nacos.status

abbrev pub with_status : Nacos → NacosStatus → Nacos
with_status n t = record n { status = t }

-- The answer to a status update of the resource `n`, whatever the status that is sent, differs from
-- the object that was sent in the status alone: the specification is the one that the server has
-- stored for this version of `n`, and a request for another version is refused.
abbrev pub KeepsRest : {W : Type 0} → Services W → Nacos → Type 0
KeepsRest {W} services n =
    (t : NacosStatus) (w : W)
    → (services.status_update (with_status n t) w).0.1
      ≡ with_status n (services.status_update (with_status n t) w).0.1.status

-- The status that the server answers with is the one that it was sent.
abbrev pub KeepsStatus : {W : Type 0} → Services W → Type 0
KeepsStatus {W} services = (n : Nacos) (w : W) → (services.status_update n w).0.1.status ≡ n.status
