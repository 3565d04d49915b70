-- ===== src/Operator/Unmoved/Objects.antt =====
-- Storing the objects leaves it alone.
use nacos_operator.Prelude.{String, Bool, Option, none, some, List}
use nacos_operator.Api.{Event}
use nacos_operator.Operator.Services.{Services, State}
use nacos_operator.Operator.Ensure.{set_config_digest}
use nacos_operator.Operator.Steps.{make_ensure}
use nacos_operator.Operator.Keeps.{Keeps}
use nacos_operator.Operator.Ensured as Ensured
use nacos_operator.Operator.Unmoved.Defs.{Has}

module _ {W : Type 0} (services : Services W) (p : String) (b : Bool) (es : List Event) where
  abbrev Q : State W → Type 0
  Q s = Has p b es s.nacos

  set_config_digest-Keeps : (o : Option String) → Keeps Q (set_config_digest services o)
  set_config_digest-Keeps none = record { at = λ s h. h }
  set_config_digest-Keeps (some c) = record { at = λ s h. h }

  pub make_ensure-Keeps : Keeps Q (make_ensure services)
  make_ensure-Keeps =
      Ensured.make_ensure-Keeps services (λ s w h. h) (record { at = λ s h. h })
        set_config_digest-Keeps (λ s h. h) (λ s h. h)
