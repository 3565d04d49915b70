-- ===== src/Operator/Keeps.antt =====
-- What actions leave true of the state, the resource in memory and the world, one rule for each way
-- to build an action.
use nacos_operator.Prelude.{
  ◌≡◌, sym, subst, List, [], ◌∷◌, String, Bool, true, false, Option, none, some, ℤ, if◌then◌else◌,
}
use nacos_operator.Go.{
  KubeError, Panic, Reply, ok, fail, Outcome, done, panics, Go, pure, panic, gets, continue, ◌>>=◌,
  when, ensure_normal, ensure_normal_my_error, ensure_equal,
}
use nacos_operator.Api.{Nacos}
use nacos_operator.K8s.{dereference, first}
use nacos_operator.Operator.Services.{State, on_world, read_world, set_nacos}
use nacos_operator.Operator.Ensure.{in_world}
use nacos_operator.Operator.Check.{ensure_reply}

-- `Q` holds of the state that `m` leaves, if it holds before, whether `m` ends or panics.
pub record Keeps {W A : Type 0} (Q : State W → Type 0) (m : Go (State W) A) : Type 0 where
  pub at : (s : State W) → Q s → Q (m s).1

module _ {W A : Type 0} {Q : State W → Type 0} where
  pub Keeps-pure : (a : A) → Keeps Q (pure a)
  Keeps-pure a = record { at = λ s h. h }

  pub Keeps-panic : (p : Panic) → Keeps {A = A} Q (panic p)
  Keeps-panic p = record { at = λ s h. h }

  pub Keeps-gets : (f : State W → A) → Keeps Q (gets f)
  Keeps-gets f = record { at = λ s h. h }

  pub Keeps-if :
      (b : Bool) (m n : Go (State W) A) → Keeps Q m → Keeps Q n → Keeps Q (if b then m else n)
  Keeps-if true m n km kn = km
  Keeps-if false m n km kn = kn

  pub Keeps-on_world :
      (f : W → A × W)
      → ((s : State W) → Q s → Q (record s { world = (f s.world).1 }))
      → Keeps Q (on_world f)
  Keeps-on_world f kf = record { at = kf }

  pub Keeps-read_world : (f : W → A) → Keeps Q (read_world f)
  Keeps-read_world f = record { at = λ s h. h }

  pub Keeps-in_world :
      (m : Go W A)
      → ((s : State W) → Q s → Q (record s { world = (m s.world).1 }))
      → Keeps Q (in_world m)
  Keeps-in_world m km = record { at = km }

  pub Keeps-ensure_reply : (r : Reply A) → Keeps Q (ensure_reply r)
  Keeps-ensure_reply (ok a) = Keeps-pure a
  Keeps-ensure_reply (fail e) = Keeps-panic _

  pub Keeps-dereference : (o : Option A) → Keeps Q (dereference o)
  Keeps-dereference none = Keeps-panic _
  Keeps-dereference (some a) = Keeps-pure a

  pub Keeps-first : (xs : List A) → Keeps Q (first xs)
  Keeps-first [] = Keeps-panic _
  Keeps-first (x ∷ xs) = Keeps-pure x

  -- An action that never writes.
  pub Keeps-of_same : (m : Go (State W) A) → ((s : State W) → (m s).1 ≡ s) → Keeps Q m
  Keeps-of_same m same = record { at = λ s h. subst Q (sym (same s)) h }

module _ {W A B : Type 0} {Q : State W → Type 0} where
  continue-Keeps :
      (r : Outcome A × State W) (f : A → Go (State W) B)
      → Q r.1
      → ((a : A) → Keeps Q (f a))
      → Q (continue r f).1
  continue-Keeps (done a, s) f h kf = (kf a).at s h
  continue-Keeps (panics p, s) f h kf = h

  pub Keeps-bind :
      (m : Go (State W) A) (f : A → Go (State W) B)
      → Keeps Q m
      → ((a : A) → Keeps Q (f a))
      → Keeps Q (m >>= f)
  Keeps-bind m f km kf = record { at = λ s h. continue-Keeps (m s) f (km.at s h) kf }

module _ {W : Type 0} {Q : State W → Type 0} where
  pub Keeps-set_nacos :
      (f : Nacos → Nacos)
      → ((s : State W) → Q s → Q (record s { nacos = f s.nacos }))
      → Keeps Q (set_nacos f)
  Keeps-set_nacos f kf = record { at = kf }

  pub Keeps-when : (b : Bool) (m : Go (State W) (Unit {0})) → Keeps Q m → Keeps Q (when b m)
  Keeps-when true m km = km
  Keeps-when false m km = Keeps-pure tt

  pub Keeps-ensure_normal : (e : Option KubeError) → Keeps Q (ensure_normal e)
  unfolding ensure_normal
  Keeps-ensure_normal none = Keeps-pure tt
  Keeps-ensure_normal (some e) = Keeps-panic _

  pub Keeps-ensure_normal_my_error :
      (e : Option KubeError) (code : ℤ) → Keeps Q (ensure_normal_my_error e code)
  unfolding ensure_normal_my_error
  Keeps-ensure_normal_my_error none code = Keeps-pure tt
  Keeps-ensure_normal_my_error (some e) code = Keeps-panic _

  pub Keeps-ensure_equal :
      (same : Bool) (left right : String) (code : ℤ) (msg : String)
      → Keeps Q (ensure_equal same left right code msg)
  unfolding ensure_equal
  Keeps-ensure_equal true left right code msg = Keeps-pure tt
  Keeps-ensure_equal false left right code msg = Keeps-panic _

pub ruleset keeps_rules = (
  Keeps-pure, Keeps-panic, Keeps-gets, Keeps-if, Keeps-on_world, Keeps-read_world, Keeps-in_world,
  Keeps-ensure_reply, Keeps-dereference, Keeps-first, Keeps-bind, Keeps-set_nacos, Keeps-when,
  Keeps-ensure_normal, Keeps-ensure_normal_my_error, Keeps-ensure_equal,
)
