-- ===== src/Operator/Inversion.antt =====
-- The same for the calls of the operator's own clients.
use nacos_operator.Prelude.{◌≡◌, refl, Option, none, some}
use nacos_operator.Go.{Reply, ok, fail, Go, done, continue}
use nacos_operator.K8s.{dereference}
use nacos_operator.Operator.Check.{ensure_reply}
pub use nacos_operator.Go.Inversion.{
  continue-done, ensure_equal-done, ensure_normal-done, when-panic-done,
}

module _ {S A B : Type 0} where
  pub dereference-done :
      (o : Option A) (f : A → Go S B) (b : B) (s s' : S)
      → continue (dereference o s) f ≡ (done b, s')
      → (a : A) × (o ≡ some a) × (f a s ≡ (done b, s'))
  dereference-done (some a) f b s s' h = (a, refl, h)
  dereference-done none f b s s' h = cc

  pub ensure_reply-done :
      (r : Reply A) (f : A → Go S B) (b : B) (s s' : S)
      → continue (ensure_reply r s) f ≡ (done b, s')
      → (a : A) × (r ≡ ok a) × (f a s ≡ (done b, s'))
  ensure_reply-done (ok a) f b s s' h = (a, refl, h)
  ensure_reply-done (fail e) f b s s' h = cc
