-- ===== src/Go/Inversion.antt =====
-- What is known of the parts of an action that ended, one lemma for each way to begin it.
use nacos_operator.Prelude.{String, ◌≡◌, refl, Bool, true, false, Option, none, some, ℤ}
use nacos_operator.Go.Base.{KubeError, Panic, Go, Outcome, done, panics, panic, continue, when}
use nacos_operator.Go.Ensure.{ensure_equal, ensure_normal}

module _ {S A B : Type 0} where
  pub continue-done :
      (r : Outcome A × S) (f : A → Go S B) (b : B) (s' : S)
      → continue r f ≡ (done b, s')
      → (a : A) × (s : S) × (r ≡ (done a, s)) × (f a s ≡ (done b, s'))
  continue-done (done a, s) f b s' h = (a, s, refl, h)
  continue-done (panics p, s) f b s' h = cc

module _ {S B : Type 0} where
  pub ensure_equal-done :
      (same : Bool) (left right : String) (code : ℤ) (msg : String) (f : Unit → Go S B) (b : B)
      (s s' : S)
      → continue (ensure_equal same left right code msg s) f ≡ (done b, s')
      → (same ≡ true) × (f tt s ≡ (done b, s'))
  unfolding ensure_equal
  ensure_equal-done true left right code msg f b s s' h = (refl, h)
  ensure_equal-done false left right code msg f b s s' h = cc

  pub ensure_normal-done :
      (e : Option KubeError) (f : Unit → Go S B) (b : B) (s s' : S)
      → continue (ensure_normal e s) f ≡ (done b, s')
      → (e ≡ none) × (f tt s ≡ (done b, s'))
  unfolding ensure_normal
  ensure_normal-done none f b s s' h = (refl, h)
  ensure_normal-done (some e) f b s s' h = cc

  pub when-panic-done :
      (test : Bool) (p : Panic) (f : Unit → Go S B) (b : B) (s s' : S)
      → continue (when test (panic p) s) f ≡ (done b, s')
      → (test ≡ false) × (f tt s ≡ (done b, s'))
  when-panic-done true p f b s s' h = cc
  when-panic-done false p f b s s' h = (refl, h)
