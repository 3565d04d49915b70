-- ===== src/Go/Base.antt =====
-- Go code that reads and writes a state and may panic: what was written before a panic stays
-- written.
use nacos_operator.Prelude.{String, Bool, true, false}
use nacos_operator.Errors.{Err}

-- What the Kubernetes API answers when it does not do what it was asked.
pub data KubeError : Type 0 where
  not_found : String → KubeError
  failure : String → KubeError

-- The values that the operator's code panics with: an `*errors.Err`, an error of the API as it
-- came, or an error of the Go runtime.
pub data Panic : Type 0 where
  my_error : Err → Panic
  api_error : KubeError → Panic
  runtime_error : String → Panic

pub data Outcome {ℓ} (A : Type ℓ) : Type ℓ where
  done : A → Outcome A
  panics : Panic → Outcome A

-- `(value, err)`, where the value is meaningful if `err` is nil.
pub data Reply {ℓ} (A : Type ℓ) : Type ℓ where
  ok : A → Reply A
  fail : KubeError → Reply A

abbrev pub Go {ℓ} : Type ℓ → Type ℓ → Type ℓ
Go S A = S → Outcome A × S

module _ {ℓ} {S A : Type ℓ} where
  abbrev pub pure : A → Go S A
  pure a s = (done a, s)

  abbrev pub panic : Panic → Go S A
  panic p s = (panics p, s)

  abbrev pub gets : (S → A) → Go S A
  gets f s = (done (f s), s)

  abbrev pub lift : (S → A × S) → Go S A
  lift f s = let (a, s') = f s in (done a, s')

  abbrev pub catch_result : Outcome A × S → (Panic → Go S A) → Outcome A × S
  catch_result (done a, s) h = (done a, s)
  catch_result (panics p, s) h = h p s

  -- `defer` with `recover`: the handler runs on the state that the panic left.
  abbrev pub recovered : Go S A → (Panic → Go S A) → Go S A
  recovered m h s = catch_result (m s) h

module _ {ℓ} {S A B : Type ℓ} where
  abbrev pub continue : Outcome A × S → (A → Go S B) → Outcome B × S
  continue (done a, s) f = f a s
  continue (panics p, s) f = (panics p, s)

  infixl 10 ◌>>=◌ ◌>>◌
  abbrev pub ◌>>=◌ : Go S A → (A → Go S B) → Go S B
  ◌>>=◌ m f s = continue (m s) f

  abbrev pub ◌>>◌ : Go S A → Go S B → Go S B
  m >> n = m >>= λ _. n

abbrev pub modify {ℓ} : {S : Type ℓ} → (S → S) → Go S (Unit {ℓ})
modify f s = (done tt, f s)

-- `if b { m }`
abbrev pub when {ℓ} : {S : Type ℓ} → Bool → Go S (Unit {ℓ}) → Go S (Unit {ℓ})
when true m = m
when false m = pure tt

-- `err.Error()`
abbrev pub error_text : KubeError → String
error_text (not_found text) = text
error_text (failure text) = text
