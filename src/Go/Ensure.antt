-- ===== src/Go/Ensure.antt =====
-- pkg/errors/errors.go: the checks that panic.
use nacos_operator.Prelude.{String, Bool, true, false, Option, none, some, List, [], ◌∷◌, ◌+++◌, ℤ}
use nacos_operator.Errors.{new_err}
use nacos_operator.Go.Base.{Go, my_error, api_error, KubeError, pure, panic, error_text}

module _ {ℓ} {S : Type ℓ} where
  -- EnsureNormal: the error itself is the panic's value.
  unfoldable pub ensure_normal : Option KubeError → Go S (Unit {ℓ})
  ensure_normal none = pure tt
  ensure_normal (some e) = panic (api_error e)

  -- EnsureNormalMyError
  unfoldable pub ensure_normal_my_error : Option KubeError → ℤ → Go S (Unit {ℓ})
  ensure_normal_my_error none code = pure tt
  ensure_normal_my_error (some e) code = panic (my_error (new_err code "%v" (error_text e ∷ [])))

  -- EnsureEqual, on the answer of `==` and the printed sides.
  unfoldable pub ensure_equal : Bool → String → String → ℤ → String → Go S (Unit {ℓ})
  ensure_equal true left right code msg = pure tt
  ensure_equal false left right code msg = panic (
      my_error
        (new_err code "msg: %v, %v is not equal %v" (("[" +++ msg +++ "]") ∷ left ∷ right ∷ [])))

  -- EnsureNormalMsgf, which leaves its format and arguments unused.
  unfoldable pub ensure_normal_msgf : Option KubeError → String → List String → Go S (Unit {ℓ})
  ensure_normal_msgf none format args = pure tt
  ensure_normal_msgf (some e) format args = panic (api_error e)
