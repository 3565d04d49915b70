-- ===== src/Errors.antt =====
-- pkg/errors: the operator's error values, and the text that `New` puts together.
use Prim.Native.Char.{code}
use Prim.Native.String as Text
use nacos_operator.Prelude.{
  String, List, [], ◌∷◌, ◌+++◌, ◌≡◌, refl, ℤ, pos, negsuc, nat_eq, if◌then◌else◌,
}

pub record Err : Type 0 where
  pub code : ℤ
  pub msg : String

-- pkg/errors/type.go
abbrev pub code_normal : ℤ
code_normal = pos 200

abbrev pub code_parameter_error : ℤ
code_parameter_error = pos 301

abbrev pub code_cluster_faile : ℤ
code_cluster_faile = pos 401

abbrev pub code_err_system : ℤ
code_err_system = pos 404

abbrev pub code_err_unknow : ℤ
code_err_unknow = negsuc 0

-- `fmt.Sprintf` for verbs of one letter, over arguments that are printed already.
mutual
  format_text : String → List String → String
  format_text Text.[] args = ""
  format_text (Text.◌∷◌ c s) args =
      if nat_eq (code c) b'%' then format_verb s args else Text.◌∷◌ c (format_text s args)

  format_verb : String → List String → String
  format_verb Text.[] args = "%!(NOVERB)"
  format_verb (Text.◌∷◌ v s) [] = "%!" +++ Text.◌∷◌ v ("(MISSING)" +++ format_text s [])
  format_verb (Text.◌∷◌ v s) (a ∷ args) = a +++ format_text s args

-- `New`: without arguments the text is `fmt.Sprint(format, a)`, which prints the empty slice `a`.
unfoldable pub new_err : ℤ → String → List String → Err
unfolding format_text
new_err code format [] = record { code = code; msg = format +++ "[]" }
new_err code format (a ∷ args) = record { code = code; msg = format_text format (a ∷ args) }

-- `NewErrMsg`, and `NewErr` on the text of an error.
unfoldable pub new_err_msg : String → Err
new_err_msg text = record { code = code_err_unknow; msg = text }

-- `NewErrfMsgf`
unfoldable pub new_errf_msgf : String → List String → Err
unfolding new_err
new_errf_msgf format args = new_err code_err_unknow format args

new_err_parameter :
    (new_err code_parameter_error "parameter error %v is %v" ("nacos.Spec.Type" ∷ "x" ∷ [])).msg
    ≡ "parameter error nacos.Spec.Type is x"
unfolding new_err
new_err_parameter = refl
