-- ===== src/Workflows/EnvVars.antt =====
-- FindAndInterpolateEnvVars of pkg/workflows/exec/interpolation.go.
use chainlink_common.Base.{
  List, [], ◌∷◌, none, some, if◌then◌else◌, Dict, lookup, Result, ok, err, ◌>>=◌, or_fail,
}
use chainlink_common.Base.Bytes.{Bytes, same_bytes, bytes_eq}
use chainlink_common.Workflows.Items.{
  Item, text, mapping, object, list, blob, text_map, nil, WorkflowError, bad_env_token, deep_map,
}
use chainlink_common.Workflows.Refs.{token, split_dots}

pub record Env : Type 0 where
  pub binary : Bytes
  pub config : Bytes
  pub secrets : Dict Bytes Bytes

-- `ENV`, `config`, `binary` and `secrets`.
abbrev pub env_word : Bytes
env_word = 69 ∷ 78 ∷ 86 ∷ []

abbrev pub config_word : Bytes
config_word = 99 ∷ 111 ∷ 110 ∷ 102 ∷ 105 ∷ 103 ∷ []

abbrev pub binary_word : Bytes
binary_word = 98 ∷ 105 ∷ 110 ∷ 97 ∷ 114 ∷ 121 ∷ []

abbrev pub secrets_word : Bytes
secrets_word = 115 ∷ 101 ∷ 99 ∷ 114 ∷ 101 ∷ 116 ∷ 115 ∷ []

module _ (env : Env) where
  -- The switch on the number of parts, of those after `ENV.secrets`.
  unfoldable pub secret : List Bytes → Result WorkflowError Item
  unfolding lookup same_bytes
  secret [] = ok (text_map env.secrets)
  secret (key ∷ []) = do got ← or_fail (lookup key env.secrets) bad_env_token; ok (text got)
  secret (key ∷ (other ∷ parts)) = err bad_env_token

  -- The parts of the token of a text, which is kept if it is no token of the environment.
  unfoldable pub env_value : Bytes → List Bytes → Result WorkflowError Item
  unfolding secret same_bytes
  env_value t [] = ok (text t)
  env_value t (first ∷ []) = ok (text t)
  env_value t (first ∷ (second ∷ parts)) =
      if same_bytes first env_word
      then (if same_bytes second config_word
          then ok (blob env.config)
          else if same_bytes second binary_word
          then ok (blob env.binary)
          else if same_bytes second secrets_word
          then secret parts
          else err bad_env_token)
      else ok (text t)

  unfoldable pub interpolate_env : Unit {0} → Item → Result WorkflowError (Unit {0} × Item)
  unfolding token split_dots env_value
  interpolate_env _ (text t) = elim (token t) [
    | none ↦ ok (tt, text t)
    | some inner ↦ env_value t (split_dots inner) >>= λ val. ok (tt, val)
  ]
  interpolate_env _ (mapping fs) = ok (tt, mapping fs)
  interpolate_env _ (object fs) = ok (tt, object fs)
  interpolate_env _ (list is) = ok (tt, list is)
  interpolate_env _ (blob b) = ok (tt, blob b)
  interpolate_env _ (text_map m) = ok (tt, text_map m)
  interpolate_env _ nil = ok (tt, nil)

  unfoldable pub find_and_interpolate_env_vars : Item → Result WorkflowError Item
  unfolding interpolate_env deep_map
  find_and_interpolate_env_vars input = do mapped ← deep_map interpolate_env tt input; ok mapped.1
