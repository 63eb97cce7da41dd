-- ===== src/Workflows/Tests.antt =====
-- The theorem on interpolation at the inputs of one step.
use chainlink_common.Base.{◌≡◌, refl, false, [], ◌∷◌, Option, none, some, ok, if◌then◌else◌}
use chainlink_common.Base.Bytes.{Bytes, same_bytes}
use chainlink_common.Workflows.Items.{
  Item, mapping, object, list, text, blob, end, item, no_fields, field, deep_map,
}
use chainlink_common.Workflows.Refs.{
  token, before_close, split_dots, prepend, ref_of, find_ref, find_refs,
}
use chainlink_common.Workflows.Interpolation.{
  StepResult, digits, unsigned, atoi, field_of, follow, choose_value, interpolate_parts,
  interpolate_key, interpolate_text, find_and_interpolate_all_keys,
}
use chainlink_common.Workflows.EnvVars.{
  secret, env_value, interpolate_env, find_and_interpolate_env_vars,
}
use chainlink_common.Workflows.Framed.{Agree, find_and_interpolate_all_keys-Agree}

-- `$(a.outputs.1)`.
abbrev reference : Bytes
reference = 36 ∷ 40 ∷ 97 ∷ 46 ∷ 111 ∷ 117 ∷ 116 ∷ 112 ∷ 117 ∷ 116 ∷ 115 ∷ 46 ∷ 49 ∷ 41 ∷ []

-- `$(ENV.config)`.
abbrev env_reference : Bytes
env_reference = 36 ∷ 40 ∷ 69 ∷ 78 ∷ 86 ∷ 46 ∷ 99 ∷ 111 ∷ 110 ∷ 102 ∷ 105 ∷ 103 ∷ 41 ∷ []

abbrev inputs : Item
inputs = mapping (field (107 ∷ []) (text reference) (field (108 ∷ []) (text (97 ∷ [])) no_fields))

abbrev result : StepResult Item
result = record {
  inputs = text [];
  outputs = list (item (text []) (item (blob (5 ∷ [])) end));
  has_error = false;
}

abbrev unwrap : Item → Option Item
unwrap i = some i

-- Results of the steps `a` and `b`, and of every step.
abbrev few_results : Bytes → Option (StepResult Item)
few_results r =
    if same_bytes r (97 ∷ [])
    then some result
    else if same_bytes r (98 ∷ [])
    then some result
    else none

abbrev all_results : Bytes → Option (StepResult Item)
all_results r = some result

find_refs-inputs : find_refs inputs ≡ ok ((97 ∷ []) ∷ [])
unfolding find_refs deep_map find_ref ref_of token before_close split_dots prepend
find_refs-inputs = refl

find_and_interpolate_all_keys-inputs :
    find_and_interpolate_all_keys unwrap few_results inputs
    ≡ ok (object (field (107 ∷ []) (blob (5 ∷ [])) (field (108 ∷ []) (text (97 ∷ [])) no_fields)))
unfolding find_and_interpolate_all_keys deep_map interpolate_text interpolate_key interpolate_parts
    choose_value follow field_of atoi unsigned digits token before_close split_dots prepend
    same_bytes
find_and_interpolate_all_keys-inputs = refl

find_and_interpolate_env_vars-config :
    find_and_interpolate_env_vars
      (record { binary = []; config = 3 ∷ []; secrets = [] })
      (text env_reference)
    ≡ ok (blob (3 ∷ []))
unfolding find_and_interpolate_env_vars deep_map interpolate_env env_value secret token before_close
    split_dots prepend same_bytes
find_and_interpolate_env_vars-config = refl

Agree-a : Agree unwrap few_results all_results ((97 ∷ []) ∷ [])
unfolding same_bytes
Agree-a = (refl, tt)

find_and_interpolate_all_keys-Agree_example :
    find_and_interpolate_all_keys unwrap few_results inputs
    ≡ find_and_interpolate_all_keys unwrap all_results inputs
find_and_interpolate_all_keys-Agree_example =
    find_and_interpolate_all_keys-Agree unwrap few_results all_results inputs find_refs-inputs
      Agree-a
