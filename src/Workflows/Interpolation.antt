-- ===== src/Workflows/Interpolation.antt =====
-- pkg/workflows/exec/interpolation.go.
use chainlink_common.Base.{
  ℕ, zero, suc, ◌+◌, ◌-◌, ◌*◌, Bool, ◌&&◌, List, [], ◌∷◌, Option, none, some, ltb, leb, ◌==◌,
  if◌then◌else◌, Result, ok, err, ◌>>=◌, or_fail,
}
use chainlink_common.Base.Int.{ℤ, pos, negsuc}
use chainlink_common.Base.Bytes.{Bytes, same_bytes, bytes_eq}
use chainlink_common.Workflows.Items.{
  Item, Items, Fields, text, mapping, object, list, blob, text_map, nil, end, item, no_fields,
  field, WorkflowError, too_few_parts, no_such_ref, step_errored, bad_part, no_value, no_such_key,
  not_an_index, out_of_bounds, not_indexable, deep_map,
}
use chainlink_common.Workflows.Refs.{token, split_dots}

-- A text of digits after those read so far.
unfoldable pub digits : ℕ → Bytes → Option ℕ
digits n [] = some n
digits n (c ∷ cs) =
    let rest = digits (n * 10 + (c - 48)) cs in if leb 48 c && leb c 57 then rest else none

unfoldable pub unsigned : Bytes → Option ℕ
unfolding digits
unsigned [] = none
unsigned (c ∷ cs) = digits 0 (c ∷ cs)

abbrev at_most : ℕ → ℕ → Option ℕ
at_most bound n = if leb n bound then some n else none

-- A negative number by its absolute value.
abbrev negative : ℕ → ℤ
negative zero = pos 0
negative (suc n) = negsuc n

-- `strconv.Atoi`, with an int of 64 bits.
unfoldable pub atoi : Bytes → Option ℤ
unfolding unsigned
atoi [] = none
atoi (c ∷ cs) =
    if c == 45
    then elim (unsigned cs) [
      | none ↦ none
      | some n ↦ if leb n 0x8000_0000_0000_0000 then some (negative n) else none
    ]
    else elim (unsigned (if c == 43 then cs else c ∷ cs)) [
      | none ↦ none
      | some n ↦ if ltb n 0x8000_0000_0000_0000 then some (pos n) else none
    ]

abbrev nth : ℕ → Items → Option Item
nth n end = none
nth zero (item i is) = some i
nth (suc n) (item i is) = nth n is

abbrev item_at : ℤ → Items → Option Item
item_at (pos n) is = nth n is
item_at (negsuc n) is = none

unfoldable pub field_of : Bytes → Fields → Option Item
unfolding same_bytes
field_of k no_fields = none
field_of k (field j i fs) = let rest = field_of k fs in if same_bytes j k then some i else rest

-- The loop over the remaining parts.
unfoldable pub follow : List Bytes → Item → Result WorkflowError Item
unfolding field_of atoi
follow [] val = ok val
follow (r ∷ rs) (object fs) = do inner ← or_fail (field_of r fs) no_such_key; follow rs inner
follow (r ∷ rs) (list is) = do
  i ← or_fail (atoi r) not_an_index
  inner ← or_fail (item_at i is) out_of_bounds
  follow rs inner
follow (r ∷ rs) (mapping fs) = err not_indexable
follow (r ∷ rs) (text t) = err not_indexable
follow (r ∷ rs) (blob b) = err not_indexable
follow (r ∷ rs) (text_map m) = err not_indexable
follow (r ∷ rs) nil = err not_indexable

-- `inputs` and `outputs`.
abbrev inputs_word : Bytes
inputs_word = 105 ∷ 110 ∷ 112 ∷ 117 ∷ 116 ∷ 115 ∷ []

abbrev outputs_word : Bytes
outputs_word = 111 ∷ 117 ∷ 116 ∷ 112 ∷ 117 ∷ 116 ∷ 115 ∷ []

-- exec.Result, for values of type `V`.
pub record StepResult (V : Type 0) : Type 0 where
  pub inputs : V
  pub outputs : V
  pub has_error : Bool

-- The switch on the second part of a key.
unfoldable pub choose_value : {V : Type 0} → Bytes → StepResult V → Result WorkflowError V
unfolding same_bytes
choose_value part step =
    if same_bytes part inputs_word
    then ok step.inputs
    else if same_bytes part outputs_word
    then (if step.has_error then err step_errored else ok step.outputs)
    else err bad_part

-- `values.Unwrap` fails on some values; `state` is Results.ResultForStep.
module _ {V : Type 0} (unwrap : V → Option Item) (state : Bytes → Option (StepResult V)) where
  unfoldable pub interpolate_parts : List Bytes → Result WorkflowError Item
  unfolding choose_value follow
  interpolate_parts [] = err too_few_parts
  interpolate_parts (ref ∷ []) = err too_few_parts
  interpolate_parts (ref ∷ (part ∷ parts)) = do
    step ← or_fail (state ref) no_such_ref
    value ← choose_value part step
    val ← or_fail (unwrap value) no_value
    follow parts val

  unfoldable pub interpolate_key : Bytes → Result WorkflowError Item
  unfolding interpolate_parts split_dots
  interpolate_key key = interpolate_parts (split_dots key)

  -- The closure of FindAndInterpolateAllKeys.
  unfoldable pub interpolate_text : Unit {0} → Item → Result WorkflowError (Unit {0} × Item)
  unfolding token interpolate_key
  interpolate_text _ (text t) = elim (token t) [
    | none ↦ ok (tt, text t)
    | some inner ↦ interpolate_key inner >>= λ val. ok (tt, val)
  ]
  interpolate_text _ (mapping fs) = ok (tt, mapping fs)
  interpolate_text _ (object fs) = ok (tt, object fs)
  interpolate_text _ (list is) = ok (tt, list is)
  interpolate_text _ (blob b) = ok (tt, blob b)
  interpolate_text _ (text_map m) = ok (tt, text_map m)
  interpolate_text _ nil = ok (tt, nil)

  unfoldable pub find_and_interpolate_all_keys : Item → Result WorkflowError Item
  unfolding interpolate_text deep_map
  find_and_interpolate_all_keys input = do mapped ← deep_map interpolate_text tt input; ok mapped.1
