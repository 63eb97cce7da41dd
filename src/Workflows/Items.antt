-- ===== src/Workflows/Items.antt =====
-- The values that a workflow's inputs are made of, and DeepMap of
-- pkg/workflows/dependency_graph.go.
use chainlink_common.Base.{Dict, Result, ok, err, ◌>>=◌}
use chainlink_common.Base.Bytes.{Bytes}

mutual
  -- An `any`: Mapping, map[string]any and []any, which DeepMap walks, and what it does not.
  pub data Item : Type 0 where
    mapping : Fields → Item
    object : Fields → Item
    list : Items → Item
    text : Bytes → Item
    blob : Bytes → Item
    text_map : Dict Bytes Bytes → Item
    nil : Item

  pub data Items : Type 0 where
    end : Items
    item : Item → Items → Items

  -- The entries of a map in an order of iteration.
  pub data Fields : Type 0 where
    no_fields : Fields
    field : Bytes → Item → Fields → Fields

pub data WorkflowError : Type 0 where
  untraversable : WorkflowError
  invalid_ref : WorkflowError
  too_few_parts : WorkflowError
  no_such_ref : WorkflowError
  step_errored : WorkflowError
  bad_part : WorkflowError
  no_value : WorkflowError
  no_such_key : WorkflowError
  not_an_index : WorkflowError
  out_of_bounds : WorkflowError
  not_indexable : WorkflowError
  bad_env_token : WorkflowError

-- The transformation is a closure that may write to `S`.
module _ {S : Type 0} (transform : S → Item → Result WorkflowError (S × Item)) where
  unfoldable mutual
    pub deep_map : S → Item → Result WorkflowError (S × Item)
    deep_map s (mapping fs) = do mapped ← map_fields s fs; ok (mapped.0, object mapped.1)
    deep_map s (object fs) = do mapped ← map_fields s fs; ok (mapped.0, object mapped.1)
    deep_map s (list is) = do mapped ← map_items s is; ok (mapped.0, list mapped.1)
    deep_map s (text t) = transform s (text t)
    deep_map s (blob b) = transform s (blob b)
    deep_map s (text_map m) = transform s (text_map m)
    deep_map s nil = err untraversable

    pub map_items : S → Items → Result WorkflowError (S × Items)
    map_items s end = ok (s, end)
    map_items s (item i is) = do
      first ← deep_map s i
      rest ← map_items first.0 is
      ok (rest.0, item first.1 rest.1)

    pub map_fields : S → Fields → Result WorkflowError (S × Fields)
    map_fields s no_fields = ok (s, no_fields)
    map_fields s (field k i fs) = do
      first ← deep_map s i
      rest ← map_fields first.0 fs
      ok (rest.0, field k first.1 rest.1)
