-- ===== src/Workflows/Graph.antt =====
-- BuildDependencyGraph of pkg/workflows/dependency_graph.go, with the specifications of
-- pkg/workflows/sdk.
use chainlink_common.Base.{
  Bool, ◌&&◌, not, List, [], ◌∷◌, ◌++◌, Option, length, ◌==◌, if◌then◌else◌, Result, ok, err, ◌>>=◌,
  ◌>>◌, or_fail, refuse_if,
}
use chainlink_common.Base.Bytes.{Bytes, same_bytes}
use chainlink_common.Workflows.Items.{Item, Fields, no_fields, object, text, WorkflowError}
use chainlink_common.Workflows.Refs.{find_refs}

pub record StepDefinition : Type 0 where
  pub id : Bytes
  pub ref : Bytes
  pub output_ref : Bytes
  pub input_mapping : Fields
  pub step_config : Fields
  pub capability_type : Bytes

pub record WorkflowSpec : Type 0 where
  pub spec_name : Bytes
  pub owner : Bytes
  pub triggers : List StepDefinition
  pub actions : List StepDefinition
  pub consensus : List StepDefinition
  pub targets : List StepDefinition

unfoldable pub steps : WorkflowSpec → List StepDefinition
steps spec = spec.actions ++ (spec.consensus ++ spec.targets)

pub record Vertex : Type 0 where
  pub step : StepDefinition
  pub dependencies : List Bytes

pub data EdgeError : Type 0 where
  edge_exists : EdgeError
  edge_refused : EdgeError

-- What the code uses of github.com/dominikbraun/graph, for directed graphs without cycles. Vertices
-- are pointers, so a vertex that a graph gave is written to in the graph; `adjacency` is the order
-- of iteration of AdjacencyMap.
pub record GraphLibrary (G : Type 0) : Type 0 where
  pub new_graph : G
  pub add_vertex : Vertex → G → Option G
  pub adjacency : G → Option (List Bytes)
  pub vertex : Bytes → G → Option Vertex
  pub set_dependencies : Bytes → List Bytes → G → G
  pub add_edge : Bytes → Bytes → G → Result EdgeError G
  pub has_edge : Bytes → Bytes → G → Bool

pub data GraphError : Type 0 where
  vertex_exists : GraphError
  graph_failed : GraphError
  bad_inputs : GraphError
  no_refs : GraphError
  edge_failed : GraphError

pub record DependencyGraph (G : Type 0) : Type 0 where
  pub graph : G
  pub trigger_steps : List StepDefinition
  pub spec : WorkflowSpec

-- `trigger`.
abbrev pub keyword_trigger : Bytes
keyword_trigger = 116 ∷ 114 ∷ 105 ∷ 103 ∷ 103 ∷ 101 ∷ 114 ∷ []

abbrev pub trigger_vertex : Vertex
trigger_vertex = record {
  step = record {
    id = [];
    ref = keyword_trigger;
    output_ref = [];
    input_mapping = no_fields;
    step_config = no_fields;
    capability_type = [];
  };
  dependencies = [];
}

abbrev pub with_ref : StepDefinition → StepDefinition
with_ref s = if length s.ref == 0 then record s { ref = s.id } else s

-- What the references of a step are looked for in.
abbrev pub inputs_of : StepDefinition → Item
inputs_of s = if length s.output_ref == 0 then object s.input_mapping else text s.output_ref

abbrev pub refs_or_fail : Result WorkflowError (List Bytes) → Result GraphError (List Bytes)
refs_or_fail (ok refs) = ok refs
refs_or_fail (err e) = err bad_inputs

unfoldable pub is_unfounded : Bytes → List Bytes → Bool
unfolding same_bytes
is_unfounded step_ref refs = not (same_bytes step_ref keyword_trigger) && (length refs == 0)

module _ {G : Type 0} (library : GraphLibrary G) where
  open library use {new_graph, add_vertex, adjacency, vertex, set_dependencies, add_edge}

  unfoldable pub add_steps : List StepDefinition → G → Result GraphError G
  add_steps [] g = ok g
  add_steps (s ∷ ss) g = do
    added ← or_fail (add_vertex (record { step = with_ref s; dependencies = [] }) g) vertex_exists
    add_steps ss added

  -- The loop over the references of a step, in which an edge may be there already.
  unfoldable pub add_edges : List Bytes → Bytes → G → Result GraphError G
  add_edges [] ref g = ok g
  add_edges (r ∷ rs) ref g = elim (add_edge r ref g) [
    | ok added ↦ add_edges rs ref added
    | err edge_exists ↦ add_edges rs ref g
    | err edge_refused ↦ err edge_failed
  ]

  -- The body of the loop over the steps.
  unfoldable pub link_step : Bytes → G → Result GraphError G
  unfolding add_edges is_unfounded find_refs
  link_step step_ref g = do
    v ← or_fail (vertex step_ref g) graph_failed
    refs ← refs_or_fail (find_refs (inputs_of v.step))
    refuse_if (is_unfounded step_ref refs) no_refs
    add_edges refs v.step.ref (set_dependencies step_ref refs g)

  unfoldable pub link_steps : List Bytes → G → Result GraphError G
  unfolding link_step
  link_steps [] g = ok g
  link_steps (r ∷ rs) g = do linked ← link_step r g; link_steps rs linked

  -- The vertices, before any edge.
  unfoldable pub add_vertices : WorkflowSpec → Result GraphError G
  unfolding add_steps steps
  add_vertices spec = do
    started ← or_fail (add_vertex trigger_vertex new_graph) vertex_exists
    add_steps (steps spec) started

  unfoldable pub build_dependency_graph : WorkflowSpec → Result GraphError (DependencyGraph G)
  unfolding add_vertices link_steps
  build_dependency_graph spec = do
    unlinked ← add_vertices spec
    refs ← or_fail (adjacency unlinked) graph_failed
    linked ← link_steps refs unlinked
    ok (record { graph = linked; trigger_steps = spec.triggers; spec = spec })
