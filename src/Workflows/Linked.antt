-- ===== src/Workflows/Linked.antt =====
-- The graph that BuildDependencyGraph of pkg/workflows/dependency_graph.go returns has the
-- references of each step as its dependencies and as edges.
use chainlink_common.Base.{
  ◌≡◌, refl, ◌∙◌, subst, inl, inr, Bool, true, false, List, [], ◌∷◌, All, Option, none, some,
  Bool-cases, Result, Result-cases, ok, err, >>=-eq-ok, or_fail, refuse_if, arith,
}
use chainlink_common.Base.Bytes.{Bytes, same_bytes, same_bytes_iff}
use chainlink_common.Workflows.Items.{WorkflowError}
use chainlink_common.Workflows.Refs.{find_refs}
use chainlink_common.Workflows.Graph.{
  Vertex, GraphLibrary, edge_exists, edge_refused, graph_failed, no_refs, DependencyGraph,
  WorkflowSpec, inputs_of, refs_or_fail, add_edges, is_unfounded, link_step, link_steps,
  add_vertices, build_dependency_graph,
}

abbrev pub with_dependencies : List Bytes → Vertex → Vertex
with_dependencies refs v = record v { dependencies = refs }

-- What is relied on of the library of graphs: how a vertex and an edge read after a write.
pub record IsGraph {G : Type 0} (library : GraphLibrary G) : Type 0 where
  pub vertex-set_same :
      (r : Bytes) (refs : List Bytes) (g : G) (v : Vertex)
      → library.vertex r g ≡ some v
      → library.vertex r (library.set_dependencies r refs g) ≡ some (with_dependencies refs v)
  pub vertex-set_other :
      (r s : Bytes) (refs : List Bytes) (g : G)
      → same_bytes s r ≡ false
      → library.vertex r (library.set_dependencies s refs g) ≡ library.vertex r g
  pub vertex-add :
      (a b r : Bytes) (g added : G)
      → library.add_edge a b g ≡ ok added
      → library.vertex r added ≡ library.vertex r g
  pub edge-set :
      (a b s : Bytes) (refs : List Bytes) (g : G)
      → library.has_edge a b g ≡ true
      → library.has_edge a b (library.set_dependencies s refs g) ≡ true
  pub edge-add_same :
      (a b : Bytes) (g added : G)
      → library.add_edge a b g ≡ ok added
      → library.has_edge a b added ≡ true
  pub edge-add_other :
      (a b c d : Bytes) (g added : G)
      → library.add_edge a b g ≡ ok added
      → library.has_edge c d g ≡ true
      → library.has_edge c d added ≡ true
  pub edge-exists :
      (a b : Bytes) (g : G)
      → library.add_edge a b g ≡ err edge_exists
      → library.has_edge a b g ≡ true

or_fail-ok : {E A : Type 0} (x : Option A) (e : E) {a : A} → or_fail x e ≡ ok a → x ≡ some a
or_fail-ok none e h = cc
or_fail-ok (some b) e h = ground arith

refs_or_fail-ok :
    (x : Result WorkflowError (List Bytes)) {refs : List Bytes}
    → refs_or_fail x ≡ ok refs
    → x ≡ ok refs
refs_or_fail-ok (err e) h = cc
refs_or_fail-ok (ok refs) h = ground arith

refuse_if-ok : {E : Type 0} (b : Bool) (e : E) {u : Unit {0}} → refuse_if b e ≡ ok u → b ≡ false
refuse_if-ok true e h = cc
refuse_if-ok false e h = refl

module _ {G : Type 0} (library : GraphLibrary G) (lawful : IsGraph library) where
  open library use {vertex, set_dependencies, add_edge, has_edge}

  -- No vertex changes, and no edge goes.
  abbrev Extends : G → G → Type 0
  Extends g h =
      ((r : Bytes) → vertex r h ≡ vertex r g)
      × ((a b : Bytes) → has_edge a b g ≡ true → has_edge a b h ≡ true)

  add_edges-Extends :
      (rs : List Bytes) (ref : Bytes) (g : G) {h : G}
      → add_edges library rs ref g ≡ ok h
      → Extends g h × All (λ r. has_edge r ref h ≡ true) rs
  unfolding add_edges
  add_edges-Extends [] ref g {h = h} e =
      let is : g ≡ h = ground arith in
      subst (λ h. Extends g h × Unit {0}) is ((λ r. refl, λ a b known. known), tt)
  add_edges-Extends (r ∷ rs) ref g {h = h} e = elim (Result-cases (add_edge r ref g)) [
    | inl (added, done) ↦
        let later : add_edges library rs ref added ≡ ok h = ground (arith) in
        let ((vertices, edges), all) = add_edges-Extends rs ref added later in
        (
          (
            λ q. vertices q ∙ lawful.vertex-add r ref q g added done,
            λ a b known. edges a b (lawful.edge-add_other r ref a b g added done known),
          ),
          (edges r ref (lawful.edge-add_same r ref g added done), all),
        )
    | inr (edge_exists, there) ↦
        let later : add_edges library rs ref g ≡ ok h = ground (arith) in
        let ((vertices, edges), all) = add_edges-Extends rs ref g later in
        ((vertices, edges), (edges r ref (lawful.edge-exists r ref g there), all))
    | inr (edge_refused, failed) ↦ ground (arith)
  ]

  -- A step of the graph has the references in its inputs as dependencies, with an edge from each of
  -- them, and only the trigger has none.
  abbrev pub Linked : G → Bytes → Type 0
  Linked g r =
      (v : Vertex) × (vertex r g ≡ some v)
      × (find_refs (inputs_of v.step) ≡ ok v.dependencies)
      × (is_unfounded r v.dependencies ≡ false)
      × All (λ d. has_edge d v.step.ref g ≡ true) v.dependencies

  All-edges :
      (g h : G) (ref : Bytes) (ds : List Bytes)
      → ((a b : Bytes) → has_edge a b g ≡ true → has_edge a b h ≡ true)
      → All (λ d. has_edge d ref g ≡ true) ds
      → All (λ d. has_edge d ref h ≡ true) ds
  All-edges g h ref [] extends all = tt
  All-edges g h ref (d ∷ ds) extends all = (extends d ref all.0, All-edges g h ref ds extends all.1)

  -- What a step that succeeds does.
  link_step-eq_ok :
      (s : Bytes) (g : G) {h : G}
      → link_step library s g ≡ ok h
      → (v : Vertex) × (refs : List Bytes) × (vertex s g ≡ some v)
        × (find_refs (inputs_of v.step) ≡ ok refs)
        × (is_unfounded s refs ≡ false)
        × (add_edges library refs v.step.ref (set_dependencies s refs g) ≡ ok h)
  unfolding link_step
  link_step-eq_ok s g h =
      let (v, found, h1) = >>=-eq-ok (or_fail (vertex s g) graph_failed) _ h in
      let (refs, read, h2) = >>=-eq-ok (refs_or_fail (find_refs (inputs_of v.step))) _ h1 in
      let (_, founded, h3) = >>=-eq-ok (refuse_if (is_unfounded s refs) no_refs) _ h2 in
      (
        v,
        refs,
        or_fail-ok (vertex s g) graph_failed found,
        refs_or_fail-ok (find_refs (inputs_of v.step)) read,
        refuse_if-ok (is_unfounded s refs) no_refs founded,
        h3,
      )

  link_step-Linked : (s : Bytes) (g : G) {h : G} → link_step library s g ≡ ok h → Linked h s
  link_step-Linked s g {h = h} e =
      let (v, refs, known, read, founded, added) = link_step-eq_ok s g e in
      let (extends, all) = add_edges-Extends refs v.step.ref (set_dependencies s refs g) added in
      (
        with_dependencies refs v,
        extends.0 s ∙ lawful.vertex-set_same s refs g v known,
        read,
        founded,
        all,
      )

  link_step-keeps :
      (s r : Bytes) (g : G) {h : G} → link_step library s g ≡ ok h → Linked g r → Linked h r
  link_step-keeps s r g {h = h} e (w, there, its, has, edges) = elim (Bool-cases (same_bytes s r)) [
    | inl same ↦ subst (λ r. Linked h r) ((same_bytes_iff s r).0 same) (link_step-Linked s g e)
    | inr apart ↦
        let (v, refs, known, read, founded, added) = link_step-eq_ok s g e in
        let (extends, all) = add_edges-Extends refs v.step.ref (set_dependencies s refs g) added in
        (
          w,
          extends.0 r ∙ (lawful.vertex-set_other r s refs g apart ∙ there),
          its,
          has,
          All-edges g h w.step.ref w.dependencies
              (λ a b old. extends.1 a b (lawful.edge-set a b s refs g old)) edges,
        )
  ]

  link_steps-keeps :
      (ss : List Bytes) (r : Bytes) (g : G) {h : G}
      → link_steps library ss g ≡ ok h
      → Linked g r
      → Linked h r
  unfolding link_steps
  link_steps-keeps [] r g {h = h} e linked =
      let is : g ≡ h = ground arith in subst (λ g. Linked g r) is linked
  link_steps-keeps (s ∷ ss) r g e linked =
      let (next, one, later) = >>=-eq-ok (link_step library s g) _ e in
      link_steps-keeps ss r next later (link_step-keeps s r g one linked)

  link_steps-Linked :
      (ss : List Bytes) (g : G) {h : G} → link_steps library ss g ≡ ok h → All (Linked h) ss
  unfolding link_steps
  link_steps-Linked [] g e = tt
  link_steps-Linked (s ∷ ss) g e =
      let (next, one, later) = >>=-eq-ok (link_step library s g) _ e in
      (link_steps-keeps ss s next later (link_step-Linked s g one), link_steps-Linked ss next later)

  -- If the library of graphs reads back what is written, then in a graph that BuildDependencyGraph
  -- returns every vertex has exactly the references that its inputs hold as dependencies, has an
  -- edge from each of them, and has none only if it is the trigger.
  pub build_dependency_graph-Linked :
      (spec : WorkflowSpec) {built : DependencyGraph G} {unlinked : G} {refs : List Bytes}
      → add_vertices library spec ≡ ok unlinked
      → library.adjacency unlinked ≡ some refs
      → build_dependency_graph library spec ≡ ok built
      → All (Linked built.graph) refs
  unfolding build_dependency_graph
  build_dependency_graph-Linked spec {built = built} {unlinked = unlinked} {refs = refs} start order
        done =
      let (found, e1, h1) = >>=-eq-ok (add_vertices library spec) _ done in
      let (listed, e2, h2) = >>=-eq-ok (or_fail (library.adjacency found) graph_failed) _ h1 in
      let (linked, e3, h3) = >>=-eq-ok (link_steps library listed found) _ h2 in
      let is_start : found ≡ unlinked = ground arith in
      let read : library.adjacency found ≡ some listed =
        or_fail-ok (library.adjacency found) graph_failed e2 in
      let is_order : listed ≡ refs = ground arith in
      let is_graph : linked ≡ built.graph = ground arith in
      subst (λ h. All (Linked h) refs) is_graph
        (subst (λ rs. All (Linked linked) rs) is_order (link_steps-Linked listed found e3))
