-- ===== src/Graph/Ops/Nodes.antt =====
-- What each operation of a graph does to its nodes and edges, read back by key.
use build_graph.Base.{
  ℕ, ◌≡◌, refl, ap, All, Option, none, some, List, [], ◌∷◌, Text, arith, ◌==◌, ◌&&◌, not, text_ord,
  option_ord, pair_ord, true, or_else, is_some, if◌then◌else◌, Option-cases, ==_self,
}
use build_graph.Base.OrdMap.{OrdMap, lookup, insert, or_insert, contains_key}
use build_graph.Base.OrdMap.Laws.{
  lookup-insert, lookup-or_insert, lookup-retain, contains_key-or_insert, or_insert_present,
  All-contains_key, insert-insert,
}
use build_graph.Graph.Model.{Node, Edge}
use build_graph.Graph.Ops.{
  contains, Graph, EdgeKey, node, add_attributes, enrich, add_node, extracted, add_edge, outside,
  remove_crate, remove_edges_with_relation, prune_dangling_edges,
}
use build_graph.Graph.Ids.{crate_of_id}

abbrev pub edge : Graph → EdgeKey → Option Edge
edge g k = lookup k g.edges

-- What `add_node` stores for a node, given what is stored under its id.
abbrev pub merged : Option Node → Node → Node
merged none n = n
merged (some existing) n = enrich existing n

pub add_node-nodes :
    (g : Graph) (n : Node) → (add_node g n).nodes ≡ insert n.id (merged (node g n.id) n) g.nodes
unfolding node add_node
add_node-nodes g n = ground (arith, Option-cases (lookup n.id g.nodes))

pub node-add_node :
    (g : Graph) (n : Node) (id : Text)
    → (node (add_node g n) id ≡ (if n.id == id then some (merged (node g n.id) n) else node g id))
      × ((add_node g n).edges ≡ g.edges)
unfolding node
node-add_node g n id = (
  rw (add_node-nodes g n) (lookup-insert n.id id (merged (node g n.id) n) g.nodes),
  unfold add_node in refl,
)

contains_key-add_attributes :
    (m : OrdMap Text Text) (xs : List (Text × Text)) (k : Text)
    → contains_key k m ≡ true
    → contains_key k (add_attributes m xs) ≡ true
unfolding add_attributes
contains_key-add_attributes m [] k h = h
contains_key-add_attributes m ((j, v) ∷ xs) k h =
    contains_key-add_attributes (or_insert j v m) xs k
      (ground (arith, contains_key-or_insert j k v m))

abbrev AreKeys : OrdMap Text Text → List (Text × Text) → Type 0
AreKeys m = All (λ e. contains_key e.0 m ≡ true)

add_attributes-AreKeys :
    (m : OrdMap Text Text) (xs : List (Text × Text)) → AreKeys (add_attributes m xs) xs
unfolding add_attributes
add_attributes-AreKeys m [] = tt
add_attributes-AreKeys m ((j, v) ∷ xs) = (
  contains_key-add_attributes (or_insert j v m) xs j
      (ground (arith, contains_key-or_insert j j v m, text_ord.same j)),
  add_attributes-AreKeys (or_insert j v m) xs,
)

add_attributes_present :
    (m : OrdMap Text Text) (xs : List (Text × Text)) → AreKeys m xs → add_attributes m xs ≡ m
unfolding add_attributes
add_attributes_present m [] a = refl
add_attributes_present m ((j, v) ∷ xs) a =
    rw (or_insert_present j v m a.0) (add_attributes_present m xs a.1)

enrich_again : (e n : Node) → enrich (enrich e n) n ≡ enrich e n
unfolding enrich
enrich_again e n =
    let kept =
      add_attributes_present (add_attributes e.attributes n.attributes) n.attributes
        (add_attributes-AreKeys e.attributes n.attributes) in
    ground (arith, kept)

enrich_self : (n : Node) → enrich n n ≡ n
unfolding enrich
enrich_self n =
    ground (arith, add_attributes_present n.attributes n.attributes (All-contains_key n.attributes))

pub graph_eq : (g h : Graph) → g.nodes ≡ h.nodes → g.edges ≡ h.edges → g ≡ h
graph_eq g h p q = λ i. record { nodes = p i; edges = q i }

merged_again : (o : Option Node) (n : Node) → merged (some (merged o n)) n ≡ merged o n
merged_again none n = enrich_self n
merged_again (some e) n = enrich_again e n

-- Adding the same node a second time changes nothing.
pub add_node-idempotent : (g : Graph) (n : Node) → add_node (add_node g n) n ≡ add_node g n
add_node-idempotent g n =
    let stored = simp ==_self at ((node-add_node g n n.id).0) in
    let x = merged (node g n.id) n in
    graph_eq (add_node (add_node g n) n) (add_node g n)
      (cc (
        add_node-nodes (add_node g n) n,
        add_node-nodes g n,
        ap (λ (o : Option Node). merged o n) stored,
        merged_again (node g n.id) n,
        insert-insert n.id x x g.nodes,
      ))
      (unfold add_node in refl)

-- The edge under a key after `add_edge`: the one that was there, or else an extracted edge.
pub edge-add_edge :
    (g : Graph) (source target relation : Text) (file : Option Text) (line : Option ℕ) (k : EdgeKey)
    → (edge (add_edge g source target relation file line) k
        ≡ or_else (edge g k) (
            if (source, (target, relation)) == k
            then some (extracted source target relation file line)
            else none))
      × ((add_edge g source target relation file line).nodes ≡ g.nodes)
unfolding add_edge
edge-add_edge g source target relation file line k = (
  lookup-or_insert (source, (target, relation)) k (extracted source target relation file line)
      g.edges,
  refl,
)

-- `remove_crate` drops exactly the nodes that the crate owns and the edges whose source it owns.
pub remove_crate_exact :
    (g : Graph) (krate id : Text) (k : EdgeKey)
    → (node (remove_crate g krate) id ≡ (if crate_of_id id == some krate then none else node g id))
      × (edge (remove_crate g krate) k ≡ (if crate_of_id k.0 == some krate then none else edge g k))
unfolding node remove_crate
remove_crate_exact g krate id k = (
  ground (arith, lookup-retain (outside krate) id g.nodes),
  ground (arith, lookup-retain (λ (j : EdgeKey). outside krate j.0) k g.edges),
)

-- `remove_edges_with_relation` drops exactly the edges of that relation.
pub edge-remove_edges_with_relation :
    (g : Graph) (relation : Text) (k : EdgeKey)
    → edge (remove_edges_with_relation g relation) k
      ≡ (if k.1.1 == relation then none else edge g k)
unfolding remove_edges_with_relation
edge-remove_edges_with_relation g relation k =
    ground (arith, lookup-retain (λ (j : EdgeKey). not (j.1.1 == relation)) k g.edges)

-- After `prune_dangling_edges` the edges are those that were there and have both ends among the
-- nodes, which stay.
pub prune_dangling_edges_exact :
    (g : Graph) (k : EdgeKey)
    → (edge (prune_dangling_edges g) k
        ≡ (if contains g k.0 && contains g k.1.0 then edge g k else none))
      × ((prune_dangling_edges g).nodes ≡ g.nodes)
unfolding prune_dangling_edges contains
prune_dangling_edges_exact g k = (
  lookup-retain (λ (j : EdgeKey). contains_key j.0 g.nodes && contains_key j.1.0 g.nodes) k g.edges,
  refl,
)

lookup-add_attributes :
    (k : Text) (m : OrdMap Text Text) (more : List (Text × Text))
    → lookup k (add_attributes m more) ≡ or_else (lookup k m) (lookup k more)
unfolding add_attributes lookup
lookup-add_attributes k m [] = ground arith
lookup-add_attributes k m ((j, v) ∷ more) =
    ground (arith, lookup-add_attributes k (or_insert j v m) more, lookup-or_insert j k v m)

-- A node that is added again is only completed. It keeps its attributes and gains those it lacks. It
-- keeps its source position if it has a file, and takes the new one if it has none.
pub enrich_exact :
    (existing n : Node) (k : Text)
    → (lookup k (enrich existing n).attributes
        ≡ or_else (lookup k existing.attributes) (lookup k n.attributes))
      × ((f : Text)
          → existing.source_file ≡ some f
          → ((enrich existing n).source_file ≡ some f)
            × ((enrich existing n).source_location ≡ existing.source_location))
      × (existing.source_file ≡ none
          → ((enrich existing n).source_file ≡ n.source_file)
            × ((enrich existing n).source_location ≡ n.source_location))
unfolding enrich
enrich_exact existing n k = (
  lookup-add_attributes k existing.attributes n.attributes,
  λ f h. (rw h refl, rw h refl),
  λ h. (rw h refl, rw h refl),
)

-- What a node becomes when `n` is added under its id: every value that it has stays. It takes the
-- source file and line of `n` if it has no file, and it gains the attributes that it lacks.
abbrev pub IsCompleted : Option Node → Node → Node → Type 0
IsCompleted none n x = x ≡ n
IsCompleted (some old) n x =
    (x.id ≡ old.id)
    × (x.label ≡ old.label)
    × (x.file_type ≡ old.file_type)
    × (x.source_file ≡ or_else old.source_file n.source_file)
    × (x.source_location
        ≡ (if is_some old.source_file then old.source_location else n.source_location))
    × ((k : Text)
        → lookup k x.attributes ≡ or_else (lookup k old.attributes) (lookup k n.attributes))
