-- ===== src/Dependency/Graph/Build.antt =====
-- `new`, `add_node` and `add_edge` keep a graph well formed.
use mitos_pkg.Prelude.{
  ◌||◌, ◌&&◌, ◌==◌, String, string_eq, List, [], ◌∷◌, ◌≡◌, true, arith, contains, add, contains-add,
  add-IsSetList,
}
use mitos_pkg.Prelude.HashMap
use mitos_pkg.Prelude.HashMap.{
  HashMap, keys, entry-IsMap, update-IsMap, get-entry, get-update, keys-update, contains-keys-entry,
}
use mitos_pkg.Dependency.Graph.{DependencyGraph, new, add_node, add_edge}
use mitos_pkg.Dependency.Graph.Count.{AllSets}
use mitos_pkg.Dependency.Graph.Order.{IsGraph, deps_of}

entry-AllSets :
    (k : String) (m : HashMap String (List String))
    → AllSets m
    → AllSets (HashMap.entry k [] (λ deps. deps) m)
unfolding HashMap.entry
entry-AllSets k [] h = (tt, tt)
entry-AllSets k ((j, deps) ∷ m) h = ground (arith, entry-AllSets k m h.1)

update-AllSets :
    (k dep : String) (m : HashMap String (List String))
    → AllSets m
    → AllSets (HashMap.update k (add dep) m)
unfolding HashMap.update
update-AllSets k dep [] h = tt
update-AllSets k dep ((j, deps) ∷ m) h =
    ground (arith, update-AllSets k dep m h.1, add-IsSetList dep deps h.0)

pub IsGraph-new : IsGraph new
unfolding HashMap.get
IsGraph-new = record { unique = tt; sets = tt; closed = λ n d m. cc }

pub deps_of-add_node :
    (g : DependencyGraph) (name n : String) → deps_of (add_node g name) n ≡ deps_of g n
unfolding add_node
deps_of-add_node g name n = ground (arith, get-entry n name [] (λ deps. deps) g.edges)

pub add_node-IsGraph : (g : DependencyGraph) (name : String) → IsGraph g → IsGraph (add_node g name)
unfolding add_node
add_node-IsGraph g name h = record {
  unique = entry-IsMap name [] (λ deps. deps) g.edges h.unique;
  sets = entry-AllSets name g.edges h.sets;
  closed = λ n d m. ground (
    arith,
    get-entry n name [] (λ deps. deps) g.edges,
    h.closed n d,
    contains-keys-entry d name [] (λ deps. deps) g.edges,
  );
}

module _ (g : DependencyGraph) (from dep : String) where
  abbrev both : DependencyGraph
  both = add_node (add_node g from) dep

  key_added : contains (keys both.edges) dep ≡ true
  unfolding add_node
  key_added = ground (arith, contains-keys-entry dep dep [] (λ deps. deps) (add_node g from).edges)

  -- `add_edge` keeps a graph well formed: each node has one entry, no dependency is listed twice, and
  -- each dependency is a node.
  pub add_edge-IsGraph : IsGraph g → IsGraph (add_edge g from dep)
  unfolding add_edge
  add_edge-IsGraph h =
      let h' = add_node-IsGraph (add_node g from) dep (add_node-IsGraph g from h) in
      record {
        unique = update-IsMap from (add dep) both.edges h'.unique;
        sets = update-AllSets from dep both.edges h'.sets;
        closed = λ n d m. ground (
          arith,
          key_added,
          keys-update from (add dep) both.edges,
          get-update n from (add dep) both.edges,
          contains-add dep (deps_of both n) d,
          h'.closed n d,
        );
      }

  pub contains-deps_of-add_edge :
      (n d : String)
      → contains (deps_of (add_edge g from dep) n) d
        ≡ (n == from && d == dep || contains (deps_of g n) d)
  unfolding add_edge add_node
  contains-deps_of-add_edge n d = ground (
    arith,
    get-update n from (add dep) both.edges,
    get-entry n dep [] (λ deps. deps) (add_node g from).edges,
    get-entry n from [] (λ deps. deps) g.edges,
    get-entry from from [] (λ deps. deps) g.edges,
    get-entry from dep [] (λ deps. deps) (add_node g from).edges,
    contains-add dep (deps_of g n) d,
    get-entry dep from [] (λ deps. deps) g.edges,
  )

  pub contains-keys-add_edge :
      (n : String)
      → contains (keys (add_edge g from dep).edges) n
        ≡ (n == dep || (n == from || contains (keys g.edges) n))
  unfolding add_edge add_node
  contains-keys-add_edge n = ground (
    arith,
    keys-update from (add dep) both.edges,
    contains-keys-entry n dep [] (λ deps. deps) (add_node g from).edges,
    contains-keys-entry n from [] (λ deps. deps) g.edges,
  )

pub contains-keys-add_node :
    (g : DependencyGraph) (name n : String)
    → contains (keys (add_node g name).edges) n ≡ (n == name || contains (keys g.edges) n)
unfolding add_node
contains-keys-add_node g name n = contains-keys-entry n name [] (λ deps. deps) g.edges
