-- ===== src/Dependency/Graph.antt =====
-- src/dependency/graph.rs. An outcome `none` is a panic of the source (`expect("known node")`, or
-- the underflow of a counter), or the end of the fuel; `Graph.Order` shows that neither occurs.
pub mod Count
pub mod Release
pub mod Order
pub mod Sorted
pub mod Build
use mitos_pkg.Prelude.{
  ℕ, zero, suc, ◌-◌, String, string_eq, Bool, List, [], ◌∷◌, ◌++◌, Option, none, some, eqb, ltb,
  if◌then◌else◌, add, filter, length, Result, ok, err,
}
use mitos_pkg.Prelude.HashMap
use mitos_pkg.Prelude.HashMap.{HashMap, keys}
use mitos_pkg.Error.{PkgResult, circular_dependency}

-- node -> the set of nodes that it directly depends on
pub record DependencyGraph : Type 0 where
  pub edges : HashMap String (List String)

abbrev pub new : DependencyGraph
new = record { edges = [] }

unfoldable pub add_node : DependencyGraph → String → DependencyGraph
add_node g name = record { edges = HashMap.entry name [] (λ deps. deps) g.edges }

unfoldable pub add_edge : DependencyGraph → String → String → DependencyGraph
unfolding add_node
add_edge g from depends_on =
    let g' = add_node (add_node g from) depends_on in
    record { edges = HashMap.update from (add depends_on) g'.edges }

-- `in_degree` and `dependents` of `install_order`
pub record Counts : Type 0 where
  pub in_degree : HashMap String ℕ
  pub dependents : HashMap String (List String)

-- `in_degree.entry(node).or_insert(0)` for each node
unfoldable pub zeros : HashMap String (List String) → HashMap String ℕ → HashMap String ℕ
zeros [] m = m
zeros ((node, _) ∷ edges) m = zeros edges (HashMap.entry node 0 (λ d. d) m)

unfoldable pub count_dep : String → Counts → String → Counts
count_dep node c dep = record {
  in_degree = HashMap.entry node 0 suc c.in_degree;
  dependents = HashMap.entry dep [] (λ l. l ++ node ∷ []) c.dependents;
}

unfoldable pub count_deps : String → Counts → List String → Counts
unfolding count_dep
count_deps node c [] = c
count_deps node c (dep ∷ deps) = count_deps node (count_dep node c dep) deps

unfoldable pub count_edges : Counts → HashMap String (List String) → Counts
unfolding count_deps
count_edges c [] = c
count_edges c ((node, deps) ∷ edges) = count_edges (count_deps node c deps) edges

-- the variables of the `while` loop
pub record Work : Type 0 where
  pub in_degree : HashMap String ℕ
  pub queue : List String
  pub order : List String

-- `*deg -= 1; if *deg == 0 { queue.push_back(dependent); }`
abbrev lower : Work → String → Option ℕ → Option Work
lower w dependent none = none
lower w dependent (some zero) = none
lower w dependent (some (suc deg)) = some (record {
  in_degree = HashMap.update dependent (λ d. d - 1) w.in_degree;
  queue = if eqb deg 0 then w.queue ++ dependent ∷ [] else w.queue;
  order = w.order;
})

-- the loop over the dependents of a node that has been ordered
unfoldable pub release : List String → Work → Option Work
release [] w = some w
release (dependent ∷ rest) w = elim (lower w dependent (HashMap.get dependent w.in_degree)) [
  | none ↦ none
  | some w' ↦ release rest w'
]

-- one round of the loop, after `node` left the queue
unfoldable pub visit_node : HashMap String (List String) → String → List String → Work → Option Work
unfolding release
visit_node dependents node rest w =
    release (HashMap.get_or node [] dependents)
      (record { in_degree = w.in_degree; queue = rest; order = w.order ++ node ∷ [] })

unfoldable pub drain : HashMap String (List String) → ℕ → Work → Option Work
unfolding visit_node
drain dependents zero w = elim w.queue [ [] ↦ some w | _ ∷ _ ↦ none ]
drain dependents (suc fuel) w = elim w.queue [
  | [] ↦ some w
  | node ∷ rest ↦ elim (visit_node dependents node rest w) [
    | none ↦ none
    | some w' ↦ drain dependents fuel w'
  ]
]

-- the nodes of degree 0, in the order of the map
unfoldable pub sources : HashMap String ℕ → List String
sources [] = []
sources ((node, deg) ∷ m) = let rest = sources m in if eqb deg 0 then node ∷ rest else rest

-- the first node of positive degree, or "" (`unwrap_or_default`)
pub stuck : HashMap String ℕ → String
stuck [] = ""
stuck ((node, deg) ∷ m) = if ltb 0 deg then node else stuck m

unfoldable pub counts : DependencyGraph → Counts
unfolding zeros count_edges
counts g = count_edges (record { in_degree = zeros g.edges []; dependents = [] }) g.edges

abbrev pub finish : Work → PkgResult (List String)
finish w =
    if eqb (length w.order) (length w.in_degree)
    then ok w.order
    else err (circular_dependency (stuck w.in_degree))

unfoldable pub install_order : DependencyGraph → Option (PkgResult (List String))
unfolding counts sources drain stuck
install_order g =
    let c = counts g in
    elim (drain c.dependents (length g.edges)
      (record { in_degree = c.in_degree; queue = sources c.in_degree; order = [] })) [
        | none ↦ none
        | some w ↦ some (finish w)
      ]
