-- ===== src/Dependency/Graph/Count.antt =====
-- What the counting loops of `install_order` compute: for each node the number of its dependencies,
-- and for each dependency the nodes that name it.
use mathlib.Core.List.{append_assoc, append-nil}
use mitos_pkg.Prelude.{
  ℕ, suc, ◌+◌, String, string_eq, true, false, List, [], ◌∷◌, ◌++◌, none, ◌≡◌, refl, sym, ◌∙◌,
  arith, ◌==◌, if◌then◌else◌, length, contains, IsSetList,
}
use mitos_pkg.Prelude.HashMap
use mitos_pkg.Prelude.HashMap.{HashMap, keys, IsMap, get-entry, keys-entry}
use mitos_pkg.Dependency.Graph.{
  DependencyGraph, Counts, zeros, count_dep, count_deps, count_edges, counts,
}

-- The dependencies of each node are listed once.
abbrev pub AllSets : HashMap String (List String) → Type 0
AllSets [] = Unit
AllSets ((_, deps) ∷ m) = IsSetList deps × AllSets m

-- the nodes that name `dep` as a dependency, in the order of the map
abbrev pub users : String → HashMap String (List String) → List String
users dep [] = []
users dep ((node, deps) ∷ m) =
    let rest = users dep m in if contains deps dep then node ∷ rest else rest

abbrev degree : Counts → String → ℕ
degree c n = HashMap.get_or n 0 c.in_degree

abbrev listed : Counts → String → List String
listed c d = HashMap.get_or d [] c.dependents

keys-entry_new :
    (k : String) (d : ℕ) (f : ℕ → ℕ) (m : HashMap String ℕ)
    → contains (keys m) k ≡ false
    → keys (HashMap.entry k d f m) ≡ keys m ++ k ∷ []
unfolding HashMap.entry
keys-entry_new k d f [] h = refl
keys-entry_new k d f ((j, w) ∷ m) h = ground (arith, keys-entry_new k d f m)

contains_snoc :
    (xs : List String) (k a : String)
    → contains (xs ++ k ∷ []) a ≡ (if a == k then true else contains xs a)
contains_snoc [] k a = ground arith
contains_snoc (x ∷ xs) k a = ground (arith, contains_snoc xs k a)

not-contains_of_none :
    (k : String) (m : HashMap String (List String))
    → HashMap.get k m ≡ none
    → contains (keys m) k ≡ false
unfolding HashMap.get
not-contains_of_none k [] h = refl
not-contains_of_none k ((j, w) ∷ m) h = ground (arith, not-contains_of_none k m)

keys-zeros :
    (m : HashMap String (List String)) (acc : HashMap String ℕ)
    → IsMap m
    → ((k : String) → contains (keys m) k ≡ true → contains (keys acc) k ≡ false)
    → keys (zeros m acc) ≡ keys acc ++ keys m
unfolding zeros
keys-zeros [] acc h fresh = sym (append-nil (keys acc))
keys-zeros ((k, deps) ∷ m) acc h fresh =
    let new_key = keys-entry_new k 0 (λ d. d) acc (fresh k (ground arith)) in
    keys-zeros m _ h.1 (λ j p.
      rw new_key
        (ground (arith, contains_snoc (keys acc) k j, fresh j, not-contains_of_none k m h.0)))
    ∙ rw new_key (append_assoc (keys acc) (k ∷ []) (keys m))

degree-zeros :
    (m : HashMap String (List String)) (acc : HashMap String ℕ) (n : String)
    → HashMap.get_or n 0 (zeros m acc) ≡ HashMap.get_or n 0 acc
unfolding zeros
degree-zeros [] acc n = refl
degree-zeros ((k, deps) ∷ m) acc n =
    ground (arith, degree-zeros m (HashMap.entry k 0 (λ d. d) acc) n, get-entry n k 0 (λ d. d) acc)

keys-count_deps :
    (node : String) (c : Counts) (deps : List String)
    → contains (keys c.in_degree) node ≡ true
    → keys (count_deps node c deps).in_degree ≡ keys c.in_degree
unfolding count_deps
keys-count_deps node c [] h = refl
keys-count_deps node c (dep ∷ deps) h =
    let same = keys-entry node 0 suc c.in_degree h in
    keys-count_deps node (count_dep node c dep) deps (rw same h) ∙ same

degree-count_deps :
    (node : String) (c : Counts) (deps : List String) (n : String)
    → degree (count_deps node c deps) n ≡ degree c n + (if n == node then length deps else 0)
unfolding count_deps
degree-count_deps node c [] n = ground arith
degree-count_deps node c (dep ∷ deps) n = ground (
  arith,
  degree-count_deps node (count_dep node c dep) deps n,
  get-entry n node 0 suc c.in_degree,
)

listed-count_deps :
    (node : String) (c : Counts) (deps : List String) (d : String)
    → IsSetList deps
    → listed (count_deps node c deps) d ≡ listed c d ++ (if contains deps d then node ∷ [] else [])
unfolding count_deps
listed-count_deps node c [] d h = sym (append-nil (listed c d))
listed-count_deps node c (dep ∷ deps) d h =
    listed-count_deps node (count_dep node c dep) deps d h.1
    ∙ ground (
      arith,
      h.0,
      get-entry d dep [] (λ l. l ++ node ∷ []) c.dependents,
      append-nil (listed c d ++ node ∷ []),
    )

keys-count_edges :
    (c : Counts) (m : HashMap String (List String))
    → ((k : String) → contains (keys m) k ≡ true → contains (keys c.in_degree) k ≡ true)
    → keys (count_edges c m).in_degree ≡ keys c.in_degree
unfolding count_edges
keys-count_edges c [] h = refl
keys-count_edges c ((node, deps) ∷ m) h =
    let same = keys-count_deps node c deps (h node (ground arith)) in
    keys-count_edges (count_deps node c deps) m (λ k p. rw same (h k (ground arith))) ∙ same

degree-count_edges :
    (c : Counts) (m : HashMap String (List String)) (n : String)
    → IsMap m
    → degree (count_edges c m) n ≡ degree c n + length (HashMap.get_or n [] m)
unfolding count_edges HashMap.get
degree-count_edges c [] n h = omega arith
degree-count_edges c ((node, deps) ∷ m) n h =
    degree-count_edges (count_deps node c deps) m n h.1
    ∙ ground (arith, h.0, degree-count_deps node c deps n)

listed-count_edges :
    (c : Counts) (m : HashMap String (List String)) (d : String)
    → AllSets m
    → listed (count_edges c m) d ≡ listed c d ++ users d m
unfolding count_edges
listed-count_edges c [] d h = sym (append-nil (listed c d))
listed-count_edges c ((node, deps) ∷ m) d h =
    listed-count_edges (count_deps node c deps) m d h.1
    ∙ rw (listed-count_deps node c deps d h.0) (
        append_assoc (listed c d) (if contains deps d then node ∷ [] else []) (users d m)
        ∙ ground arith)

module _ (g : DependencyGraph) (unique : IsMap g.edges) (sets : AllSets g.edges) where
  pub keys-counts : keys (counts g).in_degree ≡ keys g.edges
  unfolding counts
  keys-counts =
      let all = keys-zeros g.edges [] unique (λ k p. refl) in
      keys-count_edges _ g.edges (λ k p. rw all p) ∙ all

  pub degree-counts : (n : String) → degree (counts g) n ≡ length (HashMap.get_or n [] g.edges)
  unfolding counts HashMap.get
  degree-counts n = degree-count_edges _ g.edges n unique ∙ omega (arith, degree-zeros g.edges [] n)

  pub listed-counts : (d : String) → listed (counts g) d ≡ users d g.edges
  unfolding counts HashMap.get
  listed-counts d = listed-count_edges _ g.edges d sets
