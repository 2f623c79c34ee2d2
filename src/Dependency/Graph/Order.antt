-- ===== src/Dependency/Graph/Order.antt =====
-- The invariant of the `while` loop of `install_order`.
use mathlib.Core.List.{append_assoc}
use mitos_pkg.Prelude.{
  ℕ, suc, ◌+◌, String, string_eq, Bool, true, false, not, ◌&&◌, ◌||◌, List, [], ◌∷◌, ◌++◌, none,
  some, ◌≡◌, refl, sym, ap, subst, ◌∙◌, inl, inr, arith, ◌==◌, if◌then◌else◌, length, contains,
  IsSetList, Bool-cases, eqb, filter, contains-append,
}
use mitos_pkg.Prelude.Counting.{append_apart, contains-filter, filter-IsSetList, append-IsSetList}
use mitos_pkg.Prelude.HashMap
use mitos_pkg.Prelude.HashMap.{HashMap, keys, IsMap}
use mitos_pkg.Dependency.Graph.{DependencyGraph, Work, sources, counts, visit_node}
use mitos_pkg.Dependency.Graph.Count.{AllSets, users, keys-counts, degree-counts, listed-counts}
use mitos_pkg.Dependency.Graph.Release.{degree, Released, release_lem}

abbrev pub deps_of : DependencyGraph → String → List String
deps_of g n = HashMap.get_or n [] g.edges

-- What `add_node` and `add_edge` keep of a graph.
pub record IsGraph (g : DependencyGraph) : Type 0 where
  pub unique : IsMap g.edges
  pub sets : AllSets g.edges
  pub closed : (n d : String) → contains (deps_of g n) d ≡ true → contains (keys g.edges) d ≡ true

-- In `xs` each node stands behind its dependencies, those of `seen` left aside.
abbrev pub IsOrdered : DependencyGraph → List String → List String → Type 0
IsOrdered g seen [] = Unit
IsOrdered g seen (n ∷ xs) =
    ((d : String) → contains (deps_of g n) d ≡ true → contains seen d ≡ true)
    × IsOrdered g (n ∷ seen) xs

IsOrdered-snoc :
    (g : DependencyGraph) (seen xs : List String) (n : String)
    → IsOrdered g seen xs
    → ((d : String) → contains (deps_of g n) d ≡ true → (contains seen d || contains xs d) ≡ true)
    → IsOrdered g seen (xs ++ n ∷ [])
IsOrdered-snoc g seen [] n h new = (λ d m. ground (arith, new d m), tt)
IsOrdered-snoc g seen (x ∷ xs) n h new =
    (h.0, IsOrdered-snoc g (x ∷ seen) xs n h.1 (λ d m. ground (arith, new d m)))

-- how many dependencies are not yet in `seen`
abbrev pub missing : List String → List String → ℕ
missing deps seen = length (filter (λ d. not (contains seen d)) deps)

pub missing_zero :
    (deps seen : List String) (d : String)
    → missing deps seen ≡ 0
    → contains deps d ≡ true
    → contains seen d ≡ true
missing_zero [] seen d e m = cc
missing_zero (x ∷ deps) seen d e m = elim (Bool-cases (contains seen x)) [
  | inl p ↦ ground (arith, missing_zero deps seen d)
  | inr p ↦ absurd (ground arith)
]

missing_snoc :
    (deps seen : List String) (x : String)
    → IsSetList deps
    → contains seen x ≡ false
    → missing deps (seen ++ x ∷ []) + (if contains deps x then 1 else 0) ≡ missing deps seen
missing_snoc [] seen x h fresh = omega arith
missing_snoc (d ∷ deps) seen x h fresh =
    ground (arith, missing_snoc deps seen x h.1 fresh, contains-append seen (x ∷ []) d, h.0)

deps-IsSetList :
    (m : HashMap String (List String)) (n : String) → AllSets m → IsSetList (HashMap.get_or n [] m)
unfolding HashMap.get
deps-IsSetList [] n h = tt
deps-IsSetList ((k, deps) ∷ m) n h = elim (Bool-cases (n == k)) [
  | inl p ↦ subst IsSetList (ground arith) h.0
  | inr p ↦ subst IsSetList (ground arith) (deps-IsSetList m n h.1)
]

users-not_key :
    (m : HashMap String (List String)) (d n : String)
    → HashMap.get n m ≡ none
    → contains (users d m) n ≡ false
unfolding HashMap.get
users-not_key [] d n h = refl
users-not_key ((k, deps) ∷ m) d n h = ground (arith, users-not_key m d n)

contains-users :
    (m : HashMap String (List String)) (d n : String)
    → IsMap m
    → contains (users d m) n ≡ contains (HashMap.get_or n [] m) d
unfolding HashMap.get
contains-users [] d n h = refl
contains-users ((k, deps) ∷ m) d n h =
    ground (arith, contains-users m d n h.1, users-not_key m d k h.0)

users-IsSetList : (m : HashMap String (List String)) (d : String) → IsMap m → IsSetList (users d m)
users-IsSetList [] d h = tt
users-IsSetList ((k, deps) ∷ m) d h =
    ground (arith, users-IsSetList m d h.1, users-not_key m d k h.0)

key_of_users :
    (m : HashMap String (List String)) (d n : String)
    → contains (users d m) n ≡ true
    → contains (keys m) n ≡ true
key_of_users [] d n h = cc
key_of_users ((k, deps) ∷ m) d n h = ground (arith, key_of_users m d n)

-- The keys of no map are repeated.
contains-sources :
    (m : HashMap String ℕ) (n : String)
    → IsSetList (keys m)
    → contains (sources m) n ≡ (contains (keys m) n && eqb (HashMap.get_or n 0 m) 0)
unfolding sources HashMap.get
contains-sources [] n h = refl
contains-sources ((k, deg) ∷ m) n h =
    ground (arith, contains-sources m n h.1, contains-sources m k h.1, h.0)

sources-IsSetList : (m : HashMap String ℕ) → IsSetList (keys m) → IsSetList (sources m)
unfolding sources
sources-IsSetList [] h = tt
sources-IsSetList ((k, deg) ∷ m) h =
    ground (arith, sources-IsSetList m h.1, contains-sources m k h.1, h.0)

-- At the head of the loop of `install_order`.
pub record Inv (g : DependencyGraph) (w : Work) : Type 0 where
  pub keys_same : keys w.in_degree ≡ keys g.edges
  pub degrees : (n : String) → degree w n ≡ missing (deps_of g n) w.order
  pub distinct : IsSetList (w.order ++ w.queue)
  pub known :
      (n : String) → contains (w.order ++ w.queue) n ≡ true → contains (keys g.edges) n ≡ true
  pub ready : (n : String) → contains (w.order ++ w.queue) n ≡ true → degree w n ≡ 0
  pub complete :
      (n : String)
      → contains (keys g.edges) n ≡ true
      → degree w n ≡ 0
      → contains (w.order ++ w.queue) n ≡ true
  pub sorted : IsOrdered g [] w.order

missing_nil : (deps : List String) → missing deps [] ≡ length deps
missing_nil [] = refl
missing_nil (d ∷ deps) = ap suc (missing_nil deps)

module _ (g : DependencyGraph) (h : IsGraph g) where
  abbrev pub start : Work
  start = record {
    in_degree = (counts g).in_degree;
    queue = sources (counts g).in_degree;
    order = [];
  }

  -- the state before the loop
  pub Inv-start : Inv g start
  Inv-start =
      let same = keys-counts g h.unique h.sets in
      let set = subst IsSetList (sym same) (HashMap.keys-IsSetList g.edges h.unique) in
      let found = λ (n : String). contains-sources (counts g).in_degree n set in
      record {
        keys_same = same;
        degrees = λ n. degree-counts g h.unique h.sets n ∙ sym (missing_nil (deps_of g n));
        distinct = sources-IsSetList (counts g).in_degree set;
        known = λ n m. rw (← same) (ground (arith, found n));
        ready = λ n m. ground (arith, found n);
        complete = λ n k z. rw found (rw (same, z) (ground arith));
        sorted = tt;
      }

  module _ (node : String) (rest : List String) (w : Work) (queued : w.queue ≡ node ∷ rest)
      (inv : Inv g w) where
    abbrev taken : Work
    taken = record { in_degree = w.in_degree; queue = rest; order = w.order ++ node ∷ [] }

    abbrev nodes : List String
    nodes = users node g.edges

    regroup : (w.order ++ node ∷ []) ++ rest ≡ w.order ++ w.queue
    regroup = append_assoc w.order (node ∷ []) rest ∙ ap (λ q. w.order ++ q) (sym queued)

    in_line : contains (w.order ++ w.queue) node ≡ true
    in_line = rw queued (ground (arith, contains-append w.order (node ∷ rest) node))

    fresh : contains w.order node ≡ false
    fresh =
        append_apart w.order (node ∷ rest) node
          (subst (λ q. IsSetList (w.order ++ q)) queued inv.distinct) (ground arith)

    degree_user :
        (n : String)
        → degree w n
          ≡ missing (deps_of g n) (w.order ++ node ∷ []) + (if contains nodes n then 1 else 0)
    degree_user n = ground (
      arith,
      inv.degrees n,
      missing_snoc (deps_of g n) w.order node (deps-IsSetList g.edges n h.sets) fresh,
      contains-users g.edges node n h.unique,
    )

    abbrev entering : List String
    entering = filter (λ n. eqb (degree w n) 1) nodes

    abbrev in_old : String → Bool
    in_old n = contains (w.order ++ w.queue) n

    module _ (w' : Work) (r : Released nodes taken w') where
      line : w'.order ++ w'.queue ≡ (w.order ++ w.queue) ++ entering
      line =
          rw (r.order_kept, r.queued)
            (sym (append_assoc (w.order ++ node ∷ []) rest entering)
              ∙ ap (λ q. q ++ entering) regroup)

      in_line' :
          (n : String)
          → contains (w'.order ++ w'.queue) n
            ≡ (in_old n || (eqb (degree w n) 1 && contains nodes n))
      in_line' n =
          ap (λ l. contains l n) line
          ∙ ground (
            arith,
            contains-append (w.order ++ w.queue) entering n,
            contains-filter (λ m. eqb (degree w m) 1) nodes n,
          )

      -- one round keeps the invariant
      round : Inv g w'
      round = record {
        keys_same = r.keys_kept ∙ inv.keys_same;
        degrees = λ n. rw r.order_kept (ground (arith, r.lowered n, degree_user n));
        distinct = subst IsSetList (sym line) (
            append-IsSetList (w.order ++ w.queue) entering inv.distinct
              (filter-IsSetList (λ n. eqb (degree w n) 1) nodes
                (users-IsSetList g.edges node h.unique))
              (λ n m.
                ground (arith, inv.ready n m, contains-filter (λ m. eqb (degree w m) 1) nodes n)));
        known = λ n m. ground (arith, in_line' n, inv.known n, key_of_users g.edges node n);
        ready = λ n m. ground (arith, in_line' n, inv.ready n, r.lowered n);
        complete = λ n k z. ground (arith, in_line' n, inv.complete n k, r.lowered n);
        sorted = rw r.order_kept (
            IsOrdered-snoc g [] w.order node inv.sorted (λ d m.
              missing_zero (deps_of g node) w.order d
                (omega (arith, inv.degrees node, inv.ready node in_line)) m));
      }

    -- The counters of the dependents are positive, so the round does not panic.
    pub visit_node-Inv :
        (w' : Work) × (visit_node (counts g).dependents node rest w ≡ some w')
        × Inv g w'
        × (w'.order ≡ w.order ++ node ∷ [])
    unfolding visit_node
    visit_node-Inv =
        let (w', r) =
          release_lem nodes taken (users-IsSetList g.edges node h.unique)
            (λ n m. ground (arith, degree_user n)) in
        (w', rw (listed-counts g h.unique h.sets node) r.returns, round w' r, r.order_kept)
