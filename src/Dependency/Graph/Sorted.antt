-- ===== src/Dependency/Graph/Sorted.antt =====
-- What `install_order` returns.
use mathlib.Core.List.{append-nil}
use mitos_pkg.Prelude.{
  false, true, contains-append, true, ◌<◌, subst, contains, IsSetList, Bool, ℕ, zero, suc, ◌+◌, ◌≤◌,
  String, string_eq, List, [], ◌∷◌, ◌++◌, some, ◌≡◌, ◌≢◌, refl, sym, ap, ◌∙◌, ◌⊎◌, inl, inr, arith,
  length, length-append, Bool-cases, eqb, ok, err,
}
use mitos_pkg.Prelude.Counting.{contains_of_length, IsSetList-append_left, length-le}
use mitos_pkg.Prelude.HashMap
use mitos_pkg.Prelude.HashMap.{HashMap, length-keys, keys, IsMap}
use mitos_pkg.Error.{PkgResult, circular_dependency}
use mitos_pkg.Dependency.Graph.{
  DependencyGraph, Work, counts, visit_node, drain, stuck, finish, install_order,
}
use mitos_pkg.Dependency.Graph.Order.{
  missing, deps_of, IsOrdered, IsGraph, Inv, start, Inv-start, visit_node-Inv,
}

List-cases :
    (xs : List String) → (xs ≡ []) ⊎ ((x : String) × (rest : List String) × (xs ≡ x ∷ rest))
List-cases [] = inl refl
List-cases (x ∷ xs) = inr (x, xs, refl)

Bool-eq : {a b : Bool} → (a ≡ true → b ≡ true) → (b ≡ true → a ≡ true) → a ≡ b
Bool-eq {a = true} {b} f f' = sym (f refl)
Bool-eq {a = false} {b = true} f f' = f' refl
Bool-eq {a = false} {b = false} f f' = refl

missing_none :
    (deps seen : List String)
    → ((d : String) → contains deps d ≡ true → contains seen d ≡ true)
    → missing deps seen ≡ 0
missing_none [] seen h = refl
missing_none (d ∷ deps) seen h =
    rw (h d (ground arith)) (missing_none deps seen (λ x m. h x (ground arith)))

module _ (g : DependencyGraph) (h : IsGraph g) where
  pub record Ends (fuel : ℕ) (w : Work) : Type 0 where
    pub last : Work
    pub returns : drain (counts g).dependents fuel w ≡ some last
    pub inv : Inv g last
    pub empty : last.queue ≡ []

  line_le : (w : Work) → Inv g w → length w.order + length w.queue ≤ length g.edges
  line_le w inv = omega (
    arith,
    length-le (w.order ++ w.queue) (keys g.edges) inv.distinct
        (HashMap.keys-IsSetList g.edges h.unique) inv.known,
    length-append w.order w.queue,
    length-keys g.edges,
  )

  drain_ended : (fuel : ℕ) (w : Work) → w.queue ≡ [] → drain (counts g).dependents fuel w ≡ some w
  unfolding drain
  drain_ended zero w e = simp (e, drain)
  drain_ended (suc fuel) w e = simp (e, drain)

  drain_step :
      (fuel : ℕ) (w w' : Work) (x : String) (rest : List String)
      → w.queue ≡ x ∷ rest
      → visit_node (counts g).dependents x rest w ≡ some w'
      → drain (counts g).dependents (suc fuel) w ≡ drain (counts g).dependents fuel w'
  unfolding drain
  drain_step fuel w w' x rest e v = rw (e, drain) (rw v)

  -- With a unit of fuel for each node that is not yet ordered, the loop ends by its own test.
  pub drain_lem :
      (fuel : ℕ) (w : Work) → Inv g w → length w.order + fuel ≡ length g.edges → Ends fuel w
  drain_lem zero w inv n = elim (List-cases w.queue) [
    | inl e ↦ record { last = w; returns = drain_ended zero w e; inv = inv; empty = e }
    | inr (x, rest, e) ↦ absurd (omega (arith, line_le w inv, ap length e))
  ]
  drain_lem (suc fuel) w inv n = elim (List-cases w.queue) [
    | inl e ↦ record { last = w; returns = drain_ended (suc fuel) w e; inv = inv; empty = e }
    | inr (x, rest, e) ↦
        let (w', v, inv', longer) = visit_node-Inv g h x rest w e inv in
        let r =
          drain_lem fuel w' inv'
            (omega (arith, ap length longer, length-append w.order (x ∷ []))) in
        record {
          last = r.last;
          returns = drain_step fuel w w' x rest e v ∙ r.returns;
          inv = r.inv;
          empty = r.empty;
        }
  ]

  pub ends : Ends (length g.edges) (start g h)
  ends = drain_lem (length g.edges) (start g h) (Inv-start g h) (omega arith)

  install_order-ends : install_order g ≡ some (finish ends.last)
  unfolding install_order
  install_order-ends = rw (ends.returns, install_order) refl

  install_order_cases :
      (install_order g ≡ some (ok ends.last.order)) × (length ends.last.order ≡ length g.edges)
      ⊎ (install_order g ≡ some (err (circular_dependency (stuck ends.last.in_degree))))
        × (length ends.last.order ≢ length g.edges)
  install_order_cases =
      let n =
        sym (length-keys ends.last.in_degree)
        ∙ ap length ends.inv.keys_same
        ∙ length-keys g.edges in
      elim (Bool-cases (eqb (length ends.last.order) (length ends.last.in_degree))) [
        | inl e ↦ inl (install_order-ends ∙ rw e refl, ground (arith, n))
        | inr e ↦ inr (install_order-ends ∙ rw e refl, ground (arith, n))
      ]

  order_in_keys :
      (n : String) → contains ends.last.order n ≡ true → contains (keys g.edges) n ≡ true
  order_in_keys n m =
      ends.inv.known n (ground (arith, contains-append ends.last.order ends.last.queue n))

  order_distinct : IsSetList ends.last.order
  order_distinct = IsSetList-append_left ends.last.order ends.last.queue ends.inv.distinct

  -- a node with all of its dependencies ordered is ordered
  order_closed :
      (n : String)
      → contains (keys g.edges) n ≡ true
      → ((d : String) → contains (deps_of g n) d ≡ true → contains ends.last.order d ≡ true)
      → contains ends.last.order n ≡ true
  order_closed n k all =
      subst (λ l. contains l n ≡ true)
        (ap (λ q. ends.last.order ++ q) ends.empty ∙ append-nil ends.last.order)
        (ends.inv.complete n k
          (ends.inv.degrees n ∙ missing_none (deps_of g n) ends.last.order all))

-- A topological order of `g`: each node once, behind its dependencies.
pub record IsTopological (g : DependencyGraph) (order : List String) : Type 0 where
  pub sorted : IsOrdered g [] order
  pub distinct : IsSetList order
  pub complete : (n : String) → contains order n ≡ contains (keys g.edges) n

-- `install_order` returns on every well-formed graph: the fuel, one unit for each node, suffices,
-- and no counter panics.
pub install_order_total :
    (g : DependencyGraph) → IsGraph g → (r : PkgResult (List String)) × (install_order g ≡ some r)
install_order_total g h = elim (install_order_cases g h) [
  | inl (e, _) ↦ (_, e)
  | inr (e, _) ↦ (_, e)
]

-- An order that `install_order` returns for a well-formed graph holds each node of the graph once,
-- behind its dependencies.
pub install_order-IsTopological :
    (g : DependencyGraph) (order : List String)
    → IsGraph g
    → install_order g ≡ some (ok order)
    → IsTopological g order
install_order-IsTopological g order h e = elim (install_order_cases g h) [
  | inl (e', full) ↦
      let same : (ends g h).last.order ≡ order = cc in
      subst (IsTopological g) same (record {
        sorted = (ends g h).inv.sorted;
        distinct = order_distinct g h;
        complete = λ n. Bool-eq (order_in_keys g h n) (
            contains_of_length _ _ (order_distinct g h) (HashMap.keys-IsSetList g.edges h.unique)
              (order_in_keys g h) (omega (arith, length-keys g.edges)) n);
      })
  | inr (e', _) ↦ cc
]

-- `rank` puts each dependency below its node, so the graph has no cycle.
abbrev pub IsRanked : (String → ℕ) → DependencyGraph → Type 0
IsRanked rank g = (n d : String) → contains (deps_of g n) d ≡ true → rank d < rank n

ranked_below :
    (g : DependencyGraph) (h : IsGraph g) (rank : String → ℕ)
    → IsRanked rank g
    → (bound : ℕ) (n : String) → rank n < bound
    → contains (keys g.edges) n ≡ true
    → contains (ends g h).last.order n ≡ true
ranked_below g h rank ranked zero n b k = absurd (omega arith)
ranked_below g h rank ranked (suc bound) n b k =
    order_closed g h n k
      (λ d m. ranked_below g h rank ranked bound d (omega (arith, ranked n d m)) (h.closed n d m))

-- On a well-formed graph without cycles, where a rank puts each dependency below its node,
-- `install_order` returns an order, never `CircularDependency`.
pub install_order_acyclic :
    (g : DependencyGraph) (rank : String → ℕ)
    → IsGraph g
    → IsRanked rank g
    → (order : List String) × (install_order g ≡ some (ok order))
install_order_acyclic g rank h ranked = elim (install_order_cases g h) [
  | inl (e, _) ↦ (_, e)
  | inr (_, short) ↦
      let all =
        length-le (keys g.edges) (ends g h).last.order (HashMap.keys-IsSetList g.edges h.unique)
          (order_distinct g h)
          (λ n k. ranked_below g h rank ranked (suc (rank n)) n (omega arith) k) in
      let few =
        length-le (ends g h).last.order (keys g.edges) (order_distinct g h)
          (HashMap.keys-IsSetList g.edges h.unique) (order_in_keys g h) in
      absurd (short (omega (arith, length-keys g.edges)))
]
