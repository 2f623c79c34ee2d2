-- ===== src/Dependency/Resolver/Visited.antt =====
-- What `visit` leaves behind when it succeeds.
use mathlib.Core.List.Memᴰ
use mitos_pkg.Prelude.{
  ◌==◌, if◌then◌else◌, zero, suc, Result-cases, Bool-cases, suc, discard-add, contains-add,
  Option-cases, ℕ, false, String, string_eq, true, List, [], ◌∷◌, Option, none, some, Result, ok,
  err, ◌≡◌, refl, subst, ◌∙◌, ◌⊎◌, inl, inr, arith, Memᴰ, contains,
}
use mitos_pkg.Prelude.HashMap
use mitos_pkg.Prelude.HashMap.{HashMap, keys, get-insert}
use mitos_pkg.Semver.{Semver}
use mitos_pkg.Dependency.Version.{Dependency}
use mitos_pkg.Dependency.Graph.{DependencyGraph, add_node, add_edge}
use mitos_pkg.Dependency.Graph.Order.{IsGraph, deps_of}
use mitos_pkg.Dependency.Graph.Build.{
  add_node-IsGraph, add_edge-IsGraph, contains-deps_of-add_edge, contains-keys-add_edge,
  deps_of-add_node, contains-keys-add_node,
}
use mitos_pkg.Repository.Metadata.{PackageMetadata}
use mitos_pkg.Repository.Index.{RepositoryIndex, best_match_for_arch}
use mitos_pkg.Repository.Index.Best.{best_match_for_arch-IsEligible}
use mitos_pkg.Database.Packages
use mitos_pkg.Database.Packages.{InstalledPackage, InstalledDb}
use mitos_pkg.Dependency.Resolver.{
  visit, early, candidate, begin, State, VisitError, Visit, enter, settle, effective, target,
  visit_deps, finish_visit, then_visit,
}

module _ (sv : Semver) (index : RepositoryIndex sv) (installed : InstalledDb sv)
    (target_arch : String) (extra_reqs : HashMap String sv.VersionReq) where
  abbrev pub eff : String → sv.VersionReq → sv.VersionReq
  eff = effective sv index installed target_arch extra_reqs

  -- Under the name `t` stands a version, resolved or installed, that satisfies `r` and what was
  -- learned of `t`.
  pub data Provided (st : State sv) (t : String) (r : sv.VersionReq) : Type 0 where
    by_plan :
        (m : PackageMetadata sv)
        → HashMap.get t st.resolved ≡ some m
        → sv.matches (eff t r) m.version ≡ true
        → Provided st t r
    by_system :
        (p : InstalledPackage sv)
        → Packages.get sv installed t ≡ some p
        → sv.matches (eff t r) p.version ≡ true
        → Provided st t r

  -- The dependency `d` of the package `n` is met, and the graph has the edge.
  pub record Met (st : State sv) (n : String) (d : Dependency sv) : Type 0 where
    pub name : String
    pub req : sv.VersionReq
    pub targeted : target sv index installed target_arch extra_reqs n d ≡ ok (name, req)
    pub provided : Provided st name req
    pub edge : contains (deps_of st.graph n) name ≡ true

  pub record IsSound (st : State sv) : Type 0 where
    pub graph_ok : IsGraph st.graph
    pub picked :
        (n : String) (m : PackageMetadata sv)
        → HashMap.get n st.resolved ≡ some m
        → (r : sv.VersionReq) × (best_match_for_arch sv index n r target_arch ≡ some m)
    pub named :
        (n : String) (m : PackageMetadata sv)
        → HashMap.get n st.resolved ≡ some m
        → contains (keys st.graph.edges) n ≡ true
    pub met :
        (n : String) (m : PackageMetadata sv) (d : Dependency sv)
        → HashMap.get n st.resolved ≡ some m
        → Memᴰ d m.dependencies
        → Met st n d
    pub apart : (n : String) → contains st.visiting n ≡ true → HashMap.get n st.resolved ≡ none

  -- What a visit adds to, and what it leaves.
  pub record Extends (st st' : State sv) : Type 0 where
    pub resolved_kept :
        (n : String) (m : PackageMetadata sv)
        → HashMap.get n st.resolved ≡ some m
        → HashMap.get n st'.resolved ≡ some m
    pub edges_kept :
        (n d : String)
        → contains (deps_of st.graph n) d ≡ true
        → contains (deps_of st'.graph n) d ≡ true
    pub keys_kept :
        (n : String)
        → contains (keys st.graph.edges) n ≡ true
        → contains (keys st'.graph.edges) n ≡ true
    pub visiting_same : st'.visiting ≡ st.visiting

  Extends-refl : (st : State sv) → Extends st st
  Extends-refl st = record {
    resolved_kept = λ n m e. e;
    edges_kept = λ n d e. e;
    keys_kept = λ n e. e;
    visiting_same = refl;
  }

  Extends-trans : {a b c : State sv} → Extends a b → Extends b c → Extends a c
  Extends-trans h k = record {
    resolved_kept = λ n m e. k.resolved_kept n m (h.resolved_kept n m e);
    edges_kept = λ n d e. k.edges_kept n d (h.edges_kept n d e);
    keys_kept = λ n e. k.keys_kept n (h.keys_kept n e);
    visiting_same = k.visiting_same ∙ h.visiting_same;
  }

  Provided-Extends :
      {a b : State sv} {t : String} {r : sv.VersionReq}
      → Extends a b
      → Provided a t r
      → Provided b t r
  Provided-Extends h (by_plan m e ok_) = by_plan m (h.resolved_kept _ m e) ok_
  Provided-Extends h (by_system p e ok_) = by_system p e ok_

  Met-Extends :
      {a b : State sv} {n : String} {d : Dependency sv} → Extends a b → Met a n d → Met b n d
  Met-Extends {n} h k = record {
    name = k.name;
    req = k.req;
    targeted = k.targeted;
    provided = Provided-Extends h k.provided;
    edge = h.edges_kept n k.name k.edge;
  }

  -- The edge from the parent, if there is one.
  abbrev pub HasEdge : State sv → Option String → String → Type 0
  HasEdge st none name = Unit
  HasEdge st (some parent) name = contains (deps_of st.graph parent) name ≡ true

  HasEdge-Extends :
      {a b : State sv} (parent : Option String) (name : String)
      → Extends a b
      → HasEdge a parent name
      → HasEdge b parent name
  HasEdge-Extends none name h e = tt
  HasEdge-Extends (some p) name h e = h.edges_kept p name e

  record Regraphed (st st' : State sv) : Type 0 where
    sound : IsSound st'
    extends : Extends st st'

  regraph :
      (st : State sv) (g : DependencyGraph)
      → IsSound st
      → IsGraph g
      → ((n d : String) → contains (deps_of st.graph n) d ≡ true → contains (deps_of g n) d ≡ true)
      → ((n : String) → contains (keys st.graph.edges) n ≡ true → contains (keys g.edges) n ≡ true)
      → Regraphed st (record st { graph = g })
  regraph st g h ok_ edges nodes =
      let e : Extends st (record st { graph = g }) = record {
        resolved_kept = λ n m e. e;
        edges_kept = edges;
        keys_kept = nodes;
        visiting_same = refl;
      } in
      record {
        sound = record {
          graph_ok = ok_;
          picked = h.picked;
          named = λ n m e. nodes n (h.named n m e);
          met = λ n m d q i. Met-Extends e (h.met n m d q i);
          apart = h.apart;
        };
        extends = e;
      }

  record Entered (name : String) (parent : Option String) (st st' : State sv) : Type 0 where
    step : Regraphed st st'
    edge : HasEdge st' parent name
    key : contains (keys st'.graph.edges) name ≡ true
    resolved_same : st'.resolved ≡ st.resolved
    visiting_same : st'.visiting ≡ st.visiting

  enter_lem :
      (name : String) (parent : Option String) (st : State sv)
      → IsSound st
      → Entered name parent st (enter sv name parent st)
  unfolding enter
  enter_lem name none st h = record {
    step =
        regraph st (add_node st.graph name) h (add_node-IsGraph st.graph name h.graph_ok)
          (λ n d e. rw deps_of-add_node e)
          (λ n e. ground (arith, contains-keys-add_node st.graph name n));
    edge = tt;
    key = ground (arith, contains-keys-add_node st.graph name name);
    resolved_same = refl;
    visiting_same = refl;
  }
  enter_lem name (some p) st h =
      let g = add_node st.graph name in
      record {
        step =
            regraph st (add_edge g p name) h
              (add_edge-IsGraph g p name (add_node-IsGraph st.graph name h.graph_ok))
              (λ n d e.
                ground
                  (arith, contains-deps_of-add_edge g p name n d, deps_of-add_node st.graph name n))
              (λ n e.
                ground (
                  arith,
                  contains-keys-add_edge g p name n,
                  contains-keys-add_node st.graph name n,
                ));
        edge = ground (arith, contains-deps_of-add_edge g p name p name);
        key = ground (arith, contains-keys-add_edge g p name name);
        resolved_same = refl;
        visiting_same = refl;
      }

  -- What a successful visit establishes.
  pub record Visited (st st' : State sv) (parent : Option String) (name : String)
      (req : sv.VersionReq) : Type 0 where
    pub sound : IsSound st'
    pub extends : Extends st st'
    pub edge : HasEdge st' parent name
    pub provided : Provided st' name req

  abbrev Keeps : (String → sv.VersionReq → Option String → State sv → Visit sv) → Type 0
  Keeps v =
      (name : String) (req : sv.VersionReq) (parent : Option String) (st st' : State sv)
      → IsSound st
      → v name req parent st ≡ some (ok st')
      → Visited st st' parent name req

  pub record DepsMet (st st' : State sv) (name : String) (deps : List (Dependency sv))
      : Type 0 where
    pub sound : IsSound st'
    pub extends : Extends st st'
    pub met : (d : Dependency sv) → Memᴰ d deps → Met st' name d

  pub target_cases :
      (name : String) (d : Dependency sv)
      → ((t : String) × (r : sv.VersionReq) × (target sv index installed target_arch extra_reqs name
              d
            ≡ ok (t, r)))
        ⊎ ((e : VisitError sv) × (target sv index installed target_arch extra_reqs name d ≡ err e))
  target_cases name d = go (target sv index installed target_arch extra_reqs name d) refl
    where
      go :
          (o : Result (String × sv.VersionReq) (VisitError sv))
          → target sv index installed target_arch extra_reqs name d ≡ o
          → ((t : String) × (r : sv.VersionReq) × (target sv index installed target_arch extra_reqs
                  name d
                ≡ ok (t, r)))
            ⊎ ((e : VisitError sv) × (target sv index installed target_arch extra_reqs name d
                  ≡ err e))
      go (ok (t, r)) e = inl (t, r, e)
      go (err x) e = inr (x, e)

  pub then_visit-ok :
      (m : Visit sv) (f : State sv → Visit sv) (st' : State sv)
      → then_visit sv m f ≡ some (ok st')
      → (s : State sv) × (m ≡ some (ok s)) × (f s ≡ some (ok st'))
  then_visit-ok none f st' h = cc
  then_visit-ok (some (err e)) f st' h = cc
  then_visit-ok (some (ok s)) f st' h = (s, refl, h)

  pub finish_visit-ok :
      (name : String) (c : PackageMetadata sv) (m : Visit sv) (st' : State sv)
      → finish_visit sv name c m ≡ some (ok st')
      → (s : State sv) × (m ≡ some (ok s)) × (settle sv name c s ≡ st')
  finish_visit-ok name c none st' h = cc
  finish_visit-ok name c (some (err e)) st' h = cc
  finish_visit-ok name c (some (ok s)) st' h = (s, refl, cc)

  visit_deps_lem :
      (v : String → sv.VersionReq → Option String → State sv → Visit sv) (name : String)
      (deps : List (Dependency sv)) (st st' : State sv)
      → Keeps v
      → IsSound st
      → visit_deps sv index installed target_arch extra_reqs v name deps st ≡ some (ok st')
      → DepsMet st st' name deps
  unfolding visit_deps
  visit_deps_lem v name [] st st' keep h e =
      let same : st ≡ st' = cc in
      subst (λ s. DepsMet st s name []) same
        (record { sound = h; extends = Extends-refl st; met = λ d i. absurd (Memᴰ.not-nil i) })
  visit_deps_lem v name (d ∷ deps) st st' keep h e = elim (target_cases name d) [
    | inr (x, bad) ↦ cc (rw (bad, visit_deps) at e)
    | inl (t, r, good) ↦
        let (s, first, rest) =
          then_visit-ok (v t r (some name) st) _ st' (rw (good, visit_deps) at e) in
        let a = keep t r (some name) st s h first in
        let b = visit_deps_lem v name deps s st' keep a.sound rest in
        record {
          sound = b.sound;
          extends = Extends-trans a.extends b.extends;
          met = λ x i. elim (Memᴰ.cases_cons i) [
            | inr later ↦ b.met x later
            | inl here ↦ rw here (record {
              name = t;
              req = r;
              targeted = good;
              provided = Provided-Extends b.extends a.provided;
              edge = b.extends.edges_kept name t a.edge;
            })
          ];
        }
  ]

  abbrev early_of :
      String → sv.VersionReq → Option String → State sv → Option (Result (State sv) (VisitError sv))
  early_of name req parent st =
      early sv index installed target_arch extra_reqs name (eff name req) parent st

  not_ok : {x : VisitError sv} {s : State sv} → ¬ (◌≡◌ {A = Visit sv} (some (err x)) (some (ok s)))
  not_ok h = cc

  pub early_returns :
      (name : String) (req : sv.VersionReq) (parent : Option String) (st st' : State sv)
      → early_of name req parent st ≡ some (ok st')
      → (st ≡ st') × Provided st name req
  unfolding early
  early_returns name req parent st st' h = elim (Option-cases (HashMap.get name st.resolved)) [
    | inr (m, e) ↦ elim (Bool-cases (sv.matches (eff name req) m.version)) [
      | inl fits ↦ (ground arith, by_plan m e fits)
      | inr differs ↦ absurd (ground arith)
    ]
    | inl absent ↦ elim (Option-cases (Packages.get sv installed name)) [
      | inr (p, e) ↦ elim (Bool-cases (sv.matches (eff name req) p.version)) [
        | inl fits ↦ (ground arith, by_system p e fits)
        | inr differs ↦ absurd (ground arith)
      ]
      | inl missing ↦ absurd (ground arith)
    ]
  ]

  pub early_none :
      (name : String) (req : sv.VersionReq) (parent : Option String) (st : State sv)
      → early_of name req parent st ≡ none
      → (HashMap.get name st.resolved ≡ none) × (contains st.visiting name ≡ false)
  unfolding early
  early_none name req parent st h = ground arith

  pub candidate-ok :
      (name : String) (r : sv.VersionReq) (c : PackageMetadata sv)
      → candidate sv index installed target_arch extra_reqs name r ≡ ok c
      → best_match_for_arch sv index name r target_arch ≡ some c
  unfolding candidate
  candidate-ok name r c h = ground arith

  begin-IsSound :
      (name : String) (st : State sv)
      → IsSound st
      → HashMap.get name st.resolved ≡ none
      → IsSound (begin sv name st)
  unfolding begin
  begin-IsSound name st h absent = record {
    graph_ok = h.graph_ok;
    picked = h.picked;
    named = h.named;
    met = λ n m d e i.
        let k = h.met n m d e i in
        record {
          name = k.name;
          req = k.req;
          targeted = k.targeted;
          provided = reprovide k.provided;
          edge = k.edge;
        };
    apart = λ n v. ground (arith, contains-add name st.visiting n, h.apart n);
  }
    where
      reprovide :
          {t : String} {r : sv.VersionReq} → Provided st t r → Provided (begin sv name st) t r
      reprovide (by_plan m e fits) = by_plan m e fits
      reprovide (by_system p e fits) = by_system p e fits

  module _ (name : String) (req : sv.VersionReq) (c : PackageMetadata sv) (st s : State sv)
      (fresh : contains st.visiting name ≡ false)
      (chosen : best_match_for_arch sv index name (eff name req) target_arch ≡ some c)
      (key : contains (keys st.graph.edges) name ≡ true)
      (deps : DepsMet (begin sv name st) s name c.dependencies) where
    abbrev done : State sv
    done = settle sv name c s

    still_absent : HashMap.get name s.resolved ≡ none
    unfolding begin
    still_absent =
        deps.sound.apart name
          (rw deps.extends.visiting_same (ground (arith, contains-add name st.visiting name)))

    get-done :
        (n : String)
        → HashMap.get n done.resolved ≡ (if n == name then some c else HashMap.get n s.resolved)
    unfolding settle
    get-done n = get-insert n name c s.resolved

    kept :
        (n : String) (m : PackageMetadata sv)
        → HashMap.get n s.resolved ≡ some m
        → HashMap.get n done.resolved ≡ some m
    kept n m e = ground (arith, get-done n, still_absent)

    visiting-done : done.visiting ≡ st.visiting
    unfolding settle begin
    visiting-done = rw deps.extends.visiting_same (discard-add name st.visiting fresh)

    -- everything of `s` but the list of names under visit
    pub Extends-done : Extends st done
    unfolding settle begin
    Extends-done = record {
      resolved_kept = λ n m e. kept n m (deps.extends.resolved_kept n m e);
      edges_kept = deps.extends.edges_kept;
      keys_kept = deps.extends.keys_kept;
      visiting_same = visiting-done;
    }

    Provided-done : {t : String} {r : sv.VersionReq} → Provided s t r → Provided done t r
    Provided-done (by_plan m e fits) = by_plan m (kept _ m e) fits
    Provided-done (by_system p e fits) = by_system p e fits

    Met-done : {n : String} {d : Dependency sv} → Met s n d → Met done n d
    unfolding settle
    Met-done k = record {
      name = k.name;
      req = k.req;
      targeted = k.targeted;
      provided = Provided-done k.provided;
      edge = k.edge;
    }

    same_or_old :
        (n : String) (m : PackageMetadata sv)
        → HashMap.get n done.resolved ≡ some m
        → ((n ≡ name) × (c ≡ m)) ⊎ (HashMap.get n s.resolved ≡ some m)
    same_or_old n m e = elim (string_eq.dec n name) [
      | yes p ↦ inl (p, ground (arith, get-done n))
      | no q ↦ inr (ground (arith, get-done n))
    ]

    pub settle-Visited :
        (st0 : State sv) (parent : Option String)
        → Extends st0 st
        → HasEdge st parent name
        → Visited st0 done parent name req
    unfolding settle begin
    settle-Visited st0 parent before edge = record {
      sound = record {
        graph_ok = deps.sound.graph_ok;
        picked = λ n m e. elim (same_or_old n m e) [
          | inl (p, q) ↦ (eff name req, rw (p, ← q) chosen)
          | inr old ↦ deps.sound.picked n m old
        ];
        named = λ n m e. elim (same_or_old n m e) [
          | inl (p, q) ↦ rw p (deps.extends.keys_kept name key)
          | inr old ↦ deps.sound.named n m old
        ];
        met = λ n m d e i. elim (same_or_old n m e) [
          | inl (p, q) ↦ rw p (Met-done (deps.met d (rw q i)))
          | inr old ↦ Met-done (deps.sound.met n m d old i)
        ];
        apart = λ n v.
            let v' : contains st.visiting n ≡ true =
              subst (λ l. contains l n ≡ true) visiting-done v in
            ground (
              arith,
              get-done n,
              fresh,
              deps.sound.apart n
                  (rw deps.extends.visiting_same (ground (arith, contains-add name st.visiting n))),
            );
      };
      extends = Extends-trans before Extends-done;
      edge = HasEdge-Extends parent name Extends-done edge;
      provided =
          by_plan c (ground (arith, get-done name))
            (best_match_for_arch-IsEligible sv index name (eff name req) target_arch c
              chosen).matching;
    }

  -- A visit that succeeds resolves the name, or finds it installed, and meets every dependency of
  -- what it resolves.
  pub visit_lem : (fuel : ℕ) → Keeps (visit sv index installed target_arch extra_reqs fuel)
  unfolding visit
  visit_lem zero name req parent st st' h e = cc
  visit_lem (suc fuel) name req parent st st' h e =
      let st1 = enter sv name parent st in
      let i = enter_lem name parent st h in
      elim (Option-cases (early_of name req parent st1)) [
        | inr (r, q) ↦
            let (same, p) = early_returns name req parent st1 st' (q ∙ rw (q, visit) at e) in
            subst (λ s. Visited st s parent name req) same
              (record {
                sound = i.step.sound;
                extends = i.step.extends;
                edge = i.edge;
                provided = p;
              })
        | inl q ↦
            let (absent, fresh) = early_none name req parent st1 q in
            elim (Result-cases
              (candidate sv index installed target_arch extra_reqs name (eff name req))) [
                | inr (x, bad) ↦ absurd (not_ok (rw (q, bad, visit) at e))
                | inl (c, good) ↦
                    let (s, ran, final) = finish_visit-ok name c _ st' (rw (q, good, visit) at e) in
                    let deps =
                      visit_deps_lem (visit sv index installed target_arch extra_reqs fuel) name
                        c.dependencies (begin sv name st1) s (visit_lem fuel)
                        (begin-IsSound name st1 i.step.sound absent) ran in
                    subst (λ s. Visited st s parent name req) final
                      (settle-Visited name req c st1 s fresh
                        (candidate-ok name (eff name req) c good) i.key deps st parent
                        i.step.extends i.edge)
              ]
      ]
