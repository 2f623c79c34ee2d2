-- ===== src/Dependency/Resolver/Fuel.antt =====
-- The recursion of `visit` ends: the names under visit are names of the index, and differ.
use mitos_pkg.Prelude.{
  ◌∙◌, discard, discard-add, zero, Result-cases, inl, sym, inr, err, subst, ap, Option-cases, none,
  ℕ, suc, ◌+◌, ◌≤◌, ◌<◌, String, string_eq, true, false, List, [], ◌∷◌, Option, some, Result, ok,
  ◌≡◌, refl, arith, contains, add, contains-add, IsSetList, add-IsSetList, length,
}
use mitos_pkg.Prelude.Counting.{length-le}
use mitos_pkg.Prelude.HashMap
use mitos_pkg.Prelude.HashMap.{HashMap, keys, IsMap, length-keys}
use mitos_pkg.Semver.{Semver}
use mitos_pkg.Dependency.Version.{Dependency}
use mitos_pkg.Repository.Metadata.{PackageMetadata}
use mitos_pkg.Repository.Index.{RepositoryIndex}
use mitos_pkg.Repository.Index.Best.{best_match_for_arch-IsEligible}
use mitos_pkg.Dependency.Resolver.Visited.{
  early_none, early_returns, candidate-ok, eff, target_cases, then_visit-ok, finish_visit-ok,
}
use mitos_pkg.Database.Packages.{InstalledDb}
use mitos_pkg.Dependency.Resolver.{
  settle, finish_visit, early, candidate, begin, visit_deps, visit, enter, State, VisitError, Visit,
}

length-add :
    (a : String) (xs : List String) → contains xs a ≡ false → length (add a xs) ≡ suc (length xs)
length-add a [] h = refl
length-add a (x ∷ xs) h = ground (arith, length-add a xs)

module _ (sv : Semver) (index : RepositoryIndex sv) (installed : InstalledDb sv)
    (target_arch : String) (extra_reqs : HashMap String sv.VersionReq)
    (unique : IsMap index.packages) where
  -- `left` visits may still be nested.
  record HasRoom (left : ℕ) (visiting : List String) : Type 0 where
    distinct : IsSetList visiting
    known : (n : String) → contains visiting n ≡ true → contains (keys index.packages) n ≡ true
    room : length index.packages < length visiting + left

  visiting_le : (left : ℕ) (v : List String) → HasRoom left v → length v ≤ length index.packages
  visiting_le left v h = omega (
    arith,
    length-le v (keys index.packages) h.distinct (HashMap.keys-IsSetList index.packages unique)
        h.known,
    length-keys index.packages,
  )

  HasRoom-add :
      (left : ℕ) (v : List String) (name : String)
      → HasRoom (suc left) v
      → contains v name ≡ false
      → contains (keys index.packages) name ≡ true
      → HasRoom left (add name v)
  HasRoom-add left v name h fresh key = record {
    distinct = add-IsSetList name v h.distinct;
    known = λ n m. elim (string_eq.dec n name) [
      | yes p ↦ rw p key
      | no q ↦ h.known n (ground (arith, contains-add name v n))
    ];
    room = omega (arith, h.room, length-add name v fresh);
  }

  abbrev Returns : Visit sv → Type 0
  Returns v = (r : Result (State sv) (VisitError sv)) × (v ≡ some r)

  -- a visit function that returns wherever there is room, and leaves the names under visit
  record IsTotal (left : ℕ) (v : String → sv.VersionReq → Option String → State sv → Visit sv)
      : Type 0 where
    returns :
        (name : String) (req : sv.VersionReq) (parent : Option String) (st : State sv)
        → HasRoom left st.visiting
        → Returns (v name req parent st)
    leaves :
        (name : String) (req : sv.VersionReq) (parent : Option String) (st st' : State sv)
        → v name req parent st ≡ some (ok st')
        → st'.visiting ≡ st.visiting

  visiting-enter :
      (name : String) (parent : Option String) (st : State sv)
      → (enter sv name parent st).visiting ≡ st.visiting
  unfolding enter
  visiting-enter name none st = refl
  visiting-enter name (some p) st = refl

  visit_deps-leaves :
      (left : ℕ) (v : String → sv.VersionReq → Option String → State sv → Visit sv) (name : String)
      (deps : List (Dependency sv)) (st st' : State sv)
      → IsTotal left v
      → visit_deps sv index installed target_arch extra_reqs v name deps st ≡ some (ok st')
      → st'.visiting ≡ st.visiting
  unfolding visit_deps
  visit_deps-leaves left v name [] st st' total e =
      let same : st ≡ st' = cc in ap (λ (s : State sv). s.visiting) (sym same)
  visit_deps-leaves left v name (d ∷ deps) st st' total e =
      elim (target_cases sv index installed target_arch extra_reqs name d) [
        | inr (x, bad) ↦ cc (rw (bad, visit_deps) at e)
        | inl (t, r, good) ↦
            let (s, first, rest) =
              then_visit-ok sv index installed target_arch extra_reqs (v t r (some name) st) _ st'
                (rw (good, visit_deps) at e) in
            visit_deps-leaves left v name deps s st' total rest
            ∙ total.leaves t r (some name) st s first
      ]

  visit_deps-Returns :
      (left : ℕ) (v : String → sv.VersionReq → Option String → State sv → Visit sv) (name : String)
      (deps : List (Dependency sv)) (st : State sv)
      → IsTotal left v
      → HasRoom left st.visiting
      → Returns (visit_deps sv index installed target_arch extra_reqs v name deps st)
  unfolding visit_deps
  visit_deps-Returns left v name [] st total h = (ok st, refl)
  visit_deps-Returns left v name (d ∷ deps) st total h =
      elim (target_cases sv index installed target_arch extra_reqs name d) [
        | inr (x, bad) ↦ (err x, rw (bad, visit_deps) refl)
        | inl (t, r, good) ↦
            let (first, ran) = total.returns t r (some name) st h in
            elim (Result-cases first) [
              | inr (x, bad) ↦ (err x, rw (good, visit_deps) (rw (ran, bad) refl))
              | inl (s, fine) ↦
                  let (last, rest) = visit_deps-Returns left v name deps s total (
                    subst (HasRoom left)
                      (sym (total.leaves t r (some name) st s (ran ∙ ap some fine))) h) in
                  (last, rw (good, visit_deps) (rw (ran, fine) rest))
            ]
      ]

  key_of_candidate :
      (name : String) (r : sv.VersionReq) (c : PackageMetadata sv)
      → candidate sv index installed target_arch extra_reqs name r ≡ ok c
      → contains (keys index.packages) name ≡ true
  key_of_candidate name r c h =
      let e =
        best_match_for_arch-IsEligible sv index name r target_arch c
          (candidate-ok sv index installed target_arch extra_reqs name r c h) in
      HashMap.contains-keys_of_get name e.versions index.packages e.found

  finish_visit-Returns :
      (name : String) (c : PackageMetadata sv) (m : Visit sv)
      → Returns m
      → Returns (finish_visit sv name c m)
  finish_visit-Returns name c m (ok s, e) = (ok (settle sv name c s), rw e refl)
  finish_visit-Returns name c m (err x, e) = (err x, rw e refl)

  module _ (fuel : ℕ) (inner : IsTotal fuel (visit sv index installed target_arch extra_reqs fuel))
      (name : String) (req : sv.VersionReq) (parent : Option String) (st : State sv) where
    abbrev entered : State sv
    entered = enter sv name parent st

    abbrev early_here : Option (Result (State sv) (VisitError sv))
    early_here =
        early sv index installed target_arch extra_reqs name
          (eff sv index installed target_arch extra_reqs name req) parent entered

    abbrev candidate_here : Result (PackageMetadata sv) (VisitError sv)
    candidate_here =
        candidate sv index installed target_arch extra_reqs name
          (eff sv index installed target_arch extra_reqs name req)

    Returns-here :
        HasRoom (suc fuel) st.visiting
        → Returns (visit sv index installed target_arch extra_reqs (suc fuel) name req parent st)
    unfolding visit begin
    Returns-here h = elim (Option-cases early_here) [
      | inr (r, q) ↦ (r, rw (q, visit) refl)
      | inl q ↦ elim (Result-cases candidate_here) [
        | inr (x, bad) ↦ (err x, rw (q, bad, visit) refl)
        | inl (c, good) ↦
            let same = visiting-enter name parent st in
            let (absent, fresh) =
              early_none sv index installed target_arch extra_reqs name req parent entered q in
            let (r, ran) = finish_visit-Returns name c _ (
              visit_deps-Returns fuel (visit sv index installed target_arch extra_reqs fuel) name
                c.dependencies (begin sv name entered) inner
                (HasRoom-add fuel entered.visiting name (rw same h) fresh
                  (key_of_candidate name _ c good))) in
            (r, rw (q, good, visit) ran)
      ]
    ]

    leaves_here :
        (st' : State sv)
        → visit sv index installed target_arch extra_reqs (suc fuel) name req parent st
          ≡ some (ok st')
        → st'.visiting ≡ st.visiting
    unfolding visit begin settle
    leaves_here st' e = elim (Option-cases early_here) [
      | inr (r, q) ↦
          let (same, _) =
            early_returns sv index installed target_arch extra_reqs name req parent entered st'
              (q ∙ rw (q, visit) at e) in
          ap (λ (s : State sv). s.visiting) (sym same) ∙ visiting-enter name parent st
      | inl q ↦ elim (Result-cases candidate_here) [
        | inr (x, bad) ↦ cc (rw (q, bad, visit) at e)
        | inl (c, good) ↦
            let (absent, fresh) =
              early_none sv index installed target_arch extra_reqs name req parent entered q in
            let (s, ran, final) =
              finish_visit-ok sv index installed target_arch extra_reqs name c _ st'
                (rw (q, good, visit) at e) in
            let kept =
              visit_deps-leaves fuel (visit sv index installed target_arch extra_reqs fuel) name
                c.dependencies (begin sv name entered) s inner ran in
            ap (λ (s : State sv). s.visiting) (sym final)
            ∙ ap (discard name) kept
            ∙ discard-add name entered.visiting fresh
            ∙ visiting-enter name parent st
      ]
    ]

  visit-IsTotal : (fuel : ℕ) → IsTotal fuel (visit sv index installed target_arch extra_reqs fuel)
  unfolding visit
  visit-IsTotal zero = record {
    returns =
        λ name req parent st h. absurd (omega (arith, visiting_le zero st.visiting h, h.room));
    leaves = λ name req parent st st' e. cc;
  }
  visit-IsTotal (suc fuel) =
      let inner = visit-IsTotal fuel in
      record {
        returns = λ name req parent st h. Returns-here fuel inner name req parent st h;
        leaves = λ name req parent st st' e. leaves_here fuel inner name req parent st st' e;
      }

  -- With one unit of fuel more than the index has names, a visit from the root returns.
  pub visit-Returns :
      (name : String) (req : sv.VersionReq) (st : State sv)
      → st.visiting ≡ []
      → Returns (
          visit sv index installed target_arch extra_reqs
            (suc (length index.packages))
            name
            req
            none
            st)
  visit-Returns name req st e =
      (visit-IsTotal (suc (length index.packages))).returns name req none st (
        subst (HasRoom (suc (length index.packages))) (sym e)
          (record { distinct = tt; known = λ n m. cc; room = omega arith }))
