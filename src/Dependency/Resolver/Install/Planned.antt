-- ===== src/Dependency/Resolver/Install/Planned.antt =====
-- The plan that `resolve_install_req` returns.
use mathlib.Core.Option.{some-injective}
use mitos_pkg.Prelude.{
  ℕ, zero, suc, String, string_eq, List, [], Option, none, some, ok, err, ◌≡◌, refl, sym, ap, subst,
  ◌∙◌, inl, inr, contains, Result-cases, length, ◌>>=◌, >>=-ok,
}
use mitos_pkg.Prelude.HashMap
use mitos_pkg.Prelude.HashMap.{HashMap, keys, IsMap, get-remove}
use mitos_pkg.Error.{PkgError, PkgResult}
use mitos_pkg.Semver.{Semver, JoinsComparators}
use mitos_pkg.Dependency.Graph.Build.{IsGraph-new}
use mitos_pkg.Dependency.Graph.Sorted.{install_order_total, install_order-IsTopological}
use mitos_pkg.Repository.Index.{RepositoryIndex}
use mitos_pkg.Database.Packages.{InstalledDb}
use mitos_pkg.Dependency.Resolver.{InstallPlan, State, fatal, narrow, Visit, visit, max_restarts}
use mitos_pkg.Dependency.Resolver.Conflicts.{check_conflicts}
use mitos_pkg.Dependency.Resolver.Visited.{IsSound, Provided, by_plan, by_system, visit_lem}
use mitos_pkg.Dependency.Resolver.Intersect.{effective-narrows}
use mitos_pkg.Dependency.Resolver.Fuel.{visit-Returns}
use mitos_pkg.Dependency.Resolver.Install.{
  fresh, checked, collect, plan_of, learn, attempts, resolve_install_req,
}
use mitos_pkg.Dependency.Resolver.Install.Met.{
  Named, Stands, IsPlanned, packages_of, pairs, collect-pairs, pairs-IsPlanned, pairs-Memᴰ,
}

not_ok :
    {A : Type 0} {x : PkgError} {a : A}
    → ¬ (◌≡◌ {A = Option (PkgResult A)} (some (err x)) (some (ok a)))
not_ok h = cc

module _ (sv : Semver) (index : RepositoryIndex sv) (installed : InstalledDb sv)
    (target_arch : String) where
  -- What holds of a plan that `resolve_install_req` returns.
  pub record Planned (root : String) (req : sv.VersionReq) (plan : InstallPlan sv) : Type 0 where
    pub named : List (Named sv index installed target_arch)
    pub wanted : Stands sv index installed target_arch named root req
    pub packages : packages_of sv index installed target_arch named ≡ plan.order
    pub planned : IsPlanned sv index installed target_arch [] named
    pub compatible : check_conflicts sv installed plan.order ≡ ok tt

  module _ (laws : JoinsComparators sv) where
    plan_of-Planned :
        (extra_reqs : HashMap String sv.VersionReq) (root : String) (req : sv.VersionReq)
        (st : State sv) (plan : InstallPlan sv)
        → IsSound sv index installed target_arch extra_reqs st
        → Provided sv index installed target_arch extra_reqs st root req
        → plan_of sv index installed target_arch st ≡ some (ok plan)
        → Planned root req plan
    unfolding plan_of
    plan_of-Planned extra_reqs root req st plan sound provided h =
        let (r, ran) = install_order_total st.graph sound.graph_ok in
        elim (Result-cases r) [
          | inr (x, bad) ↦ absurd (not_ok (rw (ran, bad, plan_of) at h))
          | inl (names, good) ↦
              let top =
                install_order-IsTopological st.graph names sound.graph_ok (ran ∙ ap some good) in
              let order = collect sv index installed target_arch names st.resolved in
              let (u, fine, same) =
                >>=-ok (check_conflicts sv installed order) _
                  (some-injective _ _ (rw (ran, good, plan_of) at h)) in
              let e : record { order = order } ≡ plan = cc in
              subst (Planned root req) e (record {
                named = pairs sv index installed target_arch names st.resolved;
                wanted = root_stands names top.complete provided;
                packages = sym (
                    collect-pairs sv index installed target_arch names st.resolved st.resolved
                      top.distinct (λ n i. refl));
                planned =
                    pairs-IsPlanned sv index installed target_arch laws extra_reqs st sound names []
                      [] top.sorted (λ t m i g. cc);
                compatible = fine;
              })
        ]
      where
        root_stands :
            (names : List String)
            → ((n : String) → contains names n ≡ contains (keys st.graph.edges) n)
            → Provided sv index installed target_arch extra_reqs st root req
            → Stands sv index installed target_arch
                (pairs sv index installed target_arch names st.resolved)
                root
                req
        root_stands names complete (by_plan m e fits) = inl (
          m,
          pairs-Memᴰ sv index installed target_arch names st.resolved root m
              (complete root ∙ sound.named root m e) e,
          λ rel.
              effective-narrows sv laws index installed target_arch extra_reqs root req m.version
                rel fits,
        )
        root_stands names complete (by_system p e fits) = inr (
          p,
          e,
          λ rel.
              effective-narrows sv laws index installed target_arch extra_reqs root req p.version
                rel fits,
        )

  IsSound-fresh :
      (extra_reqs : HashMap String sv.VersionReq)
      → IsSound sv index installed target_arch extra_reqs (fresh sv index installed target_arch)
  unfolding HashMap.get
  IsSound-fresh extra_reqs = record {
    graph_ok = IsGraph-new;
    picked = λ n m e. cc;
    named = λ n m e. cc;
    met = λ n m d e i. cc;
    apart = λ n i. refl;
  }

  module _ (root : String) (req : sv.VersionReq) where
    abbrev visit_root : HashMap String sv.VersionReq → Visit sv
    visit_root extra_reqs =
        visit sv index installed target_arch extra_reqs (suc (length index.packages)) root req none
          (fresh sv index installed target_arch)

    abbrev attempts_root : ℕ → HashMap String sv.VersionReq → Option (PkgResult (InstallPlan sv))
    attempts_root = attempts sv index installed target_arch (suc (length index.packages)) root req

    fresh-visited :
        (extra_reqs : HashMap String sv.VersionReq) (st : State sv)
        → visit_root extra_reqs ≡ some (ok st)
        → IsSound sv index installed target_arch extra_reqs st
    fresh-visited extra_reqs st e =
        (visit_lem sv index installed target_arch extra_reqs (suc (length index.packages)) root req
          none (fresh sv index installed target_arch) st (IsSound-fresh extra_reqs) e).sound

    fresh-Provided :
        (extra_reqs : HashMap String sv.VersionReq) (st : State sv)
        → visit_root extra_reqs ≡ some (ok st)
        → Provided sv index installed target_arch extra_reqs st root req
    fresh-Provided extra_reqs st e =
        (visit_lem sv index installed target_arch extra_reqs (suc (length index.packages)) root req
          none (fresh sv index installed target_arch) st (IsSound-fresh extra_reqs) e).provided

    plan_of-returns :
        (extra_reqs : HashMap String sv.VersionReq) (st : State sv)
        → IsSound sv index installed target_arch extra_reqs st
        → (r : PkgResult (InstallPlan sv)) × (plan_of sv index installed target_arch st ≡ some r)
    unfolding plan_of
    plan_of-returns extra_reqs st sound =
        let (r, ran) = install_order_total st.graph sound.graph_ok in
        (r >>= checked sv index installed target_arch st, rw (ran, plan_of) refl)

    module _ (unique : IsMap index.packages) where
      attempts-returns :
          (left : ℕ) (extra_reqs : HashMap String sv.VersionReq)
          → (r : PkgResult (InstallPlan sv)) × (attempts_root left extra_reqs ≡ some r)
      unfolding attempts
      attempts-returns zero extra_reqs = (_, refl)
      attempts-returns (suc left) extra_reqs =
          let (r, ran) =
            visit-Returns sv index installed target_arch extra_reqs unique root req
              (fresh sv index installed target_arch) refl in
          elim (Result-cases r) [
            | inl (st, good) ↦
                let e = ran ∙ ap some good in
                let (q, planned) = plan_of-returns extra_reqs st (fresh-visited extra_reqs st e) in
                (q, rw (e, attempts) planned)
            | inr (narrow name q, bad) ↦
                let (q', again) =
                  attempts-returns left (learn sv index installed target_arch name q extra_reqs) in
                (q', rw (ran ∙ ap some bad, attempts) again)
            | inr (fatal x, bad) ↦ (err x, rw (ran ∙ ap some bad, attempts) refl)
          ]

      attempts-Planned :
          (laws : JoinsComparators sv) (left : ℕ) (extra_reqs : HashMap String sv.VersionReq)
          (plan : InstallPlan sv)
          → attempts_root left extra_reqs ≡ some (ok plan)
          → Planned root req plan
      unfolding attempts
      attempts-Planned laws zero extra_reqs plan h = absurd (not_ok (h))
      attempts-Planned laws (suc left) extra_reqs plan h =
          let (r, ran) =
            visit-Returns sv index installed target_arch extra_reqs unique root req
              (fresh sv index installed target_arch) refl in
          elim (Result-cases r) [
            | inl (st, good) ↦
                let e = ran ∙ ap some good in
                plan_of-Planned laws extra_reqs root req st plan (fresh-visited extra_reqs st e)
                  (fresh-Provided extra_reqs st e) (rw (e, attempts) at h)
            | inr (narrow name q, bad) ↦
                attempts-Planned laws left (learn sv index installed target_arch name q extra_reqs)
                  plan (rw (ran ∙ ap some bad, attempts) at h)
            | inr (fatal x, bad) ↦ absurd (not_ok (rw (ran ∙ ap some bad, attempts) at h))
          ]

  -- When the index lists no name twice, `resolve_install_req` returns: its fuel suffices, and no
  -- step panics.
  pub resolve_install_req_total :
      (root : String) (req : sv.VersionReq)
      → IsMap index.packages
      → (r : PkgResult (InstallPlan sv)) × (resolve_install_req sv index installed target_arch root
            req
          ≡ some r)
  unfolding resolve_install_req
  resolve_install_req_total root req unique = attempts-returns root req unique max_restarts []

  -- Suppose the index lists no name twice, and a version that matches joined comparators matches
  -- both requirements; pre-releases are left aside. A plan that `resolve_install_req` returns holds the
  -- package that is asked for, at a version that satisfies the requirement, unless such a version is
  -- installed. It holds versions that the index lists and that can be installed here. Each dependency of
  -- each is met, by an earlier package of the plan or by an installed one: of its name and at a version
  -- that satisfies its requirement; or, if the index lists no version of its name that satisfies it and
  -- can be installed here, of the name of a package that the index lists as providing it, at any
  -- version. And the plan has passed the check for conflicts.
  pub resolve_install_req-Planned :
      (root : String) (req : sv.VersionReq) (plan : InstallPlan sv)
      → IsMap index.packages
      → JoinsComparators sv
      → resolve_install_req sv index installed target_arch root req ≡ some (ok plan)
      → Planned root req plan
  unfolding resolve_install_req
  resolve_install_req-Planned root req plan unique laws h =
      attempts-Planned root req unique laws max_restarts [] plan h
