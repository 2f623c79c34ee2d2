-- ===== src/Dependency/Resolver/Install.antt =====
-- `resolve_install_req` and `resolve_install` of src/dependency/resolver.rs.
pub mod Met
pub mod Planned
use mitos_pkg.Prelude.{
  ℕ, zero, suc, String, string_eq, List, [], ◌∷◌, Option, none, some, ok, err, ◌>>=◌, length,
}
use mitos_pkg.Prelude.HashMap
use mitos_pkg.Prelude.HashMap.{HashMap}
use mitos_pkg.Error.{PkgResult, format, dependency_conflict}
use mitos_pkg.Semver.{Semver}
use mitos_pkg.Dependency.Graph
use mitos_pkg.Dependency.Graph.{install_order}
use mitos_pkg.Repository.Metadata.{PackageMetadata}
use mitos_pkg.Repository.Index.{RepositoryIndex}
use mitos_pkg.Database.Packages.{InstalledDb}
use mitos_pkg.Dependency.Resolver.{
  InstallPlan, State, fatal, narrow, intersect_req, visit, max_restarts,
}
use mitos_pkg.Dependency.Resolver.Conflicts.{check_conflicts}

module _ (sv : Semver) (index : RepositoryIndex sv) (installed : InstalledDb sv)
    (target_arch : String) where
  abbrev pub fresh : State sv
  fresh = record { graph = Graph.new; resolved = []; visiting = [] }

  -- `.filter_map(|name| resolved.remove(&name))`
  unfoldable pub collect :
      List String → HashMap String (PackageMetadata sv) → List (PackageMetadata sv)
  collect [] resolved = []
  collect (name ∷ names) resolved = elim (HashMap.get name resolved) [
    | none ↦ collect names resolved
    | some m ↦ m ∷ collect names (HashMap.remove name resolved)
  ]

  -- the packages of an order, checked for conflicts
  abbrev pub checked : State sv → List String → PkgResult (InstallPlan sv)
  checked st names =
      let order = collect names st.resolved in
      check_conflicts sv installed order >>= λ _. ok (record { order = order })

  -- the arm `Ok(())` of an attempt
  unfoldable pub plan_of : State sv → Option (PkgResult (InstallPlan sv))
  unfolding collect check_conflicts
  plan_of st = elim (install_order st.graph) [ none ↦ none | some r ↦ some (r >>= checked st) ]

  -- `extra_reqs.insert(name, combined)`
  unfoldable pub learn :
      String → sv.VersionReq → HashMap String sv.VersionReq → HashMap String sv.VersionReq
  unfolding intersect_req
  learn name req extra_reqs =
      HashMap.insert name
        (elim (HashMap.get name extra_reqs) [
          | some existing ↦ intersect_req sv existing req
          | none ↦ req
        ])
        extra_reqs

  module _ (fuel : ℕ) (root_name : String) (root_req : sv.VersionReq) where
    gives_up : PkgResult (InstallPlan sv)
    gives_up = err (
        dependency_conflict (
          format (
            "could not find a mutually compatible set of versions for '" ∷ root_name ∷ "' after "
            ∷ "200" ∷ " attempts — the dependency graph likely has no valid solution" ∷ [])))

    -- the `for` loop, `left` rounds of it
    unfoldable pub attempts : ℕ → HashMap String sv.VersionReq → Option (PkgResult (InstallPlan sv))
    unfolding visit plan_of learn gives_up
    attempts zero extra_reqs = some gives_up
    attempts (suc left) extra_reqs =
        elim (visit sv index installed target_arch extra_reqs fuel root_name root_req none fresh) [
          | none ↦ none
          | some (ok st) ↦ plan_of st
          | some (err (narrow name req)) ↦ attempts left (learn name req extra_reqs)
          | some (err (fatal e)) ↦ some (err e)
        ]

  -- The fuel of `visit` is one more than the number of names in the index.
  unfoldable pub resolve_install_req : String → sv.VersionReq → Option (PkgResult (InstallPlan sv))
  unfolding attempts
  resolve_install_req root_name root_req =
      attempts (suc (length index.packages)) root_name root_req max_restarts []

  unfoldable pub resolve_install : String → Option (PkgResult (InstallPlan sv))
  unfolding resolve_install_req
  resolve_install root_name = resolve_install_req root_name sv.star
