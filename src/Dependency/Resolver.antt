-- ===== src/Dependency/Resolver.antt =====
-- src/dependency/resolver.rs. `none` is the end of the fuel: `Resolver.Fuel` shows that one unit for
-- each name of the index, and one more, suffices.
pub mod Conflicts
pub mod Dependents
pub mod Install
pub mod Visited
pub mod Fuel
pub mod Intersect
use mitos_pkg.Prelude.{
  ℕ, zero, suc, String, string_eq, List, [], ◌∷◌, Option, none, some, Result, ok, err,
  if◌then◌else◌, contains, add, discard, ◌<>◌,
}
use mitos_pkg.Prelude.HashMap
use mitos_pkg.Prelude.HashMap.{HashMap}
use mitos_pkg.Error.{
  PkgError, format, dependency_conflict, circular_dependency, arch_mismatch, no_matching_version,
  package_not_found,
}
use mitos_pkg.Semver.{Semver}
use mitos_pkg.Dependency.Version.{Dependency}
use mitos_pkg.Dependency.Graph.{DependencyGraph, add_node, add_edge}
use mitos_pkg.Repository.Metadata.{PackageMetadata}
use mitos_pkg.Repository.Index.{
  RepositoryIndex, best_match, best_match_for_arch, find_provider_for_arch,
}
use mitos_pkg.Database.Packages
use mitos_pkg.Database.Packages.{InstalledPackage, InstalledDb, is_installed}

-- `MAX_RESTARTS`
abbrev pub max_restarts : ℕ
max_restarts = 200

module _ (sv : Semver) where
  pub record InstallPlan : Type 0 where
    pub order : List (PackageMetadata sv)

  pub data VisitError : Type 0 where
    fatal : PkgError → VisitError
    narrow : String → sv.VersionReq → VisitError

  unfoldable pub intersect_req : sv.VersionReq → sv.VersionReq → sv.VersionReq
  intersect_req a b =
      if sv.no_comparators a
      then b
      else if sv.no_comparators b
      then a
      else elim (sv.parse_req (sv.show_req a <> ", " <> sv.show_req b)) [ none ↦ a | some r ↦ r ]

  -- what `visit` mutates
  pub record State : Type 0 where
    pub graph : DependencyGraph
    pub resolved : HashMap String (PackageMetadata sv)
    pub visiting : List String

  abbrev pub Visit : Type 0
  Visit = Option (Result State VisitError)

  abbrev pub unwrap_or : Option String → String → String
  unwrap_or none d = d
  unwrap_or (some s) d = s

  -- `graph.add_node(name)`, and the edge from the parent
  unfoldable pub enter : String → Option String → State → State
  enter name none st = record st { graph = add_node st.graph name }
  enter name (some parent) st = record st { graph = add_edge (add_node st.graph name) parent name }

  -- `visiting.insert(name)`
  unfoldable pub begin : String → State → State
  begin name st = record st { visiting = add name st.visiting }

  -- `visiting.remove(name)`, `resolved.insert(name, candidate)`
  unfoldable pub settle : String → PackageMetadata sv → State → State
  settle name candidate st = record st {
    visiting = discard name st.visiting;
    resolved = HashMap.insert name candidate st.resolved;
  }

  abbrev pub finish_visit : String → PackageMetadata sv → Visit → Visit
  finish_visit name candidate none = none
  finish_visit name candidate (some (err e)) = some (err e)
  finish_visit name candidate (some (ok st)) = some (ok (settle name candidate st))

  abbrev pub then_visit : Visit → (State → Visit) → Visit
  then_visit none f = none
  then_visit (some (err e)) f = some (err e)
  then_visit (some (ok st)) f = f st

  -- the fields of `Resolver`
  module _ (index : RepositoryIndex sv) (installed : InstalledDb sv) (target_arch : String) where
    module _ (extra_reqs : HashMap String sv.VersionReq) where
      unfoldable pub effective : String → sv.VersionReq → sv.VersionReq
      effective name req = elim (HashMap.get name extra_reqs) [
        | none ↦ req
        | some extra ↦ intersect_req req extra
      ]

      installed_conflict : String → sv.VersionReq → Option String → InstalledPackage sv → PkgError
      installed_conflict name eff required_by pkg = dependency_conflict (
          format (
            "installed '"
            ∷ name
            ∷ " "
            ∷ sv.show_version pkg.version
            ∷ "' does not satisfy '"
            ∷ name
            ∷ " "
            ∷ sv.show_req eff
            ∷ "' required by '"
            ∷ unwrap_or required_by name
            ∷ "' — upgrade it first"
            ∷ []))

      -- the early returns: a name resolved in this attempt, installed, or under visit
      unfoldable pub early :
          String → sv.VersionReq → Option String → State → Option (Result State VisitError)
      unfolding installed_conflict
      early name eff required_by st = elim (HashMap.get name st.resolved) [
        | some existing ↦
            some (if sv.matches eff existing.version then ok st else err (narrow name eff))
        | none ↦ elim (Packages.get sv installed name) [
          | some pkg ↦ some (
              if sv.matches eff pkg.version
              then ok st
              else err (fatal (installed_conflict name eff required_by pkg)))
          | none ↦
              if contains st.visiting name
              then some (err (fatal (circular_dependency name)))
              else none
        ]
      ]

      -- the error for a name with no candidate
      unfoldable pub no_candidate : String → sv.VersionReq → PkgError
      no_candidate name eff = elim (best_match sv index name eff) [
        | some wrong ↦ arch_mismatch name wrong.arch target_arch
        | none ↦
            if HashMap.contains_key name index.packages
            then if HashMap.contains_key name extra_reqs
              then dependency_conflict (
                  format (
                    "no version of '"
                    ∷ name
                    ∷ "' satisfies every requirement placed on it across this install (combined: "
                    ∷ sv.show_req eff
                    ∷ ")"
                    ∷ []))
              else no_matching_version name (sv.show_req eff)
            else package_not_found name
      ]

      unfoldable pub candidate : String → sv.VersionReq → Result (PackageMetadata sv) VisitError
      unfolding no_candidate
      candidate name eff = elim (best_match_for_arch sv index name eff target_arch) [
        | some c ↦ ok c
        | none ↦ err (fatal (no_candidate name eff))
      ]

      -- the package that a dependency of `name` recurses on, and the requirement on it
      unfoldable pub target : String → Dependency sv → Result (String × sv.VersionReq) VisitError
      target name dep = elim (best_match_for_arch sv index dep.name dep.version_req target_arch) [
        | some _ ↦ ok (dep.name, dep.version_req)
        | none ↦ elim (find_provider_for_arch sv index dep.name target_arch) [
          | some provider ↦ ok (provider.name, sv.star)
          | none ↦ err (
              fatal (
                dependency_conflict (
                  format (
                    "no version of '"
                    ∷ dep.name
                    ∷ "' satisfies '"
                    ∷ sv.show_req dep.version_req
                    ∷ "' required by '"
                    ∷ name
                    ∷ "'"
                    ∷ []))))
        ]
      ]

      -- the loop over `candidate.dependencies`
      unfoldable pub visit_deps :
          (String → sv.VersionReq → Option String → State → Visit)
          → String
          → List (Dependency sv)
          → State
          → Visit
      visit_deps visit name [] st = some (ok st)
      visit_deps visit name (dep ∷ deps) st = elim (target name dep) [
        | err e ↦ some (err e)
        | ok (t, r) ↦ then_visit (visit t r (some name) st) (visit_deps visit name deps)
      ]

      unfoldable pub visit : ℕ → String → sv.VersionReq → Option String → State → Visit
      unfolding enter begin settle effective early candidate target visit_deps
      visit zero name req required_by st = none
      visit (suc fuel) name req required_by st =
          let st' = enter name required_by st in
          let eff = effective name req in
          elim (early name eff required_by st') [
            | some r ↦ some r
            | none ↦ elim (candidate name eff) [
              | err e ↦ some (err e)
              | ok c ↦
                  finish_visit name c (visit_deps (visit fuel) name c.dependencies (begin name st'))
            ]
          ]
