-- ===== src/Service/Lifecycle.antt =====
-- src/service/lifecycle.rs: the decisions of the commands, which packages to remove and to upgrade,
-- and what `info` shows. The commands around the decisions are in Service/Commands.
pub mod Removal
pub mod Upgrade
use mitos_pkg.Prelude.{
  ℕ, zero, suc, String, string_eq, Bool, true, false, not, ◌&&◌, ◌||◌, List, [], ◌∷◌, ◌++◌, Option,
  none, some, ok, err, ◌>>=◌, any, contains, ◌==◌, if◌then◌else◌, Ordering,
}
use mitos_pkg.Prelude.HashMap
use mitos_pkg.Prelude.HashMap.{HashMap}
use mitos_pkg.Error.{
  PkgResult, format, not_installed, required_by_others, essential_package, dependency_conflict,
  package_held, package_not_found,
}
use mitos_pkg.Semver.{Semver}
use mitos_pkg.Dependency.Version.{Dependency, dep_matches}
use mitos_pkg.Repository.Index.{RepositoryIndex, latest, latest_for_arch}
use mitos_pkg.Database.Packages
use mitos_pkg.Database.Packages.{InstalledPackage, InstalledDb}
use mitos_pkg.Dependency.Resolver.Dependents.{dependents_of}
use mitos_pkg.Service.Progress.{InfoView}

abbrev pub is_nil {ℓ} : {A : Type ℓ} → List A → Bool
is_nil [] = true
is_nil _ = false

module _ (sv : Semver) (index : RepositoryIndex sv) (db : InstalledDb sv)
    (target_arch : String) where
  -- the loop of `plan_cascade`, `deeper` its recursive call
  unfoldable pub plan_dependents :
      (String → List String → Option (List String))
      → List String
      → List String
      → Option (List String)
  unfolding Packages.is_installed
  plan_dependents deeper [] out = some out
  plan_dependents deeper (dependent ∷ rest) out =
      elim (if Packages.is_installed sv db dependent && not (contains out dependent)
        then deeper dependent out
        else some out) [ none ↦ none | some out1 ↦ plan_dependents deeper rest out1 ]

  -- None if the fuel, which bounds the depth of the calls, runs out.
  unfoldable pub plan_cascade : ℕ → String → List String → Option (List String)
  unfolding plan_dependents dependents_of
  plan_cascade zero name out = none
  plan_cascade (suc fuel) name out =
      elim (plan_dependents (plan_cascade fuel) (dependents_of sv db name) out) [
        | none ↦ none
        | some out1 ↦ some (if contains out1 name then out1 else out1 ++ (name ∷ []))
      ]

  -- `if !force { for n in &to_remove { ... } }`
  unfoldable pub check_essential : List String → PkgResult {0} Unit
  check_essential [] = ok tt
  check_essential (n ∷ names) =
      let rest = check_essential names in
      elim (Packages.get sv db n) [
        | none ↦ rest
        | some pkg ↦ if pkg.essential then err (essential_package n) else rest
      ]

  abbrev essential_or_forced : Bool → List String → PkgResult (List String)
  essential_or_forced force to_remove =
      (if force then ok tt else check_essential to_remove) >>= λ _. ok to_remove

  -- `remove` up to the removals: what it would remove. None if the fuel runs out.
  unfoldable pub removal_plan : ℕ → String → Bool → Bool → Option (PkgResult (List String))
  unfolding plan_cascade Packages.is_installed dependents_of check_essential
  removal_plan fuel name cascade force =
      let dependents = dependents_of sv db name in
      if not (Packages.is_installed sv db name)
      then some (err (not_installed name))
      else if cascade
      then elim (plan_cascade fuel name []) [
        | none ↦ none
        | some to_remove ↦ some (essential_or_forced force to_remove)
      ]
      else if not (is_nil dependents)
      then some (err (required_by_others name dependents))
      else some (essential_or_forced force (name ∷ []))

  -- `names_match` of `check_upgrade_safe`
  abbrev pub names_match : String → Dependency sv → Bool
  names_match name dep =
      dep.name == name
      || elim (Packages.get sv db name) [ none ↦ false | some p ↦ contains p.provides dep.name ]

  unfoldable pub check_dependencies :
      String → sv.Version → String → List (Dependency sv) → PkgResult {0} Unit
  unfolding dep_matches
  check_dependencies name new_version dependent_name [] = ok tt
  check_dependencies name new_version dependent_name (dep ∷ deps) =
      let rest = check_dependencies name new_version dependent_name deps in
      if names_match name dep && not (dep_matches sv dep new_version)
      then err (
          dependency_conflict (
            format (
              "upgrading '"
              ∷ name
              ∷ "' to "
              ∷ sv.show_version new_version
              ∷ " would break '"
              ∷ dependent_name
              ∷ "', which requires '"
              ∷ dep.name
              ∷ " "
              ∷ sv.show_req dep.version_req
              ∷ "'"
              ∷ [])))
      else rest

  unfoldable pub check_dependents :
      String → sv.Version → HashMap String (InstalledPackage sv) → PkgResult {0} Unit
  unfolding check_dependencies
  check_dependents name new_version [] = ok tt
  check_dependents name new_version ((dependent_name, dependent) ∷ rest) =
      let others = check_dependents name new_version rest in
      if dependent_name == name
      then others
      else check_dependencies name new_version dependent_name dependent.dependencies >>= λ _. others

  unfoldable pub check_upgrade_safe : String → sv.Version → PkgResult {0} Unit
  unfolding check_dependents
  check_upgrade_safe name new_version = check_dependents name new_version db.packages

  abbrev pub Upgrade : Type 0
  Upgrade = String × sv.Version × sv.Version

  -- `v <= w`
  abbrev not_newer : sv.Version → sv.Version → Bool
  not_newer v w = elim (sv.cmp v w) [ Ordering.gt ↦ false | _ ↦ true ]

  -- One round of the planning loop of `upgrade`: an upgrade, or none for `continue`. `named` tells
  -- whether the command names the package.
  unfoldable pub plan_one : Bool → Bool → String → PkgResult (Option Upgrade)
  unfolding latest_for_arch check_upgrade_safe
  plan_one named ignore_hold pkg_name = elim (Packages.get sv db pkg_name) [
    | none ↦ if named then err (not_installed pkg_name) else ok none
    | some installed ↦
        if installed.held && not ignore_hold
        then (if named then err (package_held pkg_name) else ok none)
        else elim (latest_for_arch sv index pkg_name target_arch) [
          | none ↦ ok none
          | some m ↦
              if not_newer m.version installed.version
              then ok none
              else check_upgrade_safe pkg_name m.version >>= λ _.
                  ok (some (pkg_name, installed.version, m.version))
        ]
  ]

  unfoldable pub plan_upgrades : Bool → Bool → List String → PkgResult (List Upgrade)
  unfolding plan_one
  plan_upgrades named ignore_hold [] = ok []
  plan_upgrades named ignore_hold (pkg_name ∷ targets) =
      plan_one named ignore_hold pkg_name >>= λ first.
      plan_upgrades named ignore_hold targets >>= λ rest.
      ok (elim first [ none ↦ rest | some u ↦ u ∷ rest ])

  -- `upgrade` up to the upgrades: what it would upgrade
  unfoldable pub upgrade_plan : Option String → Bool → PkgResult (List Upgrade)
  unfolding plan_upgrades
  upgrade_plan none ignore_hold = plan_upgrades false ignore_hold (HashMap.keys db.packages)
  upgrade_plan (some n) ignore_hold = plan_upgrades true ignore_hold (n ∷ [])

  -- the search for an orphan in `autoremove`
  unfoldable pub find_orphan : HashMap String (InstalledPackage sv) → Option String
  unfolding dependents_of
  find_orphan [] = none
  find_orphan ((name, pkg) ∷ rest) =
      let later = find_orphan rest in
      if not pkg.explicit && not pkg.essential && is_nil (dependents_of sv db name)
      then some name
      else later

  unfoldable pub info : String → PkgResult (InfoView sv)
  unfolding latest
  info name = elim (Packages.get sv db name) [
    | some pkg ↦ ok (record {
      name = pkg.name;
      version = pkg.version;
      description = pkg.description;
      dependencies = pkg.dependencies;
      provides = pkg.provides;
      conflicts = pkg.conflicts;
      installed = true;
      explicit = some pkg.explicit;
      held = some pkg.held;
      arch = pkg.arch;
      essential = pkg.essential;
    })
    | none ↦ elim (latest sv index name) [
      | none ↦ err (package_not_found name)
      | some meta ↦ ok (record {
        name = meta.name;
        version = meta.version;
        description = meta.description;
        dependencies = meta.dependencies;
        provides = meta.provides;
        conflicts = meta.conflicts;
        installed = false;
        explicit = none;
        held = none;
        arch = meta.arch;
        essential = meta.essential;
      })
    ]
  ]
