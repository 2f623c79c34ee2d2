-- ===== src/Service/Commands/Upgrading.antt =====
-- `upgrade_with_progress` and `upgrade_one` of src/service/lifecycle.rs.
use mitos_pkg.Prelude.{
  String, Bool, true, false, ◌||◌, List, [], ◌∷◌, Option, none, some, ok, ok_or, if◌then◌else◌,
}
use mitos_pkg.Prelude.Text.{is_nil}
use mitos_pkg.Error.{FilePath, package_not_found}
use mitos_pkg.Semver.{Semver}
use mitos_pkg.Dependency.Version.{Dependency}
use mitos_pkg.Dependency.Resolver.Install.{resolve_install}
use mitos_pkg.Package.Manifest.{Manifest}
use mitos_pkg.Repository.Metadata.{PackageMetadata}
use mitos_pkg.Repository.Index.{latest_for_arch}
use mitos_pkg.Database.Packages
use mitos_pkg.Database.History.{with_versions}
use mitos_pkg.Service.Progress.{installing}
use mitos_pkg.Service.Lifecycle.{upgrade_plan}
use mitos_pkg.Service.State.{
  Outside, State, Command, ◌>->◌, give, give_or_panic, emit, with_lock, record_entry,
}
use mitos_pkg.Service.Commands.Fetching.{
  effective_arch, fetch_and_verify, install_one, install_archive, remove_one,
}
use mitos_pkg.Service.Commands.Installing.{check_space}

module _ (sv : Semver) (out : Outside sv) where
  -- a name, the old and the new version
  abbrev pub Upgrade : Type 0
  Upgrade = String × sv.Version × sv.Version

  unfoldable pub install_each : List (PackageMetadata sv) → Command {0} sv Unit
  install_each [] = give sv (ok tt)
  install_each (meta ∷ order) = ◌>->◌ sv (install_one sv out meta false) λ _. install_each order

  -- the dependencies of the new version that are not installed
  unfoldable pub pull_in : List (Dependency sv) → Command {0} sv Unit
  pull_in [] s = give sv (ok tt) s
  pull_in (dep ∷ deps) s =
      if Packages.is_installed sv s.packages dep.name
      then pull_in deps s
      else ◌>->◌ sv
          (give_or_panic sv
            (resolve_install sv s.index s.packages (effective_arch sv out s) dep.name))
          (λ plan. ◌>->◌ sv (install_each plan.order) λ _. pull_in deps) s

  -- the old package makes way for the new one
  unfoldable pub swap : String → FilePath → Manifest sv → Bool → Bool → Command {0} sv Unit
  swap name dest manifest explicit held =
      ◌>->◌ sv (remove_one sv out name) λ _. install_archive sv out dest manifest explicit held

  unfoldable pub upgrade_one : String → Bool → Bool → Command {0} sv Unit
  upgrade_one name explicit held s =
      (◌>->◌ sv
          (give sv (
            ok_or (latest_for_arch sv s.index name (effective_arch sv out s))
              (package_not_found name)))
          λ latest. ◌>->◌ sv (fetch_and_verify sv out latest) λ got.
            ◌>->◌ sv (check_space sv out got.1.installed_size_bytes) λ _.
              ◌>->◌ sv (pull_in got.1.dependencies) λ _.
                ◌>->◌ sv (emit sv (installing name (sv.show_version latest.version)))
                  λ _. swap name got.0 got.1 explicit held)
        s

  abbrev pub explicit_or_true : String → State sv → Bool
  explicit_or_true name s = elim (Packages.get sv s.packages name) [
    | none ↦ true
    | some p ↦ p.explicit
  ]

  abbrev pub held_or_false : String → State sv → Bool
  held_or_false name s = elim (Packages.get sv s.packages name) [ none ↦ false | some p ↦ p.held ]

  abbrev pub version_or : sv.Version → String → State sv → sv.Version
  version_or from name s = elim (Packages.get sv s.packages name) [
    | none ↦ from
    | some p ↦ p.version
  ]

  -- one round of the loop behind `upgrade_one`
  unfoldable pub upgraded : String → sv.Version → Command sv Upgrade
  upgraded name from s =
      let new_version = version_or from name s in
      ◌>->◌ sv
        (record_entry sv out "upgrade" name
          (with_versions (some (sv.show_version from)) (some (sv.show_version new_version))))
        (λ _. give sv (ok (name, from, new_version))) s

  unfoldable pub upgrade_all : List Upgrade → Command sv (List Upgrade)
  upgrade_all [] s = give sv (ok []) s
  upgrade_all ((name, from, to) ∷ planned) s =
      (◌>->◌ sv (upgrade_one name (explicit_or_true name s) (held_or_false name s)) λ _.
          ◌>->◌ sv (upgraded name from)
            λ done. ◌>->◌ sv (upgrade_all planned) λ rest. give sv (ok (done ∷ rest)))
        s

  unfoldable pub upgrade_unlocked : Option String → Bool → Bool → Command sv (List Upgrade)
  upgrade_unlocked name ignore_hold dry_run s =
      (◌>->◌ sv
          (give sv (upgrade_plan sv s.index s.packages (effective_arch sv out s) name ignore_hold))
          λ planned.
            if dry_run || is_nil planned then give sv (ok planned) else upgrade_all planned)
        s

  unfoldable pub upgrade : Option String → Bool → Bool → Command sv (List Upgrade)
  upgrade name ignore_hold dry_run = with_lock sv out (upgrade_unlocked name ignore_hold dry_run)
