-- ===== src/Dependency/Resolver/Dependents.antt =====
-- `dependents_of` of src/dependency/resolver.rs, and what its answer means for a removal.
pub mod Broken
use mitos_pkg.Prelude.{
  String, string_eq, Bool, false, not, ◌&&◌, ◌||◌, List, [], ◌∷◌, none, some, any, contains, ◌==◌,
  if◌then◌else◌,
}
use mitos_pkg.Prelude.HashMap.{HashMap}
use mitos_pkg.Semver.{Semver}
use mitos_pkg.Database.Packages
use mitos_pkg.Database.Packages.{InstalledPackage, InstalledDb}

module _ (sv : Semver) where
  abbrev pub provides : InstalledPackage sv → String → Bool
  provides pkg dep_name = contains pkg.provides dep_name

  abbrev pub provided_by : InstalledDb sv → String → String → Bool
  provided_by db dep_name candidate = elim (Packages.get sv db candidate) [
    | none ↦ false
    | some p ↦ provides p dep_name
  ]

  -- an installed package other than `candidate` that satisfies `dep_name`
  abbrev pub other_satisfies : HashMap String (InstalledPackage sv) → String → String → Bool
  other_satisfies m dep_name candidate =
      any (λ (n, p). not (n == candidate) && (n == dep_name || provides p dep_name)) m

  unfoldable pub only_satisfied_by : InstalledDb sv → String → String → Bool
  only_satisfied_by db dep_name candidate =
      if not (dep_name == candidate || provided_by db dep_name candidate)
      then false
      else not (other_satisfies db.packages dep_name candidate)

  abbrev pub depends_only_on : InstalledDb sv → String → InstalledPackage sv → Bool
  depends_only_on db name pkg = any (λ d. only_satisfied_by db d.name name) pkg.dependencies

  unfoldable pub dependents_in :
      InstalledDb sv → String → HashMap String (InstalledPackage sv) → List String
  unfolding only_satisfied_by
  dependents_in db name [] = []
  dependents_in db name ((n, p) ∷ m) =
      let rest = dependents_in db name m in
      if not (n == name) && depends_only_on db name p then n ∷ rest else rest

  unfoldable pub dependents_of : InstalledDb sv → String → List String
  unfolding dependents_in
  dependents_of db name = dependents_in db name db.packages
