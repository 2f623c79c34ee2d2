-- ===== src/Repository/Index.antt =====
-- src/repository/index.rs
pub mod Best
use mitos_pkg.Prelude.{
  String, Bool, List, [], ◌∷◌, ◌++◌, Option, none, some, ◌&&◌, filter, contains, string_eq,
  Ordering,
}
use mitos_pkg.Prelude.HashMap
use mitos_pkg.Prelude.HashMap.{HashMap}
use mitos_pkg.Prelude.Int.{compare_ℤ}
use mitos_pkg.Semver.{Semver}
use mitos_pkg.Package.Arch.{is_compatible}
use mitos_pkg.Repository.Metadata.{PackageMetadata}

-- `Iterator::max_by_key`: of several greatest elements, the last.
abbrev keep_max {ℓ} : {A : Type ℓ} → (A → A → Ordering) → A → List A → A
keep_max cmp best [] = best
keep_max cmp best (x ∷ xs) = keep_max cmp (elim (cmp best x) [ Ordering.gt ↦ best | _ ↦ x ]) xs

unfoldable pub max_by {ℓ} : {A : Type ℓ} → (A → A → Ordering) → List A → Option A
max_by cmp [] = none
max_by cmp (x ∷ xs) = some (keep_max cmp x xs)

-- `Option` under `?`
abbrev and_then : {A B : Type 0} → Option A → (A → Option B) → Option B
and_then none f = none
and_then (some a) f = f a

module _ (sv : Semver) where
  -- package name -> every version known to be available
  pub record RepositoryIndex : Type 0 where
    pub packages : HashMap String (List (PackageMetadata sv))

  abbrev pub then_compare : Ordering → Ordering → Ordering
  then_compare Ordering.eq o = o
  then_compare o _ = o

  -- the order of the keys `(m.version.clone(), m.priority)`
  unfoldable pub by_key : PackageMetadata sv → PackageMetadata sv → Ordering
  by_key a b = then_compare (sv.cmp a.version b.version) (compare_ℤ a.priority b.priority)

  module _ (index : RepositoryIndex) where
    unfoldable pub latest : String → Option (PackageMetadata sv)
    latest name = and_then (HashMap.get name index.packages) (max_by by_key)

    unfoldable pub latest_for_arch : String → String → Option (PackageMetadata sv)
    latest_for_arch name target_arch =
        and_then (HashMap.get name index.packages)
          λ versions. max_by by_key (filter (λ m. is_compatible m.arch target_arch) versions)

    unfoldable pub best_match : String → sv.VersionReq → Option (PackageMetadata sv)
    best_match name req =
        and_then (HashMap.get name index.packages)
          λ versions. max_by by_key (filter (λ m. sv.matches req m.version) versions)

    unfoldable pub best_match_for_arch :
        String → sv.VersionReq → String → Option (PackageMetadata sv)
    best_match_for_arch name req target_arch =
        and_then (HashMap.get name index.packages) λ versions.
          max_by by_key
            (filter (λ m. sv.matches req m.version && is_compatible m.arch target_arch) versions)

    -- `packages.values().flatten()`
    abbrev pub all_versions : HashMap String (List (PackageMetadata sv)) → List (PackageMetadata sv)
    all_versions [] = []
    all_versions ((_, versions) ∷ rest) = versions ++ all_versions rest

    unfoldable pub find_provider : String → Option (PackageMetadata sv)
    find_provider virtual_name =
        max_by by_key (filter (λ m. contains m.provides virtual_name) (all_versions index.packages))

    unfoldable pub find_provider_for_arch : String → String → Option (PackageMetadata sv)
    find_provider_for_arch virtual_name target_arch = max_by by_key (
        filter (λ m. contains m.provides virtual_name && is_compatible m.arch target_arch)
          (all_versions index.packages))
