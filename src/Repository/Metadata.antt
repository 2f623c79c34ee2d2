-- ===== src/Repository/Metadata.antt =====
-- src/repository/metadata.rs
use mitos_pkg.Prelude.{String, ℕ, Bool, List, Option}
use mitos_pkg.Prelude.Int.{ℤ}
use mitos_pkg.Semver.{Semver}
use mitos_pkg.Dependency.Version.{Dependency}

module _ (sv : Semver) where
  pub record PackageMetadata : Type 0 where
    pub name : String
    pub version : sv.Version
    pub description : String
    pub dependencies : List (Dependency sv)
    pub provides : List String
    pub conflicts : List String
    pub url : String
    pub sha256 : String
    pub signature : Option String
    pub size_bytes : ℕ
    pub arch : List String
    pub essential : Bool
    pub installed_size_bytes : ℕ
    pub priority : ℤ
