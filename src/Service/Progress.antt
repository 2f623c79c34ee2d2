-- ===== src/Service/Progress.antt =====
-- src/service/progress.rs, and the result records of src/service/lifecycle.rs.
use mitos_pkg.Prelude.{String, Bool, List, Option}
use mitos_pkg.Error.{FilePath}
use mitos_pkg.Semver.{Semver}
use mitos_pkg.Dependency.Version.{Dependency}

pub data ProgressEvent : Type 0 where
  resolving : (spec : String) → ProgressEvent
  fetching verifying installing : (name version : String) → ProgressEvent
  removing : (name : String) → ProgressEvent
  updating : (repository : String) → ProgressEvent

pub record VerifyIssue : Type 0 where
  pub pkg : String
  pub path : Option FilePath
  pub problem : String

pub record InfoView (sv : Semver) : Type 0 where
  pub name : String
  pub version : sv.Version
  pub description : String
  pub dependencies : List (Dependency sv)
  pub provides : List String
  pub conflicts : List String
  pub installed : Bool
  pub explicit : Option Bool
  pub held : Option Bool
  pub arch : List String
  pub essential : Bool
