-- ===== src/Semver.antt =====
-- The `semver` crate, which the program calls and whose code is not in the repository: a parameter.
use mitos_pkg.Prelude.{String, ◌<>◌, ◌≡◌, Bool, true, Option, some, Ordering}

pub record Semver : Type 1 where
  pub Version : Type 0
  pub VersionReq : Type 0
  -- `Version::cmp`, `Version::parse`, `Version::to_string`, `version.pre.is_empty()`
  pub cmp : Version → Version → Ordering
  pub parse_version : String → Option Version
  pub show_version : Version → String
  pub is_release : Version → Bool
  -- `VersionReq::STAR`, `VersionReq::parse`, `VersionReq::to_string`, `req.comparators.is_empty()`
  pub star : VersionReq
  pub parse_req : String → Option VersionReq
  pub show_req : VersionReq → String
  pub no_comparators : VersionReq → Bool
  -- `VersionReq::matches`
  pub matches : VersionReq → Version → Bool

-- A version that is no pre-release matches a requirement if it satisfies each of its comparators,
-- so one that matches the joined list of two requirements matches both.
pub record JoinsComparators (sv : Semver) : Type 0 where
  pub joined :
      (a b r : sv.VersionReq) (v : sv.Version)
      → sv.parse_req (sv.show_req a <> ", " <> sv.show_req b) ≡ some r
      → sv.is_release v ≡ true
      → sv.matches r v ≡ true
      → (sv.matches a v ≡ true) × (sv.matches b v ≡ true)
  pub vacuous :
      (a : sv.VersionReq) (v : sv.Version)
      → sv.no_comparators a ≡ true
      → sv.is_release v ≡ true
      → sv.matches a v ≡ true
