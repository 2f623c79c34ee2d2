-- ===== src/Examples.antt =====
-- A small version scheme, an index and a system, on which the properties are tried.
mod Resolving
mod Installing
mod Serving
mod Commanding
mod Updating
mod Logging
mod Opening
mod Connecting
use mitos_pkg.Prelude.{
  ℕ, String, ◌<>◌, string_eq, Bool, true, false, List, [], ◌∷◌, Option, none, some, ◌≡◌, refl, leb,
  if◌then◌else◌, ◌==◌, compare, Ordering, arith,
}
use mitos_pkg.Prelude.Int.{ℤ, pos}
use mitos_pkg.Semver.{Semver, JoinsComparators}
use mitos_pkg.Dependency.Version.{Dependency}
use mitos_pkg.Package.Manifest.{no_hooks}
use mitos_pkg.Repository.Metadata.{PackageMetadata}
use mitos_pkg.Repository.Index.{RepositoryIndex}
use mitos_pkg.Repository.Index.Best.{IsOrd}
use mitos_pkg.Database.Packages.{InstalledPackage, InstalledDb}

-- versions are numbers; a requirement is empty, unsatisfiable, or a least version
pub data Req : Type 0 where
  any_version never : Req
  at_least : ℕ → Req

abbrev pub show_req : Req → String
show_req any_version = "*"
show_req never = "!"
show_req (at_least n) = ">"

abbrev pub parse_req : String → Option Req
parse_req s = if s == "*, *" then some any_version else none

abbrev pub matches : Req → ℕ → Bool
matches any_version v = true
matches never v = false
matches (at_least n) v = leb n v

abbrev no_comparators : Req → Bool
no_comparators any_version = true
no_comparators _ = false

abbrev pub numbers : Semver
numbers = record {
  Version = ℕ;
  VersionReq = Req;
  cmp = compare;
  parse_version = λ s. none;
  show_version = λ v. "v";
  is_release = λ v. true;
  star = any_version;
  parse_req = parse_req;
  show_req = show_req;
  no_comparators = no_comparators;
  matches = matches;
}

numbers_joined :
    (a b r : Req) (v : ℕ)
    → parse_req (show_req a <> ", " <> show_req b) ≡ some r
    → matches r v ≡ true
    → (matches a v ≡ true) × (matches b v ≡ true)
unfolding string_eq
numbers_joined any_version any_version r v h m = (refl, refl)
numbers_joined any_version never r v h m = cc
numbers_joined any_version (at_least n) r v h m = cc
numbers_joined never any_version r v h m = cc
numbers_joined never never r v h m = cc
numbers_joined never (at_least n) r v h m = cc
numbers_joined (at_least k) any_version r v h m = cc
numbers_joined (at_least k) never r v h m = cc
numbers_joined (at_least k) (at_least n) r v h m = cc

numbers_vacuous : (a : Req) (v : ℕ) → no_comparators a ≡ true → matches a v ≡ true
numbers_vacuous any_version v h = refl
numbers_vacuous never v h = cc
numbers_vacuous (at_least n) v h = cc

pub numbers-JoinsComparators : JoinsComparators numbers
numbers-JoinsComparators = record {
  joined = λ a b r v p _ m. numbers_joined a b r v p m;
  vacuous = λ a v n _. numbers_vacuous a v n;
}

pub numbers-IsOrd : IsOrd numbers.cmp
numbers-IsOrd = record {
  self = λ a. ground arith;
  flip_gt = λ a b h. ground arith;
  flip_eq = λ a b h. ground arith;
  flip_lt = λ a b h. ground arith;
  trans = λ a b c h k. ground arith;
}

abbrev pub available : String → ℕ → List (Dependency numbers) → PackageMetadata numbers
available name version dependencies = record {
  name = name;
  version = version;
  description = "";
  dependencies = dependencies;
  provides = [];
  conflicts = [];
  url = "";
  sha256 = "";
  signature = none;
  size_bytes = 0;
  arch = "any" ∷ [];
  essential = false;
  installed_size_bytes = 0;
  priority = pos 0;
}

abbrev pub needs : String → Req → Dependency numbers
needs name req = record { name = name; version_req = req }

abbrev pub lib2 : PackageMetadata numbers
lib2 = available "lib" 2 []

abbrev pub app1 : PackageMetadata numbers
app1 = available "app" 1 (needs "lib" (at_least 2) ∷ [])

abbrev pub small_index : RepositoryIndex numbers
small_index = record {
  packages = ("app", app1 ∷ []) ∷ ("lib", available "lib" 1 [] ∷ lib2 ∷ []) ∷ [];
}

abbrev pub empty_system : InstalledDb numbers
empty_system = record { packages = []; path = [] }

abbrev pub present : String → ℕ → List (Dependency numbers) → InstalledPackage numbers
present name version dependencies = record {
  name = name;
  version = version;
  description = "";
  dependencies = dependencies;
  provides = [];
  conflicts = [];
  installed_files = [];
  explicit = true;
  held = false;
  arch = "any" ∷ [];
  essential = false;
  hooks = no_hooks;
  payload_sha256 = "";
}

abbrev pub small_system : InstalledDb numbers
small_system = record {
  packages =
      ("app", present "app" 1 (needs "lib" (at_least 1) ∷ [])) ∷ ("lib", present "lib" 1 []) ∷ [];
  path = [];
}
