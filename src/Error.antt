-- ===== src/Error.antt =====
-- src/error.rs: the errors of the crate. An `std::io::Error` is its `ErrorKind`, and a
-- `serde_json::Error` its text.
use mitos_pkg.Prelude.{String, ◌<>◌, ℕ, List, [], ◌∷◌, Result}

-- A path is the list of its components.
abbrev pub FilePath : Type 0
FilePath = List String

pub data ErrorKind : Type 0 where
  not_found already_exists unexpected_eof invalid_data invalid_input other : ErrorKind

pub data PkgError : Type 0 where
  io : ErrorKind → PkgError
  serde : String → PkgError
  network : String → PkgError
  checksum_mismatch : (name expected actual : String) → PkgError
  invalid_signature : String → PkgError
  untrusted_key : String → PkgError
  package_not_found : String → PkgError
  no_matching_version : (name requirement : String) → PkgError
  invalid_package_spec : String → PkgError
  already_installed : (name version : String) → PkgError
  not_installed : String → PkgError
  package_held : String → PkgError
  dependency_conflict : String → PkgError
  circular_dependency : String → PkgError
  required_by_others : String → List String → PkgError
  file_conflict : (path owner : String) → PkgError
  invalid_manifest : String → PkgError
  locked : FilePath → PkgError
  arch_mismatch : (name : String) (package_arch : List String) (host_arch : String) → PkgError
  insufficient_disk_space : (needed available : ℕ) → PkgError
  essential_package : String → PkgError
  hook_failed : (pkg hook reason : String) → PkgError

-- `Result<T>` of src/error.rs
abbrev pub PkgResult {ℓ} : Type ℓ → Type ℓ
PkgResult T = Result T PkgError

-- `format!`, its pieces in order
unfoldable pub format : List String → String
format [] = ""
format (s ∷ rest) = s <> format rest

-- `Path::display`
unfoldable pub display : FilePath → String
display [] = ""
display (s ∷ []) = s
display (s ∷ rest) = s <> "/" <> display rest
