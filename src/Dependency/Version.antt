-- ===== src/Dependency/Version.antt =====
-- src/dependency/version.rs
use mitos_pkg.Prelude.{
  ok, err, ◌<>◌, String, Bool, Option, none, some, ◌==◌, string_eq, if◌then◌else◌,
}
use mitos_pkg.Error.{PkgResult, invalid_package_spec}
use mitos_pkg.Semver.{Semver}

-- `str::split_once('@')`: the parts before and after the first `@`.
unfoldable pub split_once_at : String → Option (String × String)
split_once_at String.[] = none
split_once_at (String.◌∷◌ c s) =
    let rest = split_once_at s in
    if String.◌∷◌ c String.[] == "@"
    then some ("", s)
    else elim rest [ none ↦ none | some (a, b) ↦ some (String.◌∷◌ c a, b) ]

module _ (sv : Semver) where
  pub record Dependency : Type 0 where
    pub name : String
    pub version_req : sv.VersionReq

  -- `Dependency::matches`
  unfoldable pub dep_matches : Dependency → sv.Version → Bool
  dep_matches d version = sv.matches d.version_req version

  -- None stands for the panic of `expect`.
  unfoldable pub parse_pinned : String → Option (PkgResult (String × sv.VersionReq))
  unfolding split_once_at
  parse_pinned spec = elim (split_once_at spec) [
    | none ↦ some (ok (spec, sv.star))
    | some (name, version_str) ↦
        if name == ""
        then some (err (invalid_package_spec spec))
        else elim (sv.parse_version version_str) [
          | none ↦ some (err (invalid_package_spec spec))
          | some version ↦ elim (sv.parse_req ("=" <> sv.show_version version)) [
            | none ↦ none
            | some req ↦ some (ok (name, req))
          ]
        ]
  ]
