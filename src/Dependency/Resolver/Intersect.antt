-- ===== src/Dependency/Resolver/Intersect.antt =====
-- `intersect_req` narrows its first argument, up to what `semver` says of joined comparators.
use mitos_pkg.Prelude.{String, string_eq, true, ◌≡◌, ◌<>◌, arith, Option-cases, inl, inr}
use mitos_pkg.Prelude.HashMap
use mitos_pkg.Prelude.HashMap.{HashMap}
use mitos_pkg.Semver.{Semver, JoinsComparators}
use mitos_pkg.Repository.Index.{RepositoryIndex}
use mitos_pkg.Database.Packages.{InstalledDb}
use mitos_pkg.Dependency.Resolver.{intersect_req, effective}

module _ (sv : Semver) (laws : JoinsComparators sv) where
  -- A release version that matches the intersection matches the first requirement, also where the
  -- joined text does not parse.
  pub intersect_req-left :
      (a b : sv.VersionReq) (v : sv.Version)
      → sv.is_release v ≡ true
      → sv.matches (intersect_req sv a b) v ≡ true
      → sv.matches a v ≡ true
  unfolding intersect_req
  intersect_req-left a b v rel h =
      elim (Option-cases (sv.parse_req (sv.show_req a <> ", " <> sv.show_req b))) [
        | inl e ↦ ground (arith, laws.vacuous a v)
        | inr (r, e) ↦ ground (arith, laws.vacuous a v, laws.joined a b r v e rel)
      ]

  pub effective-narrows :
      (index : RepositoryIndex sv) (installed : InstalledDb sv) (arch : String)
      (extra_reqs : HashMap String sv.VersionReq) (name : String) (req : sv.VersionReq)
      (v : sv.Version)
      → sv.is_release v ≡ true
      → sv.matches (effective sv index installed arch extra_reqs name req) v ≡ true
      → sv.matches req v ≡ true
  unfolding effective
  effective-narrows index installed arch extra_reqs name req v rel h =
      elim (Option-cases (HashMap.get name extra_reqs)) [
        | inl e ↦ ground arith
        | inr (x, e) ↦ ground (arith, intersect_req-left req x v)
      ]
