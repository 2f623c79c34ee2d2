-- ===== src/Dependency/Resolver/Conflicts.antt =====
-- `check_conflicts` of src/dependency/resolver.rs, and what a plan that passes it keeps to.
use mathlib.Core.List.Memᴰ
use mitos_pkg.Prelude.{
  any-of_mem, >>=-ok, String, string_eq, true, false, List, [], ◌∷◌, ok, err, ◌≡◌, refl, ◌>>=◌,
  if◌then◌else◌, any, contains, ◌==◌, Memᴰ, arith, inl, inr,
}
use mitos_pkg.Prelude.HashMap.{HashMap}
use mitos_pkg.Error.{PkgResult, format, dependency_conflict}
use mitos_pkg.Semver.{Semver}
use mitos_pkg.Repository.Metadata.{PackageMetadata}
use mitos_pkg.Database.Packages.{InstalledPackage, InstalledDb, is_installed}

module _ (sv : Semver) (installed : InstalledDb sv) where
  -- the loop over `candidate.conflicts`
  unfoldable pub check_declared :
      List (PackageMetadata sv) → PackageMetadata sv → List String → PkgResult (Unit {0})
  check_declared plan candidate [] = ok tt
  check_declared plan candidate (conflict ∷ rest) =
      if is_installed sv installed conflict
      then err (
          dependency_conflict (
            format (
              "'" ∷ candidate.name ∷ "' conflicts with already-installed '" ∷ conflict ∷ "'" ∷ [])))
      else if any (λ p. p.name == conflict) plan
      then err (
          dependency_conflict (
            format (
              "'" ∷ candidate.name ∷ "' conflicts with '" ∷ conflict
              ∷ "', both required by this install" ∷ [])))
      else check_declared plan candidate rest

  -- the loop over `self.installed.all()`
  unfoldable pub check_against_installed :
      PackageMetadata sv → HashMap String (InstalledPackage sv) → PkgResult (Unit {0})
  check_against_installed candidate [] = ok tt
  check_against_installed candidate ((installed_name, pkg) ∷ rest) =
      if any (λ c. c == candidate.name) pkg.conflicts
      then err (
          dependency_conflict (
            format (
              "installed package '" ∷ installed_name ∷ "' conflicts with '" ∷ candidate.name ∷ "'"
              ∷ [])))
      else check_against_installed candidate rest

  unfoldable pub check_candidates :
      List (PackageMetadata sv) → List (PackageMetadata sv) → PkgResult (Unit {0})
  unfolding check_declared check_against_installed
  check_candidates plan [] = ok tt
  check_candidates plan (candidate ∷ rest) =
      check_declared plan candidate candidate.conflicts >>= λ _.
      check_against_installed candidate installed.packages >>= λ _. check_candidates plan rest

  unfoldable pub check_conflicts : List (PackageMetadata sv) → PkgResult (Unit {0})
  unfolding check_candidates
  check_conflicts plan = check_candidates plan plan

  -- No conflict is declared between `c` and the system, or within `plan`, in either direction.
  pub record IsCompatible (plan : List (PackageMetadata sv)) (c : PackageMetadata sv) : Type 0 where
    pub with_installed :
        (x : String) → contains c.conflicts x ≡ true → is_installed sv installed x ≡ false
    pub within_plan :
        (x : String) (p : PackageMetadata sv)
        → contains c.conflicts x ≡ true
        → Memᴰ p plan
        → ¬ (p.name ≡ x)
    pub of_installed :
        (n : String) (pkg : InstalledPackage sv)
        → Memᴰ (n, pkg) installed.packages
        → contains pkg.conflicts c.name ≡ false

  check_declared-ok :
      (plan : List (PackageMetadata sv)) (c : PackageMetadata sv) (l : List String)
      → check_declared plan c l ≡ ok tt
      → (x : String) → contains l x ≡ true
      → (is_installed sv installed x ≡ false) × (any (λ p. p.name == x) plan ≡ false)
  unfolding check_declared
  check_declared-ok plan c [] h x m = cc
  check_declared-ok plan c (y ∷ l) h x m =
      ground (arith, λ (q : check_declared plan c l ≡ ok tt). check_declared-ok plan c l q x)

  any-contains : (l : List String) (a : String) → any (λ c. c == a) l ≡ contains l a
  any-contains [] a = refl
  any-contains (x ∷ l) a = ground (arith, any-contains l a)

  check_against_installed-ok :
      (c : PackageMetadata sv) (m : HashMap String (InstalledPackage sv))
      → check_against_installed c m ≡ ok tt
      → (n : String) (pkg : InstalledPackage sv) → Memᴰ (n, pkg) m
      → contains pkg.conflicts c.name ≡ false
  unfolding check_against_installed
  check_against_installed-ok c [] h n pkg i = absurd (Memᴰ.not-nil i)
  check_against_installed-ok c ((k, p) ∷ m) h n pkg (Memᴰ.head e) =
      ground (arith, any-contains pkg.conflicts c.name)
  check_against_installed-ok c ((k, p) ∷ m) h n pkg (Memᴰ.tail i) =
      check_against_installed-ok c m (ground arith) n pkg i

  check_candidates-ok :
      (plan rest : List (PackageMetadata sv)) (c : PackageMetadata sv)
      → check_candidates plan rest ≡ ok tt
      → Memᴰ c rest
      → (check_declared plan c c.conflicts ≡ ok tt)
        × (check_against_installed c installed.packages ≡ ok tt)
  unfolding check_candidates
  check_candidates-ok plan [] c h i = absurd (Memᴰ.not-nil i)
  check_candidates-ok plan (x ∷ rest) c h i =
      let (u, declared, h') = >>=-ok (check_declared plan x x.conflicts) _ h in
      let (v, against, h'') = >>=-ok (check_against_installed x installed.packages) _ h' in
      elim (Memᴰ.cases_cons i) [
        | inl e ↦ rw e (declared, against)
        | inr later ↦ check_candidates-ok plan rest c h'' later
      ]

  -- A plan that passes `check_conflicts` has no package that conflicts, by its own declaration or by
  -- the other's, with an installed package, nor with a package of the plan.
  pub check_conflicts-IsCompatible :
      (plan : List (PackageMetadata sv)) (c : PackageMetadata sv)
      → check_conflicts plan ≡ ok tt
      → Memᴰ c plan
      → IsCompatible plan c
  unfolding check_conflicts
  check_conflicts-IsCompatible plan c h i =
      let (declared, against) = check_candidates-ok plan plan c h i in
      let by_name = check_declared-ok plan c c.conflicts declared in
      record {
        with_installed = λ x m. (by_name x m).0;
        within_plan = λ x p m j e.
            cc ((by_name x m).1, any-of_mem (λ q. q.name == x) p plan j (ground arith));
        of_installed = λ n pkg j. check_against_installed-ok c installed.packages against n pkg j;
      }
