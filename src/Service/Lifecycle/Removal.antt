-- ===== src/Service/Lifecycle/Removal.antt =====
-- What `remove` of src/service/lifecycle.rs agrees to remove.
use mitos_pkg.Prelude.{
  Memᴰ, not, ◌&&◌, Bool-cases, ℕ, String, string_eq, Bool, true, false, ◌≡◌, List, [], ◌∷◌, some,
  ok, contains, arith, Option-cases, inl, inr,
}
use mitos_pkg.Prelude.HashMap
use mitos_pkg.Prelude.HashMap.{HashMap, IsMap}
use mitos_pkg.Semver.{Semver}
use mitos_pkg.Repository.Index.{RepositoryIndex}
use mitos_pkg.Database.Packages
use mitos_pkg.Database.Packages.{InstalledPackage, InstalledDb}
use mitos_pkg.Dependency.Resolver.Dependents.{dependents_of}
use mitos_pkg.Dependency.Resolver.Dependents.Broken.{Breaks, dependents_of-Breaks}
use mitos_pkg.Service.Lifecycle.{removal_plan, check_essential, find_orphan, is_nil}

module _ (sv : Semver) (index : RepositoryIndex sv) (db : InstalledDb sv)
    (target_arch : String) where
  no_member : (n : String) → ¬ (contains [] n ≡ true)
  no_member n m = cc

  Breaks-nothing :
      (name : String) (p : InstalledPackage sv)
      → IsMap db.packages
      → Packages.get sv db name ≡ some p
      → dependents_of sv db name ≡ []
      → (n : String) → ¬ (Breaks sv db name n)
  Breaks-nothing name p unique installed alone n b =
      no_member n (rw alone at (dependents_of-Breaks sv db name p unique installed n).1 b)

  plan_cases :
      (fuel : ℕ) (name : String) (force : Bool) (names : List String)
      → removal_plan sv index db target_arch fuel name false force ≡ some (ok names)
      → (p : InstalledPackage sv) × (Packages.get sv db name ≡ some p)
        × (dependents_of sv db name ≡ [])
        × (names ≡ name ∷ [])
        × (force ≡ false → p.essential ≡ false)
  unfolding removal_plan check_essential Packages.is_installed HashMap.contains_key
  plan_cases fuel name force names h = elim (Option-cases (Packages.get sv db name)) [
    | inl e ↦ absurd (ground arith)
    | inr (p, e) ↦ (p, e, ground arith, ground arith, ground arith)
  ]

  -- In a database that lists no name twice, if `remove` without `cascade` agrees to a removal,
  -- then it removes the named, installed package alone; no other installed package loses with it
  -- the last package that satisfies one of its dependencies; and unless forced, the package is not
  -- essential.
  pub removal_plan-safe :
      (fuel : ℕ) (name : String) (force : Bool) (names : List String)
      → IsMap db.packages
      → removal_plan sv index db target_arch fuel name false force ≡ some (ok names)
      → (p : InstalledPackage sv) × (Packages.get sv db name ≡ some p)
        × (names ≡ name ∷ [])
        × (force ≡ false → p.essential ≡ false)
        × ((n : String) → ¬ (Breaks sv db name n))
  removal_plan-safe fuel name force names unique h =
      let (p, installed, alone, just, essential) = plan_cases fuel name force names h in
      (p, installed, just, essential, Breaks-nothing name p unique installed alone)

  orphan_cases :
      (name : String) (m : HashMap String (InstalledPackage sv))
      → find_orphan sv index db target_arch m ≡ some name
      → (pkg : InstalledPackage sv) × Memᴰ (name, pkg) m
        × (pkg.explicit ≡ false)
        × (pkg.essential ≡ false)
        × (dependents_of sv db name ≡ [])
  unfolding find_orphan
  orphan_cases name [] h = cc
  orphan_cases name ((k, pkg) ∷ m) h =
      elim (Bool-cases (not pkg.explicit && not pkg.essential && is_nil (dependents_of sv db k))) [
        | inl e ↦ (pkg, Memᴰ.head (ground arith), ground arith, ground arith, ground arith)
        | inr e ↦
            let (q, i, ex, es, d) = orphan_cases name m (ground arith) in
            (q, Memᴰ.tail i, ex, es, d)
      ]

  -- In a database that lists no name twice, what `autoremove` picks is an installed package that
  -- was not installed explicitly and is not essential, and no other installed package loses with
  -- it the last package that satisfies one of its dependencies.
  pub find_orphan-safe :
      (name : String)
      → IsMap db.packages
      → find_orphan sv index db target_arch db.packages ≡ some name
      → (pkg : InstalledPackage sv) × (Packages.get sv db name ≡ some pkg)
        × (pkg.explicit ≡ false)
        × (pkg.essential ≡ false)
        × ((n : String) → ¬ (Breaks sv db name n))
  find_orphan-safe name unique h =
      let (pkg, i, ex, es, alone) = orphan_cases name db.packages h in
      let installed = HashMap.get_of_mem name pkg db.packages unique i in
      (pkg, installed, ex, es, Breaks-nothing name pkg unique installed alone)
