-- ===== src/Service/Lifecycle/Upgrade.antt =====
-- What `upgrade` of src/service/lifecycle.rs agrees to upgrade.
use mitos_pkg.Prelude.{
  String, string_eq, Bool, true, false, not, ◌&&◌, ◌≡◌, refl, sym, subst, if◌then◌else◌, List, [],
  ◌∷◌, Option, none, some, ok, >>=-ok, Memᴰ, arith, Bool-cases, Option-cases, Result-cases, inl,
  inr, ◌==◌, Ordering,
}
use mathlib.Core.List.Memᴰ
use mitos_pkg.Prelude.HashMap
use mitos_pkg.Prelude.HashMap.{HashMap}
use mitos_pkg.Error.{PkgResult}
use mitos_pkg.Semver.{Semver}
use mitos_pkg.Dependency.Version.{Dependency, dep_matches}
use mitos_pkg.Repository.Index.{RepositoryIndex, latest_for_arch}
use mitos_pkg.Database.Packages
use mitos_pkg.Database.Packages.{InstalledPackage, InstalledDb}
use mitos_pkg.Service.Lifecycle.{
  names_match, check_dependencies, check_dependents, check_upgrade_safe, plan_one, plan_upgrades,
  upgrade_plan, Upgrade,
}

module _ (sv : Semver) (index : RepositoryIndex sv) (db : InstalledDb sv)
    (target_arch : String) where
  dependencies_match :
      (name : String) (v : sv.Version) (who : String) (deps : List (Dependency sv))
      (dep : Dependency sv)
      → check_dependencies sv index db target_arch name v who deps ≡ ok tt
      → Memᴰ dep deps
      → names_match sv index db target_arch name dep ≡ true
      → dep_matches sv dep v ≡ true
  unfolding check_dependencies
  dependencies_match name v who [] dep h m n = absurd (Memᴰ.not-nil m)
  dependencies_match name v who (d ∷ deps) dep h (Memᴰ.head e) n = ground arith
  dependencies_match name v who (d ∷ deps) dep h (Memᴰ.tail m) n =
      dependencies_match name v who deps dep (ground arith) m n

  unless_same {ℓ} :
      {A : Type ℓ} (w name : String) (x y : PkgResult A) {r : PkgResult A}
      → (w == name) ≡ false
      → (if w == name then x else y) ≡ r
      → y ≡ r
  unless_same w name x y e h = rw e at h

  dependents_match :
      (name : String) (v : sv.Version) (m : HashMap String (InstalledPackage sv)) (who : String)
      (q : InstalledPackage sv) (dep : Dependency sv)
      → check_dependents sv index db target_arch name v m ≡ ok tt
      → Memᴰ (who, q) m
      → (who == name) ≡ false
      → Memᴰ dep q.dependencies
      → names_match sv index db target_arch name dep ≡ true
      → dep_matches sv dep v ≡ true
  unfolding check_dependents
  dependents_match name v [] who q dep h i d j n = absurd (Memᴰ.not-nil i)
  dependents_match name v ((w, r) ∷ m) who q dep h (Memᴰ.head e) d j n =
      let (_, c, _) =
        >>=-ok (check_dependencies sv index db target_arch name v w r.dependencies)
          (λ _. check_dependents sv index db target_arch name v m)
          (unless_same w name _ _ (ground arith) h) in
      dependencies_match name v w r.dependencies dep c
        (subst (λ (x : String × InstalledPackage sv). Memᴰ dep x.1.dependencies) e j) n
  dependents_match name v ((w, r) ∷ m) who q dep h (Memᴰ.tail i) d j n =
      elim (Bool-cases (w == name)) [
        | inl e ↦ dependents_match name v m who q dep (rw e at h) i d j n
        | inr e ↦
            let (_, _, rest) =
              >>=-ok (check_dependencies sv index db target_arch name v w r.dependencies)
                (λ _. check_dependents sv index db target_arch name v m)
                (unless_same w name _ _ e h) in
            dependents_match name v m who q dep rest i d j n
      ]

  -- What the plan says of one upgrade: the package is installed in the old version and not held, or
  -- holds are ignored; the new version is greater; and every dependency on the package that another
  -- installed package declares is satisfied by the new version.
  pub record Agreed (ignore_hold : Bool) (u : Upgrade sv index db target_arch) : Type 0 where
    pub pkg : InstalledPackage sv
    pub installed : Packages.get sv db u.0 ≡ some pkg
    pub from : u.1 ≡ pkg.version
    pub unheld : (pkg.held && not ignore_hold) ≡ false
    pub newer : sv.cmp u.2 u.1 ≡ Ordering.gt
    pub tolerated :
        (who : String) (q : InstalledPackage sv) (dep : Dependency sv)
        → Packages.get sv db who ≡ some q
        → (who == u.0) ≡ false
        → Memᴰ dep q.dependencies
        → names_match sv index db target_arch u.0 dep ≡ true
        → dep_matches sv dep u.2 ≡ true

  check_upgrade_safe_sound :
      (name : String) (v : sv.Version) (who : String) (q : InstalledPackage sv)
      (dep : Dependency sv)
      → check_upgrade_safe sv index db target_arch name v ≡ ok tt
      → Packages.get sv db who ≡ some q
      → (who == name) ≡ false
      → Memᴰ dep q.dependencies
      → names_match sv index db target_arch name dep ≡ true
      → dep_matches sv dep v ≡ true
  unfolding check_upgrade_safe
  check_upgrade_safe_sound name v who q dep h g d j n =
      dependents_match name v db.packages who q dep h (HashMap.mem_of_get who q db.packages g) d j n

  plan_one-Agreed :
      (named ignore_hold : Bool) (name : String) (u : Upgrade sv index db target_arch)
      → plan_one sv index db target_arch named ignore_hold name ≡ ok (some u)
      → Agreed ignore_hold u
  unfolding plan_one
  plan_one-Agreed named ignore_hold name u h = elim (Option-cases (Packages.get sv db name)) [
    | inl e ↦ absurd (ground arith)
    | inr (p, e) ↦ elim (Option-cases (latest_for_arch sv index name target_arch)) [
      | inl g ↦ absurd (ground arith)
      | inr (m, g) ↦
          elim (Result-cases (check_upgrade_safe sv index db target_arch name m.version)) [
            | inl (_, safe) ↦
                subst (λ x. Agreed ignore_hold x) (ground arith)
                  (record {
                    pkg = p;
                    installed = e;
                    from = refl;
                    unheld = ground arith;
                    newer = ground arith;
                    tolerated = λ who q dep. check_upgrade_safe_sound name m.version who q dep safe;
                  })
            | inr (x, unsafe) ↦ absurd (ground arith)
          ]
    ]
  ]

  plan_upgrades-Agreed :
      (named ignore_hold : Bool) (targets : List String)
      (us : List (Upgrade sv index db target_arch))
      → plan_upgrades sv index db target_arch named ignore_hold targets ≡ ok us
      → (u : Upgrade sv index db target_arch) → Memᴰ u us
      → Agreed ignore_hold u
  unfolding plan_upgrades
  plan_upgrades-Agreed named ignore_hold [] us h u m = absurd (
      Memᴰ.not-nil
        (subst (λ (l : List (Upgrade sv index db target_arch)). Memᴰ u l) (ground arith) m))
  plan_upgrades-Agreed named ignore_hold (t ∷ targets) us h u m =
      let (first, f, h1) = >>=-ok (plan_one sv index db target_arch named ignore_hold t) _ h in
      let (rest, r, h2) =
        >>=-ok (plan_upgrades sv index db target_arch named ignore_hold targets)
          (λ rest. ok (elim first [ none ↦ rest | some w ↦ w ∷ rest ])) h1 in
      elim (Option-cases first) [
        | inl e ↦
            plan_upgrades-Agreed named ignore_hold targets rest r u
              (subst (λ (l : List (Upgrade sv index db target_arch)). Memᴰ u l) (ground arith) m)
        | inr (w, e) ↦
            elim (Memᴰ.cases_cons
              (subst (λ (l : List (Upgrade sv index db target_arch)). Memᴰ u l) (ground arith) m)) [
                | inl here ↦
                    subst (λ x. Agreed ignore_hold x) (sym here)
                      (plan_one-Agreed named ignore_hold t w (ground arith))
                | inr later ↦ plan_upgrades-Agreed named ignore_hold targets rest r u later
              ]
      ]

  -- Every upgrade that `upgrade` plans, of one named package or of all, is of an installed package to a
  -- greater version, which the dependencies of the other installed packages on it allow; and it is not
  -- held, or holds are ignored.
  pub upgrade_plan-Agreed :
      (name : Option String) (ignore_hold : Bool) (us : List (Upgrade sv index db target_arch))
      → upgrade_plan sv index db target_arch name ignore_hold ≡ ok us
      → (u : Upgrade sv index db target_arch) → Memᴰ u us
      → Agreed ignore_hold u
  unfolding upgrade_plan
  upgrade_plan-Agreed none ignore_hold us h u m =
      plan_upgrades-Agreed false ignore_hold (HashMap.keys db.packages) us h u m
  upgrade_plan-Agreed (some n) ignore_hold us h u m =
      plan_upgrades-Agreed true ignore_hold (n ∷ []) us h u m
