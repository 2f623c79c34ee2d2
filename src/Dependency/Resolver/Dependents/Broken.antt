-- ===== src/Dependency/Resolver/Dependents/Broken.antt =====
-- `dependents_of` names the packages that a removal would break.
use mathlib.Core.List.Memᴰ
use mitos_pkg.Prelude.{
  String, string_eq, Bool, true, false, not, ◌&&◌, ◌||◌, [], ◌∷◌, none, some, any, contains, ◌==◌,
  ◌≡◌, ◌≢◌, refl, ap, Memᴰ, arith, Bool-cases, inl, inr, ◌↔◌, any-of_mem, mem-of_any,
}
use mitos_pkg.Prelude.HashMap
use mitos_pkg.Prelude.HashMap.{HashMap, IsMap}
use mitos_pkg.Semver.{Semver}
use mitos_pkg.Dependency.Version.{Dependency}
use mitos_pkg.Database.Packages
use mitos_pkg.Database.Packages.{InstalledPackage, InstalledDb}
use mitos_pkg.Dependency.Resolver.Dependents.{
  provides, other_satisfies, only_satisfied_by, depends_only_on, dependents_in, dependents_of,
}

module _ (sv : Semver) where
  -- some installed package has the name, or provides it
  abbrev pub satisfies : HashMap String (InstalledPackage sv) → String → Bool
  satisfies m dep_name = any (λ (n, p). n == dep_name || provides sv p dep_name) m

  pub satisfies-remove :
      (m : HashMap String (InstalledPackage sv)) (name d : String)
      → satisfies (HashMap.remove name m) d ≡ other_satisfies sv m d name
  unfolding HashMap.remove
  satisfies-remove [] name d = refl
  satisfies-remove ((k, p) ∷ m) name d = ground (arith, satisfies-remove m name d)

  satisfies_absent :
      (m : HashMap String (InstalledPackage sv)) (name d : String)
      → HashMap.get name m ≡ none
      → satisfies m d ≡ other_satisfies sv m d name
  unfolding HashMap.get
  satisfies_absent [] name d h = refl
  satisfies_absent ((k, p) ∷ m) name d h = ground (arith, satisfies_absent m name d)

  pub satisfies_split :
      (m : HashMap String (InstalledPackage sv)) (name d : String) (p : InstalledPackage sv)
      → IsMap m
      → HashMap.get name m ≡ some p
      → satisfies m d ≡ ((d == name || provides sv p d) || other_satisfies sv m d name)
  unfolding HashMap.get
  satisfies_split [] name d p h e = cc
  satisfies_split ((k, q) ∷ m) name d p h e =
      ground (arith, satisfies_split m name d p h.1, satisfies_absent m name d)

  -- Removing `name` takes from the package `n` the last package that satisfies one of its
  -- dependencies.
  pub record Breaks (db : InstalledDb sv) (name n : String) : Type 0 where
    pub pkg : InstalledPackage sv
    pub found : Packages.get sv db n ≡ some pkg
    pub differs : n ≢ name
    pub dep : Dependency sv
    pub declared : Memᴰ dep pkg.dependencies
    pub before : satisfies db.packages dep.name ≡ true
    pub after : satisfies (HashMap.remove name db.packages) dep.name ≡ false

  module _ (db : InstalledDb sv) (name : String) (p : InstalledPackage sv)
      (unique : IsMap db.packages) (installed : Packages.get sv db name ≡ some p) where
    only_satisfied_by_iff :
        (d : String)
        → (only_satisfied_by sv db d name ≡ true) ↔ (
            (satisfies db.packages d ≡ true)
            × (satisfies (HashMap.remove name db.packages) d ≡ false))
    unfolding only_satisfied_by
    only_satisfied_by_iff d = ground (
      arith,
      satisfies_split db.packages name d p unique installed,
      satisfies-remove db.packages name d,
    )

    mem-of_dependents :
        (m : HashMap String (InstalledPackage sv)) (n : String)
        → contains (dependents_in sv db name m) n ≡ true
        → (q : InstalledPackage sv) × Memᴰ (n, q) m
          × (n ≢ name)
          × (depends_only_on sv db name q ≡ true)
    unfolding dependents_in
    mem-of_dependents [] n h = cc
    mem-of_dependents ((k, q) ∷ m) n h =
        elim (Bool-cases (not (k == name) && depends_only_on sv db name q)) [
          | inl e ↦ elim (string_eq.dec n k) [
            | yes same ↦
                (q, Memᴰ.head (ap (λ (x : String). (x, q)) same), ground arith, ground arith)
            | no other ↦
                let (r, i, d, o) = mem-of_dependents m n (ground arith) in (r, Memᴰ.tail i, d, o)
          ]
          | inr e ↦
              let (r, i, d, o) = mem-of_dependents m n (ground arith) in (r, Memᴰ.tail i, d, o)
        ]

    dependents_of_mem :
        (m : HashMap String (InstalledPackage sv)) (n : String) (q : InstalledPackage sv)
        → Memᴰ (n, q) m
        → n ≢ name
        → depends_only_on sv db name q ≡ true
        → contains (dependents_in sv db name m) n ≡ true
    unfolding dependents_in
    dependents_of_mem [] n q i d o = absurd (Memᴰ.not-nil i)
    dependents_of_mem ((k, r) ∷ m) n q (Memᴰ.head e) d o = ground arith
    dependents_of_mem ((k, r) ∷ m) n q (Memᴰ.tail i) d o =
        ground (arith, dependents_of_mem m n q i d o)

    -- For an installed package of a database that lists no name twice, `dependents_of` names
    -- exactly the packages that lose, with it, the last package that satisfies one of their
    -- dependencies.
    pub dependents_of-Breaks :
        (n : String)
        → (contains (dependents_of sv db name) n ≡ true → Breaks db name n)
          × (Breaks db name n → contains (dependents_of sv db name) n ≡ true)
    unfolding dependents_of
    dependents_of-Breaks n = (
      λ h.
          let (q, i, d, o) = mem-of_dependents db.packages n h in
          let (dep, j, only) =
            mem-of_any (λ x. only_satisfied_by sv db x.name name) q.dependencies o in
          let (b, a) = (only_satisfied_by_iff dep.name).0 only in
          record {
            pkg = q;
            found = HashMap.get_of_mem n q db.packages unique i;
            differs = d;
            dep = dep;
            declared = j;
            before = b;
            after = a;
          },
      λ b.
          dependents_of_mem db.packages n b.pkg (HashMap.mem_of_get n b.pkg db.packages b.found)
            b.differs
            (any-of_mem (λ x. only_satisfied_by sv db x.name name) b.dep b.pkg.dependencies
              b.declared ((only_satisfied_by_iff b.dep.name).1 (b.before, b.after))),
    )
