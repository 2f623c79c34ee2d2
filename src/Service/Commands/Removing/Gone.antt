-- ===== src/Service/Commands/Removing/Gone.antt =====
-- What the removals of src/service/lifecycle.rs leave in the database of installed packages.
use mitos_pkg.Prelude.{
  ℕ, String, string_eq, Bool, true, false, ◌≡◌, refl, ap, ◌∙◌, subst, inl, inr, ◌≢◌, List, [], ◌∷◌,
  Option, none, some, ok, arith, ◌==◌, if◌then◌else◌, contains, Bool-cases,
}
use mitos_pkg.Prelude.HashMap
use mitos_pkg.Prelude.HashMap.{IsMap, get-remove, remove-IsMap}
use mitos_pkg.Error.{PkgResult}
use mitos_pkg.Semver.{Semver}
use mitos_pkg.Database.Packages
use mitos_pkg.Database.Packages.{InstalledPackage, InstalledDb}
use mitos_pkg.Install.Transaction.Databases.{remove-Removed}
use mitos_pkg.Service.Progress.{removing}
use mitos_pkg.Service.State.{Outside, State, give, emit, transact, record_entry, give_or_panic}
use mitos_pkg.Service.State.Steps.{>->-ok, >->-returns, with_lock-ok}
use mitos_pkg.Service.Commands.Fetching.{effective_arch, remove_one}
use mitos_pkg.Service.Commands.Removing.{remove_logged, remove_all, remove_unlocked, remove}
use mitos_pkg.Dependency.Resolver.Dependents.Broken.{Breaks}
use mitos_pkg.Service.Lifecycle.{removal_plan}
use mitos_pkg.Service.Lifecycle.Removal.{removal_plan-safe}

module _ (sv : Semver) (out : Outside sv) where
  remove_one-gone :
      (name : String) (s : State sv)
      → (remove_one sv out name s).0 ≡ some (ok tt)
      → (pkg : InstalledPackage sv) × (Packages.get sv s.packages name ≡ some pkg)
        × ((remove_one sv out name s).1.packages ≡ Packages.remove sv s.packages name)
  unfolding remove_one transact
  remove_one-gone name s h =
      elim (remove-Removed sv out.os s.config.install_root name
        (record { packages = s.packages; files = s.files; fs = s.fs })) [
          | inl ((e, q), _, _) ↦ absurd (ground arith)
          | inr r ↦ (r.pkg, r.installed, r.packages_after)
        ]

  -- A removal that succeeds takes the package, and it alone, off the database.
  pub remove_logged-gone :
      (operation name : String) (s : State sv)
      → (remove_logged sv out operation name s).0 ≡ some (ok tt)
      → (pkg : InstalledPackage sv) × (Packages.get sv s.packages name ≡ some pkg)
        × ((remove_logged sv out operation name s).1.packages ≡ Packages.remove sv s.packages name)
  unfolding remove_logged emit record_entry
  remove_logged-gone operation name s h =
      let (_, _, h1, e1) = >->-ok sv (emit sv (removing name)) _ s tt h in
      let (_, r, _, e2) =
        >->-ok sv (remove_one sv out name) _ (emit sv (removing name) s).1 tt h1 in
      let (pkg, i, g) = remove_one-gone name (emit sv (removing name) s).1 r in
      (pkg, i, ap (λ (x : Option (PkgResult {0} Unit) × State sv). x.1.packages) (e1 ∙ e2) ∙ g)

  pub some-ne-none {ℓ} : {A : Type ℓ} (a : A) → some a ≢ none
  some-ne-none a p = cc

  -- It never panics.
  pub remove_logged-returns :
      (operation name : String) (s : State sv) → (remove_logged sv out operation name s).0 ≢ none
  unfolding remove_logged emit remove_one transact record_entry
  remove_logged-returns operation name s =
      >->-returns sv (emit sv (removing name)) _ s (some-ne-none _) λ _ _.
        >->-returns sv (remove_one sv out name) _ (emit sv (removing name) s).1 (some-ne-none _)
          λ _ _. some-ne-none _

  -- what is listed under a name once these names are gone
  abbrev pub without :
      List String → String → Option (InstalledPackage sv) → Option (InstalledPackage sv)
  without names n found = if contains names n then none else found

  without-remove :
      (names : List String) (k n : String) (db : InstalledDb sv)
      → without names n (Packages.get sv (Packages.remove sv db k) n)
        ≡ without (k ∷ names) n (Packages.get sv db n)
  unfolding Packages.remove
  without-remove names k n db = ground (arith, get-remove n k db.packages)

  without-absent :
      (names : List String) (k n : String) (db : InstalledDb sv)
      → Packages.is_installed sv db k ≡ false
      → without names n (Packages.get sv db n) ≡ without (k ∷ names) n (Packages.get sv db n)
  unfolding Packages.is_installed HashMap.contains_key
  without-absent names k n db e = elim (string_eq.dec n k) [
    | yes p ↦ rw p (ground arith)
    | no q ↦ ground arith
  ]

  -- `remove` of several names that succeeds takes exactly these off the database.
  pub remove_all-gone :
      (names : List String) (s : State sv) (removed : List String)
      → (remove_all sv out names s).0 ≡ some (ok removed)
      → (n : String)
      → Packages.get sv (remove_all sv out names s).1.packages n
        ≡ without names n (Packages.get sv s.packages n)
  unfolding remove_all give
  remove_all-gone [] s removed h n = refl
  remove_all-gone (k ∷ names) s removed h n =
      elim (Bool-cases (Packages.is_installed sv s.packages k)) [
        | inl e ↦
            let (_, r, h1, e1) =
              >->-ok sv (remove_logged sv out "remove" k) _ s removed (rw e at h) in
            let s1 : State sv = (remove_logged sv out "remove" k s).1 in
            let (pkg, i, g) = remove_logged-gone "remove" k s r in
            let (rest, q, _, e2) = >->-ok sv (remove_all sv out names) _ s1 removed h1 in
            rw e (
              ap
                (λ (x : Option (PkgResult (List String)) × State sv).
                  Packages.get sv x.1.packages n)
                (e1 ∙ e2)
              ∙ remove_all-gone names s1 rest q n
              ∙ ap (λ db. without names n (Packages.get sv db n)) g
              ∙ without-remove names k n s.packages)
        | inr e ↦
            rw e (
              remove_all-gone names s removed (rw e at h) n ∙ without-absent names k n s.packages e)
      ]

  -- the plan of a run under the lock
  remove_unlocked-ok :
      (depth : ℕ) (name : String) (cascade force : Bool) (s : State sv) (removed : List String)
      → (remove_unlocked sv out depth name cascade force false s).0 ≡ some (ok removed)
      → (names : List String) × (removal_plan sv s.index s.packages
            (effective_arch sv out s)
            depth
            name
            cascade
            force
          ≡ some (ok names))
        × ((remove_all sv out names s).0 ≡ some (ok removed))
        × (remove_unlocked sv out depth name cascade force false s ≡ remove_all sv out names s)
  unfolding remove_unlocked give_or_panic
  remove_unlocked-ok depth name cascade force s removed h =
      let (names, p, q, e) =
        >->-ok sv
          (give_or_panic sv
            (removal_plan sv s.index s.packages (effective_arch sv out s) depth name cascade force))
          _ s removed h in
      (names, p, q, e)

  remove_one_name :
      (name : String) (p : InstalledPackage sv) (s : State sv) (removed : List String)
      → Packages.get sv s.packages name ≡ some p
      → (remove_all sv out (name ∷ []) s).0 ≡ some (ok removed)
      → removed ≡ name ∷ []
  unfolding remove_all give Packages.is_installed HashMap.contains_key
  remove_one_name name p s removed i h =
      let here : Packages.is_installed sv s.packages name ≡ true = ground arith in
      let (_, r, h1, _) =
        >->-ok sv (remove_logged sv out "remove" name) _ s removed (rw here at h) in
      let (rest, q, h2, _) =
        >->-ok sv (remove_all sv out []) _ (remove_logged sv out "remove" name s).1 removed h1 in
      ground (arith, q, h2)

  -- In a database that lists no name twice, `remove` without `cascade` that succeeds, and is no dry run,
  -- removes exactly the named package: it was installed, and unless forced not essential; no other package
  -- loses with it the last package that satisfies one of its dependencies; it is no longer listed, and
  -- every other package is listed as before.
  pub remove-gone :
      (depth : ℕ) (name : String) (force : Bool) (s : State sv) (removed : List String)
      → IsMap s.packages.packages
      → (remove sv out depth name false force false s).0 ≡ some (ok removed)
      → (p : InstalledPackage sv) × (Packages.get sv s.packages name ≡ some p)
        × (removed ≡ name ∷ [])
        × (force ≡ false → p.essential ≡ false)
        × ((n : String) → ¬ (Breaks sv s.packages name n))
        × ((n : String)
            → Packages.get sv (remove sv out depth name false force false s).1.packages n
              ≡ (if n == name then none else Packages.get sv s.packages n))
  unfolding remove effective_arch
  remove-gone depth name force s removed unique h =
      let (fs1, fs2, q, e) =
        with_lock-ok sv out (remove_unlocked sv out depth name false force false) s removed h in
      let (names, planned, done, same) =
        remove_unlocked-ok depth name false force (record s { fs = fs1 }) removed q in
      let (p, i, just, essential, kept) =
        removal_plan-safe sv s.index s.packages _ depth name force names unique planned in
      let one : (n : String)
          → without (name ∷ []) n (Packages.get sv s.packages n)
            ≡ (if n == name then none else Packages.get sv s.packages n) =
        λ n. ground arith in
      (
        p,
        i,
        remove_one_name name p (record s { fs = fs1 }) removed i
            (subst (λ ns. (remove_all sv out ns (record s { fs = fs1 })).0 ≡ some (ok removed)) just
              done),
        essential,
        kept,
        λ n.
            ap (λ (x : State sv). Packages.get sv x.packages n) e
            ∙ ap
                (λ (x : Option (PkgResult (List String)) × State sv).
                  Packages.get sv x.1.packages n)
                same
            ∙ remove_all-gone names (record s { fs = fs1 }) removed done n
            ∙ ap (λ ns. without ns n (Packages.get sv s.packages n)) just
            ∙ one n,
      )
