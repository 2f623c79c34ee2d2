-- ===== src/Service/Commands/Removing/Orphans.antt =====
-- `autoremove` of src/service/lifecycle.rs ends, and leaves no orphan.
use mitos_pkg.Prelude.{
  ℕ, zero, suc, ◌<◌, String, string_eq, true, false, ◌||◌, ◌≡◌, refl, sym, ap, ◌∙◌, subst, inl, inr,
  ◌≢◌, List, [], ◌∷◌, Option, none, some, ok, arith, length, Option-cases,
}
use mitos_pkg.Prelude.HashMap.{IsMap, get-remove, remove-IsMap, length-remove}
use mitos_pkg.Error.{PkgResult}
use mitos_pkg.Semver.{Semver}
use mitos_pkg.Database.Packages
use mitos_pkg.Database.Packages.{InstalledPackage, InstalledDb}
use mitos_pkg.Service.Lifecycle.{find_orphan}
use mitos_pkg.Service.Lifecycle.Removal.{find_orphan-safe}
use mitos_pkg.Service.State.{Outside, State, Command, ◌>->◌, give, give_or_panic}
use mitos_pkg.Service.State.Steps.{>->-ok, >->-returns, with_lock-ok, with_lock-RunsUnderLock}
use mitos_pkg.Service.Commands.Fetching.{effective_arch}
use mitos_pkg.Service.Commands.Removing.{remove_logged, remove_orphans, autoremove}
use mitos_pkg.Service.Commands.Removing.Gone.{
  remove_logged-gone, remove_logged-returns, some-ne-none,
}

module _ (sv : Semver) (out : Outside sv) where
  -- what `autoremove` looks for in a state
  abbrev pub orphan_of : State sv → Option String
  orphan_of s = find_orphan sv s.index s.packages (effective_arch sv out s) s.packages.packages

  shrinks :
      (name : String) (p : InstalledPackage sv) (db : InstalledDb sv)
      → Packages.get sv db name ≡ some p
      → length (Packages.remove sv db name).packages < length db.packages
  unfolding Packages.remove
  shrinks name p db h = length-remove name p db.packages h

  remove_keeps-IsMap :
      (name : String) (db : InstalledDb sv)
      → IsMap db.packages
      → IsMap (Packages.remove sv db name).packages
  unfolding Packages.remove
  remove_keeps-IsMap name db h = remove-IsMap name db.packages h

  -- the round behind a search that found an orphan
  after_orphan : ℕ → String → Command sv (List String)
  after_orphan fuel name =
      ◌>->◌ sv (remove_logged sv out "autoremove" name)
        λ _. ◌>->◌ sv (remove_orphans sv out fuel) λ removed. give sv (ok (name ∷ removed))

  orphans_end :
      (fuel : ℕ) (s : State sv)
      → orphan_of s ≡ none
      → remove_orphans sv out (suc fuel) s ≡ (some (ok []), s)
  unfolding remove_orphans give
  orphans_end fuel s e = rw (remove_orphans, e) refl

  orphans_next :
      (fuel : ℕ) (s : State sv) (name : String)
      → orphan_of s ≡ some name
      → remove_orphans sv out (suc fuel) s ≡ after_orphan fuel name s
  unfolding remove_orphans after_orphan
  orphans_next fuel s name e = rw (remove_orphans, e) refl

  remove_orphans-returns :
      (fuel : ℕ) (s : State sv)
      → length s.packages.packages < fuel
      → (remove_orphans sv out fuel s).0 ≢ none
  unfolding after_orphan give
  remove_orphans-returns zero s h = absurd (omega arith)
  remove_orphans-returns (suc fuel) s h = elim (Option-cases (orphan_of s)) [
    | inl e ↦ rw (orphans_end fuel s e) (some-ne-none sv out _)
    | inr (name, e) ↦ rw (orphans_next fuel s name e) (
        >->-returns sv (remove_logged sv out "autoremove" name) _ s
          (remove_logged-returns sv out "autoremove" name s)
          λ _ r.
            let (p, i, g) = remove_logged-gone sv out "autoremove" name s r in
            >->-returns sv (remove_orphans sv out fuel) _
              (remove_logged sv out "autoremove" name s).1
              (remove_orphans-returns fuel _ (rw g (omega (arith, shrinks name p s.packages i))))
              λ _ _. some-ne-none sv out _)
  ]

  -- `autoremove` ends, and never panics, on every database: each round takes a package off it.
  pub autoremove_total : (s : State sv) → (autoremove sv out s).0 ≢ none
  unfolding autoremove
  autoremove_total s =
      elim (with_lock-RunsUnderLock sv out
        (λ s1. remove_orphans sv out (suc (length s1.packages.packages)) s1) s) [
          | inl (fs1, e, q) ↦ λ p.
              some-ne-none sv out _
                (sym (ap (λ (x : Option (PkgResult (List String)) × State sv). x.0) q) ∙ p)
          | inr (fs1, fs2, q) ↦ λ p.
              remove_orphans-returns (suc (length s.packages.packages)) (record s { fs = fs1 })
                (omega arith)
                (sym (ap (λ (x : Option (PkgResult (List String)) × State sv). x.0) q) ∙ p)
        ]

  not_taken :
      (name n : String) (orphan pkg : InstalledPackage sv) (db : InstalledDb sv)
      → Packages.get sv db name ≡ some orphan
      → orphan.explicit ≡ false
      → orphan.essential ≡ false
      → Packages.get sv db n ≡ some pkg
      → (pkg.explicit || pkg.essential) ≡ true
      → Packages.get sv (Packages.remove sv db name) n ≡ some pkg
  unfolding Packages.remove
  not_taken name n orphan pkg db i ex es j wanted = elim (string_eq.dec n name) [
    | yes p ↦ absurd (ground (arith, ap (Packages.get sv db) p))
    | no q ↦ ground (arith, get-remove n name db.packages)
  ]

  record Settled (s s1 : State sv) : Type 0 where
    no_orphan : orphan_of s1 ≡ none
    kept :
        (n : String) (p : InstalledPackage sv)
        → Packages.get sv s.packages n ≡ some p
        → (p.explicit || p.essential) ≡ true
        → Packages.get sv s1.packages n ≡ some p

  remove_orphans-Settled :
      (fuel : ℕ) (s : State sv) (names : List String)
      → IsMap s.packages.packages
      → (remove_orphans sv out fuel s).0 ≡ some (ok names)
      → Settled s (remove_orphans sv out fuel s).1
  unfolding remove_orphans after_orphan give give_or_panic
  remove_orphans-Settled zero s names unique h = cc
  remove_orphans-Settled (suc fuel) s names unique h = elim (Option-cases (orphan_of s)) [
    | inl e ↦ rw (orphans_end fuel s e) (record { no_orphan = e; kept = λ n p i _. i })
    | inr (name, e) ↦
        let (_, r, h1, e1) =
          >->-ok sv (remove_logged sv out "autoremove" name) _ s names
            (rw (orphans_next fuel s name e) at h) in
        let s1 : State sv = (remove_logged sv out "autoremove" name s).1 in
        let (p, i, g) = remove_logged-gone sv out "autoremove" name s r in
        let (rest, q, _, e2) = >->-ok sv (remove_orphans sv out fuel) _ s1 names h1 in
        let later : Settled s1 (remove_orphans sv out fuel s1).1 =
          remove_orphans-Settled fuel s1 rest (rw g (remove_keeps-IsMap name s.packages unique))
            q in
        let (orphan, oi, ex, es, _) =
          find_orphan-safe sv s.index s.packages (effective_arch sv out s) name unique e in
        subst (Settled s)
          (sym (
            ap (λ (x : Option (PkgResult (List String)) × State sv). x.1)
              (orphans_next fuel s name e ∙ e1 ∙ e2)))
          (record {
            no_orphan = later.no_orphan;
            kept = λ n pkg j wanted.
                later.kept n pkg
                  (ap (λ db. Packages.get sv db n) g
                    ∙ not_taken name n orphan pkg s.packages oi ex es j wanted)
                  wanted;
          })
  ]

  pub autoremove-settled :
      (s : State sv) (names : List String)
      → IsMap s.packages.packages
      → (autoremove sv out s).0 ≡ some (ok names)
      → (orphan_of (autoremove sv out s).1 ≡ none)
        × ((n : String) (p : InstalledPackage sv)
            → Packages.get sv s.packages n ≡ some p
            → (p.explicit || p.essential) ≡ true
            → Packages.get sv (autoremove sv out s).1.packages n ≡ some p)
  unfolding autoremove effective_arch
  autoremove-settled s names unique h =
      let (fs1, fs2, q, e) =
        with_lock-ok sv out (λ s1. remove_orphans sv out (suc (length s1.packages.packages)) s1) s
          names h in
      let settled : Settled (record s { fs = fs1 }) _ =
        remove_orphans-Settled (suc (length s.packages.packages)) (record s { fs = fs1 }) names
          unique q in
      (
        ap orphan_of e ∙ settled.no_orphan,
        λ n p i wanted.
            ap (λ (x : State sv). Packages.get sv x.packages n) e ∙ settled.kept n p i wanted,
      )
