-- ===== src/Service/Commands/Marking/Held.antt =====
-- What `hold` and `unhold` of src/service/lifecycle.rs leave in the database of installed packages.
use mitos_pkg.Prelude.{
  ==_refl, List, Memᴰ, String, string_eq, Bool, true, false, ◌≡◌, sym, ap, ◌∙◌, inl, inr, ◌≢◌,
  Option, some, ok, arith, ◌==◌, if◌then◌else◌, Option-cases,
}
use mitos_pkg.Prelude.HashMap.{get-update}
use mitos_pkg.Semver.{Semver}
use mitos_pkg.Database.Packages
use mitos_pkg.Database.Packages.{InstalledPackage, InstalledDb}
use mitos_pkg.Repository.Index.{RepositoryIndex}
use mitos_pkg.Service.Lifecycle.{Upgrade, upgrade_plan}
use mitos_pkg.Service.Lifecycle.Upgrade.{Agreed, upgrade_plan-Agreed}
use mitos_pkg.Service.State.{Outside, State, on_fs, give}
use mitos_pkg.Service.State.Steps.{with_lock-ok}
use mitos_pkg.Service.Commands.Marking.{with_lock, mark, hold, unhold}

module _ (sv : Semver) (out : Outside sv) where
  abbrev with_mark : Bool → InstalledPackage sv → InstalledPackage sv
  with_mark held pkg = record pkg { held = held }

  get-modify :
      (held : Bool) (name n : String) (p : InstalledPackage sv) (db : InstalledDb sv)
      → Packages.get sv db name ≡ some p
      → Packages.get sv (Packages.modify sv db name (with_mark held)) n
        ≡ (if n == name then some (with_mark held p) else Packages.get sv db n)
  unfolding Packages.modify
  get-modify held name n p db i = elim (string_eq.dec n name) [
    | yes q ↦ rw q (ground (arith, i, get-update name name (with_mark held) db.packages))
    | no q ↦ ground (arith, get-update n name (with_mark held) db.packages)
  ]

  mark-marks :
      (held : Bool) (name : String) (s : State sv)
      → (mark sv out held name s).0 ≡ some (ok tt)
      → (p : InstalledPackage sv) × (Packages.get sv s.packages name ≡ some p)
        × ((mark sv out held name s).1.packages
            ≡ Packages.modify sv s.packages name (with_mark held))
  unfolding mark on_fs give
  mark-marks held name s h = elim (Option-cases (Packages.get sv s.packages name)) [
    | inl e ↦ absurd (ground arith)
    | inr (p, e) ↦ (p, e, ground arith)
  ]

  abbrev Marked : Bool → String → State sv → State sv → InstalledPackage sv → Type 0
  Marked held name s s1 p =
      (Packages.get sv s.packages name ≡ some p)
      × ((n : String)
          → Packages.get sv s1.packages n
            ≡ (if n == name then some (record p { held = held }) else Packages.get sv s.packages n))

  locked_mark :
      (held : Bool) (name : String) (s : State sv)
      → (with_lock sv out (mark sv out held name) s).0 ≡ some (ok tt)
      → (p : InstalledPackage sv) × Marked held name s
          (with_lock sv out (mark sv out held name) s).1
          p
  locked_mark held name s h =
      let (fs1, fs2, q, e) = with_lock-ok sv out (mark sv out held name) s tt h in
      let (p, i, g) = mark-marks held name (record s { fs = fs1 }) q in
      (
        p,
        (
          i,
          λ n.
              ap (λ (x : State sv). Packages.get sv x.packages n) e
              ∙ ap (λ db. Packages.get sv db n) g
              ∙ get-modify held name n p s.packages i,
        ),
      )

  -- After a `hold` that succeeds, the named package is marked as held, and every other package is listed as
  -- before; and no `upgrade` that does not ignore holds plans to upgrade it.
  pub hold-held :
      (name : String) (s : State sv)
      → (hold sv out name s).0 ≡ some (ok tt)
      → (p : InstalledPackage sv) × (Packages.get sv s.packages name ≡ some p)
        × ((n : String)
            → Packages.get sv (hold sv out name s).1.packages n ≡ (
                if n == name
                then some (record p { held = true })
                else Packages.get sv s.packages n))
        × ((index : RepositoryIndex sv) (arch : String) (target : Option String)
              (us : List (Upgrade sv index (hold sv out name s).1.packages arch))
              (u : Upgrade sv index (hold sv out name s).1.packages arch)
            → upgrade_plan sv index (hold sv out name s).1.packages arch target false ≡ ok us
            → Memᴰ u us
            → u.0 ≢ name)
  unfolding hold
  hold-held name s h =
      let (p, (i, after)) = locked_mark true name s h in
      (
        p,
        i,
        after,
        λ index arch target us u planned m same.
            let agreed : Agreed sv index (hold sv out name s).1.packages arch false u =
              upgrade_plan-Agreed sv index (hold sv out name s).1.packages arch target false us
                planned u m in
            ground (arith, same, after u.0, agreed.installed, agreed.unheld),
      )

  unmarked : (p : InstalledPackage sv) → p.held ≡ false → with_mark false p ≡ p
  unmarked p h = ap (λ held. with_mark held p) (sym h)

  -- `unhold` behind `hold`, where both succeed, lists every package as before, if the package was not held.
  pub unhold-hold :
      (name : String) (s : State sv) (p : InstalledPackage sv)
      → Packages.get sv s.packages name ≡ some p
      → p.held ≡ false
      → (hold sv out name s).0 ≡ some (ok tt)
      → (unhold sv out name (hold sv out name s).1).0 ≡ some (ok tt)
      → (n : String)
      → Packages.get sv (unhold sv out name (hold sv out name s).1).1.packages n
        ≡ Packages.get sv s.packages n
  unfolding hold unhold
  unhold-hold name s p i free h1 h2 n =
      let (p1, (i1, after1)) = locked_mark true name s h1 in
      let (p2, (i2, after2)) = locked_mark false name (hold sv out name s).1 h2 in
      elim (string_eq.dec n name) [
        | yes q ↦
            rw q
              (ground (arith, after2 name, after1 name, i2, i1, i, unmarked p free, ==_refl name))
        | no q ↦ ground (arith, after2 n, after1 n)
      ]
