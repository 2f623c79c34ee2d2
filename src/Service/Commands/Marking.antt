-- ===== src/Service/Commands/Marking.antt =====
-- `hold` and `unhold` of src/service/lifecycle.rs.
pub mod Held
use mitos_pkg.Prelude.{String, Bool, true, false, Option, none, some, ok, err}
use mitos_pkg.Error.{not_installed}
use mitos_pkg.Semver.{Semver}
use mitos_pkg.Database.Packages
use mitos_pkg.Install.Store.{save_packages}
use mitos_pkg.Service.State.{Outside, State, Command, give, on_fs, with_lock}

module _ (sv : Semver) (out : Outside sv) where
  -- the two commands but for the lock: `held` is the new mark
  unfoldable pub mark : Bool → String → Command {0} sv Unit
  mark held name s = elim (Packages.get sv s.packages name) [
    | none ↦ give sv (err (not_installed name)) s
    | some _ ↦
        let packages = Packages.modify sv s.packages name (λ pkg. record pkg { held = held }) in
        on_fs sv (save_packages sv out.os.json out.os.fails packages)
          (record s { packages = packages })
  ]

  unfoldable pub hold : String → Command {0} sv Unit
  hold name = with_lock sv out (mark true name)

  unfoldable pub unhold : String → Command {0} sv Unit
  unhold name = with_lock sv out (mark false name)
