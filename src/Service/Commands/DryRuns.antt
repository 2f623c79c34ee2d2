-- ===== src/Service/Commands/DryRuns.antt =====
-- The dry runs of src/service/lifecycle.rs, and its commands that only read.
use mitos_pkg.Prelude.{
  List, ℕ, String, Bool, true, false, refl, Option, none, some, ok, err, if◌then◌else◌,
}
use mitos_pkg.Error.{FilePath, PkgResult}
use mitos_pkg.Semver.{Semver}
use mitos_pkg.Dependency.Resolver.Install.{resolve_install_req}
use mitos_pkg.Database.Packages
use mitos_pkg.Database.Packages.{InstalledPackage}
use mitos_pkg.Config.{history_path}
use mitos_pkg.Database.History.{read_recent}
use mitos_pkg.Service.State.{Outside, State}
use mitos_pkg.Service.State.Same.{
  Same, Same-refl, Reads, Reads->->, give-Reads, give_or_panic-Reads, on_fs-Reads, emit-Reads,
  looking-Reads, with_lock-Reads,
}
use mitos_pkg.Service.Commands.Fetching.{effective_arch}
use mitos_pkg.Service.Commands.Installing.{
  fits, check_local, install_admitted, local_unlocked, install_local, install_plan, resolve_new,
  if_absent, resolve_and_install, install, is_package_file,
}
use mitos_pkg.Service.Commands.Verifying.{targets, verify_targets, verify, history}
use mitos_pkg.Service.Commands.Removing.{remove_unlocked, remove}
use mitos_pkg.Service.Commands.Upgrading.{upgrade_unlocked, upgrade}

module _ (sv : Semver) (out : Outside sv) where
  local-Reads :
      (archive : FilePath) (signature_hex : Option String)
      → Reads (install_local sv out archive signature_hex true)
  unfolding install_local local_unlocked install_admitted
  local-Reads archive signature_hex = with_lock-Reads sv out (
      Reads->-> sv (on_fs-Reads sv _) λ manifest.
        Reads->-> sv (looking-Reads sv (λ s. give-Reads sv (fits sv out manifest s))) λ _.
          Reads->-> sv (emit-Reads sv _) λ _.
            Reads->-> sv
              (looking-Reads sv
                (λ s. give-Reads sv (check_local sv out manifest s.keystore signature_hex)))
              λ _. give-Reads sv _)

  new-Reads :
      (spec : String) (pinned : String × sv.VersionReq)
      → Reads (resolve_new sv out spec pinned true)
  unfolding resolve_new install_plan
  new-Reads spec pinned = Reads->-> sv (emit-Reads sv _) λ _. looking-Reads sv λ s.
      Reads->-> sv
        (give_or_panic-Reads sv
          (resolve_install_req sv s.index s.packages (effective_arch sv out s) pinned.0 pinned.1))
        λ plan. give-Reads sv _

  absent-Reads :
      (spec : String) (pinned : String × sv.VersionReq) (o : Option (InstalledPackage sv))
      → Reads (if_absent sv out pinned.0 (resolve_new sv out spec pinned true) o)
  absent-Reads spec pinned none = new-Reads spec pinned
  absent-Reads spec pinned (some existing) = give-Reads sv _

  resolved-Reads : (spec : String) → Reads (resolve_and_install sv out spec true)
  unfolding resolve_and_install
  resolved-Reads spec =
      Reads->-> sv (give_or_panic-Reads sv _) λ pinned.
        looking-Reads sv λ s. absent-Reads spec pinned (Packages.get sv s.packages pinned.0)

  either {ℓ} :
      {A : Type ℓ} {s : State sv} (x y : Option (PkgResult A) × State sv) (b : Bool)
      → Same s x.1
      → Same s y.1
      → Same s (if b then x else y).1
  either x y true hx hy = hx
  either x y false hx hy = hy

  install-Reads :
      (spec : String) (signature_hex : Option String)
      → Reads (install sv out spec signature_hex true)
  unfolding install
  install-Reads spec signature_hex = record {
    same = λ s.
        either _ _ (is_package_file (out.path_of spec) s.fs)
          ((local-Reads (out.path_of spec) signature_hex).same s)
          ((with_lock-Reads sv out (resolved-Reads spec)).same s);
  }

  remove-Reads :
      (depth : ℕ) (name : String) (cascade force : Bool)
      → Reads (remove sv out depth name cascade force true)
  unfolding remove remove_unlocked
  remove-Reads depth name cascade force =
      with_lock-Reads sv out
        (looking-Reads sv λ s. Reads->-> sv (give_or_panic-Reads sv _) λ names. give-Reads sv _)

  upgrade-Reads :
      (name : Option String) (ignore_hold : Bool) → Reads (upgrade sv out name ignore_hold true)
  unfolding upgrade upgrade_unlocked
  upgrade-Reads name ignore_hold =
      with_lock-Reads sv out
        (looking-Reads sv λ s. Reads->-> sv (give-Reads sv _) λ names. give-Reads sv _)

  verify-Reads : (r : PkgResult (List (InstalledPackage sv))) → Reads (verify_targets sv out r)
  unfolding verify_targets
  verify-Reads (err e) = record { same = Same-refl }
  verify-Reads (ok pkgs) = record {
    same =
        λ s. record { config = refl; packages = refl; files = refl; index = refl; keystore = refl };
  }

  -- A dry run of a command, and `verify` and `history`, however it ends, leaves the configuration, both
  -- databases, the index and the keys in memory as they were.
  pub dry_run-Same :
      (depth : ℕ) (name : String) (target signature_hex : Option String) (archive : FilePath)
      (cascade force : Bool) (limit : ℕ) (s : State sv)
      → Same s (install sv out name signature_hex true s).1
        × Same s (install_local sv out archive signature_hex true s).1
        × Same s (remove sv out depth name cascade force true s).1
        × Same s (upgrade sv out target force true s).1
        × Same s (verify sv out target s).1
        × Same s (history sv out limit s).1
  unfolding verify history
  dry_run-Same depth name target signature_hex archive cascade force limit s = (
    (install-Reads name signature_hex).same s,
    (local-Reads archive signature_hex).same s,
    (remove-Reads depth name cascade force).same s,
    (upgrade-Reads target force).same s,
    (looking-Reads sv (λ s1. verify-Reads (targets sv out target s1))).same s,
    (on_fs-Reads sv (read_recent out.entry_json out.os.fails (history_path s.config) limit)).same s,
  )
