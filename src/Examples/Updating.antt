-- ===== src/Examples/Updating.antt =====
-- Holding, updating and verifying, on a small system.
use mitos_pkg.Prelude.{
  ◌≡◌, ◌≢◌, ◌≤◌, ◌↔◌, ◌||◌, refl, ℕ, String, string_eq, Bool, true, false, List, [], ◌∷◌, Option,
  none, some, ok, err, ◌==◌, if◌then◌else◌, Memᴰ, arith,
}
use mitos_pkg.Prelude.Int.{pos}
use mitos_pkg.Prelude.HashMap
use mitos_pkg.Error.{FilePath, network}
use mitos_pkg.Fs.{FsCall}
use mitos_pkg.Config.{Config, RepoSource, RepoSource.detailed, default_config}
use mitos_pkg.Database.Packages
use mitos_pkg.Database.Packages.{InstalledPackage}
use mitos_pkg.Repository.Index.{RepositoryIndex}
use mitos_pkg.Service.Lifecycle.{Upgrade, upgrade_plan}
use mitos_pkg.Service.State.{Outside, State}
use mitos_pkg.Service.Commands.Marking.{hold, unhold}
use mitos_pkg.Service.Commands.Marking.Held.{hold-held, unhold-hold}
use mitos_pkg.Service.Commands.Updating.{update}
use mitos_pkg.Service.Commands.Updating.Merged.{IsMerged, update-IsMerged, update_failed}
use mitos_pkg.Service.Commands.Verifying.{verify_one}
use mitos_pkg.Service.Commands.Verifying.Intact.{IsIntact, verify_one-IsIntact}
use mitos_pkg.Examples.{numbers, small_index, present, needs, at_least}
use mitos_pkg.Examples.Commanding.{outside, state}
use mitos_pkg.Examples.Installing.{disk, system, keystore}

-- with a repository that names a signer
abbrev signed : State numbers
signed = record state {
  config = record default_config { repositories = detailed "u" (some "mitos") [] (pos 1) ∷ [] };
}

app_held : (hold numbers outside "app" state).0 ≡ some (ok tt)
unfolding hold mitos_pkg.Service.State.with_lock mitos_pkg.Service.State.◌>->◌
    mitos_pkg.Service.State.on_fs mitos_pkg.Service.Lock.acquire mitos_pkg.Fs.◌>>>◌ HashMap.get
    mitos_pkg.Prelude.list_eq string_eq mitos_pkg.Service.Commands.Marking.mark
    mitos_pkg.Install.Store.save_packages Packages.modify mitos_pkg.Fs.done HashMap.insert
app_held = refl

app_unheld : (unhold numbers outside "app" (hold numbers outside "app" state).1).0 ≡ some (ok tt)
unfolding unhold mitos_pkg.Service.State.with_lock mitos_pkg.Service.State.◌>->◌
    mitos_pkg.Service.State.on_fs mitos_pkg.Service.Lock.acquire mitos_pkg.Fs.◌>>>◌ HashMap.get hold
    mitos_pkg.Prelude.list_eq string_eq mitos_pkg.Service.Lock.unlock
    mitos_pkg.Service.Commands.Marking.mark mitos_pkg.Install.Store.save_packages Packages.modify
    mitos_pkg.Fs.done HashMap.insert HashMap.remove mitos_pkg.Fs.create_dir_all
    mitos_pkg.Fs.create_new mitos_pkg.Fs.make_parent mitos_pkg.Fs.remove_file mitos_pkg.Fs.rename
    mitos_pkg.Fs.write mitos_pkg.Install.Store.save_text HashMap.update
    mitos_pkg.Service.Lock.lock_error mitos_pkg.Service.Lock.open_lock mitos_pkg.Service.State.give
app_unheld = refl

updated : (update numbers outside signed).0 ≡ some (ok tt)
unfolding update mitos_pkg.Service.State.◌>->◌ mitos_pkg.Service.Commands.Updating.merge_all
    mitos_pkg.Service.State.emit mitos_pkg.Service.Commands.Updating.fetch_repo_index
    mitos_pkg.Service.Commands.Updating.fetch_urls mitos_pkg.Config.urls
    mitos_pkg.Service.Commands.Updating.try_fetch mitos_pkg.Repository.Download.fetch_with_retry
    mitos_pkg.Service.Commands.Updating.served mitos_pkg.Service.Commands.Updating.fetch_sig
    mitos_pkg.Config.signer mitos_pkg.Service.State.give mitos_pkg.Service.Commands.Updating.accept
    mitos_pkg.Service.Commands.Updating.check_index mitos_pkg.Service.Commands.Updating.store_index
    mitos_pkg.Service.State.on_fs mitos_pkg.Config.index_cache_path mitos_pkg.Config.mirrors
    mitos_pkg.Config.priority mitos_pkg.Config.url mitos_pkg.Error.format
    mitos_pkg.Fs.create_dir_all mitos_pkg.Fs.done mitos_pkg.Fs.make_parent mitos_pkg.Fs.write
    mitos_pkg.Fs.◌>>>◌ mitos_pkg.Package.Signature.decode_signature
    mitos_pkg.Package.Signature.verify_index mitos_pkg.Prelude.list_eq string_eq HashMap.entry
    HashMap.get HashMap.insert mitos_pkg.Repository.Cache.save
    mitos_pkg.Repository.Download.fetch_attempts mitos_pkg.Security.Keys.find
    mitos_pkg.Security.Keys.verify_signature mitos_pkg.Service.Commands.Updating.merge
    mitos_pkg.Service.Commands.Updating.set_index mitos_pkg.Service.State.give_or_panic
updated = refl

hold-held_example :
    (p : InstalledPackage numbers) × (Packages.get numbers system "app" ≡ some p)
    × ((n : String)
        → Packages.get numbers (hold numbers outside "app" state).1.packages n
          ≡ (if n == "app" then some (record p { held = true }) else Packages.get numbers system n))
    × ((index : RepositoryIndex numbers) (arch : String) (target : Option String)
          (us : List (Upgrade numbers index (hold numbers outside "app" state).1.packages arch))
          (u : Upgrade numbers index (hold numbers outside "app" state).1.packages arch)
        → upgrade_plan numbers index (hold numbers outside "app" state).1.packages arch target false
          ≡ ok us
        → Memᴰ u us
        → u.0 ≢ "app")
hold-held_example = hold-held numbers outside "app" state app_held

app_installed :
    Packages.get numbers system "app" ≡ some (present "app" 1 (needs "lib" (at_least 1) ∷ []))
unfolding HashMap.get string_eq
app_installed = refl

unhold-hold_example :
    Packages.get numbers
      (unhold numbers outside "app" (hold numbers outside "app" state).1).1.packages
      "lib"
    ≡ Packages.get numbers system "lib"
unhold-hold_example =
    unhold-hold numbers outside "app" state (present "app" 1 (needs "lib" (at_least 1) ∷ []))
      app_installed refl app_held app_unheld "lib"

update-IsMerged_example :
    IsMerged numbers outside keystore signed.config.repositories
      (record { packages = [] })
      (update numbers outside signed).1.index
update-IsMerged_example = update-IsMerged numbers outside signed updated

-- what every fetch gives is no index
abbrev garbled : Outside numbers
garbled = record outside { index_of = λ contents. err (network "not an index") }

not_updated : (update numbers garbled signed).0 ≡ some (err (network "not an index"))
unfolding update mitos_pkg.Service.State.◌>->◌ mitos_pkg.Service.Commands.Updating.merge_all
    mitos_pkg.Service.State.emit mitos_pkg.Service.Commands.Updating.fetch_repo_index
    mitos_pkg.Service.Commands.Updating.fetch_urls mitos_pkg.Config.urls
    mitos_pkg.Service.Commands.Updating.try_fetch mitos_pkg.Repository.Download.fetch_with_retry
    mitos_pkg.Service.Commands.Updating.served mitos_pkg.Service.Commands.Updating.fetch_sig
    mitos_pkg.Config.signer mitos_pkg.Service.State.give mitos_pkg.Service.Commands.Updating.accept
    mitos_pkg.Service.Commands.Updating.check_index mitos_pkg.Package.Signature.verify_index
    HashMap.get mitos_pkg.Config.index_cache_path mitos_pkg.Config.mirrors mitos_pkg.Config.priority
    mitos_pkg.Config.url mitos_pkg.Error.format mitos_pkg.Fs.create_dir_all mitos_pkg.Fs.done
    mitos_pkg.Fs.make_parent mitos_pkg.Fs.write mitos_pkg.Fs.◌>>>◌
    mitos_pkg.Package.Signature.decode_signature mitos_pkg.Prelude.list_eq string_eq HashMap.entry
    HashMap.insert mitos_pkg.Repository.Cache.save mitos_pkg.Repository.Download.fetch_attempts
    mitos_pkg.Security.Keys.find mitos_pkg.Security.Keys.verify_signature
    mitos_pkg.Service.Commands.Updating.merge mitos_pkg.Service.Commands.Updating.set_index
    mitos_pkg.Service.Commands.Updating.store_index mitos_pkg.Service.State.give_or_panic
    mitos_pkg.Service.State.on_fs
not_updated = refl

not_ok : (update numbers garbled signed).0 ≢ some (ok tt)
not_ok h = absurd (grind (arith, not_updated, h))

update_failed_example : (update numbers garbled signed).1.index ≡ small_index
update_failed_example = update_failed numbers garbled signed not_ok

-- a package whose one file is there
abbrev with_file : InstalledPackage numbers
with_file = record (present "base" 1 []) {
  installed_files = ("etc" ∷ []) ∷ [];
  payload_sha256 = "h";
}

verify_one-IsIntact_example :
    ((verify_one numbers outside [] with_file disk).0 ≡ [])
    ↔ IsIntact numbers outside [] with_file disk.files
verify_one-IsIntact_example =
    verify_one-IsIntact numbers outside [] (λ time call. refl) with_file disk
