-- ===== src/Examples/Commanding.antt =====
-- The commands of the service, on a small system.
use mitos_pkg.Prelude.{
  ◌≡◌, ◌≢◌, ◌≤◌, ◌↔◌, ◌||◌, refl, ℕ, String, string_eq, Bool, true, false, List, [], ◌∷◌, Option,
  none, some, ok, err, ◌==◌, if◌then◌else◌, Memᴰ, arith,
}
use mitos_pkg.Prelude.HashMap
use mitos_pkg.Error.{FilePath, network}
use mitos_pkg.Fs.{FsCall}
use mitos_pkg.Config.{Config, RepoSource, RepoSource.detailed, default_config}
use mitos_pkg.Database.Packages
use mitos_pkg.Database.Packages.{InstalledPackage}
use mitos_pkg.Package.Arch.{is_compatible}
use mitos_pkg.Package.Manifest.{Manifest}
use mitos_pkg.Dependency.Resolver.Dependents.Broken.{Breaks}
use mitos_pkg.Service.Lifecycle.{Upgrade, upgrade_plan}
use mitos_pkg.Service.Lock.{acquire}
use mitos_pkg.Package.Archive.{read_manifest}
use mitos_pkg.Service.State.{Outside, State}
use mitos_pkg.Service.State.Same.{Same}
use mitos_pkg.Service.Commands.Fetching.{effective_arch}
use mitos_pkg.Service.Commands.Installing.{install, install_local}
use mitos_pkg.Service.Commands.Installing.Local.{IsAttested, Lists, install_local-Lists}
use mitos_pkg.Service.Commands.Removing.{remove, autoremove}
use mitos_pkg.Service.Commands.Removing.Gone.{remove-gone}
use mitos_pkg.Service.Commands.Removing.Orphans.{orphan_of, autoremove_total, autoremove-settled}
use mitos_pkg.Service.Commands.Upgrading.{upgrade}
use mitos_pkg.Service.Commands.Verifying.{verify, history}
use mitos_pkg.Service.Commands.DryRuns.{dry_run-Same}
use mitos_pkg.Examples.{numbers, small_index, present}
use mitos_pkg.Examples.Installing.{
  file_entry, quiet_os, tool, owned, disk, system, system_unique, crypto, keystore,
}

-- every archive holds the manifest of `tool`, every fetch gives the index
abbrev pub outside : Outside numbers
outside = record {
  os = record quiet_os {
    entries = λ contents. ok (
        ok (file_entry ("manifest.json" ∷ []) [])
        ∷ ok (file_entry ("payload" ∷ "bin" ∷ []) contents)
        ∷ []);
  };
  crypto = crypto;
  fetch = λ n u. ok (5 ∷ []);
  entry_json = record { to_line = λ e. none; of_line = λ text. none };
  manifest_of = λ text. ok tool;
  index_of = λ contents. ok small_index;
  index_text = λ index. ok [];
  signature_text = λ contents. "00";
  path_of = λ text. text ∷ [];
  to_string = λ e. "error";
  available_bytes = λ fs path. ok 1000;
  hex_decode = λ text. none;
  entry_len = λ fs path. ok 1;
  host_arch = "x86";
  now = λ fs. fs.time;
}

abbrev pub state : State numbers
state = record {
  config = default_config;
  packages = system;
  files = owned;
  index = small_index;
  keystore = keystore;
  fs = disk;
  fetches = 0;
  events = [];
}

-- with one package, which nothing needs and nobody asked for
abbrev left_over : State numbers
left_over = record state {
  packages = record {
    packages = ("lib", record (present "lib" 1 []) { explicit = false }) ∷ [];
    path = [];
  };
}

app_gone : (remove numbers outside 3 "app" false false false state).0 ≡ some (ok ("app" ∷ []))
unfolding remove mitos_pkg.Service.State.with_lock mitos_pkg.Service.State.◌>->◌
    mitos_pkg.Service.State.on_fs mitos_pkg.Service.Lock.acquire mitos_pkg.Fs.◌>>>◌ HashMap.get
    mitos_pkg.Prelude.list_eq string_eq mitos_pkg.Service.Commands.Removing.remove_unlocked
    mitos_pkg.Service.State.give_or_panic mitos_pkg.Service.Lifecycle.removal_plan
    HashMap.contains_key mitos_pkg.Service.Commands.Removing.remove_all
    mitos_pkg.Service.Commands.Removing.remove_logged mitos_pkg.Service.State.emit
    mitos_pkg.Service.Commands.Fetching.remove_one mitos_pkg.Config.history_path
    mitos_pkg.Database.Files.release mitos_pkg.Database.History.Clock.civil_before
    mitos_pkg.Database.History.Clock.civil_from_days mitos_pkg.Database.History.Clock.civil_of
    mitos_pkg.Database.History.Clock.civil_of_era mitos_pkg.Database.History.Clock.civil_since
    mitos_pkg.Database.History.Clock.now_rfc3339 mitos_pkg.Database.History.Clock.padded
    mitos_pkg.Database.History.Clock.padded_ℤ mitos_pkg.Database.History.append
    mitos_pkg.Database.History.new_entry Packages.is_installed Packages.remove
    mitos_pkg.Dependency.Resolver.Dependents.dependents_in
    mitos_pkg.Dependency.Resolver.Dependents.dependents_of
    mitos_pkg.Dependency.Resolver.Dependents.only_satisfied_by mitos_pkg.Error.display
    mitos_pkg.Error.format mitos_pkg.Fs.append_to mitos_pkg.Fs.create_dir_all
    mitos_pkg.Fs.create_new mitos_pkg.Fs.done mitos_pkg.Fs.exists mitos_pkg.Fs.make_parent
    mitos_pkg.Fs.move_into mitos_pkg.Fs.remove_dir_all mitos_pkg.Fs.remove_file mitos_pkg.Fs.rename
    mitos_pkg.Fs.write mitos_pkg.Install.Hooks.failure_reason mitos_pkg.Install.Hooks.is_best_effort
    mitos_pkg.Install.Hooks.label mitos_pkg.Install.Hooks.run
    mitos_pkg.Install.Rollback.undo_removal mitos_pkg.Install.Store.save_files
    mitos_pkg.Install.Store.save_packages mitos_pkg.Install.Store.save_text
    mitos_pkg.Install.Transaction.backup_and_remove mitos_pkg.Install.Transaction.commit
    mitos_pkg.Install.Transaction.remove mitos_pkg.Install.Transaction.run_post_remove
    mitos_pkg.Install.Transaction.run_pre_remove mitos_pkg.Install.Transaction.take_away
    HashMap.insert HashMap.remove effective_arch mitos_pkg.Service.Lifecycle.check_essential
    mitos_pkg.Service.Lifecycle.plan_cascade mitos_pkg.Service.Lifecycle.plan_dependents
    mitos_pkg.Service.Lock.lock_error mitos_pkg.Service.Lock.open_lock mitos_pkg.Service.Lock.unlock
    mitos_pkg.Service.State.give mitos_pkg.Service.State.record_entry
    mitos_pkg.Service.State.transact mitos_pkg.Install.Transaction.backup_dir
    mitos_pkg.Fs.Paths.join_text
app_gone = refl

lib_gone : (autoremove numbers outside left_over).0 ≡ some (ok ("lib" ∷ []))
unfolding autoremove mitos_pkg.Service.State.with_lock mitos_pkg.Service.State.◌>->◌
    mitos_pkg.Service.State.on_fs mitos_pkg.Service.Lock.acquire mitos_pkg.Fs.◌>>>◌ HashMap.get
    mitos_pkg.Prelude.list_eq string_eq mitos_pkg.Service.Commands.Removing.remove_orphans
    mitos_pkg.Service.Lifecycle.find_orphan mitos_pkg.Service.State.give
    mitos_pkg.Service.Commands.Removing.remove_logged mitos_pkg.Service.State.emit
    mitos_pkg.Service.Commands.Fetching.remove_one mitos_pkg.Service.State.transact
    mitos_pkg.Install.Transaction.remove mitos_pkg.Fs.done HashMap.insert HashMap.remove
    mitos_pkg.Service.State.record_entry mitos_pkg.Install.Transaction.backup_dir
    mitos_pkg.Fs.Paths.join_text
lib_gone = refl

tool_installed :
    (install_local numbers outside ("tool.mpkg" ∷ []) (some "00") false state).0
    ≡ some (ok (("tool", 1) ∷ []))
unfolding install_local mitos_pkg.Service.State.with_lock mitos_pkg.Service.State.◌>->◌
    mitos_pkg.Service.State.on_fs mitos_pkg.Service.Lock.acquire mitos_pkg.Fs.◌>>>◌ HashMap.get
    mitos_pkg.Prelude.list_eq string_eq mitos_pkg.Service.Commands.Installing.local_unlocked
    mitos_pkg.Package.Archive.read_manifest HashMap.insert mitos_pkg.Fs.done
    mitos_pkg.Prelude.Text.from_utf8 mitos_pkg.Service.State.give
    mitos_pkg.Service.Commands.Installing.fits is_compatible native.Mathlib.Decide.ℕ_discrete
    mitos_pkg.Service.State.emit mitos_pkg.Service.Commands.Installing.check_local
    mitos_pkg.Security.Keys.find mitos_pkg.Package.Signature.decode_signature
    mitos_pkg.Security.Keys.verify_signature mitos_pkg.Service.Commands.Installing.install_admitted
    mitos_pkg.Service.Commands.Installing.check_space mitos_pkg.Install.Diskspace.check
    mitos_pkg.Service.Commands.Fetching.install_archive mitos_pkg.Service.State.transact
    mitos_pkg.Install.Transaction.install mitos_pkg.Fs.ignoring HashMap.remove
    mitos_pkg.Service.State.record_entry mitos_pkg.Install.Transaction.staging_dir
    mitos_pkg.Fs.Paths.join_text
tool_installed = refl

remove-gone_example :
    (p : InstalledPackage numbers) × (Packages.get numbers system "app" ≡ some p)
    × (◌≡◌ {A = List String} ("app" ∷ []) ("app" ∷ []))
    × (false ≡ false → p.essential ≡ false)
    × ((n : String) → ¬ (Breaks numbers system "app" n))
    × ((n : String)
        → Packages.get numbers (remove numbers outside 3 "app" false false false state).1.packages n
          ≡ (if n == "app" then none else Packages.get numbers system n))
remove-gone_example =
    remove-gone numbers outside 3 "app" false state ("app" ∷ []) system_unique app_gone

autoremove_total_example : (autoremove numbers outside left_over).0 ≢ none
autoremove_total_example = autoremove_total numbers outside left_over

left_over_unique : HashMap.IsMap left_over.packages.packages
unfolding HashMap.get string_eq
left_over_unique = (refl, tt)

autoremove-settled_example :
    (orphan_of numbers outside (autoremove numbers outside left_over).1 ≡ none)
    × ((n : String) (p : InstalledPackage numbers)
        → Packages.get numbers left_over.packages n ≡ some p
        → (p.explicit || p.essential) ≡ true
        → Packages.get numbers (autoremove numbers outside left_over).1.packages n ≡ some p)
autoremove-settled_example =
    autoremove-settled numbers outside left_over ("lib" ∷ []) left_over_unique lib_gone

install_local-Lists_example :
    (manifest : Manifest numbers) × ((read_manifest numbers outside.os.fails outside.os.entries
        outside.manifest_of
        ("tool.mpkg" ∷ [])
        (acquire outside.os.fails default_config.db_dir disk).1).0
      ≡ ok manifest)
    × (◌≡◌ {A = List (String × ℕ)} (("tool", 1) ∷ []) ((manifest.name, manifest.version) ∷ []))
    × (Packages.get numbers system manifest.name ≡ none)
    × (is_compatible manifest.arch (effective_arch numbers outside state) ≡ true)
    × IsAttested numbers outside manifest keystore (some "00")
    × Lists numbers outside manifest true false state
        (install_local numbers outside ("tool.mpkg" ∷ []) (some "00") false state).1
install_local-Lists_example =
    install_local-Lists numbers outside ("tool.mpkg" ∷ []) (some "00") state (("tool", 1) ∷ [])
      tool_installed

dry_run-Same_example :
    Same state (install numbers outside "app" (some "00") true state).1
    × Same state (install_local numbers outside ("tool.mpkg" ∷ []) (some "00") true state).1
    × Same state (remove numbers outside 3 "app" false false true state).1
    × Same state (upgrade numbers outside none false true state).1
    × Same state (verify numbers outside none state).1
    × Same state (history numbers outside 5 state).1
dry_run-Same_example =
    dry_run-Same numbers outside 3 "app" none (some "00") ("tool.mpkg" ∷ []) false false 5 state
