-- ===== src/Install/Hooks.antt =====
-- src/install/hooks.rs. Running a child process (`Command::status`) is a parameter: it gets the
-- command and changes the file system.
use mitos_pkg.Prelude.{
  String, Bool, true, false, if◌then◌else◌, [], ◌∷◌, Option, none, some, ok, err,
}
use mitos_pkg.Error.{FilePath, format, display, hook_failed}
use mitos_pkg.Fs.{Fs, Io}

pub data HookPoint : Type 0 where
  pre_install post_install pre_remove post_remove : HookPoint

unfoldable pub label : HookPoint → String
label pre_install = "pre_install"
label post_install = "post_install"
label pre_remove = "pre_remove"
label post_remove = "post_remove"

unfoldable pub is_best_effort : HookPoint → Bool
is_best_effort post_remove = true
is_best_effort _ = false

pub record Command : Type 0 where
  pub script_path : FilePath
  pub root : FilePath
  pub name : String
  pub version : String
  pub hook : String

-- What `Command::status` returns: success, an exit code if there is one, or why it did not start.
pub data Status : Type 0 where
  success : Status
  exited : Option String → Status
  not_started : String → Status

-- The reason of a failure, none on success.
unfoldable pub failure_reason : FilePath → Status → Option String
failure_reason script success = none
failure_reason script (exited (some c)) = some (format (display script ∷ " exited with " ∷ c ∷ []))
failure_reason script (exited none) =
    some (format (display script ∷ " exited with no exit code (terminated by signal)" ∷ []))
failure_reason script (not_started e) =
    some (format ("failed to run " ∷ display script ∷ ": " ∷ e ∷ []))

module _ (status : Command → Fs → Status × Fs) where
  unfoldable pub run : HookPoint → FilePath → FilePath → String → String → Io {0} Unit
  unfolding label is_best_effort failure_reason
  run point script_path install_root pkg_name pkg_version fs =
      let (outcome, fs1) =
        status
          (record {
            script_path = script_path;
            root = install_root;
            name = pkg_name;
            version = pkg_version;
            hook = label point;
          })
          fs in
      elim (failure_reason script_path outcome) [
        | none ↦ (ok tt, fs1)
        | some reason ↦ (
          if is_best_effort point then ok tt else err (hook_failed pkg_name (label point) reason),
          fs1,
        )
      ]
