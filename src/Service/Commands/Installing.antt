-- ===== src/Service/Commands/Installing.antt =====
-- `install_with_progress` and `install_local_with_progress` of src/service/lifecycle.rs.
pub mod Local
use mitos_pkg.Prelude.{
  ℕ, ◌+◌, ◌%◌, ◌^◌, String, string_eq, Bool, true, false, not, ◌&&◌, List, [], ◌∷◌, ◌++◌, Option,
  none, some, ok, err, ok_or, ◌>>=◌, ◌==◌, if◌then◌else◌,
}
use mitos_pkg.Error.{
  FilePath, PkgResult, PkgError, format, already_installed, arch_mismatch, invalid_signature,
  untrusted_key,
}
use mitos_pkg.Semver.{Semver}
use mitos_pkg.Fs.{Fs, exists}
use mitos_pkg.Fs.Paths.{extension}
use mitos_pkg.Dependency.Version.{parse_pinned, split_once_at}
use mitos_pkg.Dependency.Resolver.Install.{resolve_install_req}
use mitos_pkg.Package.Arch.{is_compatible}
use mitos_pkg.Package.Archive.{read_manifest}
use mitos_pkg.Package.Manifest.{Manifest}
use mitos_pkg.Package.Signature.{decode_signature}
use mitos_pkg.Security.Keys.{KeyStore, find, verify_signature}
use mitos_pkg.Repository.Metadata.{PackageMetadata}
use mitos_pkg.Database.Packages
use mitos_pkg.Database.Packages.{InstalledPackage}
use mitos_pkg.Database.History.{with_versions}
use mitos_pkg.Install.Diskspace.{check}
use mitos_pkg.Service.Progress.{resolving, verifying, installing}
use mitos_pkg.Service.State.{
  Outside, State, Command, ◌>->◌, give, give_or_panic, on_fs, emit, with_lock, record_entry,
}
use mitos_pkg.Service.Commands.Fetching.{effective_arch, install_one, install_archive, remove_one}

-- `path.extension() == Some("mpkg") && path.is_file()`
unfoldable pub is_package_file : FilePath → Fs → Bool
is_package_file path fs =
    elim (extension path) [ none ↦ false | some e ↦ e == "mpkg" ] && exists path fs

module _ (sv : Semver) (out : Outside sv) where
  -- the signature step of `install_local`
  unfoldable pub check_local : Manifest sv → KeyStore → Option String → PkgResult {0} Unit
  check_local manifest keystore signature_hex = elim manifest.signer [
    | none ↦ ok tt
    | some signer ↦
        ok_or signature_hex (
          invalid_signature (
            format (
              "'" ∷ manifest.name ∷ "' is signed by '" ∷ signer
              ∷ "' — pass its signature to verify, or install from a configured repository instead"
              ∷ [])))
        >>= λ sig_hex. ok_or (find keystore signer) (untrusted_key signer) >>= λ public_key.
            decode_signature out.crypto sig_hex signer >>= λ sig_bytes.
            verify_signature out.crypto.ed25519 public_key
              (out.crypto.as_bytes manifest.payload_sha256) sig_bytes signer
  ]

  -- the first checks of `install_local`
  unfoldable pub fits : Manifest sv → State sv → PkgResult {0} Unit
  fits manifest s = elim (Packages.get sv s.packages manifest.name) [
    | some existing ↦ err (already_installed manifest.name (sv.show_version existing.version))
    | none ↦
        if not (is_compatible manifest.arch (effective_arch sv out s))
        then err (arch_mismatch manifest.name manifest.arch (effective_arch sv out s))
        else ok tt
  ]

  abbrev pub Installed : Type 0
  Installed = List (String × sv.Version)

  unfoldable pub check_space : ℕ → Command {0} sv Unit
  check_space needed s = give sv (check (out.available_bytes s.fs) s.config.install_root needed) s

  -- `install_local` behind the checks
  unfoldable pub install_admitted : FilePath → Manifest sv → Bool → Command sv Installed
  install_admitted archive manifest dry_run =
      let done = give sv (ok ((manifest.name, manifest.version) ∷ [])) in
      if dry_run
      then done
      else ◌>->◌ sv (check_space manifest.installed_size_bytes) λ _.
        ◌>->◌ sv (emit sv (installing manifest.name (sv.show_version manifest.version))) λ _.
          ◌>->◌ sv (install_archive sv out archive manifest true false) λ _.
            ◌>->◌ sv
              (record_entry sv out "install-local" manifest.name
                (with_versions none (some (sv.show_version manifest.version))))
              λ _. done

  unfoldable pub local_unlocked : FilePath → Option String → Bool → Command sv Installed
  local_unlocked archive signature_hex dry_run =
      ◌>->◌ sv (on_fs sv (read_manifest sv out.os.fails out.os.entries out.manifest_of archive))
        λ manifest.
          ◌>->◌ sv (λ s. give sv (fits manifest s) s)
            λ _.
              ◌>->◌ sv (emit sv (verifying manifest.name (sv.show_version manifest.version))) λ _.
                ◌>->◌ sv (λ s. give sv (check_local manifest s.keystore signature_hex) s)
                  λ _. install_admitted archive manifest dry_run

  unfoldable pub install_local : FilePath → Option String → Bool → Command sv Installed
  install_local archive signature_hex dry_run =
      with_lock sv out (local_unlocked archive signature_hex dry_run)

  abbrev pub names_of : List (PackageMetadata sv) → Installed
  names_of [] = []
  names_of (m ∷ order) = (m.name, m.version) ∷ names_of order

  -- the sum of `u64`s in a release build
  abbrev pub needed_bytes : List (PackageMetadata sv) → ℕ
  needed_bytes [] = 0
  needed_bytes (m ∷ order) = (m.installed_size_bytes + needed_bytes order) % 2 ^ 64

  -- `remove_one` of each name from the last to the first; failures are only reported
  unfoldable pub roll_back : List String → State sv → State sv
  roll_back [] s = s
  roll_back (already ∷ names) s = (remove_one sv out already (roll_back names s)).1

  unfoldable pub or_roll_back : List String → Command {0} sv Unit → Command {0} sv Unit
  or_roll_back done m s =
      let (r, s1) = m s in
      elim r [
        | none ↦ (none, s1)
        | some (err e) ↦ (some (err e), roll_back done s1)
        | some (ok _) ↦ (some (ok tt), s1)
      ]

  -- The loop over the plan; `done` is `installed_this_call`.
  unfoldable pub install_all :
      String → List (PackageMetadata sv) → List String → Command {0} sv Unit
  install_all name [] done = give sv (ok tt)
  install_all name (meta ∷ order) done =
      ◌>->◌ sv (or_roll_back done (install_one sv out meta (meta.name == name)))
        λ _. install_all name order (done ++ (meta.name ∷ []))

  unfoldable pub record_all : List (PackageMetadata sv) → Command {0} sv Unit
  record_all [] = give sv (ok tt)
  record_all (meta ∷ order) =
      ◌>->◌ sv
        (record_entry sv out "install" meta.name
          (with_versions none (some (sv.show_version meta.version))))
        λ _. record_all order

  unfoldable pub install_plan : String → List (PackageMetadata sv) → Bool → Command sv Installed
  install_plan name order dry_run =
      if dry_run
      then give sv (ok (names_of order))
      else ◌>->◌ sv (check_space (needed_bytes order)) λ _.
        ◌>->◌ sv (install_all name order [])
          λ _. ◌>->◌ sv (record_all order) λ _. give sv (ok (names_of order))

  unfoldable pub resolve_new : String → String × sv.VersionReq → Bool → Command sv Installed
  resolve_new spec pinned dry_run = ◌>->◌ sv (emit sv (resolving spec)) λ _. λ s.
      (◌>->◌ sv
          (give_or_panic sv
            (resolve_install_req sv s.index s.packages (effective_arch sv out s) pinned.0 pinned.1))
          λ plan. install_plan pinned.0 plan.order dry_run)
        s

  -- by what is installed under the name
  abbrev pub if_absent :
      String → Command sv Installed → Option (InstalledPackage sv) → Command sv Installed
  if_absent name m (some existing) =
      give sv (err (already_installed name (sv.show_version existing.version)))
  if_absent name m none = m

  unfoldable pub resolve_and_install : String → Bool → Command sv Installed
  resolve_and_install spec dry_run = ◌>->◌ sv (give_or_panic sv (parse_pinned sv spec)) λ pinned.
      λ s.
        if_absent pinned.0 (resolve_new spec pinned dry_run) (Packages.get sv s.packages pinned.0) s

  unfoldable pub install : String → Option String → Bool → Command sv Installed
  install spec signature_hex dry_run s =
      if is_package_file (out.path_of spec) s.fs
      then install_local (out.path_of spec) signature_hex dry_run s
      else with_lock sv out (resolve_and_install spec dry_run) s
