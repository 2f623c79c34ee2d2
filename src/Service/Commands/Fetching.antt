-- ===== src/Service/Commands/Fetching.antt =====
-- `effective_arch`, `fetch_and_verify` and `install_one` of src/service/lifecycle.rs.
use mitos_pkg.Prelude.{String, Bool, false, none, some, ok, if◌then◌else◌}
use mitos_pkg.Error.{FilePath}
use mitos_pkg.Semver.{Semver}
use mitos_pkg.Fs.{exists}
use mitos_pkg.Config.{download_cache_path}
use mitos_pkg.Package.Archive.{read_manifest}
use mitos_pkg.Package.Manifest.{Manifest, package_filename}
use mitos_pkg.Package.Signature.{verify_package}
use mitos_pkg.Repository.Metadata.{PackageMetadata}
use mitos_pkg.Repository.Download.{download_verified}
use mitos_pkg.Install.Transaction
use mitos_pkg.Service.Progress.{fetching, verifying, installing}
use mitos_pkg.Service.State.{Outside, State, Command, ◌>->◌, give, on_fs, emit, transact}

module _ (sv : Semver) (out : Outside sv) where
  unfoldable pub effective_arch : State sv → String
  effective_arch s = elim s.config.target_arch [ none ↦ out.host_arch | some a ↦ a ]

  unfoldable pub download : PackageMetadata sv → FilePath → Command {0} sv Unit
  download meta dest s =
      let (r, n) =
        download_verified out.fetch out.os.fails out.crypto.hash_bytes out.crypto.as_bytes meta.url
          meta.sha256 meta.name dest s.fetches in
      let s1 = record s { fetches = n } in elim r [ none ↦ (none, s1) | some m ↦ on_fs sv m s1 ]

  -- `if !dest.exists() { ... }`
  unfoldable pub fetch_missing : PackageMetadata sv → FilePath → Command {0} sv Unit
  fetch_missing meta dest s =
      if exists dest s.fs
      then give sv (ok tt) s
      else ◌>->◌ sv (emit sv (fetching meta.name (sv.show_version meta.version)))
          (λ _. download meta dest) s

  unfoldable pub fetch_and_verify : PackageMetadata sv → Command sv (FilePath × Manifest sv)
  fetch_and_verify meta s =
      let dest = download_cache_path s.config (package_filename sv meta.name meta.version) in
      (◌>->◌ sv (fetch_missing meta dest) λ _.
          ◌>->◌ sv (emit sv (verifying meta.name (sv.show_version meta.version))) λ _.
            ◌>->◌ sv (on_fs sv (read_manifest sv out.os.fails out.os.entries out.manifest_of dest))
              λ manifest.
                ◌>->◌ sv
                  (on_fs sv (
                    verify_package out.crypto sv out.os.fails dest meta.sha256 manifest s.keystore
                      meta.signature))
                  λ _. give sv (ok (dest, manifest)))
        s

  unfoldable pub install_archive : FilePath → Manifest sv → Bool → Bool → Command {0} sv Unit
  install_archive archive manifest explicit held s =
      transact sv
        (Transaction.install sv out.os s.config.install_root archive manifest explicit held) s

  unfoldable pub install_one : PackageMetadata sv → Bool → Command {0} sv Unit
  install_one meta explicit = ◌>->◌ sv (fetch_and_verify meta) λ got.
      ◌>->◌ sv (emit sv (installing meta.name (sv.show_version meta.version)))
        λ _. install_archive got.0 got.1 explicit false

  unfoldable pub remove_one : String → Command {0} sv Unit
  remove_one name s = transact sv (Transaction.remove sv out.os s.config.install_root name) s
