-- ===== src/Service/Commands/Installing/Local.antt =====
-- What `install_local` of src/service/lifecycle.rs accepts, and what it leaves.
use mitos_pkg.Prelude.{
  String, string_eq, Bool, true, false, ◌≡◌, ap, ◌∙◌, inl, inr, List, [], ◌∷◌, Option, none, some,
  ok, arith, ◌==◌, if◌then◌else◌, Option-cases, >>=-ok,
}
use mitos_pkg.Prelude.HashMap.{get-insert}
use mitos_pkg.Error.{FilePath, PkgResult}
use mitos_pkg.Semver.{Semver}
use mitos_pkg.Fs.{Bytes}
use mitos_pkg.Package.Arch.{is_compatible}
use mitos_pkg.Package.Archive.{read_manifest}
use mitos_pkg.Package.Manifest.{Manifest}
use mitos_pkg.Package.Signature.{decode_signature}
use mitos_pkg.Security.Keys.{KeyStore, find, verify_signature}
use mitos_pkg.Database.Packages
use mitos_pkg.Database.Packages.{InstalledPackage, InstalledDb}
use mitos_pkg.Database.History.{with_versions}
use mitos_pkg.Install.Transaction.{installed_record}
use mitos_pkg.Install.Transaction.Databases.{install-Installed}
use mitos_pkg.Service.Progress.{verifying, installing}
use mitos_pkg.Service.State.{Outside, State, give, emit, on_fs, transact, record_entry}
use mitos_pkg.Service.Lock.{acquire}
use mitos_pkg.Service.State.Steps.{>->-ok, with_lock-at}
use mitos_pkg.Service.Commands.Fetching.{effective_arch, install_archive}
use mitos_pkg.Service.Commands.Installing.{
  fits, check_local, check_space, install_admitted, local_unlocked, install_local,
}

module _ (sv : Semver) (out : Outside sv) where
  -- A signature of the payload's hash that the named signer's trusted key verifies, if a signer is named.
  pub data IsAttested (manifest : Manifest sv) (keystore : KeyStore) (signature_hex : Option String)
      : Type 0 where
    unsigned : manifest.signer ≡ none → IsAttested manifest keystore signature_hex
    attested :
        (signer hex : String) (key signature : Bytes)
        → manifest.signer ≡ some signer
        → signature_hex ≡ some hex
        → find keystore signer ≡ some key
        → decode_signature out.crypto hex signer ≡ ok signature
        → verify_signature out.crypto.ed25519 key
            (out.crypto.as_bytes manifest.payload_sha256)
            signature
            signer
          ≡ ok tt
        → IsAttested manifest keystore signature_hex

  check_local-IsAttested :
      (manifest : Manifest sv) (keystore : KeyStore) (signature_hex : Option String)
      → check_local sv out manifest keystore signature_hex ≡ ok tt
      → IsAttested manifest keystore signature_hex
  unfolding check_local
  check_local-IsAttested manifest keystore signature_hex h = elim (Option-cases manifest.signer) [
    | inl e ↦ unsigned e
    | inr (who, e) ↦ elim (Option-cases signature_hex) [
      | inl g ↦ absurd (ground arith)
      | inr (hex, g) ↦ elim (Option-cases (find keystore who)) [
        | inl k ↦ absurd (ground arith)
        | inr (key, k) ↦
            let (bytes, d, v) =
              >>=-ok (decode_signature out.crypto hex who)
                (λ b.
                  verify_signature out.crypto.ed25519 key
                    (out.crypto.as_bytes manifest.payload_sha256) b who)
                (ground arith) in
            attested who hex key bytes e g k d v
      ]
    ]
  ]

  fits-ok :
      (manifest : Manifest sv) (s : State sv)
      → fits sv out manifest s ≡ ok tt
      → (Packages.get sv s.packages manifest.name ≡ none)
        × (is_compatible manifest.arch (effective_arch sv out s) ≡ true)
  unfolding fits
  fits-ok manifest s h = elim (Option-cases (Packages.get sv s.packages manifest.name)) [
    | inl e ↦ (e, ground arith)
    | inr (p, e) ↦ absurd (ground arith)
  ]

  -- `s1` lists the package as the archive describes it, and every other package as `s` does.
  abbrev pub Lists : Manifest sv → Bool → Bool → State sv → State sv → Type 0
  Lists manifest explicit held s s1 =
      (written : List FilePath) × ((n : String)
        → Packages.get sv s1.packages n ≡ (
            if n == manifest.name
            then some
                (installed_record sv out.os s.config.install_root manifest written explicit held)
            else Packages.get sv s.packages n))

  get-insert_record :
      (db : InstalledDb sv) (pkg : InstalledPackage sv) (n : String)
      → Packages.get sv (Packages.insert sv db pkg) n
        ≡ (if n == pkg.name then some pkg else Packages.get sv db n)
  unfolding Packages.insert
  get-insert_record db pkg n = get-insert n pkg.name pkg db.packages

  pub install_archive-Lists :
      (archive : FilePath) (manifest : Manifest sv) (explicit held : Bool) (s : State sv)
      → (install_archive sv out archive manifest explicit held s).0 ≡ some (ok tt)
      → Lists manifest explicit held s (install_archive sv out archive manifest explicit held s).1
  unfolding install_archive transact
  install_archive-Lists archive manifest explicit held s h =
      elim (install-Installed sv out.os s.config.install_root archive manifest explicit held
        (record { packages = s.packages; files = s.files; fs = s.fs })) [
          | inl ((e, q), _, _) ↦ absurd (ground arith)
          | inr i ↦ (
            i.written,
            λ n.
                ap (λ db. Packages.get sv db n) i.packages_after ∙ get-insert_record s.packages _ n,
          )
        ]

  install_admitted-Lists :
      (archive : FilePath) (manifest : Manifest sv) (s : State sv)
      (done : List (String × sv.Version))
      → (install_admitted sv out archive manifest false s).0 ≡ some (ok done)
      → (done ≡ (manifest.name, manifest.version) ∷ [])
        × Lists manifest true false s (install_admitted sv out archive manifest false s).1
  unfolding install_admitted emit record_entry give check_space
  install_admitted-Lists archive manifest s done h =
      let (_, _, h1, e1) =
        >->-ok sv (check_space sv out manifest.installed_size_bytes) _ s done h in
      let s1 : State sv = (check_space sv out manifest.installed_size_bytes s).1 in
      let (_, _, h2, e2) =
        >->-ok sv (emit sv (installing manifest.name (sv.show_version manifest.version))) _ s1 done
          h1 in
      let s2 : State sv =
        (emit sv (installing manifest.name (sv.show_version manifest.version)) s1).1 in
      let (_, p, h3, e3) =
        >->-ok sv (install_archive sv out archive manifest true false) _ s2 done h2 in
      let s3 : State sv = (install_archive sv out archive manifest true false s2).1 in
      let (_, _, h4, e4) =
        >->-ok sv
          (record_entry sv out "install-local" manifest.name
            (with_versions none (some (sv.show_version manifest.version))))
          _ s3 done h3 in
      let (written, lists) = install_archive-Lists archive manifest true false s2 p in
      (
        ground (arith, h4),
        (
          written,
          λ n.
              ap
                (λ (x : Option (PkgResult (List (String × sv.Version))) × State sv).
                  Packages.get sv x.1.packages n)
                (e1 ∙ e2 ∙ e3 ∙ e4)
              ∙ lists n,
        ),
      )

  -- An `install_local` that succeeds, and is no dry run, has read the manifest of the archive under the
  -- lock. Its package was not installed, for an architecture that fits, and signed by a trusted key of
  -- its signer if the manifest names one; then the package is listed as the manifest describes it,
  -- explicit and not held, and every other one as before.
  pub install_local-Lists :
      (archive : FilePath) (signature_hex : Option String) (s : State sv)
      (done : List (String × sv.Version))
      → (install_local sv out archive signature_hex false s).0 ≡ some (ok done)
      → (manifest : Manifest sv) × ((read_manifest sv out.os.fails out.os.entries out.manifest_of
            archive
            (acquire out.os.fails s.config.db_dir s.fs).1).0
          ≡ ok manifest)
        × (done ≡ (manifest.name, manifest.version) ∷ [])
        × (Packages.get sv s.packages manifest.name ≡ none)
        × (is_compatible manifest.arch (effective_arch sv out s) ≡ true)
        × IsAttested manifest s.keystore signature_hex
        × Lists manifest true false s (install_local sv out archive signature_hex false s).1
  unfolding install_local local_unlocked on_fs emit give effective_arch
  install_local-Lists archive signature_hex s done h =
      let fs1 = (acquire out.os.fails s.config.db_dir s.fs).1 in
      let (fs2, q, e) =
        with_lock-at sv out (local_unlocked sv out archive signature_hex false) s done h in
      let s0 : State sv = record s { fs = fs1 } in
      let (manifest, read_here, h1, e1) =
        >->-ok sv (on_fs sv (read_manifest sv out.os.fails out.os.entries out.manifest_of archive))
          _ s0 done q in
      let s1 : State sv =
        (on_fs sv (read_manifest sv out.os.fails out.os.entries out.manifest_of archive) s0).1 in
      let (_, f, h2, e2) =
        >->-ok sv (λ (t : State sv). give sv (fits sv out manifest t) t) _ s1 done h1 in
      let (_, _, h3, e3) =
        >->-ok sv (emit sv (verifying manifest.name (sv.show_version manifest.version))) _ s1 done
          h2 in
      let s2 : State sv =
        (emit sv (verifying manifest.name (sv.show_version manifest.version)) s1).1 in
      let (_, c, h4, e4) =
        >->-ok sv
          (λ (t : State sv). give sv (check_local sv out manifest t.keystore signature_hex) t) _ s2
          done h3 in
      let (just, (written, lists)) = install_admitted-Lists archive manifest s2 done h4 in
      let (absent, compatible) = fits-ok manifest s1 (ground arith) in
      (
        manifest,
        ground (arith, read_here),
        just,
        absent,
        compatible,
        check_local-IsAttested manifest s.keystore signature_hex (ground arith),
        (
          written,
          λ n.
              ap (λ (t : State sv). Packages.get sv t.packages n) e
              ∙ ap
                  (λ (x : Option (PkgResult (List (String × sv.Version))) × State sv).
                    Packages.get sv x.1.packages n)
                  (e1 ∙ e2 ∙ e3 ∙ e4)
              ∙ lists n,
        ),
      )
