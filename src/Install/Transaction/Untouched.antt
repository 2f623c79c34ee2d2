-- ===== src/Install/Transaction/Untouched.antt =====
-- What `Transaction::install` of src/install/transaction.rs does to the files under the install
-- root, on success and on failure.
use mitos_pkg.Prelude.{
  Result-cases, String, string_eq, list_eq, true, false, ◌≡◌, refl, ◌∙◌, List, [], ◌∷◌, ◌++◌,
  Option, none, some, ok, err, ◌==◌, eq_of_==, ==_refl, Bool-cases, inl, inr, arith, contains,
  contains-append,
}
use mitos_pkg.Prelude.HashMap
use mitos_pkg.Error.{FilePath, PkgResult, PkgError}
use mitos_pkg.Semver.{Semver}
use mitos_pkg.Fs.{
  ignoring, on_error, Fs, Io, ◌>>>◌, done, ignore, starts_with, remove_dir_all, remove_file,
}
use mitos_pkg.Fs.Paths.{join, join_text, join_plain}
use mitos_pkg.Fs.Kept.{
  remove_dir_all_shrinks, ignoring-Keeps, on_error-Keeps, Keeps, Keeps->>>, Keeps-stopped,
  done-Keeps, remove_dir_all-Keeps, remove_file-Keeps, read-Keeps, move_into-Keeps,
}
use mitos_pkg.Package.Manifest.{Manifest}
use mitos_pkg.Security.Checksum.{hash_files, hash_file, hash_entries, aggregate_hash}
use mitos_pkg.Database.Files.{FileDb, owner_of, check_no_conflicts}
use mitos_pkg.Database.Files.Owners.{check_no_conflicts_sound}
use mitos_pkg.Install.Hooks.{post_install, pre_install, Command, run, HookPoint, label}
use mitos_pkg.Install.Rollback.{undo_install}
use mitos_pkg.Install.Extractor.{extract_into}
use mitos_pkg.Install.Transaction.{
  after_check, Os, activate, check_payload, run_pre_install, run_post_install, settle, place,
  staging_dir, or_discard,
}
use mitos_pkg.Install.Transaction.Confined.{
  AllPlain, IsSafe, plain_of, apart_of_join, extract_into_confined,
}

module _ (sv : Semver) (os : Os sv) (install_root : FilePath) (p : FilePath) where
  -- A maintainer script leaves the file at `p` alone.
  abbrev pub Spares : Type 0
  Spares = (c : Command) (fs : Fs) → HashMap.get p (os.status c fs).1.files ≡ HashMap.get p fs.files

  hash_entries-Keeps :
      (root : FilePath) (paths : List FilePath)
      → Keeps p (hash_entries os.fails os.hash_bytes os.as_bytes root paths)
  unfolding hash_entries hash_file
  hash_entries-Keeps root [] = done-Keeps p (ok [])
  hash_entries-Keeps root (rel ∷ paths) =
      Keeps->>>
        (Keeps->>> (read-Keeps os.fails p (join root rel))
          (λ contents. done-Keeps p (ok (os.hash_bytes contents))))
        (λ hash.
          Keeps->>> (hash_entries-Keeps root paths)
            (λ entries. done-Keeps p (ok ((rel, hash) ∷ entries))))

  pub check_payload-Keeps :
      (staging : FilePath) (manifest : Manifest sv) (written : List FilePath)
      → Keeps p (check_payload sv os install_root staging manifest written)
  unfolding check_payload hash_files
  check_payload-Keeps staging manifest written =
      Keeps->>>
        (Keeps->>> (hash_entries-Keeps staging written) (λ entries.
          done-Keeps p (ok (aggregate_hash os.fails os.hash_bytes os.as_bytes entries))))
        (λ actual. done-Keeps p _)

  run-Keeps :
      Spares
      → (point : HookPoint) (script root : FilePath) (name version : String)
      → Keeps p (run os.status point script root name version)
  unfolding run
  run-Keeps spares point script root name version = record {
    kept = λ fs. ground (
      arith,
      spares
          (record {
            script_path = script;
            root = root;
            name = name;
            version = version;
            hook = label point;
          })
          fs,
    );
  }

  undo_install-Keeps :
      (written : List FilePath) (fs : Fs)
      → ((rel : FilePath) → contains written rel ≡ true → (p == (join install_root rel)) ≡ false)
      → HashMap.get p (undo_install os.fails install_root written fs).files ≡ HashMap.get p fs.files
  unfolding undo_install
  undo_install-Keeps [] fs h = refl
  undo_install-Keeps (rel ∷ written) fs h =
      undo_install-Keeps written (ignore (remove_file os.fails (join install_root rel)) fs)
        (λ r m. h r (ground arith))
      ∙ (remove_file-Keeps os.fails p (join install_root rel)
            (h rel (ground (arith, ==_refl rel)))).kept
          fs

  -- `p` is none of the files to be written.
  abbrev Apart : List FilePath → Type 0
  Apart written =
      (rel : FilePath) → contains written rel ≡ true → (p == (join install_root rel)) ≡ false

  pub or_discard-Keeps {ℓ} :
      {A : Type ℓ} {m : Io A} (dir : FilePath)
      → starts_with p dir ≡ false
      → Keeps p m
      → Keeps p (or_discard sv os install_root dir m)
  unfolding or_discard
  or_discard-Keeps dir h hm =
      on_error-Keeps (ignore (remove_dir_all os.fails dir))
        (λ fs. (remove_dir_all-Keeps os.fails p dir h).kept fs) hm

  or_discard_failed :
      (e : PkgError) (dir : FilePath) (fs : Fs)
      → (or_discard sv os install_root dir (done {A = Unit {0}} (err e)) fs).0 ≡ err e
  unfolding or_discard on_error done
  or_discard_failed e dir fs = refl

  moved-Apart :
      (rel : FilePath) (moved : List FilePath)
      → (p == (join install_root rel)) ≡ false
      → Apart moved
      → Apart (moved ++ (rel ∷ []))
  moved-Apart rel moved here before r m = elim (Bool-cases (r == rel)) [
    | inl e ↦ rw (eq_of_== r rel e) here
    | inr e ↦ before r (ground (arith, contains-append moved (rel ∷ []) r))
  ]

  activate-Keeps :
      (staging : FilePath) (written moved : List FilePath)
      → starts_with p staging ≡ false
      → AllPlain written
      → Apart written
      → Apart moved
      → Keeps p (activate sv os install_root staging written moved)
  unfolding activate
  activate-Keeps staging [] moved h plain hw hm = done-Keeps p (ok tt)
  activate-Keeps staging (rel ∷ written) moved h plain hw hm =
      let here = hw rel (ground (arith, ==_refl rel)) in
      Keeps->>>
        (on_error-Keeps (undo_install os.fails install_root moved)
          (λ fs. undo_install-Keeps moved fs hm)
          (move_into-Keeps os.fails p (join staging rel) (join install_root rel)
            (apart_of_join staging rel p plain.0 h) here))
        (λ _.
          activate-Keeps staging written (moved ++ (rel ∷ [])) h plain.1
            (λ r m. hw r (ground arith)) (moved-Apart rel moved here hm))

  pub run_pre_install-Keeps :
      (staging : FilePath) (manifest : Manifest sv)
      → Spares
      → Keeps p (run_pre_install sv os install_root staging manifest)
  unfolding run_pre_install
  run_pre_install-Keeps staging manifest spares = go manifest.hooks.pre_install
    where
      go :
          (o : Option String)
          → Keeps {0} {A = Unit} p (elim o [
            | none ↦ done (ok tt)
            | some script ↦
                run os.status pre_install
                  (join_text staging script)
                  install_root
                  manifest.name
                  (sv.show_version manifest.version)
          ])
      go none = done-Keeps p (ok tt)
      go (some script) = run-Keeps spares pre_install _ _ _ _

  pub run_post_install-Keeps :
      (manifest : Manifest sv) (written : List FilePath)
      → Spares
      → Apart written
      → Keeps p (run_post_install sv os install_root manifest written)
  unfolding run_post_install
  run_post_install-Keeps manifest written spares hw = go manifest.hooks.post_install
    where
      go :
          (o : Option String)
          → Keeps {0} {A = Unit} p (elim o [
            | none ↦ done (ok tt)
            | some script ↦ on_error (undo_install os.fails install_root written) (
                run os.status post_install
                  (join_text install_root script)
                  install_root
                  manifest.name
                  (sv.show_version manifest.version))
          ])
      go none = done-Keeps p (ok tt)
      go (some script) =
          on_error-Keeps (undo_install os.fails install_root written)
            (λ fs. undo_install-Keeps written fs hw) (run-Keeps spares post_install _ _ _ _)

  -- What `install` does after the extraction leaves `p` alone, if the conflict check passes only
  -- when `p` is none of the files.
  pub settle-Keeps :
      (files : FileDb) (manifest : Manifest sv) (written : List FilePath)
      → Spares
      → starts_with p (staging_dir sv os install_root manifest.name) ≡ false
      → AllPlain written
      → (check_no_conflicts files written manifest.name ≡ ok tt → Apart written)
      → Keeps p (settle sv os install_root files manifest written)
  unfolding settle after_check or_discard
  settle-Keeps files manifest written spares h plain apart =
      Keeps->>>
        (or_discard-Keeps (staging_dir sv os install_root manifest.name) h
          (check_payload-Keeps _ manifest written))
        (λ _. checked (check_no_conflicts files written manifest.name) apart)
    where
      dir : FilePath
      dir = staging_dir sv os install_root manifest.name

      checked :
          (r : PkgResult {0} Unit)
          → (r ≡ ok tt → Apart written)
          → Keeps p (after_check sv os install_root manifest written r)
      checked (err e) apart =
          Keeps-stopped _ e (or_discard-Keeps dir h (done-Keeps p (err e)))
            (λ fs. or_discard_failed e dir fs)
      checked (ok _) apart = Keeps->>> (or_discard-Keeps dir h (done-Keeps p (ok tt))) (λ _.
          Keeps->>> (or_discard-Keeps dir h (run_pre_install-Keeps dir manifest spares)) (λ _.
            Keeps->>>
              (or_discard-Keeps dir h
                (activate-Keeps dir written [] h plain (apart refl) (λ r m. cc)))
              (λ _. Keeps->>> (ignoring-Keeps (remove_dir_all-Keeps os.fails p dir h)) (λ _.
                Keeps->>> (run_post_install-Keeps manifest written spares (apart refl))
                  (λ _. done-Keeps p (ok written))))))

  -- the extraction into the emptied staging directory
  pub staged :
      (archive : FilePath) (manifest : Manifest sv) (fs : Fs)
      → starts_with p (staging_dir sv os install_root manifest.name) ≡ false
      → IsSafe sv os fs archive
      → (HashMap.get p
            (extract_into os.fails os.entries os.unpack_other archive
              (staging_dir sv os install_root manifest.name)
              (ignore
                (remove_dir_all os.fails (staging_dir sv os install_root manifest.name))
                fs)).1.files
          ≡ HashMap.get p fs.files)
        × ((written : List FilePath)
            → (extract_into os.fails os.entries os.unpack_other archive
                (staging_dir sv os install_root manifest.name)
                (ignore
                  (remove_dir_all os.fails (staging_dir sv os install_root manifest.name))
                  fs)).0
              ≡ ok written
            → AllPlain written)
  staged archive manifest fs h safe =
      let dir = staging_dir sv os install_root manifest.name in
      let fs1 = ignore (remove_dir_all os.fails dir) fs in
      let (kept, plain) = extract_into_confined sv os p archive dir fs1 h (λ b found there e.
        safe b found (remove_dir_all_shrinks os.fails dir archive fs b there) e) in
      (kept ∙ (remove_dir_all-Keeps os.fails p dir h).kept fs, plain)

  place_lem :
      (files : FileDb) (archive : FilePath) (manifest : Manifest sv) (fs : Fs)
      → Spares
      → starts_with p (staging_dir sv os install_root manifest.name) ≡ false
      → IsSafe sv os fs archive
      → ((written : List FilePath)
          → AllPlain written
          → check_no_conflicts files written manifest.name ≡ ok tt
          → Apart written)
      → HashMap.get p (place sv os install_root files archive manifest fs).1.files
        ≡ HashMap.get p fs.files
  unfolding place ignoring ◌>>>◌
  place_lem files archive manifest fs spares h safe apart =
      let dir = staging_dir sv os install_root manifest.name in
      let fs1 = ignore (remove_dir_all os.fails dir) fs in
      let extracting = extract_into os.fails os.entries os.unpack_other archive dir in
      let (kept, plain) = staged archive manifest fs h safe in
      elim (Result-cases (extracting fs1).0) [
        | inr (e, k) ↦ ground (arith, kept)
        | inl (written, k) ↦ ground (
          arith,
          kept,
          (settle-Keeps files manifest written spares h (plain written k)
                (apart written (plain written k))).kept
              (extracting fs1).1,
        )
      ]

append_cancel : (root a b : FilePath) → (root ++ a) ≡ (root ++ b) → a ≡ b
append_cancel [] a b h = h
append_cancel (x ∷ root) a b h = append_cancel root a b (cc)

pub place-foreign :
    (sv : Semver) (os : Os sv) (install_root archive rel : FilePath) (manifest : Manifest sv)
    (files : FileDb) (other : String) (fs : Fs)
    → IsSafe sv os fs archive
    → Spares sv os install_root (install_root ++ rel)
    → starts_with (install_root ++ rel) (staging_dir sv os install_root manifest.name) ≡ false
    → owner_of files rel ≡ some other
    → (other == manifest.name) ≡ false
    → HashMap.get (install_root ++ rel) (place sv os install_root files archive manifest fs).1.files
      ≡ HashMap.get (install_root ++ rel) fs.files
place-foreign sv os install_root archive rel manifest files other fs safe spares h owned differs =
    place_lem sv os install_root (install_root ++ rel) files archive manifest fs spares h safe
      (λ written plain passed r m.
        elim (Bool-cases ((install_root ++ rel) == (join install_root r))) [
          | inl e ↦
              let same =
                append_cancel install_root rel r
                  (eq_of_== _ _ e ∙ join_plain install_root r (plain_of written r plain m)) in
              absurd (
                ground (
                  arith,
                  check_no_conflicts_sound files written manifest.name passed rel (rw same m) other
                      owned,
                ))
          | inr e ↦ e
        ])
