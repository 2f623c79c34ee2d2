-- ===== src/Install/Transaction/Undone.antt =====
-- What is left of a failed `Transaction::install` of src/install/transaction.rs.
use mitos_pkg.Prelude.{
  ℕ, String, string_eq, list_eq, Bool, true, false, ◌≡◌, refl, ap, ◌∙◌, List, [], ◌∷◌, ◌++◌, Option,
  none, some, ok, err, ◌==◌, ◌||◌, eq_of_==, any, Bool-cases, inl, inr, ◌⊎◌, arith, contains,
}
use mitos_pkg.Prelude.HashMap
use mitos_pkg.Prelude.HashMap.{get-remove}
use mitos_pkg.Error.{FilePath, PkgResult, PkgError}
use mitos_pkg.Semver.{Semver}
use mitos_pkg.Fs.{
  Fs, Io, ◌>>>◌, done, ignore, ignoring, on_error, starts_with, remove_dir_all, remove_file,
  move_into, removing,
}
use mitos_pkg.Fs.Paths.{join, join_text}
use mitos_pkg.Fs.Kept.{
  Keeps, remove_dir_all-Keeps, remove_file-none, move_into-Keeps, move_into-failed, ignoring-Keeps,
  done-Keeps,
}
use mitos_pkg.Package.Manifest.{Manifest}
use mitos_pkg.Database.Files.{FileDb, check_no_conflicts}
use mitos_pkg.Install.Hooks.{run, post_install}
use mitos_pkg.Install.Rollback.{undo_install}
use mitos_pkg.Install.Transaction.{
  Os, activate, run_post_install, after_check, settle, place, staging_dir, or_discard,
}
use mitos_pkg.Install.Transaction.Untouched.{
  Spares, or_discard-Keeps, check_payload-Keeps, run_pre_install-Keeps, staged, settle-Keeps,
}
use mitos_pkg.Install.Transaction.Confined.{IsSafe, AllPlain, apart_of_join}

-- If the computation fails in this state, it leaves no file at `p`.
pub record Clean {ℓ} {A : Type ℓ} (p : FilePath) (m : Io A) (fs : Fs) : Type ℓ where
  pub clean : (e : PkgError) → (m fs).0 ≡ err e → HashMap.get p (m fs).1.files ≡ none

Clean->>> {ℓ κ} :
    {A : Type ℓ} {B : Type κ} {p : FilePath} {m : Io A} {f : A → Io B} {fs : Fs}
    → Clean p m fs
    → ((a : A) → (m fs).0 ≡ ok a → Clean p (f a) (m fs).1)
    → Clean p (m >>> f) fs
unfolding ◌>>>◌ done
Clean->>> {A = A} {p = p} {m = m} {f = f} {fs = fs} hm hf = record {
  clean = λ e h. go (m fs).0 e (λ x q. hm.clean x q) (λ a q. (hf a q).clean e) h;
}
  where
    go :
        (r : PkgResult A) (e : PkgError)
        → ((x : PkgError) → r ≡ err x → HashMap.get p (m fs).1.files ≡ none)
        → ((a : A)
            → r ≡ ok a
            → (f a (m fs).1).0 ≡ err e
            → HashMap.get p (f a (m fs).1).1.files ≡ none)
        → ((done r >>> f) (m fs).1).0 ≡ err e
        → HashMap.get p ((done r >>> f) (m fs).1).1.files ≡ none
    go (err x) e hx ha h = hx x refl
    go (ok a) e hx ha h = ha a refl h

Clean-Keeps {ℓ} :
    {A : Type ℓ} {p : FilePath} {m : Io A} {fs : Fs}
    → Keeps p m
    → HashMap.get p fs.files ≡ none
    → Clean p m fs
Clean-Keeps {fs = fs} k absent = record { clean = λ e h. k.kept fs ∙ absent }

module _ (sv : Semver) (os : Os sv) (install_root : FilePath) (p : FilePath) where
  -- Whatever is asked to be removed can be removed.
  abbrev pub Removable : Type 0
  Removable = (t : ℕ) (q : FilePath) → os.fails t (removing q) ≡ none

  -- `p` is one of the files.
  abbrev hits : List FilePath → Bool
  hits written = any (λ rel. p == (join install_root rel)) written

  undo_install-none :
      (written : List FilePath) (fs : Fs)
      → Removable
      → (HashMap.get p fs.files ≡ none) ⊎ (hits written ≡ true)
      → HashMap.get p (undo_install os.fails install_root written fs).files ≡ none
  unfolding undo_install
  undo_install-none [] fs free c = ground arith
  undo_install-none (rel ∷ written) fs free c =
      undo_install-none written (ignore (remove_file os.fails (join install_root rel)) fs) free
        (elim c [
          | inl absent ↦
              inl (remove_file-none os.fails p (join install_root rel) fs free (inl absent))
          | inr hit ↦ elim (Bool-cases (p == (join install_root rel))) [
            | inl here ↦
                inl (remove_file-none os.fails p (join install_root rel) fs free (inr here))
            | inr other ↦ inr (ground arith)
          ]
        ])

  on_error-Clean {ℓ} :
      {A : Type ℓ} {fs : Fs} (m : Io A) (undo : Fs → Fs)
      → ((e : PkgError) → (m fs).0 ≡ err e → HashMap.get p (undo (m fs).1).files ≡ none)
      → Clean p (on_error undo m) fs
  unfolding on_error
  on_error-Clean {A = A} {fs = fs} m undo h = record {
    clean = λ e q. go (m fs).0 e (λ x r. h x r) q;
  }
    where
      go :
          (r : PkgResult A) (e : PkgError)
          → ((x : PkgError) → r ≡ err x → HashMap.get p (undo (m fs).1).files ≡ none)
          → (on_error undo (λ _. (r, (m fs).1)) fs).0 ≡ err e
          → HashMap.get p (on_error undo (λ _. (r, (m fs).1)) fs).1.files ≡ none
      go (ok a) e hx q = cc
      go (err x) e hx q = hx x refl

  on_error-ok {ℓ} :
      {A : Type ℓ} (undo : Fs → Fs) (m : Io A) (fs : Fs) (a : A)
      → (on_error undo m fs).0 ≡ ok a
      → (on_error undo m fs).1 ≡ (m fs).1
  unfolding on_error
  on_error-ok {A = A} undo m fs a = go (m fs).0
    where
      go :
          (r : PkgResult A)
          → (on_error undo (λ _. (r, (m fs).1)) fs).0 ≡ ok a
          → (on_error undo (λ _. (r, (m fs).1)) fs).1 ≡ (m fs).1
      go (ok b) q = refl
      go (err x) q = cc

  hits-append :
      (moved : List FilePath) (rel : FilePath)
      → hits (moved ++ (rel ∷ [])) ≡ (hits moved || p == (join install_root rel))
  hits-append [] rel = ground arith
  hits-append (x ∷ moved) rel = ground (arith, hits-append moved rel)

  activate-Clean :
      (staging : FilePath) (written moved : List FilePath) (fs : Fs)
      → starts_with p staging ≡ false
      → AllPlain written
      → Removable
      → (HashMap.get p fs.files ≡ none) ⊎ (hits moved ≡ true)
      → Clean p (activate sv os install_root staging written moved) fs
  unfolding activate done
  activate-Clean staging [] moved fs h plain free c = record { clean = λ e q. cc }
  activate-Clean staging (rel ∷ written) moved fs h plain free c =
      let undo = undo_install os.fails install_root moved in
      let moving = move_into os.fails (join staging rel) (join install_root rel) in
      Clean->>>
        (on_error-Clean moving undo (λ e q. undo_install-none moved (moving fs).1 free (elim c [
          | inl absent ↦ inl (
              move_into-failed os.fails p (join staging rel) (join install_root rel) e fs q
              ∙ absent)
          | inr hit ↦ inr hit
        ])))
        (λ a q.
          activate-Clean staging written (moved ++ (rel ∷ [])) (on_error undo moving fs).1 h plain.1
            free
            (elim (Bool-cases (p == (join install_root rel))) [
              | inl here ↦ inr (ground (arith, hits-append moved rel))
              | inr other ↦ elim c [
                | inl absent ↦ inl (
                    ap (λ (w : Fs). HashMap.get p w.files) (on_error-ok undo moving fs a q)
                    ∙ (move_into-Keeps os.fails p (join staging rel) (join install_root rel)
                          (apart_of_join staging rel p plain.0 h) other).kept
                        fs
                    ∙ absent)
                | inr hit ↦ inr (ground (arith, hits-append moved rel))
              ]
            ]))

  run_post_install-Clean :
      (manifest : Manifest sv) (written : List FilePath) (fs : Fs)
      → Removable
      → hits written ≡ true
      → Clean p (run_post_install sv os install_root manifest written) fs
  unfolding run_post_install done
  run_post_install-Clean manifest written fs free hit = go manifest.hooks.post_install
    where
      go :
          (o : Option String)
          → Clean {0} {A = Unit} p
              (elim o [
                | none ↦ done (ok tt)
                | some script ↦ on_error (undo_install os.fails install_root written) (
                    run os.status post_install
                      (join_text install_root script)
                      install_root
                      manifest.name
                      (sv.show_version manifest.version))
              ])
              fs
      go none = record { clean = λ e q. cc }
      go (some script) =
          on_error-Clean _ (undo_install os.fails install_root written)
            (λ e q. undo_install-none written _ free (inr hit))

  after_check-Clean :
      (manifest : Manifest sv) (written : List FilePath) (r : PkgResult {0} Unit) (fs : Fs)
      → Spares sv os install_root p
      → starts_with p (staging_dir sv os install_root manifest.name) ≡ false
      → AllPlain written
      → Removable
      → hits written ≡ true
      → HashMap.get p fs.files ≡ none
      → Clean p (after_check sv os install_root manifest written r) fs
  unfolding after_check or_discard done ignoring
  after_check-Clean manifest written r fs spares h plain free hit absent =
      let dir = staging_dir sv os install_root manifest.name in
      let checking = or_discard-Keeps sv os install_root p dir h (done-Keeps p r) in
      let before =
        or_discard-Keeps sv os install_root p dir h
          (run_pre_install-Keeps sv os install_root p dir manifest spares) in
      Clean->>> (Clean-Keeps checking absent) (λ _ _.
        Clean->>> (Clean-Keeps before (checking.kept _ ∙ absent)) (λ _ _.
          Clean->>>
            (on_error-Clean (activate sv os install_root dir written [])
              (ignore (remove_dir_all os.fails dir))
              (λ e q.
                (remove_dir_all-Keeps os.fails p dir h).kept _
                ∙ (activate-Clean dir written [] _ h plain free
                      (inl (before.kept _ ∙ (checking.kept fs ∙ absent)))).clean
                    e q))
            (λ _ _.
              Clean->>> (record { clean = λ e q. cc })
                (λ _ _.
                  Clean->>> (run_post_install-Clean manifest written _ free hit)
                    (λ _ _. record { clean = λ e q. cc })))))

  missed :
      (written : List FilePath) (rel : FilePath)
      → hits written ≡ false
      → contains written rel ≡ true
      → (p == (join install_root rel)) ≡ false
  missed [] rel h m = cc
  missed (x ∷ written) rel h m = elim (Bool-cases (rel == x)) [
    | inl e ↦ rw (eq_of_== rel x e) (ground arith)
    | inr e ↦ missed written rel (ground arith) (ground arith)
  ]

  settle_hit :
      (files : FileDb) (manifest : Manifest sv) (written : List FilePath) (fs : Fs)
      → Spares sv os install_root p
      → starts_with p (staging_dir sv os install_root manifest.name) ≡ false
      → AllPlain written
      → Removable
      → HashMap.get p fs.files ≡ none
      → hits written ≡ true
      → Clean p (settle sv os install_root files manifest written) fs
  unfolding settle
  settle_hit files manifest written fs spares h plain free absent hit =
      let dir = staging_dir sv os install_root manifest.name in
      let checking =
        or_discard-Keeps sv os install_root p dir h
          (check_payload-Keeps sv os install_root p dir manifest written) in
      Clean->>> (Clean-Keeps checking absent) (λ _ _.
        after_check-Clean manifest written (check_no_conflicts files written manifest.name) _ spares
          h plain free hit (checking.kept fs ∙ absent))

  settle-Clean :
      (files : FileDb) (manifest : Manifest sv) (written : List FilePath) (fs : Fs)
      → Spares sv os install_root p
      → starts_with p (staging_dir sv os install_root manifest.name) ≡ false
      → AllPlain written
      → Removable
      → HashMap.get p fs.files ≡ none
      → Clean p (settle sv os install_root files manifest written) fs
  settle-Clean files manifest written fs spares h plain free absent =
      elim (Bool-cases (hits written)) [
        | inl hit ↦ settle_hit files manifest written fs spares h plain free absent hit
        | inr miss ↦
            Clean-Keeps
              (settle-Keeps sv os install_root p files manifest written spares h plain
                (λ _ rel m. missed written rel miss m))
              absent
      ]

-- Of an archive whose entries are regular files and directories, with no `..` in their paths: when an
-- install fails before it changes the databases, it leaves no new file: where there was no file before,
-- outside the staging directory, there is none after. Maintainer scripts must leave that path alone,
-- and the system must not refuse to remove a file; any other call may fail.
pub place-leaves_nothing :
    (sv : Semver) (os : Os sv) (install_root archive p : FilePath) (manifest : Manifest sv)
    (files : FileDb) (fs : Fs) (e : PkgError)
    → IsSafe sv os fs archive
    → Spares sv os install_root p
    → starts_with p (staging_dir sv os install_root manifest.name) ≡ false
    → Removable sv os install_root p
    → HashMap.get p fs.files ≡ none
    → (place sv os install_root files archive manifest fs).0 ≡ err e
    → HashMap.get p (place sv os install_root files archive manifest fs).1.files ≡ none
unfolding place ignoring
place-leaves_nothing sv os install_root archive p manifest files fs e safe spares h free absent
      failed =
    let dir = staging_dir sv os install_root manifest.name in
    let emptied = ignoring-Keeps (remove_dir_all-Keeps os.fails p dir h) in
    let (kept, plain) = staged sv os install_root p archive manifest fs h safe in
    (Clean->>> (Clean-Keeps emptied absent) (λ _ _.
        Clean->>> (record { clean = λ x q. kept ∙ absent })
          (λ written done.
            settle-Clean sv os install_root p files manifest written _ spares h (plain written done)
              free (kept ∙ absent)))).clean
      e failed
