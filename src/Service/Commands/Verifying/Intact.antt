-- ===== src/Service/Commands/Verifying/Intact.antt =====
-- What `verify` of src/service/lifecycle.rs reports.
use mitos_pkg.Prelude.{
  ℕ, String, string_eq, list_eq, true, ◌≡◌, ◌↔◌, sym, ap, ◌∙◌, subst, ◌⊎◌, inl, inr, List, [], ◌∷◌,
  ◌++◌, Option, none, some, ok, arith, length, Option-cases, Result-cases, Bool-cases,
}
use mitos_pkg.Prelude.HashMap
use mitos_pkg.Prelude.HashMap.{HashMap}
use mitos_pkg.Error.{FilePath, PkgResult}
use mitos_pkg.Semver.{Semver}
use mitos_pkg.Fs.Paths.{join}
use mitos_pkg.Fs.{Fs, FsCall, Bytes, exists, read, ◌>>>◌, done}
use mitos_pkg.Fs.Allowed.{>>>-of_ok, read-allowed}
use mitos_pkg.Fs.Kept.{read_files}
use mitos_pkg.Package.Arch.{eq_ignore_ascii_case}
use mitos_pkg.Security.Checksum.{hash_file, aggregate_hash}
use mitos_pkg.Database.Packages.{InstalledPackage}
use mitos_pkg.Service.Progress.{VerifyIssue}
use mitos_pkg.Service.State.{Outside}
use mitos_pkg.Service.Commands.Verifying.{
  Found, issue, check_file, check_files, check_aggregate, verify_one,
}

module _ (sv : Semver) (out : Outside sv) (root : FilePath) where
  -- the files as they are, with their hashes; none if one is missing
  abbrev pub hashes : List FilePath → HashMap FilePath Bytes → Option (List (FilePath × String))
  hashes [] m = some []
  hashes (rel ∷ files) m = elim (HashMap.get (join root rel) m) [
    | none ↦ none
    | some b ↦ elim (hashes files m) [
      | none ↦ none
      | some es ↦ some ((rel, out.os.hash_bytes b) ∷ es)
    ]
  ]

  -- Every file of the package is there, and their aggregate hash is the recorded one, if one is recorded.
  pub record IsIntact (pkg : InstalledPackage sv) (m : HashMap FilePath Bytes) : Type 0 where
    pub entries : List (FilePath × String)
    pub present : hashes pkg.installed_files m ≡ some entries
    pub unchanged :
        (pkg.payload_sha256 ≡ "")
        ⊎ (eq_ignore_ascii_case
              (aggregate_hash out.os.fails out.os.hash_bytes out.os.as_bytes entries)
              pkg.payload_sha256
            ≡ true)

  module _ (free : (t : ℕ) (c : FsCall) → out.os.fails t c ≡ none) where
    hash_file-allowed :
        (p : FilePath) (b : Bytes) (fs : Fs)
        → HashMap.get p fs.files ≡ some b
        → (hash_file out.os.fails out.os.hash_bytes out.os.as_bytes p fs).0
          ≡ ok (out.os.hash_bytes b)
    unfolding hash_file done
    hash_file-allowed p b fs h =
        ap (λ (x : PkgResult String × Fs). x.0)
          (>>>-of_ok (read out.os.fails p) (λ contents. done (ok (out.os.hash_bytes contents))) fs b
            (read-allowed out.os.fails free p b fs h))

    check_file_present :
        (name : String) (rel : FilePath) (b : Bytes) (fs : Fs)
        → HashMap.get (join root rel) fs.files ≡ some b
        → (check_file sv out root name rel fs).0 ≡ ((rel, out.os.hash_bytes b) ∷ [], [])
    unfolding check_file exists HashMap.contains_key
    check_file_present name rel b fs h = ground (arith, hash_file-allowed (join root rel) b fs h)

    check_file_missing :
        (name : String) (rel : FilePath) (fs : Fs)
        → HashMap.get (join root rel) fs.files ≡ none
        → (check_file sv out root name rel fs).0 ≡ ([], issue sv out name (some rel) "missing" ∷ [])
    unfolding check_file exists HashMap.contains_key
    check_file_missing name rel fs h = ground arith

    hash_file_files :
        (p : FilePath) (fs : Fs)
        → (hash_file out.os.fails out.os.hash_bytes out.os.as_bytes p fs).1.files ≡ fs.files
    unfolding hash_file done ◌>>>◌
    hash_file_files p fs = elim (Result-cases (read out.os.fails p fs).0) [
      | inl (b, e) ↦ ground (arith, read_files out.os.fails p fs)
      | inr (x, e) ↦ ground (arith, read_files out.os.fails p fs)
    ]

    check_file_files :
        (name : String) (rel : FilePath) (fs : Fs)
        → (check_file sv out root name rel fs).1.files ≡ fs.files
    unfolding check_file
    check_file_files name rel fs = ground (arith, hash_file_files (join root rel) fs)

    check_files_present :
        (name : String) (files : List FilePath) (fs : Fs) (es : List (FilePath × String))
        → hashes files fs.files ≡ some es
        → (check_files sv out root name files fs).0 ≡ (es, [])
    unfolding check_files
    check_files_present name [] fs es h = ground arith
    check_files_present name (rel ∷ files) fs es h =
        elim (Option-cases (HashMap.get (join root rel) fs.files)) [
          | inl e ↦ absurd (ground arith)
          | inr (b, e) ↦ elim (Option-cases (hashes files fs.files)) [
            | inl g ↦ absurd (ground arith)
            | inr (rest, g) ↦
                let fs1 : Fs = (check_file sv out root name rel fs).1 in
                let later : (check_files sv out root name files fs1).0 ≡ (rest, []) =
                  check_files_present name files fs1 rest
                    (ap (hashes files) (check_file_files name rel fs) ∙ g) in
                ground (arith, check_file_present name rel b fs e, later)
          ]
        ]

    check_files_missing :
        (name : String) (files : List FilePath) (fs : Fs)
        → hashes files fs.files ≡ none
        → (x : VerifyIssue) × (xs : List VerifyIssue) × ((check_files sv out root name files fs).0.1
            ≡ x ∷ xs)
    unfolding check_files
    check_files_missing name [] fs h = cc
    check_files_missing name (rel ∷ files) fs h =
        elim (Option-cases (HashMap.get (join root rel) fs.files)) [
          | inl e ↦ (
            issue sv out name (some rel) "missing",
            _,
            ap
                (λ (f : Found sv out).
                  f.1
                  ++ (check_files sv out root name files
                      (check_file sv out root name rel fs).1).0.1)
                (check_file_missing name rel fs e),
          )
          | inr (b, e) ↦ elim (Option-cases (hashes files fs.files)) [
            | inl g ↦
                let fs1 : Fs = (check_file sv out root name rel fs).1 in
                let (x, xs, later) =
                  check_files_missing name files fs1
                    (ap (hashes files) (check_file_files name rel fs) ∙ g) in
                (
                  x,
                  xs,
                  ap (λ (f : Found sv out). f.1 ++ (check_files sv out root name files fs1).0.1)
                        (check_file_present name rel b fs e)
                      ∙ later,
                )
            | inr (rest, g) ↦ absurd (ground arith)
          ]
        ]

    length-hashes :
        (files : List FilePath) (m : HashMap FilePath Bytes) (es : List (FilePath × String))
        → hashes files m ≡ some es
        → length es ≡ length files
    length-hashes [] m es h = ground arith
    length-hashes (rel ∷ files) m es h = elim (Option-cases (HashMap.get (join root rel) m)) [
      | inl e ↦ absurd (ground arith)
      | inr (b, e) ↦ elim (Option-cases (hashes files m)) [
        | inl g ↦ absurd (ground arith)
        | inr (rest, g) ↦ ground (arith, length-hashes files m rest g)
      ]
    ]

    aggregate_quiet :
        (pkg : InstalledPackage sv) (es : List (FilePath × String))
        → length es ≡ length pkg.installed_files
        → (check_aggregate sv out pkg es ≡ []) ↔ (
            (pkg.payload_sha256 ≡ "")
            ⊎ (eq_ignore_ascii_case
                  (aggregate_hash out.os.fails out.os.hash_bytes out.os.as_bytes es)
                  pkg.payload_sha256
                ≡ true))
    unfolding check_aggregate
    aggregate_quiet pkg es same = elim (string_eq.dec pkg.payload_sha256 "") [
      | yes p ↦ (λ _. inl p, λ _. ground arith)
      | no n ↦
          elim (Bool-cases (
            eq_ignore_ascii_case (aggregate_hash out.os.fails out.os.hash_bytes out.os.as_bytes es)
              pkg.payload_sha256)) [
                | inl t ↦ (λ _. inr t, λ _. ground arith)
                | inr f ↦ (
                  λ h. absurd (ground arith),
                  λ d. elim d [ inl p ↦ absurd (n p) | inr t ↦ absurd (ground arith) ],
                )
              ]
    ]

    quiet_of :
        (pkg : InstalledPackage sv) (es : List (FilePath × String)) (fs : Fs)
        → (check_files sv out root pkg.name pkg.installed_files fs).0 ≡ (es, [])
        → (verify_one sv out root pkg fs).0 ≡ check_aggregate sv out pkg es
    unfolding verify_one
    quiet_of pkg es fs found =
        ap (λ (f : Found sv out). f.1 ++ check_aggregate sv out pkg f.0) found

    -- If the operating system refuses no read, `verify` reports nothing on a package exactly if each of its
    -- files is there and, where the package records a hash, the aggregate hash of the files as they are is
    -- that hash, up to the case of its letters.
    pub verify_one-IsIntact :
        (pkg : InstalledPackage sv) (fs : Fs)
        → ((verify_one sv out root pkg fs).0 ≡ []) ↔ IsIntact pkg fs.files
    unfolding verify_one
    verify_one-IsIntact pkg fs = elim (Option-cases (hashes pkg.installed_files fs.files)) [
      | inl e ↦
          let (x, xs, found) = check_files_missing pkg.name pkg.installed_files fs e in
          (λ h. absurd (ground (arith, found)), λ i. absurd (ground (arith, i.present)))
      | inr (es, e) ↦
          let found =
            quiet_of pkg es fs (check_files_present pkg.name pkg.installed_files fs es e) in
          let quiet = aggregate_quiet pkg es (length-hashes pkg.installed_files fs.files es e) in
          (
            λ h. record { entries = es; present = e; unchanged = quiet.0 (sym found ∙ h) },
            λ i.
                found
                ∙ quiet.1 (
                    subst
                      (λ l.
                        (pkg.payload_sha256 ≡ "")
                        ⊎ (eq_ignore_ascii_case
                              (aggregate_hash out.os.fails out.os.hash_bytes out.os.as_bytes l)
                              pkg.payload_sha256
                            ≡ true))
                      (ground (arith, i.present)) i.unchanged),
          )
    ]
