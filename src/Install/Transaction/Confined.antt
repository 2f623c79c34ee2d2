-- ===== src/Install/Transaction/Confined.antt =====
-- What unpacking an archive leaves alone whose entries are regular files and directories, with no `..` in
-- their paths: `extract_into` of src/install/extractor.rs.
use mitos_pkg.Prelude.{
  ◌≢◌, subst, sym, Result-cases, string_eq, list_eq, true, false, ◌≡◌, refl, ◌∙◌, List, [], ◌∷◌,
  Option, none, some, ok, err, ◌==◌, eq_of_==, Bool-cases, inl, inr, arith, contains,
}
use mitos_pkg.Prelude.HashMap
use mitos_pkg.Error.{FilePath, PkgResult}
use mitos_pkg.Semver.{Semver}
use mitos_pkg.Fs.{read, create_dir_all, Fs, Bytes, Io, ◌>>>◌, done, starts_with}
use mitos_pkg.Fs.Paths.{join, join_plain}
use mitos_pkg.Package.Archive.{Entry, EntryKind}
use mitos_pkg.Fs.Kept.{
  read-ok, >>>-ok, Keeps, Keeps->>>, done-Keeps, apart_of_outside, create_dir_all-Keeps, read-Keeps,
  write-Keeps, make_parent-Keeps,
}
use mitos_pkg.Install.Extractor.{
  extract_into, extract_payload, extract_entries, unpack, unpack_as, payload_path,
}
use mitos_pkg.Install.Transaction.{Os}

-- An entry that is no link, with a path without `..`.
pub record IsConfined (entry : Entry) : Type 0 where
  pub no_link : entry.kind ≢ EntryKind.other
  pub plain : contains entry.path ".." ≡ false

abbrev pub AllConfined : List (PkgResult Entry) → Type 0
AllConfined [] = Unit
AllConfined (err e ∷ rest) = AllConfined rest
AllConfined (ok entry ∷ rest) = IsConfined entry × AllConfined rest

abbrev pub AllPlain : List FilePath → Type 0
AllPlain [] = Unit
AllPlain (rel ∷ rest) = (contains rel ".." ≡ false) × AllPlain rest

pub plain_of :
    (written : List FilePath) (rel : FilePath)
    → AllPlain written
    → contains written rel ≡ true
    → contains rel ".." ≡ false
plain_of [] rel all m = cc
plain_of (r ∷ written) rel all m = elim (Bool-cases (rel == r)) [
  | inl e ↦ rw (eq_of_== rel r e) all.0
  | inr e ↦ plain_of written rel all.1 (ground arith)
]

payload_plain :
    (entry : Entry)
    → IsConfined entry
    → (rel : FilePath) → payload_path entry.path ≡ some rel
    → contains rel ".." ≡ false
unfolding payload_path
payload_plain entry confined = go entry.path confined.plain
  where
    go :
        (path : FilePath)
        → contains path ".." ≡ false
        → (rel : FilePath) → payload_path path ≡ some rel
        → contains rel ".." ≡ false
    go [] h rel e = cc
    go (d ∷ []) h rel e = cc
    go (d ∷ x ∷ path) h rel e = ground arith

-- A path outside a directory is none that `..`-free components lead to from it.
pub apart_of_join :
    (dir rel p : FilePath)
    → contains rel ".." ≡ false
    → starts_with p dir ≡ false
    → (p == join dir rel) ≡ false
apart_of_join dir rel p plain h = rw (join_plain dir rel plain) (apart_of_outside dir rel p h)

module _ (sv : Semver) (os : Os sv) where
  -- What the archive holds, if it can be read, is confined.
  abbrev pub IsSafe : Fs → FilePath → Type 0
  IsSafe fs archive =
      (contents : Bytes) (found : List (PkgResult Entry))
      → HashMap.get archive fs.files ≡ some contents
      → os.entries contents ≡ ok found
      → AllConfined found

  extract_entries-AllPlain :
      (dir : FilePath) (found : List (PkgResult Entry)) (fs : Fs) (written : List FilePath)
      → AllConfined found
      → (extract_entries os.fails os.entries os.unpack_other dir found fs).0 ≡ ok written
      → AllPlain written
  unfolding extract_entries done
  extract_entries-AllPlain dir [] fs written all h =
      let e : ◌≡◌ {A = List FilePath} [] written = ground arith in subst AllPlain e tt
  extract_entries-AllPlain dir (err e ∷ rest) fs written all h = cc
  extract_entries-AllPlain dir (ok entry ∷ rest) fs written all h =
      go (payload_path entry.path) (payload_plain entry all.0)
        (λ fs1 installed. extract_entries-AllPlain dir rest fs1 installed all.1) h
    where
      rest_of : Io (List FilePath)
      rest_of = extract_entries os.fails os.entries os.unpack_other dir rest

      go :
          (o : Option FilePath)
          → ((rel : FilePath) → o ≡ some rel → contains rel ".." ≡ false)
          → ((fs1 : Fs) (installed : List FilePath)
              → (rest_of fs1).0 ≡ ok installed
              → AllPlain installed)
          → ((elim o as (λ _. Io (List FilePath)) [
            | none ↦ rest_of
            | some rel ↦ unpack os.fails os.entries os.unpack_other entry (join dir rel) >>> λ _.
                rest_of >>> λ installed. done (ok (rel ∷ installed))
          ])
              fs).0
            ≡ ok written
          → AllPlain written
      go none plain later q = later fs written q
      go (some rel) plain later q =
          let unpacking = unpack os.fails os.entries os.unpack_other entry (join dir rel) in
          let (_, _, q1) = >>>-ok unpacking _ fs written q in
          let (installed, q2, q3) =
            >>>-ok rest_of (λ installed. done (ok (rel ∷ installed))) (unpacking fs).1 written q1 in
          let e : ◌≡◌ {A = List FilePath} (rel ∷ installed) written = ground (arith, q3) in
          subst AllPlain e (plain rel refl, later (unpacking fs).1 installed q2)

module _ (sv : Semver) (os : Os sv) (p : FilePath) where
  unpack-Keeps :
      (dir rel : FilePath) (entry : Entry)
      → starts_with p dir ≡ false
      → IsConfined entry
      → contains rel ".." ≡ false
      → Keeps p (unpack os.fails os.entries os.unpack_other entry (join dir rel))
  unfolding unpack
  unpack-Keeps dir rel entry h confined plain =
      Keeps->>> (make_parent-Keeps os.fails p (join dir rel))
        (λ _. by_kind entry.kind confined.no_link)
    where
      by_kind :
          (kind : EntryKind)
          → kind ≢ EntryKind.other
          → Keeps p (unpack_as os.fails os.entries os.unpack_other kind entry (join dir rel))
      by_kind EntryKind.regular n =
          write-Keeps os.fails p (join dir rel) entry.contents (apart_of_join dir rel p plain h)
      by_kind EntryKind.directory n = create_dir_all-Keeps os.fails p (join dir rel)
      by_kind EntryKind.other n = absurd (n refl)

  unpack_or_skip-Keeps :
      (dir : FilePath) (entry : Entry) (rest : Io (List FilePath)) (o : Option FilePath)
      → starts_with p dir ≡ false
      → IsConfined entry
      → ((rel : FilePath) → o ≡ some rel → contains rel ".." ≡ false)
      → Keeps p rest
      → Keeps {0} {A = List FilePath} p (elim o [
        | none ↦ rest
        | some rel ↦ unpack os.fails os.entries os.unpack_other entry (join dir rel) >>> λ _.
            rest >>> λ installed. done (ok (rel ∷ installed))
      ])
  unpack_or_skip-Keeps dir entry rest none h confined plain kept = kept
  unpack_or_skip-Keeps dir entry rest (some rel) h confined plain kept =
      Keeps->>> (unpack-Keeps dir rel entry h confined (plain rel refl))
        (λ _. Keeps->>> kept (λ installed. done-Keeps p (ok (rel ∷ installed))))

  extract_entries-Keeps :
      (dir : FilePath) (found : List (PkgResult Entry))
      → starts_with p dir ≡ false
      → AllConfined found
      → Keeps p (extract_entries os.fails os.entries os.unpack_other dir found)
  unfolding extract_entries
  extract_entries-Keeps dir [] h all = done-Keeps p (ok [])
  extract_entries-Keeps dir (err e ∷ rest) h all = done-Keeps p (err e)
  extract_entries-Keeps dir (ok entry ∷ rest) h all =
      unpack_or_skip-Keeps dir entry (extract_entries os.fails os.entries os.unpack_other dir rest)
        (payload_path entry.path) h all.0 (payload_plain entry all.0)
        (extract_entries-Keeps dir rest h all.1)

  -- What `extract_into` leaves alone, and the files that it lists have no `..` in their paths.
  pub extract_into_confined :
      (archive dir : FilePath) (fs : Fs)
      → starts_with p dir ≡ false
      → IsSafe sv os fs archive
      → (HashMap.get p (extract_into os.fails os.entries os.unpack_other archive dir fs).1.files
          ≡ HashMap.get p fs.files)
        × ((written : List FilePath)
            → (extract_into os.fails os.entries os.unpack_other archive dir fs).0 ≡ ok written
            → AllPlain written)
  unfolding extract_into extract_payload ◌>>>◌ done
  extract_into_confined archive dir fs h safe =
      elim (Result-cases (create_dir_all os.fails dir fs).0) [
        | inr (e, k) ↦ (
          ground (arith, (create_dir_all-Keeps os.fails p dir).kept fs),
          λ written q. absurd (ground arith),
        )
        | inl (u, k) ↦
            let fs1 = (create_dir_all os.fails dir fs).1 in
            elim (Result-cases (read os.fails archive fs1).0) [
              | inr (e, r) ↦ (
                ground (
                  arith,
                  (create_dir_all-Keeps os.fails p dir).kept fs,
                  (read-Keeps os.fails p archive).kept fs1,
                ),
                λ written q. absurd (ground arith),
              )
              | inl (contents, r) ↦ elim (Result-cases (os.entries contents)) [
                | inr (e, f) ↦ (
                  ground (
                    arith,
                    (create_dir_all-Keeps os.fails p dir).kept fs,
                    (read-Keeps os.fails p archive).kept fs1,
                  ),
                  λ written q. absurd (ground arith),
                )
                | inl (found, f) ↦
                    let there =
                      sym ((create_dir_all-Keeps os.fails archive dir).kept fs)
                      ∙ read-ok os.fails archive contents fs1 r in
                    let all = safe contents found there f in
                    (
                      ground (
                        arith,
                        (create_dir_all-Keeps os.fails p dir).kept fs,
                        (read-Keeps os.fails p archive).kept fs1,
                        (extract_entries-Keeps dir found h all).kept (read os.fails archive fs1).1,
                      ),
                      λ written q.
                          extract_entries-AllPlain sv os dir found (read os.fails archive fs1).1
                            written all (ground arith),
                    )
              ]
            ]
      ]
