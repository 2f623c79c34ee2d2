-- ===== src/Install/Extractor.antt =====
-- src/install/extractor.rs and `extract_payload` of src/package/archive.rs. Reading the entries of
-- an archive (the `tar` and `flate2` crates) is a parameter: the bytes of the archive give its
-- entries, each of which can be an error. Unpacking a regular entry writes its file, wherever its path
-- leads, and unpacking a directory makes it; what becomes of any other entry, such as a link, is a
-- parameter.
use mitos_pkg.Prelude.{
  ℕ, String, string_eq, List, [], ◌∷◌, Option, none, some, ok, err, ◌==◌, if◌then◌else◌,
}
use mitos_pkg.Error.{FilePath, PkgResult, ErrorKind}
use mitos_pkg.Fs.Paths.{join}
use mitos_pkg.Package.Archive.{
  Entry, EntryKind, EntryKind.regular, EntryKind.directory, EntryKind.other,
}
use mitos_pkg.Fs.{make_parent, FsCall, Io, Bytes, ◌>>>◌, done, read, write, create_dir_all}

abbrev pub payload_dir : String
payload_dir = "payload"

-- The path beneath the payload directory, if it is not empty.
unfoldable pub payload_path : FilePath → Option FilePath
payload_path [] = none
payload_path (d ∷ []) = none
payload_path (d ∷ x ∷ rest) = if d == payload_dir then some (x ∷ rest) else none

module _ (fails : ℕ → FsCall → Option ErrorKind)
    (entries : Bytes → PkgResult (List (PkgResult Entry)))
    (unpack_other : Entry → FilePath → Io {0} Unit) where
  -- `entry.unpack`
  abbrev pub unpack_as : EntryKind → Entry → FilePath → Io {0} Unit
  unpack_as regular entry dest = write fails dest entry.contents
  unpack_as directory entry dest = create_dir_all fails dest
  unpack_as other entry dest = unpack_other entry dest

  -- `create_dir_all` of the parent, and `entry.unpack`
  unfoldable pub unpack : Entry → FilePath → Io {0} Unit
  unfolding make_parent
  unpack entry dest = make_parent fails dest >>> λ _. unpack_as entry.kind entry dest

  unfoldable pub extract_entries : FilePath → List (PkgResult Entry) → Io (List FilePath)
  unfolding unpack payload_path
  extract_entries dest_root [] = done (ok [])
  extract_entries dest_root (err e ∷ rest) = done (err e)
  extract_entries dest_root (ok entry ∷ rest) = elim (payload_path entry.path) [
    | none ↦ extract_entries dest_root rest
    | some rel ↦ unpack entry (join dest_root rel) >>> λ _.
        extract_entries dest_root rest >>> λ installed. done (ok (rel ∷ installed))
  ]

  unfoldable pub extract_payload : FilePath → FilePath → Io (List FilePath)
  unfolding extract_entries read
  extract_payload archive_path dest_root = read fails archive_path >>> λ contents.
      done (entries contents) >>> λ found. extract_entries dest_root found

  unfoldable pub extract_into : FilePath → FilePath → Io (List FilePath)
  unfolding extract_payload create_dir_all
  extract_into archive_path install_root =
      create_dir_all fails install_root >>> λ _. extract_payload archive_path install_root
