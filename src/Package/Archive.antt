-- ===== src/Package/Archive.antt =====
-- `read_manifest` of src/package/archive.rs. The entries of an archive (the `tar` and `flate2` crates)
-- and the JSON text of a manifest are parameters.
use mitos_pkg.Prelude.{
  ℕ, String, string_eq, list_eq, List, [], ◌∷◌, Option, Result, ok, err, ◌==◌, ◌>>=◌, if◌then◌else◌,
  ok_or,
}
use mitos_pkg.Prelude.Text.{Text, from_utf8}
use mitos_pkg.Error.{
  FilePath, PkgResult, ErrorKind, format, display, io, invalid_data, invalid_manifest,
}
use mitos_pkg.Fs.{FsCall, Io, Bytes, ◌>>>◌, done, read}
use mitos_pkg.Semver.{Semver}
use mitos_pkg.Package.Manifest.{Manifest}

-- what an entry unpacks to; a link, a device or a pipe is `other`
pub data EntryKind : Type 0 where
  regular directory other : EntryKind

-- an entry as it stands in the archive: its path may hold `..`
pub record Entry : Type 0 where
  pub path : FilePath
  pub kind : EntryKind
  pub contents : Bytes

abbrev pub manifest_file_name : String
manifest_file_name = "manifest.json"

module _ (sv : Semver) (fails : ℕ → FsCall → Option ErrorKind)
    (entries : Bytes → PkgResult (List (PkgResult Entry)))
    (manifest_of : Text → Result (Manifest sv) String) where
  -- `map_err(|e| PkgError::InvalidManifest(e.to_string()))`
  abbrev parsed : Result (Manifest sv) String → PkgResult (Manifest sv)
  parsed (ok manifest) = ok manifest
  parsed (err e) = err (invalid_manifest e)

  unfoldable pub manifest_in : FilePath → List (PkgResult Entry) → PkgResult (Manifest sv)
  manifest_in archive_path [] = err (
      invalid_manifest
        (format ("no " ∷ manifest_file_name ∷ " found in " ∷ display archive_path ∷ [])))
  manifest_in archive_path (err e ∷ rest) = err e
  manifest_in archive_path (ok entry ∷ rest) =
      let later = manifest_in archive_path rest in
      if entry.path == (manifest_file_name ∷ [])
      then (ok_or (from_utf8 entry.contents) (io invalid_data) >>= λ text.
          parsed (manifest_of text))
      else later

  unfoldable pub read_manifest : FilePath → Io (Manifest sv)
  unfolding read manifest_in
  read_manifest archive_path = read fails archive_path >>> λ contents.
      done (entries contents) >>> λ found. done (manifest_in archive_path found)
