-- ===== src/Repository/Cache.antt =====
-- `load`, `save` and `search` of src/repository/index.rs. The JSON text of an index is a parameter, and so
-- is `str::to_lowercase`.
use mitos_pkg.Prelude.{
  ℕ, String, Bool, true, false, ◌&&◌, ◌||◌, List, [], ◌∷◌, Option, none, some, filter, eqb, ok_or,
}
use mitos_pkg.Prelude.HashMap.{HashMap}
use mitos_pkg.Prelude.Text.{from_utf8}
use mitos_pkg.Error.{FilePath, PkgResult, ErrorKind, io, invalid_data}
use mitos_pkg.Fs.{FsCall, Io, Bytes, ◌>>>◌, done, read, write, make_parent}
use mitos_pkg.Semver.{Semver}
use mitos_pkg.Security.Checksum.{codes}
use mitos_pkg.Repository.Metadata.{PackageMetadata}
use mitos_pkg.Repository.Index.{RepositoryIndex, max_by, by_key}

module _ (sv : Semver) (fails : ℕ → FsCall → Option ErrorKind) where
  unfoldable pub load :
      (Bytes → PkgResult (RepositoryIndex sv)) → FilePath → Io (RepositoryIndex sv)
  unfolding read
  load index_of path = read fails path >>> λ contents.
      done (ok_or (from_utf8 contents) (io invalid_data)) >>> λ _. done (index_of contents)

  unfoldable pub save :
      (RepositoryIndex sv → PkgResult Bytes) → RepositoryIndex sv → FilePath → Io {0} Unit
  unfolding make_parent write
  save index_text index path =
      make_parent fails path >>> λ _. done (index_text index) >>> λ text. write fails path text

-- `str::contains`, on code points
abbrev begins : List ℕ → List ℕ → Bool
begins [] ys = true
begins (x ∷ xs) [] = false
begins (x ∷ xs) (y ∷ ys) = eqb x y && begins xs ys

abbrev is_within : List ℕ → List ℕ → Bool
is_within xs [] = begins xs []
is_within xs (y ∷ ys) = begins xs (y ∷ ys) || is_within xs ys

module _ (sv : Semver) (to_lowercase : String → String) where
  abbrev newest_of : HashMap String (List (PackageMetadata sv)) → List (PackageMetadata sv)
  newest_of [] = []
  newest_of ((_, versions) ∷ rest) =
      let others = newest_of rest in
      elim (max_by (by_key sv) versions) [ none ↦ others | some m ↦ m ∷ others ]

  unfoldable pub search : RepositoryIndex sv → String → List (PackageMetadata sv)
  unfolding max_by by_key codes
  search index query =
      let q = codes (to_lowercase query) in
      filter
        (λ m.
          is_within q (codes (to_lowercase m.name))
          || is_within q (codes (to_lowercase m.description)))
        (newest_of index.packages)
