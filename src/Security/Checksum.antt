-- ===== src/Security/Checksum.antt =====
-- src/security/checksum.rs. The hash function (the `sha2` and `hex` crates) and the UTF-8 bytes of a
-- text are parameters.
use Prim.Native.Char.{code}
use mitos_pkg.Prelude.{
  ℕ, String, ◌<>◌, Bool, true, false, ◌||◌, ◌&&◌, List, [], ◌∷◌, if◌then◌else◌, ok, err, ltb, eqb,
  Option,
}
use mitos_pkg.Error.{FilePath, PkgResult, display, checksum_mismatch, ErrorKind}
use mitos_pkg.Package.Arch.{eq_ignore_ascii_case}
use mitos_pkg.Fs.Paths.{join}
use mitos_pkg.Fs.{Bytes, FsCall, Io, ◌>>>◌, done, read}

unfoldable pub codes : String → List ℕ
codes String.[] = []
codes (String.◌∷◌ c s) = code c ∷ codes s

-- `Ord` of strings, of paths and of the entries
le_codes : List ℕ → List ℕ → Bool
le_codes [] ys = true
le_codes (x ∷ xs) [] = false
le_codes (x ∷ xs) (y ∷ ys) = let rest = le_codes xs ys in ltb x y || (eqb x y && rest)

unfoldable pub le_string : String → String → Bool
unfolding le_codes codes
le_string a b = le_codes (codes a) (codes b)

le_path : FilePath → FilePath → Bool
unfolding le_string
le_path [] q = true
le_path (x ∷ p) [] = false
le_path (x ∷ p) (y ∷ q) =
    let rest = le_path p q in
    if le_string x y then (if le_string y x then rest else true) else false

le_entry : FilePath × String → FilePath × String → Bool
unfolding le_path le_string
le_entry (p, a) (q, b) =
    if le_path p q then (if le_path q p then le_string a b else true) else false

insert_entry : FilePath × String → List (FilePath × String) → List (FilePath × String)
unfolding le_entry
insert_entry x [] = x ∷ []
insert_entry x (y ∷ ys) =
    let rest = insert_entry x ys in if le_entry x y then x ∷ y ∷ ys else y ∷ rest

-- `sort`
pub sort_entries : List (FilePath × String) → List (FilePath × String)
unfolding insert_entry
sort_entries [] = []
sort_entries (x ∷ xs) = insert_entry x (sort_entries xs)

module _ (fails : ℕ → FsCall → Option ErrorKind) (hash_bytes : Bytes → String)
    (as_bytes : String → Bytes) where
  unfoldable pub hash_file : FilePath → Io String
  unfolding read
  hash_file path = read fails path >>> λ contents. done (ok (hash_bytes contents))

  -- `verify`
  unfoldable pub verify : Bytes → String → String → PkgResult {0} Unit
  unfolding eq_ignore_ascii_case
  verify contents expected_hex context =
      let actual = hash_bytes contents in
      if eq_ignore_ascii_case actual expected_hex
      then ok tt
      else err (checksum_mismatch context expected_hex actual)

  pub listing : List (FilePath × String) → String
  listing [] = ""
  listing ((rel, hash) ∷ rest) = hash <> "  " <> display rel <> "\n" <> listing rest

  pub aggregate_hash : List (FilePath × String) → String
  unfolding listing sort_entries
  aggregate_hash entries = hash_bytes (as_bytes (listing (sort_entries entries)))

  unfoldable pub hash_entries : FilePath → List FilePath → Io (List (FilePath × String))
  unfolding hash_file
  hash_entries root [] = done (ok [])
  hash_entries root (rel ∷ paths) = hash_file (join root rel) >>> λ hash.
      hash_entries root paths >>> λ entries. done (ok ((rel, hash) ∷ entries))

  unfoldable pub hash_files : FilePath → List FilePath → Io String
  unfolding hash_entries aggregate_hash
  hash_files root paths = hash_entries root paths >>> λ entries. done (ok (aggregate_hash entries))
