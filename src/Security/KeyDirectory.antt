-- ===== src/Security/KeyDirectory.antt =====
-- `KeyStore::load_dir` of src/security/keys.rs. The `hex` crate is a parameter.
pub mod Loaded
use mitos_pkg.Prelude.{
  ℕ, String, string_eq, List, [], ◌∷◌, ◌++◌, Option, none, some, ok, ok_or, ◌==◌, if◌then◌else◌,
  eqb, length,
}
use mitos_pkg.Prelude.HashMap
use mitos_pkg.Prelude.HashMap.{HashMap}
use mitos_pkg.Prelude.Text.{Text, from_utf8, trim}
use mitos_pkg.Error.{FilePath, ErrorKind, io, invalid_data}
use mitos_pkg.Fs.{Fs, FsCall, Io, Bytes, ◌>>>◌, done, read}
use mitos_pkg.Fs.Paths.{extension_of, stem_of}
use mitos_pkg.Fs.Directories.{is_dir, read_dir}
use mitos_pkg.Security.Keys.{KeyStore}

-- The signer that a file name is for: the stem of a `.pub` file.
abbrev pub signer_of : String → Option String
signer_of name = elim (extension_of name) [
  | none ↦ none
  | some e ↦ if e == "pub" then some (stem_of name) else none
]

-- A key is 32 bytes; anything else is skipped.
abbrev pub with_key : String → Option Bytes → HashMap String Bytes → HashMap String Bytes
with_key signer none keys = keys
with_key signer (some bytes) keys =
    if eqb (length bytes) 32 then HashMap.insert signer bytes keys else keys

module _ (fails : ℕ → FsCall → Option ErrorKind) (hex_decode : Text → Option Bytes) where
  unfoldable pub load_key :
      FilePath → String → String → HashMap String Bytes → Io (HashMap String Bytes)
  load_key dir name signer keys = read fails (dir ++ (name ∷ [])) >>> λ contents.
      done (ok_or (from_utf8 contents) (io invalid_data)) >>> λ text.
      done (ok (with_key signer (hex_decode (trim text)) keys))

  -- one round of the loop
  unfoldable pub load_entry : FilePath → String → HashMap String Bytes → Io (HashMap String Bytes)
  load_entry dir name keys fs = elim (signer_of name) [
    | none ↦ (ok keys, fs)
    | some signer ↦ load_key dir name signer keys fs
  ]

  unfoldable pub load_entries :
      FilePath → List String → HashMap String Bytes → Io (HashMap String Bytes)
  load_entries dir [] keys = done (ok keys)
  load_entries dir (name ∷ names) keys = load_entry dir name keys >>> load_entries dir names

  unfoldable pub load_dir : FilePath → Io KeyStore
  load_dir dir fs =
      if is_dir dir fs
      then (read_dir fails dir >>> λ names.
            load_entries dir names [] >>> λ keys. done (ok (record { keys = keys })))
          fs
      else (ok (record { keys = [] }), fs)
