-- ===== src/Security/KeyDirectory/Loaded.antt =====
-- Where the keys that `KeyStore::load_dir` of src/security/keys.rs trusts come from.
use mitos_pkg.Prelude.{
  ℕ, String, string_eq, list_eq, eqb, subst, List, [], ◌∷◌, ◌++◌, Option, some, ok, ◌≡◌, arith,
  length, sym, ap, ◌∙◌, inl, inr, Option-cases, Result-cases, Bool-cases,
}
use mitos_pkg.Prelude.HashMap
use mitos_pkg.Prelude.HashMap.{HashMap, get-insert}
use mitos_pkg.Prelude.Text.{Text, from_utf8, trim}
use mitos_pkg.Error.{FilePath, ErrorKind}
use mitos_pkg.Fs.{Fs, FsCall, Bytes, ◌>>>◌, done, read}
use mitos_pkg.Fs.Kept.{read_files, read-ok}
use mitos_pkg.Fs.Directories.{is_dir, read_dir, read_dir_files}
use mitos_pkg.Security.Keys.{KeyStore, find}
use mitos_pkg.Security.KeyDirectory.{
  signer_of, with_key, load_key, load_entry, load_entries, load_dir,
}

module _ (fails : ℕ → FsCall → Option ErrorKind) (hex_decode : Text → Option Bytes)
    (dir : FilePath) where
  -- A file of the directory is the key of the signer: its name is the signer's with `.pub`, and its text,
  -- up to white space around it, the hex form of the 32 bytes of the key.
  pub record IsKeyFile (files : HashMap FilePath Bytes) (signer : String) (key : Bytes)
      : Type 0 where
    pub name : String
    pub contents : Bytes
    pub text : Text
    pub named : signer_of name ≡ some signer
    pub there : HashMap.get (dir ++ (name ∷ [])) files ≡ some contents
    pub valid : from_utf8 contents ≡ some text
    pub decoded : hex_decode (trim text) ≡ some key
    pub sized : length key ≡ 32

  abbrev AllListed : HashMap FilePath Bytes → HashMap String Bytes → Type 0
  AllListed files keys =
      (signer : String) (key : Bytes)
      → HashMap.get signer keys ≡ some key
      → IsKeyFile files signer key

  with_key-AllListed :
      (files : HashMap FilePath Bytes) (keys : HashMap String Bytes) (name signer : String)
      (contents : Bytes) (text : Text)
      → signer_of name ≡ some signer
      → HashMap.get (dir ++ (name ∷ [])) files ≡ some contents
      → from_utf8 contents ≡ some text
      → AllListed files keys
      → AllListed files (with_key signer (hex_decode (trim text)) keys)
  with_key-AllListed files keys name signer contents text named there valid all who key h =
      elim (Option-cases (hex_decode (trim text))) [
        | inl e ↦ all who key (ground arith)
        | inr (bytes, e) ↦ elim (Bool-cases (eqb (length bytes) 32)) [
          | inr n ↦ all who key (ground arith)
          | inl y ↦ elim (string_eq.dec who signer) [
            | no q ↦ all who key (ground (arith, get-insert who signer bytes keys))
            | yes p ↦
                let same : bytes ≡ key = ground (arith, p, get-insert who signer bytes keys) in
                record {
                  name = name;
                  contents = contents;
                  text = text;
                  named = named ∙ ap some (sym p);
                  there = there;
                  valid = valid;
                  decoded = e ∙ ap some same;
                  sized = ground (arith, y, same);
                }
          ]
        ]
      ]

  load_entry-AllListed :
      (name : String) (keys keys1 : HashMap String Bytes) (fs : Fs)
      → (load_entry fails hex_decode dir name keys fs).0 ≡ ok keys1
      → AllListed fs.files keys
      → AllListed fs.files keys1
        × ((load_entry fails hex_decode dir name keys fs).1.files ≡ fs.files)
  unfolding load_entry load_key done ◌>>>◌
  load_entry-AllListed name keys keys1 fs h all = elim (Option-cases (signer_of name)) [
    | inl e ↦ (subst (AllListed fs.files) (ground arith) all, ground arith)
    | inr (signer, e) ↦ elim (Result-cases (read fails (dir ++ (name ∷ [])) fs).0) [
      | inr (k, r) ↦ absurd (ground arith)
      | inl (contents, r) ↦ elim (Option-cases (from_utf8 contents)) [
        | inl u ↦ absurd (ground arith)
        | inr (text, u) ↦ (
          subst (AllListed fs.files) (ground arith) (
              with_key-AllListed fs.files keys name signer contents text e
                (read-ok fails (dir ++ (name ∷ [])) contents fs r) u all),
          ground (arith, read_files fails (dir ++ (name ∷ [])) fs),
        )
      ]
    ]
  ]

  load_entries-AllListed :
      (names : List String) (keys keys1 : HashMap String Bytes) (fs : Fs)
      → (load_entries fails hex_decode dir names keys fs).0 ≡ ok keys1
      → AllListed fs.files keys
      → AllListed fs.files keys1
  unfolding load_entries done ◌>>>◌
  load_entries-AllListed [] keys keys1 fs h all = subst (AllListed fs.files) (ground arith) all
  load_entries-AllListed (name ∷ names) keys keys1 fs h all =
      elim (Result-cases (load_entry fails hex_decode dir name keys fs).0) [
        | inr (k, r) ↦ absurd (ground arith)
        | inl (keys2, r) ↦
            let (all2, same) = load_entry-AllListed name keys keys2 fs r all in
            subst (λ files. AllListed files keys1) same
              (load_entries-AllListed names keys2 keys1
                (load_entry fails hex_decode dir name keys fs).1 (ground arith)
                (subst (λ files. AllListed files keys2) (sym same) all2))
      ]

  none_listed : (files : HashMap FilePath Bytes) → AllListed files []
  unfolding HashMap.get
  none_listed files who key q = absurd (ground arith)

  -- Every key of a store that `load_dir` gives is the key of its signer in a file of the directory.
  pub load_dir-IsKeyFile :
      (signer : String) (key : Bytes) (store : KeyStore) (fs : Fs)
      → (load_dir fails hex_decode dir fs).0 ≡ ok store
      → find store signer ≡ some key
      → IsKeyFile fs.files signer key
  unfolding load_dir done ◌>>>◌ find
  load_dir-IsKeyFile signer key store fs h found = elim (Bool-cases (is_dir dir fs)) [
    | inr e ↦ none_listed fs.files signer key (ground arith)
    | inl e ↦ elim (Result-cases (read_dir fails dir fs).0) [
      | inr (k, r) ↦ absurd (ground arith)
      | inl (names, r) ↦
          elim (Result-cases
            (load_entries fails hex_decode dir names [] (read_dir fails dir fs).1).0) [
              | inr (k, l) ↦ absurd (ground arith)
              | inl (keys, l) ↦
                  subst (λ files. IsKeyFile files signer key) (read_dir_files fails dir fs)
                    (load_entries-AllListed names [] keys (read_dir fails dir fs).1 l
                      (none_listed (read_dir fails dir fs).1.files) signer key (ground arith))
            ]
    ]
  ]
