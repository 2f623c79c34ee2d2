-- ===== src/Repository/Download.antt =====
-- src/repository/download.rs. The transport (`Fetcher`) is a parameter that sees how many fetches
-- came before, so each attempt can end differently. The pauses between attempts are left out.
pub mod Trusted
use mitos_pkg.Prelude.{ℕ, zero, suc, String, List, [], ◌∷◌, Option, none, some, ok, err}
use mitos_pkg.Error.{FilePath, PkgError, PkgResult, ErrorKind, network}
use mitos_pkg.Fs.{FsCall, Io, Bytes, ◌>>>◌, done, make_parent, write}
use mitos_pkg.Security.Checksum.{verify}

abbrev pub retry_attempts : ℕ
retry_attempts = 3

abbrev pub Fetcher : Type 0
Fetcher = ℕ → String → PkgResult Bytes

-- A result, and the number of fetches that were made.
abbrev pub Fetched : Type 0
Fetched = PkgResult Bytes × ℕ

module _ (fetch : Fetcher) where
  -- The loop: `attempts` attempts are left, `last` is the last error.
  unfoldable pub fetch_attempts : ℕ → Option PkgError → String → ℕ → Option (PkgResult Bytes) × ℕ
  fetch_attempts zero none url n = (none, n)
  fetch_attempts zero (some e) url n = (some (err e), n)
  fetch_attempts (suc attempts) last url n = elim (fetch n url) [
    | ok contents ↦ (some (ok contents), suc n)
    | err e ↦ fetch_attempts attempts (some e) url (suc n)
  ]

  -- None stands for the panic of `expect`.
  unfoldable pub fetch_with_retry : String → ℕ → Option (PkgResult Bytes) × ℕ
  unfolding fetch_attempts
  fetch_with_retry url n = fetch_attempts retry_attempts none url n

  unfoldable pub try_urls : List String → Option PkgError → ℕ → Option (PkgResult Bytes) × ℕ
  unfolding fetch_with_retry
  try_urls [] none n = (some (err (network "no repository URL configured")), n)
  try_urls [] (some e) n = (some (err e), n)
  try_urls (url ∷ urls) last n =
      let (r, n1) = fetch_with_retry url n in
      elim r [
        | none ↦ (none, n1)
        | some (ok contents) ↦ (some (ok contents), n1)
        | some (err e) ↦ try_urls urls (some e) n1
      ]

  unfoldable pub fetch_with_mirrors : List String → ℕ → Option (PkgResult Bytes) × ℕ
  unfolding try_urls
  fetch_with_mirrors urls n = try_urls urls none n

  module _ (fails : ℕ → FsCall → Option ErrorKind) (hash_bytes : Bytes → String)
      (as_bytes : String → Bytes) where
    -- The steps after a fetch.
    unfoldable pub store_verified : PkgResult Bytes → String → String → FilePath → Io {0} Unit
    unfolding verify make_parent write
    store_verified fetched expected_sha256 name dest = done fetched >>> λ contents.
        done (verify fails hash_bytes as_bytes contents expected_sha256 name) >>> λ _.
        make_parent fails dest >>> λ _. write fails dest contents

    -- `download_verified`, none for the panic
    unfoldable pub download_verified :
        String → String → String → FilePath → ℕ → Option (Io {0} Unit) × ℕ
    unfolding fetch_with_retry store_verified
    download_verified url expected_sha256 name dest n =
        let (r, n1) = fetch_with_retry url n in
        elim r [
          | none ↦ (none, n1)
          | some fetched ↦ (some (store_verified fetched expected_sha256 name dest), n1)
        ]
