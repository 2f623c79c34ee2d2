-- ===== src/Package/Signature.antt =====
-- src/package/signature.rs. `hex::decode` and the Ed25519 check are parameters.
pub mod Chain
use mitos_pkg.Prelude.{
  ℕ, String, Bool, List, Option, none, some, ok, err, ok_or, ◌>>=◌, eqb, if◌then◌else◌, length,
}
use mitos_pkg.Error.{FilePath, PkgResult, ErrorKind, invalid_signature, untrusted_key}
use mitos_pkg.Fs.{FsCall, Io, Bytes, ◌>>>◌, done, read}
use mitos_pkg.Semver.{Semver}
use mitos_pkg.Package.Manifest.{Manifest}
use mitos_pkg.Security.Checksum.{verify}
use mitos_pkg.Security.Keys.{KeyStore, find, verify_signature}

-- the crates: SHA-256 in hex, the bytes of a text, hex, Ed25519
pub record Crypto : Type 0 where
  pub hash_bytes : Bytes → String
  pub as_bytes : String → Bytes
  pub hex_decode : String → Option Bytes
  pub ed25519 : Bytes → Bytes → Bytes → Option Bool

module _ (crypto : Crypto) where
  unfoldable pub decode_signature : String → String → PkgResult Bytes
  decode_signature hex_str signer = elim (crypto.hex_decode hex_str) [
    | none ↦ err (invalid_signature signer)
    | some bytes ↦ if eqb (length bytes) 64 then ok bytes else err (invalid_signature signer)
  ]

  -- The signature step of `verify_package`.
  unfoldable pub verify_signer :
      (sv : Semver) → Manifest sv → KeyStore → Option String → PkgResult {0} Unit
  unfolding decode_signature find verify_signature
  verify_signer sv manifest keystore signature_hex = elim manifest.signer [
    | none ↦ ok tt
    | some signer ↦ ok_or signature_hex (invalid_signature signer) >>= λ sig_hex.
        ok_or (find keystore signer) (untrusted_key signer) >>= λ public_key.
        decode_signature sig_hex signer >>= λ sig_bytes.
        verify_signature crypto.ed25519 public_key (crypto.as_bytes manifest.payload_sha256)
          sig_bytes signer
  ]

  unfoldable pub verify_package :
      (sv : Semver)
      → (ℕ → FsCall → Option ErrorKind)
      → FilePath
      → String
      → Manifest sv
      → KeyStore
      → Option String
      → Io {0} Unit
  unfolding read verify verify_signer
  verify_package sv fails archive_path expected_archive_sha256 manifest keystore signature_hex =
      read fails archive_path >>> λ contents.
      done (
        verify fails crypto.hash_bytes crypto.as_bytes contents expected_archive_sha256
          manifest.name)
      >>> λ _. done (verify_signer sv manifest keystore signature_hex)

  unfoldable pub verify_index : Bytes → String → String → KeyStore → PkgResult {0} Unit
  unfolding decode_signature find verify_signature
  verify_index contents signature_hex signer keystore =
      ok_or (find keystore signer) (untrusted_key signer) >>= λ public_key.
      let digest = crypto.hash_bytes contents in
      decode_signature signature_hex signer >>= λ sig_bytes.
      verify_signature crypto.ed25519 public_key (crypto.as_bytes digest) sig_bytes signer
