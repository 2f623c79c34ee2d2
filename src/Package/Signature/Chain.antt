-- ===== src/Package/Signature/Chain.antt =====
-- What a passed check of src/package/signature.rs guarantees.
use mitos_pkg.Prelude.{
  ℕ, String, string_eq, list_eq, true, ◌≡◌, Option, some, ok, ok_or, >>=-ok, arith, length,
}
use mitos_pkg.Error.{FilePath, ErrorKind, untrusted_key, invalid_signature}
use mitos_pkg.Fs.Kept.{>>>-ok, read-ok}
use mitos_pkg.Fs.{Fs, FsCall, Bytes, done, read}
use mitos_pkg.Semver.{Semver}
use mitos_pkg.Package.Arch.{eq_ignore_ascii_case}
use mitos_pkg.Package.Manifest.{Manifest}
use mitos_pkg.Prelude.HashMap
use mitos_pkg.Security.Checksum.{verify}
use mitos_pkg.Security.Keys.{KeyStore, find, verify_signature}
use mitos_pkg.Package.Signature.{
  Crypto, decode_signature, verify_signer, verify_package, verify_index,
}

-- A 64-byte signature, by a key the store holds for the signer, of the message.
pub record Signed (crypto : Crypto) (keystore : KeyStore) (signer hex : String) (message : Bytes)
    : Type 0 where
  pub key : Bytes
  pub bytes : Bytes
  pub trusted : find keystore signer ≡ some key
  pub decoded : crypto.hex_decode hex ≡ some bytes
  pub long : length bytes ≡ 64
  pub verified : crypto.ed25519 key message bytes ≡ some true

module _ (crypto : Crypto) where
  checked :
      (key bytes : Bytes) (hex signer : String) (keystore : KeyStore) (message : Bytes)
      → ok_or (find keystore signer) (untrusted_key signer) ≡ ok key
      → decode_signature crypto hex signer ≡ ok bytes
      → verify_signature crypto.ed25519 key message bytes signer ≡ ok tt
      → Signed crypto keystore signer hex message
  unfolding decode_signature verify_signature
  checked key bytes hex signer keystore message k d v = record {
    key = key;
    bytes = bytes;
    trusted = ground arith;
    decoded = ground arith;
    long = ground arith;
    verified = ground arith;
  }

  -- An index passes `verify_index` only with a 64-byte signature of its digest that a trusted key of the
  -- required signer verifies.
  pub verify_index-Signed :
      (contents : Bytes) (hex signer : String) (keystore : KeyStore)
      → verify_index crypto contents hex signer keystore ≡ ok tt
      → Signed crypto keystore signer hex (crypto.as_bytes (crypto.hash_bytes contents))
  unfolding verify_index decode_signature verify_signature
  verify_index-Signed contents hex signer keystore h =
      let (key, k, h1) = >>=-ok (ok_or (find keystore signer) (untrusted_key signer)) _ h in
      let (bytes, d, h2) = >>=-ok (decode_signature crypto hex signer) _ h1 in
      checked key bytes hex signer keystore (crypto.as_bytes (crypto.hash_bytes contents)) k d h2

  signer_Signed :
      (sv : Semver) (manifest : Manifest sv) (keystore : KeyStore) (hex : Option String)
      (signer : String)
      → manifest.signer ≡ some signer
      → verify_signer crypto sv manifest keystore hex ≡ ok tt
      → (h : String) × (hex ≡ some h)
        × Signed crypto keystore signer h (crypto.as_bytes manifest.payload_sha256)
  unfolding verify_signer
  signer_Signed sv manifest keystore hex signer s h =
      let (sig, e, h0) = >>=-ok (ok_or hex (invalid_signature signer)) _ (rw s at h) in
      let (key, k, h1) = >>=-ok (ok_or (find keystore signer) (untrusted_key signer)) _ h0 in
      let (bytes, d, h2) = >>=-ok (decode_signature crypto sig signer) _ h1 in
      (
        sig,
        ground arith,
        checked key bytes sig signer keystore (crypto.as_bytes manifest.payload_sha256) k d h2,
      )

  -- An archive passes `verify_package` only if its bytes hash to the checksum of the index and, when its
  -- manifest names a signer, a 64-byte signature of the payload's checksum was given that a trusted key of
  -- this signer verifies.
  pub verify_package-Signed :
      (sv : Semver) (fails : ℕ → FsCall → Option ErrorKind) (archive : FilePath) (expected : String)
      (manifest : Manifest sv) (keystore : KeyStore) (hex : Option String) (fs : Fs)
      → (verify_package crypto sv fails archive expected manifest keystore hex fs).0 ≡ ok tt
      → ((contents : Bytes) × (HashMap.get archive fs.files ≡ some contents)
          × (eq_ignore_ascii_case (crypto.hash_bytes contents) expected ≡ true))
        × ((signer : String)
            → manifest.signer ≡ some signer
            → (h : String) × (hex ≡ some h)
              × Signed crypto keystore signer h (crypto.as_bytes manifest.payload_sha256))
  unfolding verify_package done verify
  verify_package-Signed sv fails archive expected manifest keystore hex fs h =
      let (contents, r, h0) = >>>-ok (read fails archive) _ fs tt h in
      let (_, v, h1) =
        >>>-ok
          (done (verify fails crypto.hash_bytes crypto.as_bytes contents expected manifest.name)) _
          (read fails archive fs).1 tt h0 in
      (
        (contents, read-ok fails archive contents fs r, ground arith),
        λ signer s. signer_Signed sv manifest keystore hex signer s h1,
      )
