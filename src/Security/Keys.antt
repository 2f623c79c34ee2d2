-- ===== src/Security/Keys.antt =====
-- `KeyStore` of src/security/keys.rs as loaded, and `verify_signature` of src/security/signature.rs,
-- whose Ed25519 check (the `ed25519_dalek` crate) is a parameter: none if the key is malformed.
use mitos_pkg.Prelude.{String, string_eq, Bool, true, false, Option, none, some, ok, err}
use mitos_pkg.Prelude.HashMap
use mitos_pkg.Prelude.HashMap.{HashMap}
use mitos_pkg.Error.{PkgResult, invalid_signature}
use mitos_pkg.Fs.{Bytes}

pub record KeyStore : Type 0 where
  pub keys : HashMap String Bytes

unfoldable pub find : KeyStore → String → Option Bytes
find store signer = HashMap.get signer store.keys

unfoldable pub verify_signature :
    (Bytes → Bytes → Bytes → Option Bool) → Bytes → Bytes → Bytes → String → PkgResult {0} Unit
verify_signature ed25519 public_key message signature signer =
    elim (ed25519 public_key message signature) [
      | none ↦ err (invalid_signature signer)
      | some false ↦ err (invalid_signature signer)
      | some true ↦ ok tt
    ]
