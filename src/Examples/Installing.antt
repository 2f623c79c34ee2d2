-- ===== src/Examples/Installing.antt =====
-- The properties of installing, removing, upgrading and of the trust checks, on small inputs.
use mitos_pkg.Prelude.{
  subst, arith, Option, ◌≢◌, ℕ, String, string_eq, list_eq, true, false, List, [], ◌∷◌, none, some,
  ok, err, ◌≡◌, refl, Memᴰ, contains, ◌==◌, ◌+◌, ◌≤◌, if◌then◌else◌, eqb,
}
use mitos_pkg.Prelude.HashMap
use mitos_pkg.Error.{FilePath, ErrorKind, PkgResult, network, hook_failed}
use mitos_pkg.Package.Archive.{Entry, EntryKind}
use mitos_pkg.Fs.{done, Fs, Bytes, FsCall}
use mitos_pkg.Package.Arch.{eq_ignore_ascii_case}
use mitos_pkg.Package.Manifest.{Manifest, no_hooks}
use mitos_pkg.Database.Packages
use mitos_pkg.Database.Packages.{InstalledPackage, InstalledDb}
use mitos_pkg.Database.Files.{FileDb, owner_of, claim, release, check_no_conflicts}
use mitos_pkg.Database.Files.Owners.{release-claim}
use mitos_pkg.Install.Hooks.{success, exited}
use mitos_pkg.Install.Store.{Json}
use mitos_pkg.Install.Transaction.{Os, place}
use mitos_pkg.Install.Transaction.Untouched.{place-foreign}
use mitos_pkg.Install.Transaction.Confined.{AllConfined, IsSafe}
use mitos_pkg.Install.Transaction.Undone.{place-leaves_nothing}
use mitos_pkg.Dependency.Resolver.Dependents.Broken.{Breaks}
use mitos_pkg.Service.Lifecycle.{removal_plan, upgrade_plan, find_orphan}
use mitos_pkg.Service.Lifecycle.Removal.{removal_plan-safe, find_orphan-safe}
use mitos_pkg.Service.Lifecycle.Upgrade.{Agreed, upgrade_plan-Agreed}
use mitos_pkg.Service.Lock.{lock_path, acquire, unlock}
use mitos_pkg.Service.Lock.Exclusive.{acquire_exclusive}
use mitos_pkg.Security.Keys.{KeyStore}
use mitos_pkg.Package.Signature.{Crypto, verify_package, verify_index}
use mitos_pkg.Package.Signature.Chain.{Signed, verify_package-Signed, verify_index-Signed}
use mitos_pkg.Repository.Download.{fetch_with_retry, fetch_with_mirrors}
use mitos_pkg.Repository.Download.Trusted.{fetch_with_retry_genuine, fetch_with_mirrors_genuine}
use mitos_pkg.Examples.{numbers, small_index, present, at_least, needs}

abbrev pub plain_json : Json numbers
plain_json = record {
  packages_text = λ db. ok [];
  packages_of = λ text. ok (record { packages = []; path = [] });
  owners_text = λ db. ok [];
  owners_of = λ text. ok (record { owners = []; path = [] });
  tmp_path = λ p. p;
}

abbrev pub file_entry : FilePath → Bytes → Entry
file_entry path contents = record { path = path; kind = EntryKind.regular; contents = contents }

abbrev pub quiet_os : Os numbers
quiet_os = record {
  fails = λ time call. none;
  entries = λ contents. ok (ok (file_entry ("payload" ∷ "bin" ∷ []) contents) ∷ []);
  unpack_other = λ entry dest. done (ok tt);
  json = plain_json;
  hash_bytes = λ contents. "h";
  as_bytes = λ text. 7 ∷ [];
  status = λ command fs. (success, fs);
}

abbrev pub tool : Manifest numbers
tool = record {
  name = "tool";
  version = 1;
  description = "";
  dependencies = [];
  provides = [];
  conflicts = [];
  files = [];
  payload_sha256 = "h";
  signer = some "mitos";
  arch = "any" ∷ [];
  essential = false;
  hooks = no_hooks;
  installed_size_bytes = 0;
}

abbrev pub owned : FileDb
owned = record { owners = ("etc" ∷ [], "base") ∷ []; path = [] }

abbrev pub disk : Fs
disk = record { files = ("etc" ∷ [], 1 ∷ []) ∷ ("tool.mpkg" ∷ [], 2 ∷ []) ∷ []; time = 0 }

etc_owned : owner_of owned ("etc" ∷ []) ≡ some "base"
unfolding owner_of HashMap.get list_eq string_eq
etc_owned = refl

base_differs : ◌==◌ {A = String} "base" "tool" ≡ false
unfolding string_eq
base_differs = refl

abbrev one_file : Bytes → List (PkgResult Entry)
one_file contents = ok (file_entry ("payload" ∷ "bin" ∷ []) contents) ∷ []

one_file-AllConfined : (contents : Bytes) → AllConfined (one_file contents)
unfolding string_eq
one_file-AllConfined contents = (record { no_link = λ p. cc; plain = refl }, tt)

archive-IsSafe : IsSafe numbers quiet_os disk ("tool.mpkg" ∷ [])
archive-IsSafe contents found there e =
    let same : one_file contents ≡ found = ground (arith, e) in
    subst AllConfined same (one_file-AllConfined contents)

place-foreign_example :
    HashMap.get ("etc" ∷ []) (place numbers quiet_os [] owned ("tool.mpkg" ∷ []) tool disk).1.files
    ≡ HashMap.get ("etc" ∷ []) disk.files
unfolding string_eq mitos_pkg.Install.Transaction.staging_dir mitos_pkg.Fs.Paths.join_text
place-foreign_example =
    place-foreign numbers quiet_os [] ("tool.mpkg" ∷ []) ("etc" ∷ []) tool owned "base" disk
      archive-IsSafe (λ c fs. refl) refl etc_owned base_differs

bin_free : check_no_conflicts owned (("bin" ∷ []) ∷ []) "tool" ≡ ok tt
unfolding check_no_conflicts HashMap.get list_eq string_eq
bin_free = refl

release-claim_example :
    (owner_of (claim owned (("bin" ∷ []) ∷ []) "tool") ("etc" ∷ []) ≡ some "base")
    × (owner_of (release (claim owned (("bin" ∷ []) ∷ []) "tool") (("bin" ∷ []) ∷ [])) ("etc" ∷ [])
        ≡ some "base")
release-claim_example =
    release-claim owned (("bin" ∷ []) ∷ []) "tool" bin_free ("etc" ∷ []) "base" base_differs
      etc_owned

abbrev pub system : InstalledDb numbers
system = record {
  packages =
      ("lib", present "lib" 1 []) ∷ ("app", present "app" 1 (needs "lib" (at_least 1) ∷ [])) ∷ [];
  path = [];
}

pub system_unique : HashMap.IsMap system.packages
unfolding HashMap.get string_eq
system_unique = (refl, (refl, tt))

app_removed :
    removal_plan numbers small_index system "x86" 3 "app" false false ≡ some (ok ("app" ∷ []))
unfolding removal_plan HashMap.contains_key string_eq
app_removed = refl

removal_plan-safe_example :
    (p : InstalledPackage numbers) × (Packages.get numbers system "app" ≡ some p)
    × (◌≡◌ {A = List String} ("app" ∷ []) ("app" ∷ []))
    × (false ≡ false → p.essential ≡ false)
    × ((n : String) → ¬ (Breaks numbers system "app" n))
removal_plan-safe_example =
    removal_plan-safe numbers small_index system "x86" 3 "app" false ("app" ∷ []) system_unique
      app_removed

lib_upgraded : upgrade_plan numbers small_index system "x86" none false ≡ ok (("lib", 1, 2) ∷ [])
unfolding upgrade_plan HashMap.get string_eq mitos_pkg.Repository.Index.max_by
    mitos_pkg.Package.Arch.is_compatible native.Mathlib.Decide.ℕ_discrete
    mitos_pkg.Repository.Index.by_key
lib_upgraded = refl

upgrade_plan-Agreed_example : Agreed numbers small_index system "x86" false ("lib", 1, 2)
upgrade_plan-Agreed_example =
    upgrade_plan-Agreed numbers small_index system "x86" none false (("lib", 1, 2) ∷ [])
      lib_upgraded ("lib", 1, 2) (Memᴰ.head refl)

abbrev bytes_64 : Bytes
bytes_64 =
    0 ∷ 1 ∷ 2 ∷ 3 ∷ 4 ∷ 5 ∷ 6 ∷ 7 ∷ 0 ∷ 1 ∷ 2 ∷ 3 ∷ 4 ∷ 5 ∷ 6 ∷ 7 ∷ 0 ∷ 1 ∷ 2 ∷ 3 ∷ 4 ∷ 5 ∷ 6 ∷ 7
    ∷ 0 ∷ 1 ∷ 2 ∷ 3 ∷ 4 ∷ 5 ∷ 6 ∷ 7 ∷ 0 ∷ 1 ∷ 2 ∷ 3 ∷ 4 ∷ 5 ∷ 6 ∷ 7 ∷ 0 ∷ 1 ∷ 2 ∷ 3 ∷ 4 ∷ 5 ∷ 6 ∷ 7
    ∷ 0 ∷ 1 ∷ 2 ∷ 3 ∷ 4 ∷ 5 ∷ 6 ∷ 7 ∷ 0 ∷ 1 ∷ 2 ∷ 3 ∷ 4 ∷ 5 ∷ 6 ∷ 7 ∷ []

abbrev pub crypto : Crypto
crypto = record {
  hash_bytes = λ contents. "h";
  as_bytes = λ text. 7 ∷ [];
  hex_decode = λ text. some bytes_64;
  ed25519 = λ key message signature. some true;
}

abbrev pub keystore : KeyStore
keystore = record { keys = ("mitos", 9 ∷ []) ∷ [] }

index_verified : verify_index crypto (1 ∷ []) "00" "mitos" keystore ≡ ok tt
unfolding verify_index HashMap.get string_eq
index_verified = refl

verify_index-Signed_example : Signed crypto keystore "mitos" "00" (7 ∷ [])
verify_index-Signed_example =
    verify_index-Signed crypto (1 ∷ []) "00" "mitos" keystore index_verified

tool_verified :
    (verify_package crypto numbers
      (λ time call. none)
      ("tool.mpkg" ∷ [])
      "H"
      tool
      keystore
      (some "00")
      disk).0
    ≡ ok tt
unfolding verify_package mitos_pkg.Fs.◌>>>◌ HashMap.get string_eq mitos_pkg.Fs.done
    native.Mathlib.Decide.ℕ_discrete
tool_verified = refl

verify_package-Signed_example :
    ((contents : Bytes) × (HashMap.get ("tool.mpkg" ∷ []) disk.files ≡ some contents)
      × (eq_ignore_ascii_case (crypto.hash_bytes contents) "H" ≡ true))
    × ((signer : String)
        → tool.signer ≡ some signer
        → (h : String) × (some "00" ≡ some h)
          × Signed crypto keystore signer h (crypto.as_bytes tool.payload_sha256))
verify_package-Signed_example =
    verify_package-Signed crypto numbers (λ time call. none) ("tool.mpkg" ∷ []) "H" tool keystore
      (some "00") disk tool_verified

-- The third fetch is the first that succeeds.
abbrev flaky : ℕ → String → PkgResult Bytes
flaky n url = if eqb n 2 then ok (5 ∷ []) else err (network "timeout")

fetch_with_retry_genuine_example :
    ((x : PkgResult Bytes) × ((fetch_with_retry flaky "a" 0).0 ≡ some x))
    × ((fetch_with_retry flaky "a" 0).1 ≤ 0 + 3)
    × ((b : Bytes)
        → (fetch_with_retry flaky "a" 0).0 ≡ some (ok b)
        → (k : ℕ) × (flaky k "a" ≡ ok b))
fetch_with_retry_genuine_example = fetch_with_retry_genuine flaky "a" 0

fetch_with_mirrors_genuine_example :
    (x : PkgResult Bytes) × ((fetch_with_mirrors flaky ("a" ∷ "b" ∷ []) 0).0 ≡ some x)
    × ((b : Bytes)
        → x ≡ ok b
        → (k : ℕ) × (url : String) × (contains ("a" ∷ "b" ∷ []) url ≡ true) × (flaky k url ≡ ok b))
fetch_with_mirrors_genuine_example = fetch_with_mirrors_genuine flaky ("a" ∷ "b" ∷ []) 0

abbrev failing_os : Os numbers
failing_os = record quiet_os { status = λ command fs. (exited (some "1"), fs) }

abbrev hooked : Manifest numbers
hooked = record tool { hooks = record no_hooks { post_install = some "bin" } }

abbrev reason : String
reason = "bin exited with 1"

hook_fails :
    (place numbers failing_os [] owned ("tool.mpkg" ∷ []) hooked disk).0
    ≡ err (hook_failed "tool" "post_install" reason)
unfolding place mitos_pkg.Fs.◌>>>◌ mitos_pkg.Fs.ignoring HashMap.get string_eq mitos_pkg.Fs.done
    HashMap.insert native.Mathlib.Decide.ℕ_discrete mitos_pkg.Error.format mitos_pkg.Error.display
    mitos_pkg.Install.Transaction.staging_dir mitos_pkg.Fs.Paths.join_text mitos_pkg.Fs.write
hook_fails = refl

place-leaves_nothing_example :
    HashMap.get
      ("bin" ∷ [])
      (place numbers failing_os [] owned ("tool.mpkg" ∷ []) hooked disk).1.files
    ≡ none
unfolding string_eq HashMap.get list_eq mitos_pkg.Install.Transaction.staging_dir
    mitos_pkg.Fs.Paths.join_text
place-leaves_nothing_example =
    place-leaves_nothing numbers failing_os [] ("tool.mpkg" ∷ []) ("bin" ∷ []) hooked owned disk
      (hook_failed "tool" "post_install" reason) archive-IsSafe (λ c fs. refl) refl (λ t q. refl)
      refl hook_fails

abbrev with_orphan : InstalledDb numbers
with_orphan = record {
  packages =
      ("old", record (present "old" 1 []) { explicit = false }) ∷ ("app", present "app" 1 []) ∷ [];
  path = [];
}

with_orphan_unique : HashMap.IsMap with_orphan.packages
unfolding HashMap.get string_eq
with_orphan_unique = (refl, (refl, tt))

old_found : find_orphan numbers small_index with_orphan "x86" with_orphan.packages ≡ some "old"
unfolding find_orphan string_eq
old_found = refl

find_orphan-safe_example :
    (pkg : InstalledPackage numbers) × (Packages.get numbers with_orphan "old" ≡ some pkg)
    × (pkg.explicit ≡ false)
    × (pkg.essential ≡ false)
    × ((n : String) → ¬ (Breaks numbers with_orphan "old" n))
find_orphan-safe_example =
    find_orphan-safe numbers small_index with_orphan "x86" "old" with_orphan_unique old_found

first_lock : (acquire (λ time call. none) ("var" ∷ []) disk).0 ≡ ok tt
unfolding acquire mitos_pkg.Fs.◌>>>◌ HashMap.get list_eq string_eq
first_lock = refl

acquire_exclusive_example :
    ((later : Fs)
      → HashMap.get (lock_path ("var" ∷ [])) later.files
        ≡ HashMap.get
            (lock_path ("var" ∷ []))
            (acquire (λ time call. none) ("var" ∷ []) disk).1.files
      → (acquire (λ time call. none) ("var" ∷ []) later).0 ≢ ok tt)
    × (((t : ℕ) (q : FilePath) → ◌≡◌ {A = Option ErrorKind} none none)
        → (later : Fs)
        → HashMap.get (lock_path ("var" ∷ [])) (unlock (λ time call. none) ("var" ∷ []) later).files
          ≡ none)
acquire_exclusive_example = acquire_exclusive (λ time call. none) ("var" ∷ []) disk first_lock
