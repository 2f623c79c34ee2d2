-- ===== src/Service/Commands/Updating.antt =====
-- `update_with_progress` and `fetch_repo_index` of src/service/lifecycle.rs.
pub mod Verified
pub mod Served
pub mod Merged
use mitos_pkg.Prelude.{
  String, string_eq, ◌<>◌, List, [], ◌∷◌, ◌++◌, Option, none, some, ok, err, ok_or,
}
use mitos_pkg.Prelude.HashMap
use mitos_pkg.Prelude.HashMap.{HashMap}
use mitos_pkg.Prelude.Int.{ℤ}
use mitos_pkg.Error.{PkgError, PkgResult, format, network, invalid_signature}
use mitos_pkg.Semver.{Semver}
use mitos_pkg.Fs.{Bytes}
use mitos_pkg.Config.{RepoSource, url, urls, signer, priority, index_cache_path}
use mitos_pkg.Package.Signature.{verify_index}
use mitos_pkg.Repository.Metadata.{PackageMetadata}
use mitos_pkg.Repository.Index.{RepositoryIndex}
use mitos_pkg.Repository.Cache.{save}
use mitos_pkg.Repository.Download.{fetch_with_retry}
use mitos_pkg.Service.Progress.{updating}
use mitos_pkg.Service.State.{Outside, State, Command, ◌>->◌, give, give_or_panic, on_fs, emit}

module _ (sv : Semver) (out : Outside sv) where
  -- `fetch_with_retry`, its error a value
  unfoldable pub try_fetch : String → Command sv (PkgResult Bytes)
  try_fetch u s =
      let (r, n) = fetch_with_retry out.fetch u s.fetches in
      (elim r [ none ↦ none | some fetched ↦ some (ok fetched) ], record s { fetches = n })

  abbrev sig_of : PkgResult Bytes → Option String
  sig_of (err e) = none
  sig_of (ok bytes) = some (out.signature_text bytes)

  -- the signature beside an index, if the repository has a signer
  unfoldable pub fetch_sig : Option String → String → Command sv (Option String)
  fetch_sig none u = give sv (ok none)
  fetch_sig (some _) u = ◌>->◌ sv (try_fetch (u <> ".sig")) λ fetched. give sv (ok (sig_of fetched))

  abbrev no_sig : String → String → PkgError
  no_sig who u = invalid_signature (
      format (
        "repository requires a signature from '" ∷ who ∷ "' but " ∷ u ∷ ".sig could not be fetched"
        ∷ []))

  abbrev unreachable : RepoSource → Option PkgError → PkgError
  unreachable repo (some e) = e
  unreachable repo none =
      network (format ("no reachable URL for repository '" ∷ url repo ∷ "'" ∷ []))

  -- A mirror that serves the index without a signature that is needed is a miss: `miss` goes on.
  unfoldable pub accept :
      RepoSource
      → String
      → Bytes
      → (PkgError → Command sv (Bytes × Option String))
      → Option String
      → Command sv (Bytes × Option String)
  accept repo u contents miss sig = elim (signer repo) [
    | none ↦ give sv (ok (contents, sig))
    | some who ↦ elim sig [
      | none ↦ miss (no_sig who u)
      | some hex ↦ give sv (ok (contents, some hex))
    ]
  ]

  unfoldable pub served :
      RepoSource
      → String
      → (PkgError → Command sv (Bytes × Option String))
      → PkgResult Bytes
      → Command sv (Bytes × Option String)
  served repo u miss (err e) = miss e
  served repo u miss (ok contents) =
      ◌>->◌ sv (fetch_sig (signer repo) u) (accept repo u contents miss)

  -- The loop over the URLs; `last_err` is the error so far.
  unfoldable pub fetch_urls :
      RepoSource → List String → Option PkgError → Command sv (Bytes × Option String)
  fetch_urls repo [] last_err = give sv (err (unreachable repo last_err))
  fetch_urls repo (u ∷ rest) last_err =
      ◌>->◌ sv (try_fetch u) (served repo u λ e. fetch_urls repo rest (some e))

  unfoldable pub fetch_repo_index : RepoSource → Command sv (Bytes × Option String)
  fetch_repo_index repo = fetch_urls repo (urls repo) none

  -- The signature check of one repository: a missing signature is the panic of `expect`.
  unfoldable pub check_index : RepoSource → Bytes × Option String → Command {0} sv Unit
  check_index repo (contents, sig) = elim (signer repo) [
    | none ↦ give sv (ok tt)
    | some who ↦ elim sig [
      | none ↦ give_or_panic sv none
      | some hex ↦ λ s. give sv (verify_index out.crypto contents hex who s.keystore) s
    ]
  ]

  abbrev pub prioritized : ℤ → List (PackageMetadata sv) → List (PackageMetadata sv)
  prioritized p [] = []
  prioritized p (m ∷ versions) = record m { priority = p } ∷ prioritized p versions

  -- `merged.packages.entry(name).or_default().extend(versions)` for each name of the remote index
  unfoldable pub merge :
      ℤ
      → HashMap String (List (PackageMetadata sv))
      → HashMap String (List (PackageMetadata sv))
      → HashMap String (List (PackageMetadata sv))
  merge p [] merged = merged
  merge p ((name, versions) ∷ remote) merged =
      merge p remote (HashMap.entry name [] (λ known. known ++ prioritized p versions) merged)

  -- the loop over the repositories
  unfoldable pub merge_all : List RepoSource → RepositoryIndex sv → Command sv (RepositoryIndex sv)
  merge_all [] merged = give sv (ok merged)
  merge_all (repo ∷ repos) merged = ◌>->◌ sv (emit sv (updating (url repo))) λ _.
      ◌>->◌ sv (fetch_repo_index repo) λ fetched. ◌>->◌ sv (check_index repo fetched) λ _.
        ◌>->◌ sv (give sv (out.index_of fetched.0)) λ remote.
          merge_all repos
            (record { packages = merge (priority repo) remote.packages merged.packages })

  -- `merged.save(...)?; self.index = merged;`
  unfoldable pub set_index : RepositoryIndex sv → Command {0} sv Unit
  set_index merged s = (some (ok tt), record s { index = merged })

  unfoldable pub store_index : RepositoryIndex sv → Command {0} sv Unit
  store_index merged s =
      (◌>->◌ sv (on_fs sv (save sv out.os.fails out.index_text merged (index_cache_path s.config)))
          λ _. set_index merged)
        s

  unfoldable pub update : Command {0} sv Unit
  update s = (◌>->◌ sv (merge_all s.config.repositories (record { packages = [] })) store_index) s
