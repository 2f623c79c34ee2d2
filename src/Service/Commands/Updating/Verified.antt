-- ===== src/Service/Commands/Updating/Verified.antt =====
-- What `update` of src/service/lifecycle.rs accepts.
use mitos_pkg.Prelude.{String, ◌≡◌, refl, ◌≢◌, List, [], ◌∷◌, Option, none, some, ok, err, arith}
use mitos_pkg.Error.{PkgError, PkgResult}
use mitos_pkg.Semver.{Semver}
use mitos_pkg.Fs.{Bytes}
use mitos_pkg.Config.{RepoSource, plain, detailed, signer, urls}
use mitos_pkg.Repository.Download.Trusted.{fetch_with_retry_genuine}
use mitos_pkg.Service.State.{Outside, State, Command, ◌>->◌, give}
use mitos_pkg.Service.State.Steps.{>->-ok, >->-returns}
use mitos_pkg.Service.State.Same.{Reads, Reads->->, give-Reads}
use mitos_pkg.Service.Commands.Updating.{
  try_fetch, fetch_sig, accept, served, fetch_urls, fetch_repo_index,
}

module _ (sv : Semver) (out : Outside sv) where
  try_fetch-Reads : (u : String) → Reads (try_fetch sv out u)
  unfolding try_fetch
  try_fetch-Reads u = record {
    same =
        λ s. record { config = refl; packages = refl; files = refl; index = refl; keystore = refl };
  }

  fetch_sig-Reads : (who : Option String) (u : String) → Reads (fetch_sig sv out who u)
  unfolding fetch_sig
  fetch_sig-Reads none u = give-Reads sv _
  fetch_sig-Reads (some _) u = Reads->-> sv (try_fetch-Reads _) λ _. give-Reads sv _

  pub some-not-none {ℓ} : {A : Type ℓ} (a : A) → some a ≢ none
  some-not-none a p = cc

  try_fetch-returns : (u : String) (s : State sv) → (try_fetch sv out u s).0 ≢ none
  unfolding try_fetch
  try_fetch-returns u s p =
      let ((r, e), _, _) = fetch_with_retry_genuine out.fetch u s.fetches in
      absurd (ground (arith, e))

  fetch_sig-returns :
      (who : Option String) (u : String) (s : State sv) → (fetch_sig sv out who u s).0 ≢ none
  unfolding fetch_sig give
  fetch_sig-returns none u s = some-not-none _
  fetch_sig-returns (some _) u s =
      >->-returns sv (try_fetch sv out _) _ s (try_fetch-returns _ s) λ _ _. some-not-none _

  -- What a fetch of an index does: it reads, it does not panic, and it brings a signature where one is due.
  pub record Fetches (repo : RepoSource) (m : Command sv (Bytes × Option String)) : Type 0 where
    pub reads : Reads m
    pub returns : (s : State sv) → (m s).0 ≢ none
    pub signed :
        (s : State sv) (contents : Bytes) (sig : Option String) (who : String)
        → (m s).0 ≡ some (ok (contents, sig))
        → signer repo ≡ some who
        → (hex : String) × (sig ≡ some hex)

  Fetches->-> {ℓ} :
      {A : Type ℓ} (repo : RepoSource) (m : Command sv A)
      (f : A → Command sv (Bytes × Option String))
      → Reads m
      → ((s : State sv) → (m s).0 ≢ none)
      → ((a : A) → Fetches repo (f a))
      → Fetches repo (◌>->◌ sv m f)
  Fetches->-> repo m f hm hr hf = record {
    reads = Reads->-> sv hm (λ a. (hf a).reads);
    returns = λ s. >->-returns sv m f s (hr s) (λ a _. (hf a).returns (m s).1);
    signed = λ s contents sig who h w.
        let (a, _, q, _) = >->-ok sv m f s (contents, sig) h in
        (hf a).signed (m s).1 contents sig who q w;
  }

  failure-Fetches : (repo : RepoSource) (e : PkgError) → Fetches repo (give sv (err e))
  unfolding give
  failure-Fetches repo e = record {
    reads = give-Reads sv _;
    returns = λ s. some-not-none _;
    signed = λ s contents sig who h w. absurd (ground arith);
  }

  accept-Fetches :
      (repo : RepoSource) (u : String) (contents : Bytes)
      (miss : PkgError → Command sv (Bytes × Option String)) (sig : Option String)
      → ((e : PkgError) → Fetches repo (miss e))
      → Fetches repo (accept sv out repo u contents miss sig)
  unfolding accept give signer
  accept-Fetches (plain u1) u contents miss sig h = record {
    reads = give-Reads sv _;
    returns = λ s. some-not-none _;
    signed = λ s c g who p w. cc;
  }
  accept-Fetches (detailed u1 none ms p) u contents miss sig h = record {
    reads = give-Reads sv _;
    returns = λ s. some-not-none _;
    signed = λ s c g who p w. cc;
  }
  accept-Fetches (detailed u1 (some who) ms p) u contents miss none h = h _
  accept-Fetches (detailed u1 (some who) ms p) u contents miss (some hex) h = record {
    reads = give-Reads sv _;
    returns = λ s. some-not-none _;
    signed = λ s c g who1 q w. (hex, ground arith);
  }

  served-Fetches :
      (repo : RepoSource) (u : String) (miss : PkgError → Command sv (Bytes × Option String))
      (r : PkgResult Bytes)
      → ((e : PkgError) → Fetches repo (miss e))
      → Fetches repo (served sv out repo u miss r)
  unfolding served
  served-Fetches repo u miss (err e) h = h e
  served-Fetches repo u miss (ok contents) h =
      Fetches->-> repo _ _ (fetch_sig-Reads (signer repo) u) (fetch_sig-returns (signer repo) u)
        λ sig. accept-Fetches repo u contents miss sig h

  fetch_urls-Fetches :
      (repo : RepoSource) (us : List String) (e : Option PkgError)
      → Fetches repo (fetch_urls sv out repo us e)
  unfolding fetch_urls
  fetch_urls-Fetches repo [] e = failure-Fetches repo _
  fetch_urls-Fetches repo (u ∷ rest) e =
      Fetches->-> repo (try_fetch sv out u) _ (try_fetch-Reads u) (try_fetch-returns u)
        λ r. served-Fetches repo u _ r (λ e1. fetch_urls-Fetches repo rest (some e1))

  pub fetch_repo_index-Fetches : (repo : RepoSource) → Fetches repo (fetch_repo_index sv out repo)
  unfolding fetch_repo_index
  fetch_repo_index-Fetches repo = fetch_urls-Fetches repo (urls repo) none
