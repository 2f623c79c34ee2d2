-- ===== src/Service/Commands/Updating/Served.antt =====
-- Where the indexes that `update` of src/service/lifecycle.rs merges come from, and what the merge lists.
use mathlib.Core.List.{append-nil, append_assoc}
use mitos_pkg.Prelude.{
  ℕ, String, string_eq, ◌<>◌, true, ◌≡◌, refl, sym, ap, ◌∙◌, ◌⊎◌, inl, inr, List, [], ◌∷◌, ◌++◌,
  map, Option, none, some, ok, err, arith, Option-cases, Result-cases, contains, ==_refl, ◌==◌,
  if◌then◌else◌,
}
use mitos_pkg.Prelude.Int.{ℤ}
use mitos_pkg.Prelude.HashMap
use mitos_pkg.Prelude.HashMap.{HashMap, get-entry}
use mitos_pkg.Error.{PkgResult, PkgError}
use mitos_pkg.Semver.{Semver}
use mitos_pkg.Fs.{Bytes}
use mitos_pkg.Config.{RepoSource, RepoSource.plain, RepoSource.detailed, signer, urls}
use mitos_pkg.Repository.Metadata.{PackageMetadata}
use mitos_pkg.Repository.Download.{fetch_with_retry}
use mitos_pkg.Repository.Download.Trusted.{fetch_with_retry_genuine}
use mitos_pkg.Service.State.{Outside, State, Command, give}
use mitos_pkg.Service.State.Steps.{>->-ok}
use mitos_pkg.Service.Commands.Updating.{
  try_fetch, fetch_sig, accept, served, fetch_urls, fetch_repo_index, merge, prioritized,
}

module _ (sv : Semver) (out : Outside sv) where
  -- A text of a signature that the server gave for the address with `.sig` behind it.
  pub record IsSigned (u hex : String) : Type 0 where
    pub fetch_number : ℕ
    pub bytes : Bytes
    pub fetched : out.fetch fetch_number (u <> ".sig") ≡ ok bytes
    pub read : hex ≡ out.signature_text bytes

  -- What the server gave for one of the addresses, with the signature beside it, if there is one.
  pub record IsFetched (us : List String) (contents : Bytes) (sig : Option String) : Type 0 where
    pub u : String
    pub among : contains us u ≡ true
    pub fetch_number : ℕ
    pub fetched : out.fetch fetch_number u ≡ ok contents
    pub signed : (hex : String) → sig ≡ some hex → IsSigned u hex

  try_fetch-ok :
      (u : String) (s : State sv) (bytes : Bytes)
      → (try_fetch sv out u s).0 ≡ some (ok (ok bytes))
      → (k : ℕ) × (out.fetch k u ≡ ok bytes)
  unfolding try_fetch
  try_fetch-ok u s bytes h =
      let (_, _, genuine) = fetch_with_retry_genuine out.fetch u s.fetches in
      genuine bytes (elim (Option-cases (fetch_with_retry out.fetch u s.fetches).0) [
        | inl e ↦ absurd (ground arith)
        | inr (r, e) ↦ ground arith
      ])

  fetch_sig-IsSigned :
      (who : Option String) (u : String) (s : State sv) (hex : String)
      → (fetch_sig sv out who u s).0 ≡ some (ok (some hex))
      → IsSigned u hex
  unfolding fetch_sig give
  fetch_sig-IsSigned none u s hex h = absurd (ground arith)
  fetch_sig-IsSigned (some _) u s hex h =
      let (r, p, q, _) = >->-ok sv (try_fetch sv out (u <> ".sig")) _ s (some hex) h in go r p q
    where
      go :
          (r : PkgResult Bytes)
          → (try_fetch sv out (u <> ".sig") s).0 ≡ some (ok r)
          → ◌≡◌ {A = Option (PkgResult (Option String))}
              (some (ok (elim r [ err _ ↦ none | ok b ↦ some (out.signature_text b) ])))
              (some (ok (some hex)))
          → IsSigned u hex
      go (err e) p q = absurd (ground arith)
      go (ok bytes) p q =
          let (k, f) = try_fetch-ok (u <> ".sig") s bytes p in
          record { fetch_number = k; bytes = bytes; fetched = f; read = ground arith }

  one_of :
      (u : String) (rest : List String) (contents : Bytes) (sig : Option String)
      → IsFetched rest contents sig
      → IsFetched (u ∷ rest) contents sig
  one_of u rest contents sig f = record {
    u = f.u;
    among = ground (arith, f.among);
    fetch_number = f.fetch_number;
    fetched = f.fetched;
    signed = f.signed;
  }

  -- `accept` gives the index and what there is of a signature, or goes on.
  accept_cases :
      (repo : RepoSource) (u : String) (c contents : Bytes)
      (miss : PkgError → Command sv (Bytes × Option String)) (sig0 sig : Option String)
      (s : State sv)
      → (accept sv out repo u c miss sig0 s).0 ≡ some (ok (contents, sig))
      → ◌≡◌ {A = Bytes × Option String} (c, sig0) (contents, sig)
        ⊎ ((e : PkgError) × ((miss e s).0 ≡ some (ok (contents, sig))))
  unfolding accept give signer
  accept_cases (plain a) u c contents miss sig0 sig s h = inl (ground arith)
  accept_cases (detailed a none ms p) u c contents miss sig0 sig s h = inl (ground arith)
  accept_cases (detailed a (some who) ms p) u c contents miss none sig s h = inr (_, h)
  accept_cases (detailed a (some who) ms p) u c contents miss (some hex) sig s h =
      inl (ground arith)

  fetch_urls-IsFetched :
      (repo : RepoSource) (us : List String) (last : Option PkgError) (s : State sv)
      (contents : Bytes) (sig : Option String)
      → (fetch_urls sv out repo us last s).0 ≡ some (ok (contents, sig))
      → IsFetched us contents sig
  unfolding fetch_urls served give
  fetch_urls-IsFetched repo [] last s contents sig h = absurd (ground arith)
  fetch_urls-IsFetched repo (u ∷ rest) last s contents sig h =
      let (r, p, q, _) =
        >->-ok sv (try_fetch sv out u)
          (served sv out repo u λ e. fetch_urls sv out repo rest (some e)) s (contents, sig) h in
      elim (Result-cases r) [
        | inr (e, failed) ↦ one_of u rest contents sig (
            fetch_urls-IsFetched repo rest (some e) (try_fetch sv out u s).1 contents sig
              (rw failed at q))
        | inl (c, good) ↦
            let s1 : State sv = (try_fetch sv out u s).1 in
            let (sig0, p0, q0, _) =
              >->-ok sv (fetch_sig sv out (signer repo) u) _ s1 (contents, sig) (rw good at q) in
            let s2 : State sv = (fetch_sig sv out (signer repo) u s1).1 in
            let (k, f) = try_fetch-ok u s c (p ∙ ap (λ x. some (ok x)) good) in
            elim (accept_cases repo u c contents _ sig0 sig s2 q0) [
              | inr (e, missed) ↦
                  one_of u rest contents sig
                    (fetch_urls-IsFetched repo rest (some e) s2 contents sig missed)
              | inl same ↦ record {
                u = u;
                among = ground (arith, ==_refl u);
                fetch_number = k;
                fetched = f ∙ ap (λ (x : Bytes × Option String). ok x.0) same;
                signed = λ hex w. fetch_sig-IsSigned (signer repo) u s1 hex (
                    p0
                    ∙ ap (λ (x : Bytes × Option String). some (ok x.1)) same
                    ∙ ap (λ x. some (ok x)) w);
              }
            ]
      ]

  -- What `fetch_repo_index` gives was served under one of the addresses of the repository.
  pub fetch_repo_index-IsFetched :
      (repo : RepoSource) (s : State sv) (contents : Bytes) (sig : Option String)
      → (fetch_repo_index sv out repo s).0 ≡ some (ok (contents, sig))
      → IsFetched (urls repo) contents sig
  unfolding fetch_repo_index
  fetch_repo_index-IsFetched repo s contents sig h =
      fetch_urls-IsFetched repo (urls repo) none s contents sig h

  -- all versions that are listed under a name
  abbrev pub versions_of :
      String → HashMap String (List (PackageMetadata sv)) → List (PackageMetadata sv)
  versions_of name [] = []
  versions_of name ((n, versions) ∷ rest) =
      let others = versions_of name rest in if name == n then versions ++ others else others

  prioritized-append :
      (p : ℤ) (xs ys : List (PackageMetadata sv))
      → prioritized sv out p (xs ++ ys) ≡ prioritized sv out p xs ++ prioritized sv out p ys
  prioritized-append p [] ys = refl
  prioritized-append p (x ∷ xs) ys =
      ap (λ l. record x { priority = p } ∷ l) (prioritized-append p xs ys)

  pub prioritized-map :
      (p : ℤ) (xs : List (PackageMetadata sv))
      → prioritized sv out p xs
        ≡ map {A = PackageMetadata sv} {B = PackageMetadata sv} (λ m. record m { priority = p }) xs
  prioritized-map p [] = refl
  prioritized-map p (x ∷ xs) = ap (λ l. record x { priority = p } ∷ l) (prioritized-map p xs)

  get_or-entry :
      (j k : String) (f : List (PackageMetadata sv) → List (PackageMetadata sv))
      (m : HashMap String (List (PackageMetadata sv)))
      → j ≡ k
      → HashMap.get_or j [] (HashMap.entry k [] f m) ≡ f (HashMap.get_or j [] m)
  get_or-entry j k f m q = ground (arith, get-entry j k [] f m, q)

  -- The merge puts the versions of a name behind those that are known.
  pub get_or-merge :
      (p : ℤ) (name : String) (remote merged : HashMap String (List (PackageMetadata sv)))
      → HashMap.get_or name [] (merge sv out p remote merged)
        ≡ HashMap.get_or name [] merged ++ prioritized sv out p (versions_of name remote)
  unfolding merge
  get_or-merge p name [] merged = sym (append-nil _)
  get_or-merge p name ((n, versions) ∷ remote) merged =
      let known_and_new : List (PackageMetadata sv) → List (PackageMetadata sv) =
        λ known. known ++ prioritized sv out p versions in
      let later : List (PackageMetadata sv) = prioritized sv out p (versions_of name remote) in
      get_or-merge p name remote (HashMap.entry n [] known_and_new merged)
      ∙ elim (string_eq.dec name n) [
        | yes q ↦
            let listed : versions_of name ((n, versions) ∷ remote)
                ≡ versions ++ versions_of name remote =
              ground arith in
            ap (λ l. l ++ later) (get_or-entry name n known_and_new merged q)
            ∙ append_assoc (HashMap.get_or name [] merged) (prioritized sv out p versions) later
            ∙ ap (λ l. HashMap.get_or name [] merged ++ l)
                (sym (prioritized-append p versions (versions_of name remote))
                  ∙ ap (prioritized sv out p) (sym listed))
        | no q ↦ ground (arith, get-entry name n [] known_and_new merged)
      ]
