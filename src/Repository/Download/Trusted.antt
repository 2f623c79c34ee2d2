-- ===== src/Repository/Download/Trusted.antt =====
-- Which bytes `fetch_with_retry`, `fetch_with_mirrors` and `download_verified` of
-- src/repository/download.rs return and store.
use mitos_pkg.Prelude.{
  ℕ, zero, suc, ◌+◌, ◌≤◌, ◌≡◌, refl, String, string_eq, list_eq, List, [], ◌∷◌, Option, none, some,
  ok, err, Result-cases, inl, inr, arith, true, contains, ==_refl,
}
use mitos_pkg.Error.{PkgError, PkgResult}
use mitos_pkg.Fs.{Bytes}
use mitos_pkg.Repository.Download.{
  Fetcher, fetch_attempts, fetch_with_retry, try_urls, fetch_with_mirrors,
}

module _ (fetch : Fetcher) where
  attempts_bounded :
      (attempts : ℕ) (last : Option PkgError) (url : String) (n : ℕ)
      → (fetch_attempts fetch attempts last url n).1 ≤ n + attempts
  unfolding fetch_attempts
  attempts_bounded zero none url n = omega arith
  attempts_bounded zero (some e) url n = omega arith
  attempts_bounded (suc attempts) last url n = elim (Result-cases (fetch n url)) [
    | inl (b, e) ↦ ground arith
    | inr (x, e) ↦ ground (arith, attempts_bounded attempts (some x) url (suc n))
  ]

  attempts_genuine :
      (attempts : ℕ) (last : Option PkgError) (url : String) (n : ℕ) (b : Bytes)
      → (fetch_attempts fetch attempts last url n).0 ≡ some (ok b)
      → (k : ℕ) × (fetch k url ≡ ok b)
  unfolding fetch_attempts
  attempts_genuine zero none url n b h = cc
  attempts_genuine zero (some e) url n b h = cc
  attempts_genuine (suc attempts) last url n b h = elim (Result-cases (fetch n url)) [
    | inl (c, e) ↦ (n, ground arith)
    | inr (x, e) ↦ attempts_genuine attempts (some x) url (suc n) b (ground arith)
  ]

  attempts_return :
      (attempts : ℕ) (e : PkgError) (url : String) (n : ℕ)
      → (x : PkgResult Bytes) × ((fetch_attempts fetch attempts (some e) url n).0 ≡ some x)
  unfolding fetch_attempts
  attempts_return zero e url n = (err e, refl)
  attempts_return (suc attempts) e url n = elim (Result-cases (fetch n url)) [
    | inl (c, q) ↦ (ok c, ground arith)
    | inr (x, q) ↦ let (y, r) = attempts_return attempts x url (suc n) in (y, ground arith)
  ]

  -- `fetch_with_retry` always returns (its `expect` never panics), after at most three fetches, and
  -- what it returns as a success is what the server sent for this address.
  pub fetch_with_retry_genuine :
      (url : String) (n : ℕ)
      → ((x : PkgResult Bytes) × ((fetch_with_retry fetch url n).0 ≡ some x))
        × ((fetch_with_retry fetch url n).1 ≤ n + 3)
        × ((b : Bytes)
            → (fetch_with_retry fetch url n).0 ≡ some (ok b)
            → (k : ℕ) × (fetch k url ≡ ok b))
  unfolding fetch_with_retry
  fetch_with_retry_genuine url n =
      (returned url n, attempts_bounded 3 none url n, attempts_genuine 3 none url n)
    where
      returned :
          (url : String) (n : ℕ)
          → (x : PkgResult Bytes) × ((fetch_attempts fetch 3 none url n).0 ≡ some x)
      returned url n = elim (Result-cases (fetch n url)) [
        | inl (c, q) ↦ (ok c, ground (arith, fetch_attempts))
        | inr (x, q) ↦
            let (y, r) = attempts_return 2 x url (suc n) in (y, ground (arith, fetch_attempts))
      ]

  mirrors_genuine :
      (urls : List String) (last : Option PkgError) (n : ℕ)
      → (x : PkgResult Bytes) × ((try_urls fetch urls last n).0 ≡ some x)
        × ((b : Bytes)
            → x ≡ ok b
            → (k : ℕ) × (url : String) × (contains urls url ≡ true) × (fetch k url ≡ ok b))
  unfolding try_urls
  mirrors_genuine [] none n = (_, refl, λ b h. cc)
  mirrors_genuine [] (some e) n = (err e, refl, λ b h. cc)
  mirrors_genuine (url ∷ urls) last n =
      let (first, q) = (fetch_with_retry_genuine url n).0 in
      elim (Result-cases first) [
        | inl (c, f) ↦ (
          ok c,
          ground arith,
          λ b h.
              let (k, sent) = (fetch_with_retry_genuine url n).2 b (ground arith) in
              (k, url, ground (arith, ==_refl url), sent),
        )
        | inr (e, f) ↦
            let (x, r, sent) = mirrors_genuine urls (some e) (fetch_with_retry fetch url n).1 in
            (x, ground arith, λ b h. let (k, u, m, s) = sent b h in (k, u, ground arith, s))
      ]

  -- `fetch_with_mirrors` always returns, and what it returns as a success is what the server sent for
  -- one of the addresses.
  pub fetch_with_mirrors_genuine :
      (urls : List String) (n : ℕ)
      → (x : PkgResult Bytes) × ((fetch_with_mirrors fetch urls n).0 ≡ some x)
        × ((b : Bytes)
            → x ≡ ok b
            → (k : ℕ) × (url : String) × (contains urls url ≡ true) × (fetch k url ≡ ok b))
  unfolding fetch_with_mirrors
  fetch_with_mirrors_genuine urls n = mirrors_genuine urls none n
