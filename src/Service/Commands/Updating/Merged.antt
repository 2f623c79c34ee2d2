-- ===== src/Service/Commands/Updating/Merged.antt =====
-- What `update` of src/service/lifecycle.rs accepts.
use mitos_pkg.Prelude.{
  true, contains, string_eq, map, ◌++◌, ℕ, String, ◌≡◌, sym, ap, ◌∙◌, subst, ◌≢◌, inl, inr, List,
  [], ◌∷◌, Option, none, some, ok, arith, Option-cases,
}
use mitos_pkg.Error.{PkgResult}
use mitos_pkg.Semver.{Semver}
use mitos_pkg.Fs.{Bytes}
use mathlib.Core.List.{append-nil, append_assoc}
use mitos_pkg.Repository.Metadata.{PackageMetadata}
use mitos_pkg.Prelude.HashMap
use mitos_pkg.Service.Commands.Updating.Served.{
  IsSigned, fetch_repo_index-IsFetched, versions_of, prioritized-map, get_or-merge,
}
use mitos_pkg.Config.{urls, RepoSource, signer, priority, url, index_cache_path}
use mitos_pkg.Package.Signature.{verify_index}
use mitos_pkg.Security.Keys.{KeyStore}
use mitos_pkg.Repository.Index.{RepositoryIndex}
use mitos_pkg.Repository.Cache.{save}
use mitos_pkg.Service.Progress.{updating}
use mitos_pkg.Service.State.{Outside, State, Command, give, give_or_panic, emit, on_fs}
use mitos_pkg.Service.State.Steps.{>->-ok, >->-returns, >->-ends}
use mitos_pkg.Service.State.Same.{
  Same, Same-refl, Same-trans, Reads, Reads->->, give-Reads, emit-Reads,
}
use mitos_pkg.Service.Commands.Updating.{
  fetch_repo_index, check_index, merge, merge_all, set_index, store_index, update,
}
use mitos_pkg.Service.Commands.Updating.Verified.{fetch_repo_index-Fetches, some-not-none}

module _ (sv : Semver) (out : Outside sv) where
  check_index_state :
      (repo : RepoSource) (contents : Bytes) (sig : Option String) (s : State sv)
      → (check_index sv out repo (contents, sig) s).1 ≡ s
  unfolding check_index give give_or_panic
  check_index_state repo contents sig s = elim (Option-cases (signer repo)) [
    | inl e ↦ ground arith
    | inr (who, e) ↦ elim (Option-cases sig) [ inl g ↦ ground arith | inr (hex, g) ↦ ground arith ]
  ]

  check_index-Reads :
      (repo : RepoSource) (c : Bytes × Option String) → Reads (check_index sv out repo c)
  check_index-Reads repo c = record {
    same = λ s. subst (Same s) (sym (check_index_state repo c.0 c.1 s)) (Same-refl s);
  }

  merge_all-Reads :
      (repos : List RepoSource) (merged : RepositoryIndex sv)
      → Reads (merge_all sv out repos merged)
  unfolding merge_all
  merge_all-Reads [] merged = give-Reads sv _
  merge_all-Reads (repo ∷ repos) merged = Reads->-> sv (emit-Reads sv _) λ _.
      Reads->-> sv (fetch_repo_index-Fetches sv out repo).reads λ fetched.
        Reads->-> sv (check_index-Reads repo fetched)
          λ _. Reads->-> sv (give-Reads sv _) λ remote. merge_all-Reads repos _

  -- The content of an index that was served under one of the repository's addresses: if the repository
  -- names a signer, the signature that was served beside it verifies by the signer's trusted key.
  pub data IsTrusted (keystore : KeyStore) (repo : RepoSource) (u : String) (contents : Bytes)
      : Type 0 where
    unsigned : signer repo ≡ none → IsTrusted keystore repo u contents
    verified :
        (who hex : String)
        → signer repo ≡ some who
        → IsSigned sv out u hex
        → verify_index out.crypto contents hex who keystore ≡ ok tt
        → IsTrusted keystore repo u contents

  -- One repository, and the index that it served.
  pub record Source (keystore : KeyStore) (repo : RepoSource) : Type 0 where
    pub u : String
    pub among : contains (urls repo) u ≡ true
    pub fetch_number : ℕ
    pub contents : Bytes
    pub fetched : out.fetch fetch_number u ≡ ok contents
    pub trusted : IsTrusted keystore repo u contents
    pub remote : RepositoryIndex sv
    pub read : out.index_of contents ≡ ok remote

  -- an index from each repository
  abbrev pub Sources : KeyStore → List RepoSource → Type 0
  Sources keystore [] = Unit
  Sources keystore (repo ∷ repos) = Source keystore repo × Sources keystore repos

  -- what they list under a name, in their order, each version with the priority of its repository
  abbrev pub offered :
      String
      → (keystore : KeyStore) (repos : List RepoSource) → Sources keystore repos
      → List (PackageMetadata sv)
  offered name keystore [] sources = []
  offered name keystore (repo ∷ repos) sources =
      map {A = PackageMetadata sv} {B = PackageMetadata sv}
        (λ m. record m { priority = priority repo })
        (versions_of sv out name sources.0.remote.packages)
      ++ offered name keystore repos sources.1

  -- Behind what `before` lists, `after` lists what the repositories served.
  pub record IsMerged (keystore : KeyStore) (repos : List RepoSource)
      (before after : RepositoryIndex sv) : Type 0 where
    pub sources : Sources keystore repos
    pub lists :
        (name : String)
        → HashMap.get_or name [] after.packages
          ≡ HashMap.get_or name [] before.packages ++ offered name keystore repos sources

  check_index-IsTrusted :
      (repo : RepoSource) (u : String) (contents : Bytes) (sig : Option String) (s : State sv)
      → ((hex : String) → sig ≡ some hex → IsSigned sv out u hex)
      → (check_index sv out repo (contents, sig) s).0 ≡ some (ok tt)
      → IsTrusted s.keystore repo u contents
  unfolding check_index give give_or_panic
  check_index-IsTrusted repo u contents sig s signed h = elim (Option-cases (signer repo)) [
    | inl e ↦ unsigned e
    | inr (who, e) ↦ elim (Option-cases sig) [
      | inl g ↦ absurd (ground arith)
      | inr (hex, g) ↦ verified who hex e (signed hex g) (ground arith)
    ]
  ]

  IsMerged-then :
      (keystore : KeyStore) (repo : RepoSource) (repos : List RepoSource)
      (merged final : RepositoryIndex sv) (source : Source keystore repo)
      → IsMerged keystore repos
          (record {
            packages = merge sv out (priority repo) source.remote.packages merged.packages;
          })
          final
      → IsMerged keystore (repo ∷ repos) merged final
  IsMerged-then keystore repo repos merged final source later = record {
    sources = (source, later.sources);
    lists = λ name.
        later.lists name
        ∙ ap (λ l. l ++ offered name keystore repos later.sources)
            (get_or-merge sv out (priority repo) name source.remote.packages merged.packages
              ∙ ap (λ l. HashMap.get_or name [] merged.packages ++ l)
                  (prioritized-map sv out (priority repo)
                    (versions_of sv out name source.remote.packages)))
        ∙ append_assoc (HashMap.get_or name [] merged.packages) _ _;
  }

  check_index-returns :
      (repo : RepoSource) (contents : Bytes) (sig : Option String) (s : State sv)
      → ((who : String) → signer repo ≡ some who → (hex : String) × (sig ≡ some hex))
      → (check_index sv out repo (contents, sig) s).0 ≢ none
  unfolding check_index give give_or_panic
  check_index-returns repo contents sig s due p = elim (Option-cases (signer repo)) [
    | inl e ↦ absurd (ground arith)
    | inr (who, e) ↦ let (hex, g) = due who e in absurd (ground arith)
  ]

  merge_all-returns :
      (repos : List RepoSource) (merged : RepositoryIndex sv) (s : State sv)
      → (merge_all sv out repos merged s).0 ≢ none
  unfolding merge_all give emit
  merge_all-returns [] merged s = some-not-none sv out _
  merge_all-returns (repo ∷ repos) merged s =
      let fetches = fetch_repo_index-Fetches sv out repo in
      >->-returns sv (emit sv (updating (url repo))) _ s (some-not-none sv out _) λ _ _.
        >->-returns sv (fetch_repo_index sv out repo) _ _ (fetches.returns _) λ fetched got.
          >->-returns sv (check_index sv out repo fetched) _ _
            (check_index-returns repo fetched.0 fetched.1 _
              λ who. fetches.signed _ fetched.0 fetched.1 who got)
            λ _ _.
              >->-returns sv (give sv (out.index_of fetched.0)) _ _ (some-not-none sv out _)
                λ remote _. merge_all-returns repos _ _

  merge_all-IsMerged :
      (repos : List RepoSource) (merged final : RepositoryIndex sv) (s : State sv)
      → (merge_all sv out repos merged s).0 ≡ some (ok final)
      → IsMerged s.keystore repos merged final
  unfolding merge_all give
  merge_all-IsMerged [] merged final s h = record {
    sources = tt;
    lists = λ name. ground (arith, append-nil (HashMap.get_or name [] merged.packages));
  }
  merge_all-IsMerged (repo ∷ repos) merged final s h =
      let (_, _, h1, _) = >->-ok sv (emit sv (updating (url repo))) _ s final h in
      let (fetched, g, h2, _) = >->-ok sv (fetch_repo_index sv out repo) _ _ final h1 in
      let (_, c, h3, _) = >->-ok sv (check_index sv out repo fetched) _ _ final h2 in
      let (remote, p, h4, _) = >->-ok sv (give sv (out.index_of fetched.0)) _ _ final h3 in
      let s1 : State sv = (emit sv (updating (url repo)) s).1 in
      let s2 : State sv = (fetch_repo_index sv out repo s1).1 in
      let s3 : State sv = (check_index sv out repo fetched s2).1 in
      let same2 : Same s s2 =
        Same-trans ((emit-Reads sv (updating (url repo))).same s)
          ((fetch_repo_index-Fetches sv out repo).reads.same s1) in
      let same3 : Same s s3 = Same-trans same2 ((check_index-Reads repo fetched).same s2) in
      let f = fetch_repo_index-IsFetched sv out repo s1 fetched.0 fetched.1 g in
      IsMerged-then s.keystore repo repos merged final
        (record {
          u = f.u;
          among = f.among;
          fetch_number = f.fetch_number;
          contents = fetched.0;
          fetched = f.fetched;
          trusted =
              subst (λ k. IsTrusted k repo f.u fetched.0) same2.keystore
                (check_index-IsTrusted repo f.u fetched.0 fetched.1 s2 f.signed c);
          remote = remote;
          read = ground arith;
        })
        (subst
          (λ k.
            IsMerged k repos
              (record { packages = merge sv out (priority repo) remote.packages merged.packages })
              final)
          same3.keystore (merge_all-IsMerged repos _ final s3 h4))

  abbrev no_index : RepositoryIndex sv
  no_index = record { packages = [] }

  abbrev saving : RepositoryIndex sv → State sv → Command {0} sv Unit
  saving merged s =
      on_fs sv (save sv out.os.fails out.index_text merged (index_cache_path s.config))

  -- `update` never panics: where a repository names a signer, `fetch_repo_index` brings a signature, as the
  -- `expect` on it says.
  pub update_total : (s : State sv) → (update sv out s).0 ≢ none
  unfolding update store_index set_index on_fs
  update_total s =
      >->-returns sv (merge_all sv out s.config.repositories no_index) (store_index sv out) s
        (merge_all-returns s.config.repositories no_index s)
        λ merged _.
          >->-returns sv (saving merged (merge_all sv out s.config.repositories no_index s).1)
            (λ _. set_index sv out merged) (merge_all sv out s.config.repositories no_index s).1
            (some-not-none sv out _) λ _ _. some-not-none sv out _

  -- After an `update` that succeeds, there is for each configured repository an index that was served
  -- under one of its addresses; if the repository names a signer, the signature served beside it
  -- verifies by the signer's trusted key. And under each name the new index lists what these indexes
  -- list, in the order of the repositories, each version with the priority of its repository.
  pub update-IsMerged :
      (s : State sv)
      → (update sv out s).0 ≡ some (ok tt)
      → IsMerged s.keystore s.config.repositories
          (record { packages = [] })
          (update sv out s).1.index
  unfolding update store_index set_index
  update-IsMerged s h =
      let (merged, p, h1, e1) =
        >->-ok sv (merge_all sv out s.config.repositories no_index) (store_index sv out) s tt h in
      let s1 : State sv = (merge_all sv out s.config.repositories no_index s).1 in
      let (_, _, h2, e2) = >->-ok sv (saving merged s1) (λ _. set_index sv out merged) s1 tt h1 in
      subst (λ final. IsMerged s.keystore s.config.repositories no_index final)
        (sym (ap (λ (x : Option (PkgResult {0} Unit) × State sv). x.1.index) (e1 ∙ e2)))
        (merge_all-IsMerged s.config.repositories no_index merged s p)

  -- An `update` that does not succeed leaves the index as it was.
  pub update_failed :
      (s : State sv) → (update sv out s).0 ≢ some (ok tt) → (update sv out s).1.index ≡ s.index
  unfolding update store_index set_index on_fs
  update_failed s h =
      elim (>->-ends sv (merge_all sv out s.config.repositories no_index) (store_index sv out) s) [
        | inl (e, _) ↦
            ap (λ (t : State sv). t.index) e
            ∙ ((merge_all-Reads s.config.repositories no_index).same s).index
        | inr (merged, p, e) ↦
            let s1 : State sv = (merge_all sv out s.config.repositories no_index s).1 in
            elim (>->-ends sv (saving merged s1) (λ _. set_index sv out merged) s1) [
              | inl (e1, _) ↦
                  ap (λ (x : Option (PkgResult {0} Unit) × State sv). x.1.index) e
                  ∙ ap (λ (t : State sv). t.index) e1
                  ∙ ((merge_all-Reads s.config.repositories no_index).same s).index
              | inr (_, _, e1) ↦
                  absurd (h (ap (λ (x : Option (PkgResult {0} Unit) × State sv). x.0) (e ∙ e1)))
            ]
      ]
