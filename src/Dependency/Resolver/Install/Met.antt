-- ===== src/Dependency/Resolver/Install/Met.antt =====
-- What it means that the dependencies of a plan of src/dependency/resolver.rs are met, and that what
-- `visit` resolved meets them.
use mathlib.Core.List.Memᴰ
use mitos_pkg.Prelude.{
  ◌++◌, mem-filter, ◌&&◌, Bool, String, string_eq, true, List, [], ◌∷◌, none, some, ok, ◌≡◌, refl,
  ap, subst, ◌⊎◌, inl, inr, arith, Memᴰ, contains, Option-cases, IsSetList,
}
use mitos_pkg.Prelude.HashMap
use mitos_pkg.Prelude.HashMap.{HashMap, keys, IsMap, get-remove}
use mitos_pkg.Semver.{Semver, JoinsComparators}
use mitos_pkg.Dependency.Version.{Dependency}
use mitos_pkg.Dependency.Graph.Order.{IsOrdered, deps_of}
use mitos_pkg.Repository.Metadata.{PackageMetadata}
use mitos_pkg.Package.Arch.{is_compatible}
use mitos_pkg.Repository.Index.Best.{
  IsEligible, best_match_for_arch-IsEligible, best_match_for_arch-none, max_by_mem,
}
use mitos_pkg.Repository.Index.{
  find_provider_for_arch, all_versions, by_key, RepositoryIndex, best_match_for_arch,
}
use mitos_pkg.Database.Packages
use mitos_pkg.Database.Packages.{InstalledPackage, InstalledDb}
use mitos_pkg.Dependency.Resolver.{State, target}
use mitos_pkg.Dependency.Resolver.Visited.{IsSound, Met, Provided, by_plan, by_system}
use mitos_pkg.Dependency.Resolver.Intersect.{effective-narrows}
use mitos_pkg.Dependency.Resolver.Install.{collect}

in_either : {A : Type 0} (a : A) (xs ys : List A) → Memᴰ a (xs ++ ys) → Memᴰ a xs ⊎ Memᴰ a ys
in_either a [] ys i = inr i
in_either a (x ∷ xs) ys (Memᴰ.head p) = inl (Memᴰ.head p)
in_either a (x ∷ xs) ys (Memᴰ.tail i) = elim (in_either a xs ys i) [
  | inl here ↦ inl (Memᴰ.tail here)
  | inr later ↦ inr later
]

module _ (sv : Semver) (index : RepositoryIndex sv) (installed : InstalledDb sv)
    (target_arch : String) where
  abbrev pub Named : Type 0
  Named = String × PackageMetadata sv

  -- A version that satisfies `req`, if it is no pre-release.
  abbrev pub Fits : sv.VersionReq → sv.Version → Type 0
  Fits req v = sv.is_release v ≡ true → sv.matches req v ≡ true

  -- Under the name `t` a package that satisfies `req` stands in `seen`, or is installed.
  abbrev pub Stands : List Named → String → sv.VersionReq → Type 0
  Stands seen t req =
      ((m : PackageMetadata sv) × Memᴰ (t, m) seen × Fits req m.version)
      ⊎ ((p : InstalledPackage sv) × (Packages.get sv installed t ≡ some p) × Fits req p.version)

  -- the same at any version
  abbrev pub StandsAtAll : List Named → String → Type 0
  StandsAtAll seen t =
      ((m : PackageMetadata sv) × Memᴰ (t, m) seen)
      ⊎ ((p : InstalledPackage sv) × (Packages.get sv installed t ≡ some p))

  -- The index lists the package, which can be installed here and provides the name.
  pub record IsProvider (name : String) (provider : PackageMetadata sv) : Type 0 where
    pub key : String
    pub versions : List (PackageMetadata sv)
    pub found : Memᴰ (key, versions) index.packages
    pub listed : Memᴰ provider versions
    pub provides : contains provider.provides name ≡ true
    pub compatible : is_compatible provider.arch target_arch ≡ true

  -- A dependency is met by a package of its name that satisfies its requirement; or, where the index
  -- lists no version of that name that satisfies it and can be installed here, by a package of the name
  -- of one that the index lists as providing it, at any version.
  pub data IsMetBy (seen : List Named) (d : Dependency sv) : Type 0 where
    by_name : Stands seen d.name d.version_req → IsMetBy seen d
    by_provider :
        (provider : PackageMetadata sv)
        → ((m : PackageMetadata sv) → ¬ (IsEligible sv index d.name d.version_req target_arch m))
        → IsProvider d.name provider
        → StandsAtAll seen provider.name
        → IsMetBy seen d

  -- Each package is a version that the index lists under its name and that can be installed here, and
  -- its dependencies are met by what stands before it, or by the system.
  abbrev pub IsPlanned : List Named → List Named → Type 0
  IsPlanned seen [] = Unit
  IsPlanned seen ((n, m) ∷ rest) =
      ((r : sv.VersionReq) × IsEligible sv index n r target_arch m)
      × ((d : Dependency sv) → Memᴰ d m.dependencies → IsMetBy seen d)
      × IsPlanned ((n, m) ∷ seen) rest

  in_some_versions :
      (m : PackageMetadata sv) (packages : HashMap String (List (PackageMetadata sv)))
      → Memᴰ m (all_versions sv index packages)
      → (k : String) × (versions : List (PackageMetadata sv)) × Memᴰ (k, versions) packages
        × Memᴰ m versions
  in_some_versions m [] i = absurd (Memᴰ.not-nil i)
  in_some_versions m ((k, versions) ∷ packages) i =
      elim (in_either m versions (all_versions sv index packages) i) [
        | inl here ↦ (k, versions, Memᴰ.head refl, here)
        | inr later ↦
            let (k', versions', a, b) = in_some_versions m packages later in
            (k', versions', Memᴰ.tail a, b)
      ]

  find_provider_for_arch-IsProvider :
      (name : String) (provider : PackageMetadata sv)
      → find_provider_for_arch sv index name target_arch ≡ some provider
      → IsProvider name provider
  unfolding find_provider_for_arch
  find_provider_for_arch-IsProvider name provider h =
      let provides_here : PackageMetadata sv → Bool =
        λ m. contains m.provides name && is_compatible m.arch target_arch in
      let (i, p) =
        mem-filter provides_here provider (all_versions sv index index.packages)
          (max_by_mem (by_key sv) _ provider h) in
      let (k, versions, a, b) = in_some_versions provider index.packages i in
      record {
        key = k;
        versions = versions;
        found = a;
        listed = b;
        provides = ground arith;
        compatible = ground arith;
      }

  -- where a dependency leads
  target-ok :
      (n : String) (d : Dependency sv) (t : String) (req : sv.VersionReq)
      → target sv index installed target_arch [] n d ≡ ok (t, req)
      → ((t ≡ d.name) × (req ≡ d.version_req))
        ⊎ ((provider : PackageMetadata sv) × ((m : PackageMetadata sv)
              → ¬ (IsEligible sv index d.name d.version_req target_arch m))
            × IsProvider d.name provider
            × (t ≡ provider.name))
  unfolding target
  target-ok n d t req h =
      elim (Option-cases (best_match_for_arch sv index d.name d.version_req target_arch)) [
        | inr (m, e) ↦ inl (ground arith)
        | inl e ↦ elim (Option-cases (find_provider_for_arch sv index d.name target_arch)) [
          | inl q ↦ absurd (ground arith)
          | inr (provider, q) ↦ inr (
            provider,
            λ m. best_match_for_arch-none sv index d.name d.version_req target_arch m e,
            find_provider_for_arch-IsProvider d.name provider q,
            ground arith,
          )
        ]
      ]

  abbrev pub packages_of : List Named → List (PackageMetadata sv)
  packages_of [] = []
  packages_of ((_, m) ∷ l) = m ∷ packages_of l

  -- the packages that are resolved under `names`
  pub pairs : List String → HashMap String (PackageMetadata sv) → List Named
  pairs [] full = []
  pairs (n ∷ ns) full = elim (HashMap.get n full) [
    | none ↦ pairs ns full
    | some m ↦ (n, m) ∷ pairs ns full
  ]

  pairs-none :
      (n : String) (ns : List String) (full : HashMap String (PackageMetadata sv))
      → HashMap.get n full ≡ none
      → pairs ns full ≡ pairs (n ∷ ns) full
  unfolding pairs
  pairs-none n ns full e = rw (e, pairs) refl

  pairs-some :
      (n : String) (m : PackageMetadata sv) (ns : List String)
      (full : HashMap String (PackageMetadata sv))
      → HashMap.get n full ≡ some m
      → (n, m) ∷ pairs ns full ≡ pairs (n ∷ ns) full
  unfolding pairs
  pairs-some n m ns full e = rw (e, pairs) refl

  pub collect-pairs :
      (names : List String) (rest full : HashMap String (PackageMetadata sv))
      → IsSetList names
      → ((n : String) → contains names n ≡ true → HashMap.get n rest ≡ HashMap.get n full)
      → collect sv index installed target_arch names rest ≡ packages_of (pairs names full)
  unfolding collect pairs
  collect-pairs [] rest full h same = refl
  collect-pairs (n ∷ ns) rest full h same = elim (Option-cases (HashMap.get n full)) [
    | inl e ↦
        rw (same n (ground arith), e, collect, pairs)
          (collect-pairs ns rest full h.1 (λ k i. same k (ground arith)))
    | inr (m, e) ↦
        rw (same n (ground arith), e, collect, pairs)
          (ap (λ l. m ∷ l)
            (collect-pairs ns (HashMap.remove n rest) full h.1
              (λ k i. ground (arith, get-remove k n rest, same k, h.0))))
  ]

  module _ (laws : JoinsComparators sv) (extra_reqs : HashMap String sv.VersionReq) (st : State sv)
      (sound : IsSound sv index installed target_arch extra_reqs st) where
    IsMetBy-of_Met :
        (seen : List Named) (names : List String) (n : String) (d : Dependency sv)
        → ((t : String) (m : PackageMetadata sv)
            → contains names t ≡ true
            → HashMap.get t st.resolved ≡ some m
            → Memᴰ (t, m) seen)
        → ((t : String) → contains (deps_of st.graph n) t ≡ true → contains names t ≡ true)
        → Met sv index installed target_arch extra_reqs st n d
        → IsMetBy seen d
    unfolding target
    IsMetBy-of_Met seen names n d shown behind k = elim (target-ok n d k.name k.req k.targeted) [
      | inl (same, req) ↦ by_name (
          subst (λ (w : String × sv.VersionReq). Stands seen w.0 w.1) (ground (arith, same, req))
            (find k.provided))
      | inr (provider, none_fits, provides, same) ↦
          by_provider provider none_fits provides
            (subst (StandsAtAll seen) same (at_all (find k.provided)))
    ]
      where
        at_all : Stands seen k.name k.req → StandsAtAll seen k.name
        at_all (inl (m, i, _)) = inl (m, i)
        at_all (inr (p, e, _)) = inr (p, e)

        find :
            Provided sv index installed target_arch extra_reqs st k.name k.req
            → Stands seen k.name k.req
        find (by_plan m e fits) = inl (
          m,
          shown k.name m (behind k.name k.edge) e,
          λ rel.
              effective-narrows sv laws index installed target_arch extra_reqs k.name k.req
                m.version rel fits,
        )
        find (by_system p e fits) = inr (
          p,
          e,
          λ rel.
              effective-narrows sv laws index installed target_arch extra_reqs k.name k.req
                p.version rel fits,
        )

    pub pairs-IsPlanned :
        (names before : List String) (seen : List Named)
        → IsOrdered st.graph before names
        → ((t : String) (m : PackageMetadata sv)
            → contains before t ≡ true
            → HashMap.get t st.resolved ≡ some m
            → Memᴰ (t, m) seen)
        → IsPlanned seen (pairs names st.resolved)
    unfolding pairs
    pairs-IsPlanned [] before seen o shown = tt
    pairs-IsPlanned (n ∷ ns) before seen o shown = elim (Option-cases (HashMap.get n st.resolved)) [
      | inl e ↦ subst (IsPlanned seen) (pairs-none n ns st.resolved e) (
          pairs-IsPlanned ns (n ∷ before) seen o.1 (λ t m i g. elim (string_eq.dec t n) [
            | yes p ↦ absurd (ground arith)
            | no q ↦ shown t m (ground arith) g
          ]))
      | inr (m, e) ↦ subst (IsPlanned seen) (pairs-some n m ns st.resolved e) (
        (let (r, best) = sound.picked n m e in
            (r, best_match_for_arch-IsEligible sv index n r target_arch m best)),
        λ d i. IsMetBy-of_Met seen before n d shown o.0 (sound.met n m d e i),
        pairs-IsPlanned ns (n ∷ before) ((n, m) ∷ seen) o.1 (λ t k i g. elim (string_eq.dec t n) [
          | yes p ↦ Memᴰ.head (ground arith)
          | no q ↦ Memᴰ.tail (shown t k (ground arith) g)
        ]),
      )
    ]

  pub pairs-Memᴰ :
      (names : List String) (full : HashMap String (PackageMetadata sv)) (n : String)
      (m : PackageMetadata sv)
      → contains names n ≡ true
      → HashMap.get n full ≡ some m
      → Memᴰ (n, m) (pairs names full)
  pairs-Memᴰ [] full n m i e = cc
  pairs-Memᴰ (k ∷ names) full n m i e = elim (Option-cases (HashMap.get k full)) [
    | inl absent ↦
        subst (λ l. Memᴰ (n, m) l) (pairs-none k names full absent)
          (elim (string_eq.dec n k) [
            | yes p ↦ absurd (ground (arith, ap (λ x. HashMap.get x full) p))
            | no q ↦ pairs-Memᴰ names full n m (ground arith) e
          ])
    | inr (x, there) ↦
        subst (λ l. Memᴰ (n, m) l) (pairs-some k x names full there)
          (elim (string_eq.dec n k) [
            | yes p ↦ Memᴰ.head (ground (arith, ap (λ y. HashMap.get y full) p))
            | no q ↦ Memᴰ.tail (pairs-Memᴰ names full n m (ground arith) e)
          ])
  ]
