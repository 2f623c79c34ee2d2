-- ===== src/Repository/Index/Best.antt =====
-- What the lookups of the index pick.
use mathlib.Core.List.Memᴰ
use mathlib.Core.Option.{some-injective, none-ne-some}
use mitos_pkg.Prelude.{
  sym, Option-cases, ◌∙◌, subst, List, [], ◌∷◌, ◌≡◌, refl, ◌≢◌, Memᴰ, some, none, arith, Ordering,
  ◌⊎◌, inl, inr, Bool, true, filter, String, string_eq, ◌&&◌, mem-filter, mem-filter_of,
}
use mitos_pkg.Prelude.Int.{ℤ, pos, negsuc, compare_ℤ}
use mitos_pkg.Prelude.HashMap
use mitos_pkg.Semver.{Semver}
use mitos_pkg.Package.Arch.{is_compatible}
use mitos_pkg.Repository.Metadata.{PackageMetadata}
use mitos_pkg.Repository.Index.{keep_max, max_by, by_key, RepositoryIndex, best_match_for_arch}

-- `a` is not greater than `b`
abbrev pub AtMost {ℓ} : {A : Type ℓ} → (A → A → Ordering) → A → A → Type 0
AtMost cmp a b = cmp a b ≢ Ordering.gt

-- What the trait `Ord` asks of a comparison.
pub record IsOrd {ℓ} {A : Type ℓ} (cmp : A → A → Ordering) : Type ℓ where
  pub self : (a : A) → cmp a a ≡ Ordering.eq
  pub flip_gt : (a b : A) → cmp a b ≡ Ordering.gt → cmp b a ≡ Ordering.lt
  pub flip_eq : (a b : A) → cmp a b ≡ Ordering.eq → cmp b a ≡ Ordering.eq
  pub flip_lt : (a b : A) → cmp a b ≡ Ordering.lt → cmp b a ≡ Ordering.gt
  pub trans : (a b c : A) → AtMost cmp a b → AtMost cmp b c → AtMost cmp a c

Ordering-cases : (o : Ordering) → (o ≡ Ordering.gt) ⊎ (o ≢ Ordering.gt)
Ordering-cases Ordering.gt = inl refl
Ordering-cases Ordering.lt = inr (λ e. cc)
Ordering-cases Ordering.eq = inr (λ e. cc)

module _ {ℓ} {A : Type ℓ} (cmp : A → A → Ordering) where
  abbrev greater : A → A → A
  greater best x = elim (cmp best x) [ Ordering.gt ↦ best | _ ↦ x ]

  greater_cases :
      (best x : A)
      → (cmp best x ≡ Ordering.gt) × (greater best x ≡ best)
        ⊎ AtMost cmp best x × (greater best x ≡ x)
  greater_cases best x = elim (Ordering-cases (cmp best x)) [
    | inl e ↦ inl (e, rw (e, greater) refl)
    | inr n ↦ inr (n, ground arith)
  ]

  keep_max_mem :
      (best : A) (xs : List A) → (keep_max cmp best xs ≡ best) ⊎ Memᴰ (keep_max cmp best xs) xs
  keep_max_mem best [] = inl refl
  keep_max_mem best (x ∷ xs) = elim (keep_max_mem (greater best x) xs) [
    | inr later ↦ inr (Memᴰ.tail later)
    | inl e ↦ elim (greater_cases best x) [
      | inl (_, same) ↦ inl (e ∙ same)
      | inr (_, same) ↦ inr (Memᴰ.head (e ∙ same))
    ]
  ]

  pub max_by_mem : (xs : List A) (a : A) → max_by cmp xs ≡ some a → Memᴰ a xs
  unfolding max_by
  max_by_mem [] a h = cc
  max_by_mem (x ∷ xs) a h = elim (keep_max_mem x xs) [
    | inl e ↦ Memᴰ.head (cc)
    | inr m ↦ Memᴰ.tail (subst (λ b. Memᴰ b xs) (cc) m)
  ]

  module _ (o : IsOrd cmp) where
    le_greater : (best x : A) → AtMost cmp best (greater best x) × AtMost cmp x (greater best x)
    le_greater best x = elim (greater_cases best x) [
      | inl (e, same) ↦ rw same (λ p. cc (o.self best), λ p. cc (o.flip_gt best x e))
      | inr (n, same) ↦ rw same (n, λ p. cc (o.self x))
    ]

    le_keep_max :
        (best : A) (xs : List A)
        → AtMost cmp best (keep_max cmp best xs)
          × ((x : A) → Memᴰ x xs → AtMost cmp x (keep_max cmp best xs))
    le_keep_max best [] = (λ p. cc (o.self best), λ x m. absurd (Memᴰ.not-nil m))
    le_keep_max best (y ∷ ys) =
        let (up, all) = le_keep_max (greater best y) ys in
        let (l, r) = le_greater best y in
        (
          o.trans best (greater best y) _ l up,
          λ x m. elim (Memᴰ.cases_cons m) [
            | inl e ↦ rw e (o.trans y (greater best y) _ r up)
            | inr later ↦ all x later
          ],
        )

    pub le_max_by : (xs : List A) (a x : A) → max_by cmp xs ≡ some a → Memᴰ x xs → AtMost cmp x a
    unfolding max_by
    le_max_by [] a x h m = cc
    le_max_by (y ∷ ys) a x h m =
        let (up, all) = le_keep_max y ys in
        subst (AtMost cmp x) (some-injective _ _ h)
          (elim (Memᴰ.cases_cons m) [ inl e ↦ rw e up | inr later ↦ all x later ])

ℤ-IsOrd : IsOrd compare_ℤ
ℤ-IsOrd = record {
  self = self;
  flip_gt = flip_gt;
  flip_eq = flip_eq;
  flip_lt = flip_lt;
  trans = trans;
}
  where
    self : (a : ℤ) → compare_ℤ a a ≡ Ordering.eq
    self (pos a) = ground arith
    self (negsuc a) = ground arith

    flip_gt : (a b : ℤ) → compare_ℤ a b ≡ Ordering.gt → compare_ℤ b a ≡ Ordering.lt
    flip_gt (pos a) (pos b) h = ground arith
    flip_gt (pos a) (negsuc b) h = refl
    flip_gt (negsuc a) (pos b) h = cc
    flip_gt (negsuc a) (negsuc b) h = ground arith

    flip_eq : (a b : ℤ) → compare_ℤ a b ≡ Ordering.eq → compare_ℤ b a ≡ Ordering.eq
    flip_eq (pos a) (pos b) h = ground arith
    flip_eq (pos a) (negsuc b) h = cc
    flip_eq (negsuc a) (pos b) h = cc
    flip_eq (negsuc a) (negsuc b) h = ground arith

    flip_lt : (a b : ℤ) → compare_ℤ a b ≡ Ordering.lt → compare_ℤ b a ≡ Ordering.gt
    flip_lt (pos a) (pos b) h = ground arith
    flip_lt (pos a) (negsuc b) h = cc
    flip_lt (negsuc a) (pos b) h = refl
    flip_lt (negsuc a) (negsuc b) h = ground arith

    trans : (a b c : ℤ) → AtMost compare_ℤ a b → AtMost compare_ℤ b c → AtMost compare_ℤ a c
    trans (pos a) (pos b) (pos c) h k = ground arith
    trans (pos a) (pos b) (negsuc c) h k = absurd (k refl)
    trans (pos a) (negsuc b) c h k = absurd (h refl)
    trans (negsuc a) (pos b) (negsuc c) h k = absurd (k refl)
    trans (negsuc a) b (pos c) h k = λ e. cc
    trans (negsuc a) (negsuc b) (negsuc c) h k = ground arith

module _ (sv : Semver) (o : IsOrd sv.cmp) where
  by_key-IsOrd : IsOrd (by_key sv)
  unfolding by_key
  by_key-IsOrd = record {
    self = λ a. ground (arith, o.self a.version, ℤ-IsOrd.self a.priority);
    flip_gt = λ a b h. ground (
      arith,
      o.flip_gt a.version b.version,
      o.flip_eq a.version b.version,
      ℤ-IsOrd.flip_gt a.priority b.priority,
    );
    flip_eq = λ a b h.
        ground (arith, o.flip_eq a.version b.version, ℤ-IsOrd.flip_eq a.priority b.priority);
    flip_lt = λ a b h. ground (
      arith,
      o.flip_lt a.version b.version,
      o.flip_eq a.version b.version,
      ℤ-IsOrd.flip_lt a.priority b.priority,
    );
    trans = λ a b c h k. ground (
      arith,
      o.trans a.version b.version c.version,
      o.trans c.version a.version b.version,
      o.trans b.version c.version a.version,
      o.flip_eq a.version c.version,
      o.flip_lt a.version b.version,
      o.flip_lt b.version c.version,
      ℤ-IsOrd.trans a.priority b.priority c.priority,
    );
  }

module _ (sv : Semver) (index : RepositoryIndex sv) (name : String) (req : sv.VersionReq)
    (target_arch : String) where
  -- A version that the index lists under `name`, that matches `req` and that can be installed here.
  pub record IsEligible (m : PackageMetadata sv) : Type 0 where
    pub versions : List (PackageMetadata sv)
    pub found : HashMap.get name index.packages ≡ some versions
    pub listed : Memᴰ m versions
    pub matching : sv.matches req m.version ≡ true
    pub compatible : is_compatible m.arch target_arch ≡ true

  abbrev eligible : PackageMetadata sv → Bool
  eligible m = sv.matches req m.version && is_compatible m.arch target_arch

  best_in :
      (versions : List (PackageMetadata sv))
      → HashMap.get name index.packages ≡ some versions
      → best_match_for_arch sv index name req target_arch
        ≡ max_by (by_key sv) (filter eligible versions)
  unfolding best_match_for_arch
  best_in versions e = rw (e, best_match_for_arch) refl

  pub best_match_for_arch-IsEligible :
      (m : PackageMetadata sv)
      → best_match_for_arch sv index name req target_arch ≡ some m
      → IsEligible m
  unfolding best_match_for_arch
  best_match_for_arch-IsEligible m h = elim (Option-cases (HashMap.get name index.packages)) [
    | inl e ↦ absurd (none-ne-some m (rw (e, best_match_for_arch) at h))
    | inr (versions, e) ↦
        let (i, p) =
          mem-filter eligible m versions
            (max_by_mem (by_key sv) (filter eligible versions) m (sym (best_in versions e) ∙ h)) in
        record {
          versions = versions;
          found = e;
          listed = i;
          matching = ground arith;
          compatible = ground arith;
        }
  ]

  -- When versions are totally ordered, what `best_match_for_arch` picks is listed under the name,
  -- matches the requirement and can be installed on the architecture, and no such version is
  -- greater, nor equal with a greater priority.
  pub best_match_for_arch-newest :
      (o : IsOrd sv.cmp) (m x : PackageMetadata sv)
      → best_match_for_arch sv index name req target_arch ≡ some m
      → IsEligible x
      → IsEligible m × AtMost (by_key sv) x m
  best_match_for_arch-newest o m x h e = (
    best_match_for_arch-IsEligible m h,
    le_max_by (by_key sv) (by_key-IsOrd sv o) (filter eligible e.versions) m x
        (sym (best_in e.versions e.found) ∙ h)
        (mem-filter_of eligible x e.versions e.listed (ground (arith, e.matching, e.compatible))),
  )

  max_by_nil :
      (xs : List (PackageMetadata sv)) (x : PackageMetadata sv)
      → max_by (by_key sv) xs ≡ none
      → ¬ Memᴰ x xs
  unfolding max_by
  max_by_nil [] x h m = Memᴰ.not-nil m
  max_by_nil (y ∷ ys) x h m = cc

  -- `best_match_for_arch` finds nothing only if no version that is listed under the name matches
  -- the requirement and can be installed on the architecture.
  pub best_match_for_arch-none :
      (x : PackageMetadata sv)
      → best_match_for_arch sv index name req target_arch ≡ none
      → ¬ IsEligible x
  best_match_for_arch-none x h e =
      max_by_nil (filter eligible e.versions) x (sym (best_in e.versions e.found) ∙ h)
        (mem-filter_of eligible x e.versions e.listed (ground (arith, e.matching, e.compatible)))
