-- ===== src/Prelude/Lists.antt =====
-- Lists over native numbers, and membership tests on lists of keys.
use Prim.Native.Nat.{ℕ, suc, ◌+◌}
use mathlib.Core.Path.{◌≡◌, refl}
use mathlib.Core.Logic.{inl, inr}
use mathlib.Core.Bool.{Bool, true, false, not, ◌&&◌, ◌||◌}
use mathlib.Core.List.Memᴰ
use mathlib.Core.List.{List, [], ◌∷◌, ◌++◌, Memᴰ}
use native.Mathlib.Omega.{arith}
use mitos_pkg.Prelude.Equality.{Eq, ◌==◌}
use mitos_pkg.Prelude.Tests.{if◌then◌else◌, Bool-cases}

module _ {ℓ} {A : Type ℓ} where
  abbrev pub length : List A → ℕ
  length [] = 0
  length (x ∷ xs) = suc (length xs)

  -- `Iterator::any`, `Iterator::filter`
  abbrev pub any : (A → Bool) → List A → Bool
  any p [] = false
  any p (x ∷ xs) = p x || any p xs

  abbrev pub filter : (A → Bool) → List A → List A
  filter p [] = []
  filter p (x ∷ xs) = let rest = filter p xs in if p x then x ∷ rest else rest

  pub length-append : (xs ys : List A) → length (xs ++ ys) ≡ length xs + length ys
  length-append [] ys = omega arith
  length-append (x ∷ xs) ys = omega (arith, length-append xs ys)

  pub any-of_mem : (p : A → Bool) (a : A) (xs : List A) → Memᴰ a xs → p a ≡ true → any p xs ≡ true
  any-of_mem p a [] m h = absurd (Memᴰ.not-nil m)
  any-of_mem p a (x ∷ xs) (Memᴰ.head e) h = rw (← e, h)
  any-of_mem p a (x ∷ xs) (Memᴰ.tail m) h = ground (arith, any-of_mem p a xs m h)

  pub mem-of_any :
      (p : A → Bool) (xs : List A) → any p xs ≡ true → (a : A) × Memᴰ a xs × (p a ≡ true)
  mem-of_any p [] h = cc
  mem-of_any p (x ∷ xs) h = elim (Bool-cases (p x)) [
    | inl e ↦ (x, Memᴰ.head refl, e)
    | inr e ↦ let (a, m, q) = mem-of_any p xs (rw e at h) in (a, Memᴰ.tail m, q)
  ]

  pub mem-filter :
      (p : A → Bool) (a : A) (xs : List A) → Memᴰ a (filter p xs) → Memᴰ a xs × (p a ≡ true)
  mem-filter p a [] m = absurd (Memᴰ.not-nil m)
  mem-filter p a (x ∷ xs) m = elim (Bool-cases (p x)) [
    | inl e ↦ elim (Memᴰ.cases_cons (rw e at m)) [
      | inl here ↦ (Memᴰ.head here, rw here e)
      | inr later ↦ let (n, q) = mem-filter p a xs later in (Memᴰ.tail n, q)
    ]
    | inr e ↦ let (n, q) = mem-filter p a xs (rw e at m) in (Memᴰ.tail n, q)
  ]

  pub mem-filter_of :
      (p : A → Bool) (a : A) (xs : List A) → Memᴰ a xs → p a ≡ true → Memᴰ a (filter p xs)
  mem-filter_of p a [] m h = m
  mem-filter_of p a (x ∷ xs) (Memᴰ.head e) h = rw (← e, h) (Memᴰ.head refl)
  mem-filter_of p a (x ∷ xs) (Memᴰ.tail m) h = elim (Bool-cases (p x)) [
    | inl e ↦ rw e (Memᴰ.tail (mem-filter_of p a xs m h))
    | inr e ↦ rw e (mem-filter_of p a xs m h)
  ]

module _ {ℓ} {A : Type ℓ} ⦃e : Eq A⦄ where
  -- `Vec::contains`, `HashSet::contains`
  abbrev pub contains : List A → A → Bool
  contains [] a = false
  contains (x ∷ xs) a = a == x || contains xs a

  -- `HashSet::insert`: a new element goes to the end.
  abbrev pub add : A → List A → List A
  add a [] = a ∷ []
  add a (x ∷ xs) = if a == x then x ∷ xs else x ∷ add a xs

  -- `HashSet::remove`
  abbrev pub discard : A → List A → List A
  discard a [] = []
  discard a (x ∷ xs) = let rest = discard a xs in if a == x then rest else x ∷ rest

  -- No element is listed twice.
  abbrev pub IsSetList : List A → Type 0
  IsSetList [] = Unit
  IsSetList (x ∷ xs) = (contains xs x ≡ false) × IsSetList xs

  pub contains-append :
      (xs ys : List A) (a : A) → contains (xs ++ ys) a ≡ (contains xs a || contains ys a)
  contains-append [] ys a = refl
  contains-append (x ∷ xs) ys a = ground (arith, contains-append xs ys a)

  pub contains-add :
      (b : A) (xs : List A) (a : A) → contains (add b xs) a ≡ (a == b || contains xs a)
  contains-add b [] a = refl
  contains-add b (x ∷ xs) a = ground (arith, contains-add b xs a)

  pub contains-discard :
      (b : A) (xs : List A) (a : A) → contains (discard b xs) a ≡ (not (a == b) && contains xs a)
  contains-discard b [] a = ground arith
  contains-discard b (x ∷ xs) a = ground (arith, contains-discard b xs a)

  pub add-IsSetList : (b : A) (xs : List A) → IsSetList xs → IsSetList (add b xs)
  add-IsSetList b [] h = (refl, tt)
  add-IsSetList b (x ∷ xs) h = ground (arith, add-IsSetList b xs h.1, contains-add b xs x)

  pub mem-of_contains : (xs : List A) (a : A) → contains xs a ≡ true → Memᴰ a xs
  mem-of_contains [] a h = cc
  mem-of_contains (x ∷ xs) a h = elim (e.dec a x) [
    | yes p ↦ Memᴰ.head p
    | no n ↦ Memᴰ.tail (mem-of_contains xs a (ground arith))
  ]

  pub contains-of_mem : (xs : List A) (a : A) → Memᴰ a xs → contains xs a ≡ true
  contains-of_mem [] a m = absurd (Memᴰ.not-nil m)
  contains-of_mem (x ∷ xs) a (Memᴰ.head p) = ground arith
  contains-of_mem (x ∷ xs) a (Memᴰ.tail m) = ground (arith, contains-of_mem xs a m)

  discard_fresh : (a : A) (xs : List A) → contains xs a ≡ false → discard a xs ≡ xs
  discard_fresh a [] h = refl
  discard_fresh a (x ∷ xs) h = ground (arith, discard_fresh a xs)

  pub discard-add : (a : A) (xs : List A) → contains xs a ≡ false → discard a (add a xs) ≡ xs
  discard-add a [] h = ground arith
  discard-add a (x ∷ xs) h = ground (arith, discard-add a xs)
