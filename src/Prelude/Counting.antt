-- ===== src/Prelude/Counting.antt =====
-- Lists without repetitions: how they are joined, and how long they can be.
use mitos_pkg.Prelude.{
  suc, ◌≤◌, ◌≡◌, refl, Bool, true, false, ◌&&◌, List, [], ◌∷◌, ◌++◌, inl, inr, arith, Eq, contains,
  discard, IsSetList, filter, length, contains-append, contains-discard, Bool-cases,
}

module _ {ℓ} {A : Type ℓ} ⦃e : Eq A⦄ where
  pub contains-filter :
      (p : A → Bool) (xs : List A) (a : A) → contains (filter p xs) a ≡ (p a && contains xs a)
  contains-filter p [] a = ground arith
  contains-filter p (x ∷ xs) a = elim (e.dec a x) [
    | yes q ↦ rw q (ground (arith, contains-filter p xs x))
    | no n ↦ ground (arith, contains-filter p xs a)
  ]

  pub filter-IsSetList : (p : A → Bool) (xs : List A) → IsSetList xs → IsSetList (filter p xs)
  filter-IsSetList p [] h = tt
  filter-IsSetList p (x ∷ xs) h = ground (arith, filter-IsSetList p xs h.1, contains-filter p xs x)

  pub append-IsSetList :
      (xs ys : List A)
      → IsSetList xs
      → IsSetList ys
      → ((a : A) → contains xs a ≡ true → contains ys a ≡ false)
      → IsSetList (xs ++ ys)
  append-IsSetList [] ys hx hy apart = hy
  append-IsSetList (x ∷ xs) ys hx hy apart = (
    ground (arith, contains-append xs ys x, apart x),
    append-IsSetList xs ys hx.1 hy (λ a m. apart a (ground arith)),
  )

  pub IsSetList-append_left : (xs ys : List A) → IsSetList (xs ++ ys) → IsSetList xs
  IsSetList-append_left [] ys h = tt
  IsSetList-append_left (x ∷ xs) ys h =
      ground (arith, IsSetList-append_left xs ys h.1, contains-append xs ys x)

  discard_absent : (a : A) (xs : List A) → contains xs a ≡ false → discard a xs ≡ xs
  discard_absent a [] h = refl
  discard_absent a (x ∷ xs) h = ground (arith, discard_absent a xs)

  length-discard :
      (a : A) (xs : List A)
      → IsSetList xs
      → contains xs a ≡ true
      → suc (length (discard a xs)) ≡ length xs
  length-discard a [] h m = cc
  length-discard a (x ∷ xs) h m = ground (arith, length-discard a xs h.1, discard_absent x xs h.0)

  discard-IsSetList : (a : A) (xs : List A) → IsSetList xs → IsSetList (discard a xs)
  discard-IsSetList a [] h = tt
  discard-IsSetList a (x ∷ xs) h =
      ground (arith, discard-IsSetList a xs h.1, contains-discard a xs x)

  -- A list without repetitions is no longer than one that holds its elements.
  pub length-le :
      (xs ys : List A)
      → IsSetList xs
      → IsSetList ys
      → ((a : A) → contains xs a ≡ true → contains ys a ≡ true)
      → length xs ≤ length ys
  length-le [] ys hx hy sub = omega arith
  length-le (x ∷ xs) ys hx hy sub =
      let shorter =
        length-le xs (discard x ys) hx.1 (discard-IsSetList x ys hy)
          (λ a m. ground (arith, sub a, contains-discard x ys a)) in
      omega (arith, length-discard x ys hy (sub x (ground arith)))

  -- Of two such lists, one inside the other, of equal length, both hold the same elements.
  pub contains_of_length :
      (xs ys : List A)
      → IsSetList xs
      → IsSetList ys
      → ((a : A) → contains xs a ≡ true → contains ys a ≡ true)
      → length ys ≤ length xs
      → (a : A) → contains ys a ≡ true
      → contains xs a ≡ true
  contains_of_length xs ys hx hy sub h a m = elim (Bool-cases (contains xs a)) [
    | inl p ↦ p
    | inr p ↦
        let longer =
          length-le (a ∷ xs) ys (p, hx) hy
            (λ b n. elim (e.dec b a) [ yes q ↦ rw q m | no q ↦ sub b (ground arith) ]) in
        absurd (omega arith)
  ]

  pub append_apart :
      (xs ys : List A) (a : A) → IsSetList (xs ++ ys) → contains ys a ≡ true → contains xs a ≡ false
  append_apart [] ys a h m = refl
  append_apart (x ∷ xs) ys a h m = ground (arith, append_apart xs ys a h.1, contains-append xs ys x)
