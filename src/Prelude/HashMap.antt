-- ===== src/Prelude/HashMap.antt =====
-- Rust's `HashMap` as an association list. Rust leaves the order of an iteration open: here it is
-- the order of the list, so a theorem about every list holds for every order of iteration.
use Prim.Native.Nat.{suc, ◌≤◌, ◌<◌}
use mathlib.Core.Path.{◌≡◌, refl, sym, ap, ◌∙◌}
use mathlib.Core.Logic.{inl, inr}
use mathlib.Core.Bool.{Bool, true, false, ◌||◌}
use mathlib.Core.Option
use mathlib.Core.Option.{Option, none, some, none-ne-some}
use mathlib.Core.List.Memᴰ
use mathlib.Core.List.{List, [], ◌∷◌, Memᴰ}
use native.Mathlib.Omega.{arith}
use mitos_pkg.Prelude.Equality.{Eq, ◌==◌}
use mitos_pkg.Prelude.Tests.{if◌then◌else◌, Bool-cases}
use mitos_pkg.Prelude.Lists.{contains, IsSetList, length}

abbrev pub HashMap {ℓ κ} : Type ℓ → Type κ → Type (ℓ ⊔ κ)
HashMap K V = List (K × V)

module _ {ℓ κ} {K : Type ℓ} {V : Type κ} where
  abbrev pub keys : HashMap K V → List K
  keys [] = []
  keys ((k, _) ∷ m) = k ∷ keys m

  abbrev pub values : HashMap K V → List V
  values [] = []
  values ((_, v) ∷ m) = v ∷ values m

  pub length-keys : (m : HashMap K V) → length (keys m) ≡ length m
  length-keys [] = refl
  length-keys (_ ∷ m) = ap suc (length-keys m)

module _ {ℓ κ} {K : Type ℓ} {V : Type κ} ⦃e : Eq K⦄ where
  unfoldable pub get : K → HashMap K V → Option V
  get k [] = none
  get k ((j, v) ∷ m) = if k == j then some v else get k m

  unfoldable pub insert : K → V → HashMap K V → HashMap K V
  insert k v [] = (k, v) ∷ []
  insert k v ((j, w) ∷ m) = if k == j then (k, v) ∷ m else (j, w) ∷ insert k v m

  unfoldable pub remove : K → HashMap K V → HashMap K V
  remove k [] = []
  remove k ((j, w) ∷ m) = let rest = remove k m in if k == j then rest else (j, w) ∷ rest

  -- A write through `get_mut` or `entry`.
  unfoldable pub update : K → (V → V) → HashMap K V → HashMap K V
  update k f [] = []
  update k f ((j, w) ∷ m) = if k == j then (j, f w) ∷ m else (j, w) ∷ update k f m

  unfoldable pub contains_key : K → HashMap K V → Bool
  unfolding get
  contains_key k m = elim (get k m) [ none ↦ false | some _ ↦ true ]

  -- Each key has one entry.
  abbrev pub IsMap : HashMap K V → Type κ
  IsMap [] = Unit
  IsMap ((k, _) ∷ m) = (get k m ≡ none) × IsMap m

  pub get-insert :
      (j k : K) (v : V) (m : HashMap K V)
      → get j (insert k v m) ≡ (if j == k then some v else get j m)
  unfolding get insert
  get-insert j k v [] = refl
  get-insert j k v (_ ∷ m) = ground (arith, get-insert j k v m)

  pub get-remove :
      (j k : K) (m : HashMap K V) → get j (remove k m) ≡ (if j == k then none else get j m)
  unfolding get remove
  get-remove j k [] = ground arith
  get-remove j k (_ ∷ m) = ground (arith, get-remove j k m)

  pub get-update :
      (j k : K) (f : V → V) (m : HashMap K V)
      → get j (update k f m) ≡ (if j == k then Option.map f (get j m) else get j m)
  unfolding get update
  get-update j k f [] = ground arith
  get-update j k f (_ ∷ m) = ground (arith, get-update j k f m)

  pub insert-IsMap : (k : K) (v : V) (m : HashMap K V) → IsMap m → IsMap (insert k v m)
  unfolding insert get
  insert-IsMap k v [] h = (refl, tt)
  insert-IsMap k v ((j, w) ∷ m) h = ground (arith, insert-IsMap k v m h.1, get-insert j k v m)

  pub remove-IsMap : (k : K) (m : HashMap K V) → IsMap m → IsMap (remove k m)
  unfolding remove
  remove-IsMap k [] h = tt
  remove-IsMap k ((j, w) ∷ m) h = ground (arith, remove-IsMap k m h.1, get-remove j k m)

  pub update-IsMap : (k : K) (f : V → V) (m : HashMap K V) → IsMap m → IsMap (update k f m)
  unfolding update
  update-IsMap k f [] h = tt
  update-IsMap k f ((j, w) ∷ m) h = ground (arith, update-IsMap k f m h.1, get-update j k f m)

  pub contains_key-eq : (k : K) (m : HashMap K V) → contains_key k m ≡ contains (keys m) k
  unfolding contains_key get
  contains_key-eq k [] = refl
  contains_key-eq k (_ ∷ m) = ground (arith, contains_key-eq k m)

  -- What an iteration visits is what a lookup finds.
  pub get_of_mem : (k : K) (v : V) (m : HashMap K V) → IsMap m → Memᴰ (k, v) m → get k m ≡ some v
  unfolding get
  get_of_mem k v [] h i = absurd (Memᴰ.not-nil i)
  get_of_mem k v ((j, w) ∷ m) h (Memᴰ.head p) = ground arith
  get_of_mem k v ((j, w) ∷ m) h (Memᴰ.tail i) = ground (arith, get_of_mem k v m h.1 i)

  pub mem_of_get : (k : K) (v : V) (m : HashMap K V) → get k m ≡ some v → Memᴰ (k, v) m
  unfolding get
  mem_of_get k v [] h = cc
  mem_of_get k v ((j, w) ∷ m) h = elim (e.dec k j) [
    | yes p ↦ Memᴰ.head (ground arith)
    | no n ↦ Memᴰ.tail (mem_of_get k v m (ground arith))
  ]

  -- `*map.entry(k).or_insert(d)` written through `f`
  unfoldable pub entry : K → V → (V → V) → HashMap K V → HashMap K V
  entry k d f [] = (k, f d) ∷ []
  entry k d f ((j, w) ∷ m) = if k == j then (j, f w) ∷ m else (j, w) ∷ entry k d f m

  abbrev pub get_or : K → V → HashMap K V → V
  get_or k d m = elim (get k m) [ none ↦ d | some v ↦ v ]

  pub get-entry :
      (j k : K) (d : V) (f : V → V) (m : HashMap K V)
      → get j (entry k d f m) ≡ (if j == k then some (f (get_or k d m)) else get j m)
  unfolding get entry
  get-entry j k d f [] = refl
  get-entry j k d f (_ ∷ m) = ground (arith, get-entry j k d f m)

  pub keys-entry :
      (k : K) (d : V) (f : V → V) (m : HashMap K V)
      → contains (keys m) k ≡ true
      → keys (entry k d f m) ≡ keys m
  unfolding entry
  keys-entry k d f [] h = cc
  keys-entry k d f ((j, w) ∷ m) h = ground (arith, keys-entry k d f m)

  pub keys-update : (k : K) (f : V → V) (m : HashMap K V) → keys (update k f m) ≡ keys m
  unfolding update
  keys-update k f [] = refl
  keys-update k f (_ ∷ m) = ground (arith, keys-update k f m)

  pub get_of_contains_keys :
      (k : K) (m : HashMap K V) → contains (keys m) k ≡ true → (v : V) × (get k m ≡ some v)
  unfolding get
  get_of_contains_keys k [] h = cc
  get_of_contains_keys k ((j, w) ∷ m) h = elim (e.dec k j) [
    | yes p ↦ (w, ground arith)
    | no n ↦ let (v, g) = get_of_contains_keys k m (ground arith) in (v, ground arith)
  ]

  pub contains-keys_of_get :
      (k : K) (v : V) (m : HashMap K V) → get k m ≡ some v → contains (keys m) k ≡ true
  unfolding get
  contains-keys_of_get k v [] h = cc
  contains-keys_of_get k v ((j, w) ∷ m) h = ground (arith, contains-keys_of_get k v m)

  pub keys-IsSetList : (m : HashMap K V) → IsMap m → IsSetList (keys m)
  unfolding get
  keys-IsSetList [] h = tt
  keys-IsSetList ((j, w) ∷ m) h = elim (Bool-cases (contains (keys m) j)) [
    | inl p ↦ let (v, g) = get_of_contains_keys j m p in absurd (none-ne-some v (sym h.0 ∙ g))
    | inr p ↦ (p, keys-IsSetList m h.1)
  ]

  pub entry-IsMap : (k : K) (d : V) (f : V → V) (m : HashMap K V) → IsMap m → IsMap (entry k d f m)
  unfolding entry get
  entry-IsMap k d f [] h = (refl, tt)
  entry-IsMap k d f ((j, w) ∷ m) h = ground (arith, entry-IsMap k d f m h.1, get-entry j k d f m)

  pub contains-keys-entry :
      (j k : K) (d : V) (f : V → V) (m : HashMap K V)
      → contains (keys (entry k d f m)) j ≡ (j == k || contains (keys m) j)
  unfolding entry
  contains-keys-entry j k d f [] = refl
  contains-keys-entry j k d f (_ ∷ m) = ground (arith, contains-keys-entry j k d f m)

  length-remove_le : (k : K) (m : HashMap K V) → length (remove k m) ≤ length m
  unfolding remove
  length-remove_le k [] = omega arith
  length-remove_le k ((j, w) ∷ m) = ground (arith, length-remove_le k m)

  -- A removal of what is there makes the map smaller.
  pub length-remove :
      (k : K) (v : V) (m : HashMap K V) → get k m ≡ some v → length (remove k m) < length m
  unfolding remove get
  length-remove k v [] h = cc
  length-remove k v ((j, w) ∷ m) h = ground (arith, length-remove_le k m, length-remove k v m)
