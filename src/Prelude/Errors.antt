-- ===== src/Prelude/Errors.antt =====
-- Rust's `Result`, and its `?` operator as `>>=`.
use mathlib.Core.Path.{◌≡◌, refl}
use mathlib.Core.Logic.{◌⊎◌, inl, inr}
use mathlib.Core.Option.{Option, none, some}

pub data Result {ℓ κ} (T : Type ℓ) (X : Type κ) : Type (ℓ ⊔ κ) where
  err : X → Result T X
  ok : T → Result T X

pub Result-cases {ℓ κ} :
    {T : Type ℓ} {X : Type κ} (r : Result T X) → ((t : T) × (r ≡ ok t)) ⊎ ((x : X) × (r ≡ err x))
Result-cases (err x) = inr (x, refl)
Result-cases (ok t) = inl (t, refl)

-- `Option::ok_or_else`
abbrev pub ok_or {ℓ κ} : {T : Type ℓ} {X : Type κ} → Option T → X → Result T X
ok_or (some t) x = ok t
ok_or none x = err x

module _ {ℓ κ μ} {S : Type ℓ} {T : Type κ} {X : Type μ} where
  infixl 5 ◌>>=◌
  abbrev pub ◌>>=◌ : Result S X → (S → Result T X) → Result T X
  err x >>= next = err x
  ok s >>= next = next s

  -- The first step of a chain that succeeds has succeeded, and what follows it succeeds on its value.
  pub >>=-ok :
      (first : Result S X) (next : S → Result T X) {t : T}
      → (first >>= next) ≡ ok t
      → (s : S) × (first ≡ ok s) × (next s ≡ ok t)
  >>=-ok (err x) next h = cc
  >>=-ok (ok s) next h = (s, refl, h)
