-- ===== src/Package/Arch.antt =====
-- src/package/arch.rs
use Prim.Native.Char.{code}
use mitos_pkg.Prelude.{
  ℕ, ◌+◌, String, Bool, true, ◌&&◌, ◌||◌, List, [], ◌∷◌, any, leb, if◌then◌else◌, ◌==◌, Eq, list_eq,
}
use native.Mathlib.Decide.{ℕ_discrete}

instance abbrev nat_eq : Eq ℕ
nat_eq = record { dec = ℕ_discrete }

-- `u8::to_ascii_lowercase`
pub ascii_lower : ℕ → ℕ
ascii_lower c = if leb b'A' c && leb c b'Z' then c + 32 else c

pub lower_codes : String → List ℕ
lower_codes String.[] = []
lower_codes (String.◌∷◌ c s) = ascii_lower (code c) ∷ lower_codes s

-- `str::eq_ignore_ascii_case`
unfoldable pub eq_ignore_ascii_case : String → String → Bool
unfolding lower_codes ascii_lower list_eq
eq_ignore_ascii_case a b = lower_codes a == lower_codes b

abbrev pub any_arch : String
any_arch = "any"

abbrev pub default_arch : List String
default_arch = any_arch ∷ []

abbrev is_empty {ℓ} : {A : Type ℓ} → List A → Bool
is_empty [] = true
is_empty _ = Bool.false

unfoldable pub is_compatible : List String → String → Bool
unfolding eq_ignore_ascii_case
is_compatible pkg_arch target =
    is_empty pkg_arch
    || any (λ a. eq_ignore_ascii_case a any_arch || eq_ignore_ascii_case a target) pkg_arch
