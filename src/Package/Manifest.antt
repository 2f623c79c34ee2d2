-- ===== src/Package/Manifest.antt =====
-- The data of src/package: hooks.rs, manifest.rs, spec.rs, and the file names of format.rs.
use mitos_pkg.Prelude.{String, ℕ, Bool, ◌&&◌, true, false, List, [], ◌∷◌, Option, none, some}
use mitos_pkg.Error.{format}
use mitos_pkg.Semver.{Semver}
use mitos_pkg.Dependency.Version.{Dependency}

pub record Hooks : Type 0 where
  pub pre_install : Option String
  pub post_install : Option String
  pub pre_remove : Option String
  pub post_remove : Option String

abbrev is_none {ℓ} : {A : Type ℓ} → Option A → Bool
is_none none = true
is_none (some _) = false

-- `Hooks::is_empty`
unfoldable pub is_empty : Hooks → Bool
is_empty h =
    is_none h.pre_install && is_none h.post_install && is_none h.pre_remove && is_none h.post_remove

abbrev pub no_hooks : Hooks
no_hooks = record { pre_install = none; post_install = none; pre_remove = none; post_remove = none }

module _ (sv : Semver) where
  pub record Manifest : Type 0 where
    pub name : String
    pub version : sv.Version
    pub description : String
    pub dependencies : List (Dependency sv)
    pub provides : List String
    pub conflicts : List String
    pub files : List String
    pub payload_sha256 : String
    pub signer : Option String
    pub arch : List String
    pub essential : Bool
    pub hooks : Hooks
    pub installed_size_bytes : ℕ

  pub record PackageSpec : Type 0 where
    pub name : String
    pub version : sv.Version
    pub description : String
    pub dependencies : List (Dependency sv)
    pub provides : List String
    pub conflicts : List String
    pub signer : Option String
    pub arch : List String
    pub essential : Bool
    pub hooks : Hooks

  unfoldable pub package_filename : String → sv.Version → String
  package_filename name version = format (name ∷ "-" ∷ sv.show_version version ∷ "." ∷ "mpkg" ∷ [])
