-- ===== src/Service/State/Same.antt =====
-- The steps of src/service/lifecycle.rs that change neither the databases nor the index in memory.
use mitos_pkg.Prelude.{
  ◌≡◌, refl, ◌∙◌, Bool, true, false, if◌then◌else◌, Option, none, some, ok, err, String,
}
use mitos_pkg.Error.{PkgResult}
use mitos_pkg.Semver.{Semver}
use mitos_pkg.Fs.{Fs, Io}
use mitos_pkg.Database.History.{HistoryEntry}
use mitos_pkg.Service.Progress.{ProgressEvent}
use mitos_pkg.Service.State.{
  Outside, State, Command, ◌>->◌, give, give_or_panic, on_fs, emit, with_lock, record_entry,
}
use mitos_pkg.Service.State.Steps.{go_on}

-- The same configuration, databases, index and keys in memory.
pub record Same {sv : Semver} (s t : State sv) : Type 0 where
  pub config : t.config ≡ s.config
  pub packages : t.packages ≡ s.packages
  pub files : t.files ≡ s.files
  pub index : t.index ≡ s.index
  pub keystore : t.keystore ≡ s.keystore

-- a command that changes none of these, however it ends
pub record Reads {ℓ} {sv : Semver} {A : Type ℓ} (m : Command sv A) : Type 0 where
  pub same : (s : State sv) → Same s (m s).1

pub Same-refl : {sv : Semver} (s : State sv) → Same s s
Same-refl s = record { config = refl; packages = refl; files = refl; index = refl; keystore = refl }

pub Same-trans : {sv : Semver} {s t u : State sv} → Same s t → Same t u → Same s u
Same-trans a b = record {
  config = b.config ∙ a.config;
  packages = b.packages ∙ a.packages;
  files = b.files ∙ a.files;
  index = b.index ∙ a.index;
  keystore = b.keystore ∙ a.keystore;
}

module _ (sv : Semver) where
  pub Reads->-> {ℓ κ} :
      {A : Type ℓ} {B : Type κ} {m : Command sv A} {f : A → Command sv B}
      → Reads m
      → ((a : A) → Reads (f a))
      → Reads (◌>->◌ sv m f)
  unfolding ◌>->◌
  Reads->-> {m = m} {f = f} hm hf = record {
    same = λ s. Same-trans (hm.same s) (go (m s).0 (m s).1);
  }
    where
      go : (r : Option (PkgResult _)) (s1 : State sv) → Same s1 (go_on sv f r s1).1
      go none s1 = Same-refl s1
      go (some (err e)) s1 = Same-refl s1
      go (some (ok a)) s1 = (hf a).same s1

  pub give-Reads {ℓ} : {A : Type ℓ} (r : PkgResult A) → Reads (give sv r)
  unfolding give
  give-Reads r = record { same = Same-refl }

  pub give_or_panic-Reads {ℓ} : {A : Type ℓ} (r : Option (PkgResult A)) → Reads (give_or_panic sv r)
  unfolding give_or_panic
  give_or_panic-Reads r = record { same = Same-refl }

  pub on_fs-Reads {ℓ} : {A : Type ℓ} (m : Io A) → Reads (on_fs sv m)
  unfolding on_fs
  on_fs-Reads m = record {
    same =
        λ s. record { config = refl; packages = refl; files = refl; index = refl; keystore = refl };
  }

  pub emit-Reads : (event : ProgressEvent) → Reads (emit sv event)
  unfolding emit
  emit-Reads event = record {
    same =
        λ s. record { config = refl; packages = refl; files = refl; index = refl; keystore = refl };
  }

  -- a command that looks at the state first
  pub looking-Reads {ℓ} :
      {A : Type ℓ} {m : State sv → Command sv A}
      → ((s : State sv) → Reads (m s))
      → Reads (λ s. m s s)
  looking-Reads h = record { same = λ s. (h s).same s }

  pub if-Reads {ℓ} :
      {A : Type ℓ} {m n : Command sv A} (b : Bool) → Reads m → Reads n → Reads (if b then m else n)
  if-Reads true hm hn = hm
  if-Reads false hm hn = hn

  module _ (out : Outside sv) where
    pub record_entry-Reads :
        (operation name : String) (f : HistoryEntry → HistoryEntry)
        → Reads (record_entry sv out operation name f)
    unfolding record_entry
    record_entry-Reads operation name f = record {
      same = λ s. record {
        config = refl;
        packages = refl;
        files = refl;
        index = refl;
        keystore = refl;
      };
    }

    pub with_lock-Reads {ℓ} : {A : Type ℓ} {m : Command sv A} → Reads m → Reads (with_lock sv out m)
    unfolding with_lock
    with_lock-Reads {m = m} h = record {
      same = λ s.
          (Reads->-> (on_fs-Reads _) (λ _. record { same = λ s1. unlocked (h.same s1) })).same s;
    }
      where
        unlocked : {s t : State sv} {fs : Fs} → Same s t → Same s (record t { fs = fs })
        unlocked a = record {
          config = a.config;
          packages = a.packages;
          files = a.files;
          index = a.index;
          keystore = a.keystore;
        }
