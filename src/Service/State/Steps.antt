-- ===== src/Service/State/Steps.antt =====
-- How a chain of commands ends: lemmas on the composition of src/service/lifecycle.rs's steps.
use mitos_pkg.Prelude.{
  ◌≡◌, refl, sym, ap, ◌∙◌, subst, ◌≢◌, Option, none, some, ok, err, ◌⊎◌, inl, inr,
}
use mitos_pkg.Error.{PkgResult, PkgError}
use mitos_pkg.Semver.{Semver}
use mitos_pkg.Fs.{Fs}
use mitos_pkg.Service.Lock.{acquire, unlock}
use mitos_pkg.Service.State.{Outside, State, Command, ◌>->◌, on_fs, with_lock}

module _ {ℓ κ} (sv : Semver) {A : Type ℓ} {B : Type κ} where
  -- what follows a step, by the step's result
  abbrev pub go_on :
      (A → Command sv B) → Option (PkgResult A) → State sv → Option (PkgResult B) × State sv
  go_on f r s1 = elim r [
    | none ↦ (none, s1)
    | some (err e) ↦ (some (err e), s1)
    | some (ok a) ↦ f a s1
  ]

  -- A chain that succeeds: its first step succeeds, and it goes on from there.
  pub >->-ok :
      (m : Command sv A) (f : A → Command sv B) (s : State sv) (b : B)
      → ((◌>->◌ sv m f) s).0 ≡ some (ok b)
      → (a : A) × ((m s).0 ≡ some (ok a))
        × ((f a (m s).1).0 ≡ some (ok b))
        × ((◌>->◌ sv m f) s ≡ f a (m s).1)
  unfolding ◌>->◌
  >->-ok m f s b h = go (m s).0 (m s).1 h
    where
      go :
          (r : Option (PkgResult A)) (s1 : State sv)
          → (go_on f r s1).0 ≡ some (ok b)
          → (a : A) × (r ≡ some (ok a)) × ((f a s1).0 ≡ some (ok b)) × (go_on f r s1 ≡ f a s1)
      go none s1 h = cc
      go (some (err e)) s1 h = cc
      go (some (ok a)) s1 h = (a, refl, h, refl)

  -- A chain goes on from a first step that succeeds.
  pub >->-of_ok :
      (m : Command sv A) (f : A → Command sv B) (s : State sv) (a : A)
      → (m s).0 ≡ some (ok a)
      → (◌>->◌ sv m f) s ≡ f a (m s).1
  unfolding ◌>->◌
  >->-of_ok m f s a h = subst (λ r. go_on f r (m s).1 ≡ f a (m s).1) (sym h) (refl)

  -- A chain does not panic if its first step does not, and what follows does not.
  pub >->-returns :
      (m : Command sv A) (f : A → Command sv B) (s : State sv)
      → (m s).0 ≢ none
      → ((a : A) → (m s).0 ≡ some (ok a) → (f a (m s).1).0 ≢ none)
      → ((◌>->◌ sv m f) s).0 ≢ none
  unfolding ◌>->◌
  >->-returns m f s hm hf = go (m s).0 (m s).1 hm hf
    where
      go :
          (r : Option (PkgResult A)) (s1 : State sv)
          → r ≢ none
          → ((a : A) → r ≡ some (ok a) → (f a s1).0 ≢ none)
          → (go_on f r s1).0 ≢ none
      go none s1 hm hf = absurd (hm refl)
      go (some (err e)) s1 hm hf = λ p. cc
      go (some (ok a)) s1 hm hf = hf a refl

  -- Where a chain ends: its first step fails and it ends there, or it goes on.
  pub >->-ends :
      (m : Command sv A) (f : A → Command sv B) (s : State sv)
      → (((◌>->◌ sv m f) s).1 ≡ (m s).1 × ((b : B) → ((◌>->◌ sv m f) s).0 ≢ some (ok b)))
        ⊎ ((a : A) × ((m s).0 ≡ some (ok a)) × ((◌>->◌ sv m f) s ≡ f a (m s).1))
  unfolding ◌>->◌
  >->-ends m f s = go (m s).0 (m s).1
    where
      go :
          (r : Option (PkgResult A)) (s1 : State sv)
          → ((go_on f r s1).1 ≡ s1 × ((b : B) → (go_on f r s1).0 ≢ some (ok b)))
            ⊎ ((a : A) × (r ≡ some (ok a)) × (go_on f r s1 ≡ f a s1))
      go none s1 = inl (refl, λ b p. cc)
      go (some (err e)) s1 = inl (refl, λ b p. cc)
      go (some (ok a)) s1 = inr (a, refl, refl)

module _ {ℓ} (sv : Semver) (out : Outside sv) {A : Type ℓ} where
  -- What a command gives under the lock it gives from the state behind the acquisition.
  pub with_lock-at :
      (m : Command sv A) (s : State sv) (a : A)
      → (with_lock sv out m s).0 ≡ some (ok a)
      → (fs2 : Fs) × ((m (record s { fs = (acquire out.os.fails s.config.db_dir s.fs).1 })).0
          ≡ some (ok a))
        × ((with_lock sv out m s).1
            ≡ record (m (record s { fs = (acquire out.os.fails s.config.db_dir s.fs).1 })).1 {
              fs = fs2;
            })
  unfolding with_lock on_fs
  with_lock-at m s a h =
      let (_, p, _, q) =
        >->-ok sv (on_fs sv (acquire out.os.fails s.config.db_dir))
          (λ _. λ s1.
            let (r, s2) = m s1 in (r, record s2 { fs = unlock out.os.fails s.config.db_dir s2.fs }))
          s a h in
      (
        _,
        sym (ap (λ (x : Option (PkgResult A) × State sv). x.0) q) ∙ h,
        ap (λ (x : Option (PkgResult A) × State sv). x.1) q,
      )

  -- What a command gives under the lock it gives from a state that differs in the file system.
  pub with_lock-ok :
      (m : Command sv A) (s : State sv) (a : A)
      → (with_lock sv out m s).0 ≡ some (ok a)
      → (fs1 fs2 : Fs) × ((m (record s { fs = fs1 })).0 ≡ some (ok a))
        × ((with_lock sv out m s).1 ≡ record (m (record s { fs = fs1 })).1 { fs = fs2 })
  with_lock-ok m s a h =
      let (fs2, p, q) = with_lock-at m s a h in
      ((acquire out.os.fails s.config.db_dir s.fs).1, fs2, p, q)

  -- A run of `m` under the lock that starts in `s`: it fails before `m` runs, or runs it from a state that
  -- differs in the file system.
  abbrev pub RunsUnderLock : Command sv A → State sv → Option (PkgResult A) × State sv → Type ℓ
  RunsUnderLock m s w =
      ((fs1 : Fs) × (e : PkgError) × (w ≡ (some (err e), record s { fs = fs1 })))
      ⊎ ((fs1 fs2 : Fs) × (w
            ≡ ((m (record s { fs = fs1 })).0, record (m (record s { fs = fs1 })).1 { fs = fs2 })))

  pub with_lock-RunsUnderLock :
      (m : Command sv A) (s : State sv) → RunsUnderLock m s (with_lock sv out m s)
  unfolding with_lock on_fs ◌>->◌
  with_lock-RunsUnderLock m s =
      go (acquire out.os.fails s.config.db_dir s.fs).0 (acquire out.os.fails s.config.db_dir s.fs).1
    where
      go :
          (r : PkgResult {0} Unit) (fs1 : Fs)
          → RunsUnderLock m s (
              go_on sv
                (λ _. λ s1.
                  let (r2, s2) = m s1 in
                  (r2, record s2 { fs = unlock out.os.fails s.config.db_dir s2.fs }))
                (some r)
                (record s { fs = fs1 }))
      go (err e) fs1 = inl (fs1, e, refl)
      go (ok _) fs1 = inr (fs1, _, refl)
