-- ===== src/Fs/Allowed.antt =====
-- What the calls on the file system do where the operating system refuses none of them.
use mitos_pkg.Prelude.{
  ℕ, string_eq, list_eq, ◌≡◌, refl, sym, ap, ◌∙◌, subst, ◌++◌, Option, none, some, ok, arith,
  ==_refl, [],
}
use mitos_pkg.Prelude.HashMap
use mitos_pkg.Prelude.HashMap.{get-insert}
use mitos_pkg.Error.{FilePath, PkgResult, ErrorKind}
use mitos_pkg.Fs.{
  Fs, FsCall, appending, reading, creating_dir, Bytes, Io, ◌>>>◌, done, create_dir_all, make_parent,
  append_to, read, tick, parent, ignore,
}
use mitos_pkg.Fs.Kept.{make_parent-Keeps}

-- What follows a step that succeeds runs on its value, from where that step ends.
pub >>>-of_ok {ℓ κ} :
    {A : Type ℓ} {B : Type κ} (m : Io A) (f : A → Io B) (fs : Fs) (a : A)
    → (m fs).0 ≡ ok a
    → (m >>> f) fs ≡ f a (m fs).1
unfolding ◌>>>◌ done
>>>-of_ok {A = A} m f fs a h = subst (λ r. (done r >>> f) (m fs).1 ≡ f a (m fs).1) (sym h) refl

abbrev Succeeds : Io {0} Unit → Fs → Type 0
Succeeds m fs = (m fs).0 ≡ ok tt

module _ (fails : ℕ → FsCall → Option ErrorKind)
    (free : (t : ℕ) (c : FsCall) → fails t c ≡ none) where
  make_parent-allowed : (p : FilePath) (fs : Fs) → (make_parent fails p fs).0 ≡ ok tt
  unfolding make_parent create_dir_all done
  make_parent-allowed p fs = go (parent p)
    where
      go :
          (o : Option FilePath)
          → Succeeds (elim o [ none ↦ done (ok tt) | some dir ↦ create_dir_all fails dir ]) fs
      go none = refl
      go (some d) = ground (arith, free fs.time (creating_dir d))

  append_to-allowed :
      (p : FilePath) (b : Bytes) (fs : Fs)
      → HashMap.get p (append_to fails p b fs).1.files ≡ some (HashMap.get_or p [] fs.files ++ b)
  unfolding append_to tick
  append_to-allowed p b fs = ground (
    arith,
    free fs.time (appending p),
    get-insert p p (HashMap.get_or p [] fs.files ++ b) fs.files,
    ==_refl p,
  )

  pub read-allowed :
      (p : FilePath) (b : Bytes) (fs : Fs)
      → HashMap.get p fs.files ≡ some b
      → (read fails p fs).0 ≡ ok b
  unfolding read tick
  read-allowed p b fs h = ground (arith, free fs.time (reading p))

  -- `append_to` behind `make_parent`
  pub append_to-grows :
      (p : FilePath) (b : Bytes) (fs : Fs)
      → HashMap.get p (ignore (make_parent fails p >>> λ _. append_to fails p b) fs).files
        ≡ some (HashMap.get_or p [] fs.files ++ b)
  append_to-grows p b fs =
      ap (λ (r : PkgResult {0} Unit × Fs). HashMap.get p r.1.files)
        (>>>-of_ok (make_parent fails p) _ fs tt (make_parent-allowed p fs))
      ∙ append_to-allowed p b (make_parent fails p fs).1
      ∙ ap (λ o. some (elim o [ none ↦ [] | some v ↦ v ] ++ b))
          ((make_parent-Keeps fails p p).kept fs)
