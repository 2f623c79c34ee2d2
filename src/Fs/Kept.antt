-- ===== src/Fs/Kept.antt =====
-- What a computation on the file system leaves as it is: lemmas that compose.
use mitos_pkg.Prelude.{
  ◌⊎◌, sym, subst, ℕ, string_eq, list_eq, true, false, ◌≡◌, refl, ◌∙◌, [], ◌∷◌, ◌++◌, Option, none,
  some, ok, err, ◌==◌, eq_of_==, ==_refl, Option-cases, Bool-cases, inl, inr, arith, if◌then◌else◌,
}
use mitos_pkg.Prelude.HashMap
use mitos_pkg.Prelude.HashMap.{HashMap, get-insert, get-remove}
use mitos_pkg.Error.{FilePath, PkgResult, PkgError, ErrorKind}
use mitos_pkg.Fs.{
  removing, on_error, ignoring, Fs, FsCall, Bytes, Io, ◌>>>◌, done, outside, starts_with,
  create_dir_all, create_new, remove_dir_all, remove_file, rename, write, read, make_parent,
  move_into, tick, parent,
}

-- The file at `p` has the same bytes, or is missing, before and after.
pub record Keeps {ℓ} {A : Type ℓ} (p : FilePath) (m : Io A) : Type 0 where
  pub kept : (fs : Fs) → HashMap.get p (m fs).1.files ≡ HashMap.get p fs.files

pub done-Keeps {ℓ} : {A : Type ℓ} (p : FilePath) (r : PkgResult A) → Keeps p (done r)
unfolding done
done-Keeps p r = record { kept = λ fs. refl }

pub Keeps->>> {ℓ κ} :
    {A : Type ℓ} {B : Type κ} {p : FilePath} {m : Io A} {f : A → Io B}
    → Keeps p m
    → ((a : A) → Keeps p (f a))
    → Keeps p (m >>> f)
unfolding ◌>>>◌ done
Keeps->>> {A = A} {p = p} {m = m} {f = f} hm hf = record {
  kept = λ fs. go (m fs).0 (m fs).1 ∙ hm.kept fs;
}
  where
    go :
        (r : PkgResult A) (fs1 : Fs)
        → HashMap.get p ((done r >>> f) fs1).1.files ≡ HashMap.get p fs1.files
    go (ok a) fs1 = (hf a).kept fs1
    go (err e) fs1 = refl

pub ignoring-Keeps {ℓ} : {A : Type ℓ} {p : FilePath} {m : Io A} → Keeps p m → Keeps p (ignoring m)
unfolding ignoring
ignoring-Keeps hm = record { kept = λ fs. hm.kept fs }

pub on_error-Keeps {ℓ} :
    {A : Type ℓ} {p : FilePath} {m : Io A} (undo : Fs → Fs)
    → ((fs : Fs) → HashMap.get p (undo fs).files ≡ HashMap.get p fs.files)
    → Keeps p m
    → Keeps p (on_error undo m)
unfolding on_error
on_error-Keeps {A = A} {p = p} {m = m} undo hu hm = record {
  kept = λ fs. go (m fs).0 (m fs).1 ∙ hm.kept fs;
}
  where
    go :
        (r : PkgResult A) (fs1 : Fs)
        → HashMap.get p (on_error undo (λ _. (r, fs1)) fs1).1.files ≡ HashMap.get p fs1.files
    go (ok a) fs1 = refl
    go (err e) fs1 = hu fs1

-- The two parts of a computation that succeeds succeed.
pub >>>-ok {ℓ κ} :
    {A : Type ℓ} {B : Type κ} (m : Io A) (f : A → Io B) (fs : Fs) (b : B)
    → ((m >>> f) fs).0 ≡ ok b
    → (a : A) × ((m fs).0 ≡ ok a) × ((f a (m fs).1).0 ≡ ok b)
unfolding ◌>>>◌ done
>>>-ok {A = A} m f fs b h = go (m fs).0 (m fs).1 h
  where
    go :
        (r : PkgResult A) (fs1 : Fs)
        → ((done r >>> f) fs1).0 ≡ ok b
        → (a : A) × (r ≡ ok a) × ((f a fs1).0 ≡ ok b)
    go (ok a) fs1 h = (a, refl, h)
    go (err e) fs1 h = cc

-- After a computation that always fails nothing runs.
pub Keeps-stopped {ℓ κ} :
    {A : Type ℓ} {B : Type κ} {p : FilePath} {m : Io A} (f : A → Io B) (e : PkgError)
    → Keeps p m
    → ((fs : Fs) → (m fs).0 ≡ err e)
    → Keeps p (m >>> f)
unfolding ◌>>>◌ done
Keeps-stopped {p = p} {m = m} f e hm stops = record {
  kept = λ fs.
      subst (λ r. HashMap.get p ((done r >>> f) (m fs).1).1.files ≡ HashMap.get p fs.files)
        (sym (stops fs)) (hm.kept fs);
}

pub get-outside :
    (dir p : FilePath) (m : HashMap FilePath Bytes)
    → HashMap.get p (outside dir m) ≡ (if starts_with p dir then none else HashMap.get p m)
unfolding HashMap.get
get-outside dir p [] = ground arith
get-outside dir p ((q, b) ∷ m) = elim (Bool-cases (p == q)) [
  | inl e ↦ rw (eq_of_== p q e) (ground (arith, get-outside dir q m, ==_refl q))
  | inr e ↦ ground (arith, get-outside dir p m)
]

pub starts_with-append : (dir rel : FilePath) → starts_with (dir ++ rel) dir ≡ true
starts_with-append [] rel = refl
starts_with-append (d ∷ dir) rel = ground (arith, starts_with-append dir rel, ==_refl d)

-- A path that is not inside a directory is no path inside it.
pub apart_of_outside :
    (dir rel p : FilePath) → starts_with p dir ≡ false → (p == (dir ++ rel)) ≡ false
apart_of_outside dir rel p h = elim (Bool-cases (p == (dir ++ rel))) [
  | inl e ↦ absurd (ground (arith, starts_with-append dir rel, eq_of_== p (dir ++ rel) e))
  | inr e ↦ e
]

module _ (fails : ℕ → FsCall → Option ErrorKind) where
  pub create_dir_all-Keeps : (p dir : FilePath) → Keeps p (create_dir_all fails dir)
  unfolding create_dir_all tick
  create_dir_all-Keeps p dir = record { kept = λ fs. ground arith }

  pub remove_dir_all-Keeps :
      (p dir : FilePath) → starts_with p dir ≡ false → Keeps p (remove_dir_all fails dir)
  unfolding remove_dir_all tick
  remove_dir_all-Keeps p dir h = record { kept = λ fs. ground (arith, get-outside dir p fs.files) }

  -- It makes no file.
  pub remove_dir_all_shrinks :
      (dir q : FilePath) (fs : Fs) (b : Bytes)
      → HashMap.get q (remove_dir_all fails dir fs).1.files ≡ some b
      → HashMap.get q fs.files ≡ some b
  unfolding remove_dir_all tick
  remove_dir_all_shrinks dir q fs b h = ground (arith, get-outside dir q fs.files)

  pub remove_file-Keeps : (p q : FilePath) → (p == q) ≡ false → Keeps p (remove_file fails q)
  unfolding remove_file tick
  remove_file-Keeps p q h = record { kept = λ fs. ground (arith, get-remove p q fs.files) }

  -- After a removal that the system allows, and after any removal of a missing file, it is missing.
  pub remove_file-none :
      (p q : FilePath) (fs : Fs)
      → ((t : ℕ) (r : FilePath) → fails t (removing r) ≡ none)
      → (HashMap.get p fs.files ≡ none) ⊎ ((p == q) ≡ true)
      → HashMap.get p (remove_file fails q fs).1.files ≡ none
  unfolding remove_file tick
  remove_file-none p q fs free (inl absent) =
      ground (arith, free fs.time q, get-remove p q fs.files)
  remove_file-none p q fs free (inr same) =
      subst (λ (r : FilePath). HashMap.get p (remove_file fails r fs).1.files ≡ none)
        (eq_of_== p q same) (ground (arith, free fs.time p, get-remove p p fs.files, ==_refl p))

  pub read-Keeps : (p q : FilePath) → Keeps p (read fails q)
  unfolding read tick
  read-Keeps p q = record { kept = λ fs. ground arith }

  pub read_files : (p : FilePath) (fs : Fs) → (read fails p fs).1.files ≡ fs.files
  unfolding read tick
  read_files p fs = ground arith

  pub read-ok :
      (p : FilePath) (b : Bytes) (fs : Fs)
      → (read fails p fs).0 ≡ ok b
      → HashMap.get p fs.files ≡ some b
  unfolding read tick
  read-ok p b fs h = ground arith

  pub write-Keeps : (p q : FilePath) (b : Bytes) → (p == q) ≡ false → Keeps p (write fails q b)
  unfolding write tick
  write-Keeps p q b h = record { kept = λ fs. ground (arith, get-insert p q b fs.files) }

  pub rename-Keeps :
      (p src dest : FilePath)
      → (p == src) ≡ false
      → (p == dest) ≡ false
      → Keeps p (rename fails src dest)
  unfolding rename tick
  rename-Keeps p src dest hs hd = record {
    kept = λ fs. elim (Option-cases (HashMap.get src fs.files)) [
      | inl e ↦ ground arith
      | inr (b, e) ↦
          ground
            (arith, get-insert p dest b (HashMap.remove src fs.files), get-remove p src fs.files)
    ];
  }

  pub make_parent-Keeps : (p q : FilePath) → Keeps p (make_parent fails q)
  unfolding make_parent
  make_parent-Keeps p q = go (parent q)
    where
      go :
          (d : Option FilePath)
          → Keeps {0} {A = Unit} p
              (elim d [ none ↦ done (ok tt) | some dir ↦ create_dir_all fails dir ])
      go none = done-Keeps p (ok tt)
      go (some d) = create_dir_all-Keeps p d

  pub move_into-Keeps :
      (p src dest : FilePath)
      → (p == src) ≡ false
      → (p == dest) ≡ false
      → Keeps p (move_into fails src dest)
  unfolding move_into
  move_into-Keeps p src dest hs hd =
      Keeps->>> (make_parent-Keeps p dest) (λ _. rename-Keeps p src dest hs hd)

  rename-failed :
      (p src dest : FilePath) (e : PkgError) (fs : Fs)
      → (rename fails src dest fs).0 ≡ err e
      → HashMap.get p (rename fails src dest fs).1.files ≡ HashMap.get p fs.files
  unfolding rename tick
  rename-failed p src dest e fs h = ground arith

  -- A move that fails changes no file.
  pub move_into-failed :
      (p src dest : FilePath) (e : PkgError) (fs : Fs)
      → (move_into fails src dest fs).0 ≡ err e
      → HashMap.get p (move_into fails src dest fs).1.files ≡ HashMap.get p fs.files
  unfolding move_into ◌>>>◌ done
  move_into-failed p src dest e fs h =
      go (make_parent fails dest fs).0 (make_parent fails dest fs).1 h
      ∙ (make_parent-Keeps p dest).kept fs
    where
      go :
          (r : PkgResult {0} Unit) (fs1 : Fs)
          → ((done r >>> λ _. rename fails src dest) fs1).0 ≡ err e
          → HashMap.get p ((done r >>> λ _. rename fails src dest) fs1).1.files
            ≡ HashMap.get p fs1.files
      go (ok _) fs1 h = rename-failed p src dest e fs1 h
      go (err _) fs1 h = refl

  -- `create_new` succeeds only if the file was missing, and then the file is there.
  pub create_new-fresh :
      (p : FilePath) (fs : Fs)
      → (create_new fails p fs).0 ≡ ok tt
      → (HashMap.get p fs.files ≡ none) × (HashMap.get p (create_new fails p fs).1.files ≡ some [])
  unfolding create_new tick
  create_new-fresh p fs h = ground (arith, get-insert p p [] fs.files, ==_refl p)
