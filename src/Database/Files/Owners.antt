-- ===== src/Database/Files/Owners.antt =====
-- Who owns a file after `claim` and `release` of src/database/files.rs, and what a passed conflict
-- check guarantees.
use mitos_pkg.Prelude.{
  String, string_eq, list_eq, List, [], ◌∷◌, none, some, ok, ◌==◌, if◌then◌else◌, Bool-cases, inl,
  inr, contains, true, false, ◌≡◌, refl, arith,
}
use mitos_pkg.Prelude.HashMap
use mitos_pkg.Prelude.HashMap.{HashMap, get-insert, get-remove}
use mitos_pkg.Error.{FilePath}
use mitos_pkg.Database.Files.{
  FileDb, owner_of, check_no_conflicts, claim, release, claim_all, release_all,
}

get-claim_all :
    (files : List FilePath) (owner : String) (m : HashMap FilePath String) (f : FilePath)
    → HashMap.get f (claim_all files owner m)
      ≡ (if contains files f then some owner else HashMap.get f m)
unfolding claim_all
get-claim_all [] owner m f = refl
get-claim_all (g ∷ files) owner m f =
    ground (arith, get-claim_all files owner (HashMap.insert g owner m) f, get-insert f g owner m)

get-release_all :
    (files : List FilePath) (m : HashMap FilePath String) (f : FilePath)
    → HashMap.get f (release_all files m) ≡ (if contains files f then none else HashMap.get f m)
unfolding release_all
get-release_all [] m f = refl
get-release_all (g ∷ files) m f =
    ground (arith, get-release_all files (HashMap.remove g m) f, get-remove f g m)

-- After `claim`, each of the claimed files belongs to the claimant, and every other file to whom it
-- belonged before.
pub owner_of-claim :
    (db : FileDb) (files : List FilePath) (owner : String) (f : FilePath)
    → owner_of (claim db files owner) f ≡ (if contains files f then some owner else owner_of db f)
unfolding owner_of claim
owner_of-claim db files owner f = get-claim_all files owner db.owners f

-- After `release`, the released files have no owner, and every other file has the one it had.
pub owner_of-release :
    (db : FileDb) (files : List FilePath) (f : FilePath)
    → owner_of (release db files) f ≡ (if contains files f then none else owner_of db f)
unfolding owner_of release
owner_of-release db files f = get-release_all files db.owners f

-- A passed conflict check means that a listed file with an owner belongs to the checked package.
pub check_no_conflicts_sound :
    (db : FileDb) (files : List FilePath) (owner : String)
    → check_no_conflicts db files owner ≡ ok tt
    → (f : FilePath) → contains files f ≡ true
    → (other : String) → owner_of db f ≡ some other
    → other ≡ owner
unfolding owner_of check_no_conflicts
check_no_conflicts_sound db [] owner h f m other o = cc
check_no_conflicts_sound db (g ∷ files) owner h f m other o = ground (
  arith,
  λ (h2 : check_no_conflicts db files owner ≡ ok tt) (m2 : contains files f ≡ true).
      check_no_conflicts_sound db files owner h2 f m2 other o,
)

-- `claim` after a passed conflict check takes no file from another package: whatever a package owned
-- before, it owns after, and a later `release` of the same files leaves the other packages' files
-- as they were before the `claim`.
pub release-claim :
    (db : FileDb) (files : List FilePath) (owner : String)
    → check_no_conflicts db files owner ≡ ok tt
    → (f : FilePath) (other : String) → (other == owner) ≡ false
    → owner_of db f ≡ some other
    → (owner_of (claim db files owner) f ≡ some other)
      × (owner_of (release (claim db files owner) files) f ≡ some other)
release-claim db files owner h f other differ o = elim (Bool-cases (contains files f)) [
  | inl m ↦ absurd (ground (arith, check_no_conflicts_sound db files owner h f m other o))
  | inr m ↦ (
    ground (arith, owner_of-claim db files owner f),
    ground
        (arith, owner_of-claim db files owner f, owner_of-release (claim db files owner) files f),
  )
]
