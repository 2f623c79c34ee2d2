-- ===== src/Database/Files.antt =====
-- src/database/files.rs: which package owns which installed file. The file the database is kept in
-- is written by `Install.Store`.
pub mod Owners
use mitos_pkg.Prelude.{
  String, string_eq, list_eq, List, [], ◌∷◌, Option, none, some, ok, err, ◌==◌, if◌then◌else◌,
}
use mitos_pkg.Prelude.HashMap
use mitos_pkg.Prelude.HashMap.{HashMap}
use mitos_pkg.Error.{FilePath, PkgResult, file_conflict, display}

pub record FileDb : Type 0 where
  pub owners : HashMap FilePath String
  pub path : FilePath

unfoldable pub owner_of : FileDb → FilePath → Option String
owner_of db file = HashMap.get file db.owners

unfoldable pub check_no_conflicts : FileDb → List FilePath → String → PkgResult {0} Unit
check_no_conflicts db [] owner = ok tt
check_no_conflicts db (f ∷ files) owner =
    let rest = check_no_conflicts db files owner in
    elim (HashMap.get f db.owners) [
      | none ↦ rest
      | some existing ↦ if existing == owner then rest else err (file_conflict (display f) existing)
    ]

claim_all : List FilePath → String → HashMap FilePath String → HashMap FilePath String
claim_all [] owner m = m
claim_all (f ∷ files) owner m = claim_all files owner (HashMap.insert f owner m)

unfoldable pub claim : FileDb → List FilePath → String → FileDb
unfolding claim_all
claim db files owner = record db { owners = claim_all files owner db.owners }

release_all : List FilePath → HashMap FilePath String → HashMap FilePath String
release_all [] m = m
release_all (f ∷ files) m = release_all files (HashMap.remove f m)

unfoldable pub release : FileDb → List FilePath → FileDb
unfolding release_all
release db files = record db { owners = release_all files db.owners }
