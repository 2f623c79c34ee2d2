-- ===== src/Service/Commands/Removing.antt =====
-- `remove_with_progress` and `autoremove_with_progress` of src/service/lifecycle.rs.
pub mod Gone
pub mod Orphans
use mitos_pkg.Prelude.{
  ℕ, zero, suc, String, Bool, List, [], ◌∷◌, Option, none, some, ok, err, if◌then◌else◌, length,
}
use mitos_pkg.Semver.{Semver}
use mitos_pkg.Database.Packages
use mitos_pkg.Service.Progress.{removing}
use mitos_pkg.Service.Lifecycle.{removal_plan, find_orphan}
use mitos_pkg.Service.State.{
  Outside, State, Command, ◌>->◌, give, give_or_panic, emit, with_lock, record_entry,
}
use mitos_pkg.Service.Commands.Fetching.{effective_arch, remove_one}

module _ (sv : Semver) (out : Outside sv) where
  -- one round of a loop: the event, the removal, the entry in the log
  unfoldable pub remove_logged : String → String → Command {0} sv Unit
  remove_logged operation n =
      ◌>->◌ sv (emit sv (removing n))
        λ _. ◌>->◌ sv (remove_one sv out n) λ _. record_entry sv out operation n (λ entry. entry)

  unfoldable pub remove_all : List String → Command sv (List String)
  remove_all [] s = give sv (ok []) s
  remove_all (n ∷ names) s =
      if Packages.is_installed sv s.packages n
      then ◌>->◌ sv (remove_logged "remove" n)
          (λ _. ◌>->◌ sv (remove_all names) λ removed. give sv (ok (n ∷ removed))) s
      else remove_all names s

  -- `depth` bounds the depth of the calls of `plan_cascade`; a plan beyond it is a stack overflow.
  unfoldable pub remove_unlocked : ℕ → String → Bool → Bool → Bool → Command sv (List String)
  remove_unlocked depth name cascade force dry_run s =
      (◌>->◌ sv
          (give_or_panic sv
            (removal_plan sv s.index s.packages (effective_arch sv out s) depth name cascade force))
          λ to_remove. if dry_run then give sv (ok to_remove) else remove_all to_remove)
        s

  unfoldable pub remove : ℕ → String → Bool → Bool → Bool → Command sv (List String)
  remove depth name cascade force dry_run =
      with_lock sv out (remove_unlocked depth name cascade force dry_run)

  -- The loop: none if the fuel runs out.
  unfoldable pub remove_orphans : ℕ → Command sv (List String)
  remove_orphans zero s = give_or_panic sv none s
  remove_orphans (suc fuel) s =
      elim (find_orphan sv s.index s.packages (effective_arch sv out s) s.packages.packages) [
        | none ↦ give sv (ok []) s
        | some name ↦
            ◌>->◌ sv (remove_logged "autoremove" name)
              (λ _. ◌>->◌ sv (remove_orphans fuel) λ removed. give sv (ok (name ∷ removed))) s
      ]

  -- The fuel is one more than the number of installed packages.
  unfoldable pub autoremove : Command sv (List String)
  autoremove s = with_lock sv out (λ s1. remove_orphans (suc (length s1.packages.packages)) s1) s
