-- ===== src/Examples/Resolving.antt =====
-- The properties of resolution, on a small index and system.
use mitos_pkg.Prelude.{
  ℕ, String, string_eq, list_eq, true, List, [], ◌∷◌, none, some, ok, ◌≡◌, refl, Memᴰ, contains,
  arith, if◌then◌else◌, ◌==◌,
}
use mitos_pkg.Prelude.HashMap
use mitos_pkg.Prelude.HashMap.{IsMap}
use mitos_pkg.Error.{PkgResult}
use mitos_pkg.Dependency.Graph.{DependencyGraph, new, add_edge, install_order}
use mitos_pkg.Dependency.Graph.Build.{IsGraph-new, add_edge-IsGraph}
use mitos_pkg.Dependency.Graph.Order.{IsGraph}
use mitos_pkg.Dependency.Graph.Sorted.{
  IsTopological, IsRanked, install_order_total, install_order-IsTopological, install_order_acyclic,
}
use mitos_pkg.Repository.Index.{best_match_for_arch}
use mitos_pkg.Repository.Index.Best.{
  IsEligible, AtMost, best_match_for_arch-newest, best_match_for_arch-none,
}
use mitos_pkg.Repository.Index
use mitos_pkg.Dependency.Resolver.{InstallPlan}
use mitos_pkg.Dependency.Resolver.Conflicts.{
  IsCompatible, check_conflicts, check_conflicts-IsCompatible,
}
use mitos_pkg.Dependency.Resolver.Dependents.{dependents_of}
use mitos_pkg.Dependency.Resolver.Dependents.Broken.{Breaks, dependents_of-Breaks}
use mitos_pkg.Dependency.Resolver.Install.{resolve_install_req}
use mitos_pkg.Dependency.Resolver.Install.Planned.{
  Planned, resolve_install_req-Planned, resolve_install_req_total,
}
use mitos_pkg.Examples.{
  any_version, at_least, numbers, numbers-JoinsComparators, numbers-IsOrd, small_index,
  empty_system, small_system, available, app1, lib2, present,
}

index_unique : IsMap small_index.packages
unfolding HashMap.get string_eq
index_unique = (refl, (refl, tt))

system_unique : IsMap small_system.packages
unfolding HashMap.get string_eq
system_unique = (refl, (refl, tt))

abbrev plan : InstallPlan numbers
plan = record { order = lib2 ∷ app1 ∷ [] }

resolve_app :
    resolve_install_req numbers small_index empty_system "x86" "app" any_version ≡ some (ok plan)
unfolding resolve_install_req string_eq HashMap.get best_match_for_arch Index.max_by
    mitos_pkg.Package.Arch.is_compatible native.Mathlib.Decide.ℕ_discrete install_order add_edge
    HashMap.update HashMap.entry HashMap.insert HashMap.remove
resolve_app = refl

resolve_install_req-Planned_example :
    Planned numbers small_index empty_system "x86" "app" any_version plan
resolve_install_req-Planned_example =
    resolve_install_req-Planned numbers small_index empty_system "x86" "app" any_version plan
      index_unique numbers-JoinsComparators resolve_app

resolve_install_req_total_example :
    (r : PkgResult (InstallPlan numbers)) × (resolve_install_req numbers small_index empty_system
        "x86" "app" any_version
      ≡ some r)
resolve_install_req_total_example =
    resolve_install_req_total numbers small_index empty_system "x86" "app" any_version index_unique

abbrev app_on_lib : DependencyGraph
app_on_lib = add_edge new "app" "lib"

app_on_lib-IsGraph : IsGraph app_on_lib
app_on_lib-IsGraph = add_edge-IsGraph new "app" "lib" IsGraph-new

install_order_app : install_order app_on_lib ≡ some (ok ("lib" ∷ "app" ∷ []))
unfolding install_order add_edge string_eq HashMap.update HashMap.entry HashMap.get
install_order_app = refl

install_order-IsTopological_example : IsTopological app_on_lib ("lib" ∷ "app" ∷ [])
install_order-IsTopological_example =
    install_order-IsTopological app_on_lib ("lib" ∷ "app" ∷ []) app_on_lib-IsGraph install_order_app

install_order_total_example : (r : PkgResult (List String)) × (install_order app_on_lib ≡ some r)
install_order_total_example = install_order_total app_on_lib app_on_lib-IsGraph

abbrev depth : String → ℕ
depth s = if s == "app" then 1 else 0

depth-IsRanked : IsRanked depth app_on_lib
unfolding add_edge HashMap.entry HashMap.update HashMap.get string_eq
depth-IsRanked n d m = elim (string_eq.dec n "app") [
  | yes p ↦ elim (string_eq.dec d "lib") [
    | yes q ↦ rw (p, q) (ground arith)
    | no q ↦ absurd (ground arith)
  ]
  | no p ↦ absurd (ground arith)
]

install_order_acyclic_example : (order : List String) × (install_order app_on_lib ≡ some (ok order))
install_order_acyclic_example =
    install_order_acyclic app_on_lib depth app_on_lib-IsGraph depth-IsRanked

add_edge-IsGraph_example : IsGraph (add_edge app_on_lib "tool" "lib")
add_edge-IsGraph_example = add_edge-IsGraph app_on_lib "tool" "lib" app_on_lib-IsGraph

lib1-IsEligible : IsEligible numbers small_index "lib" any_version "x86" lib2
unfolding HashMap.get string_eq mitos_pkg.Package.Arch.is_compatible
    native.Mathlib.Decide.ℕ_discrete
lib1-IsEligible = record {
  versions = available "lib" 1 [] ∷ lib2 ∷ [];
  found = refl;
  listed = Memᴰ.tail (Memᴰ.head refl);
  matching = refl;
  compatible = refl;
}

best_lib : best_match_for_arch numbers small_index "lib" any_version "x86" ≡ some lib2
unfolding best_match_for_arch string_eq HashMap.get Index.max_by
    mitos_pkg.Package.Arch.is_compatible native.Mathlib.Decide.ℕ_discrete Index.by_key
best_lib = refl

best_match_for_arch-newest_example :
    IsEligible numbers small_index "lib" any_version "x86" lib2
    × AtMost (Index.by_key numbers) lib2 lib2
best_match_for_arch-newest_example =
    best_match_for_arch-newest numbers small_index "lib" any_version "x86" numbers-IsOrd lib2 lib2
      best_lib lib1-IsEligible

best_none : best_match_for_arch numbers small_index "lib" (at_least 3) "x86" ≡ none
unfolding best_match_for_arch string_eq HashMap.get Index.max_by
best_none = refl

best_match_for_arch-none_example : ¬ IsEligible numbers small_index "lib" (at_least 3) "x86" lib2
best_match_for_arch-none_example =
    best_match_for_arch-none numbers small_index "lib" (at_least 3) "x86" lib2 best_none

no_conflicts : check_conflicts numbers small_system (app1 ∷ []) ≡ ok tt
unfolding check_conflicts string_eq
no_conflicts = refl

check_conflicts-IsCompatible_example : IsCompatible numbers small_system (app1 ∷ []) app1
check_conflicts-IsCompatible_example =
    check_conflicts-IsCompatible numbers small_system (app1 ∷ []) app1 no_conflicts (Memᴰ.head refl)

lib_installed : HashMap.get "lib" small_system.packages ≡ some (present "lib" 1 [])
unfolding HashMap.get string_eq
lib_installed = refl

dependents_of-Breaks_example :
    (contains (dependents_of numbers small_system "lib") "app" ≡ true
      → Breaks numbers small_system "lib" "app")
    × (Breaks numbers small_system "lib" "app"
        → contains (dependents_of numbers small_system "lib") "app" ≡ true)
dependents_of-Breaks_example =
    dependents_of-Breaks numbers small_system "lib" (present "lib" 1 []) system_unique lib_installed
      "app"
