-- ===== src/Examples/Serving.antt =====
-- A service whose state counts the changes made.
use mitos_pkg.Prelude.{some, ℕ, suc, [], ◌∷◌, ok, err}
use mitos_pkg.Error.{package_not_found, not_installed}
use mitos_pkg.Service.Progress.{resolving, removing}
use mitos_pkg.Daemon.Server.{PackageService}
use mitos_pkg.Examples.{numbers}

abbrev pub counting : PackageService numbers
counting = record {
  S = ℕ;
  install = λ spec signature dry_run s. record {
    result = some (ok ((spec, 1) ∷ []));
    after = suc s;
    events = resolving spec ∷ [];
  };
  install_local =
      λ path signature dry_run s. record { result = some (ok []); after = suc s; events = [] };
  remove = λ name cascade force dry_run s. record {
    result = some (err (not_installed name));
    after = s;
    events = removing name ∷ [];
  };
  upgrade = λ name ignore_hold dry_run s. record { result = some (ok []); after = s; events = [] };
  hold = λ name s. (some (ok tt), suc s);
  unhold = λ name s. (some (ok tt), suc s);
  autoremove = λ s. record { result = some (ok []); after = s; events = [] };
  update = λ s. record { result = some (ok tt); after = suc s; events = [] };
  clean = λ s. (some (ok 0), s);
  list = λ s. [];
  search = λ query s. [];
  info = λ name s. err (package_not_found name);
  verify = λ name s. (some (ok []), s);
  history = λ limit s. (some (ok []), s);
  to_string = λ e. "error";
}
