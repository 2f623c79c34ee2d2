-- ===== src/Daemon/Server/Wired.antt =====
-- The daemon's service: the commands of src/service/lifecycle.rs behind the interface of
-- src/daemon/server.rs. `depth` is what the stack allows `remove` to nest.
use mitos_pkg.Semver.{Semver}
use mitos_pkg.Prelude.{ℕ, String, []}
use mitos_pkg.Repository.Cache
use mitos_pkg.Service.Lifecycle.{info}
use mitos_pkg.Service.State.{Outside, State, Command}
use mitos_pkg.Service.Commands.Opening.{clean}
use mitos_pkg.Service.Commands.Updating.{update}
use mitos_pkg.Service.Commands.Fetching.{effective_arch}
use mitos_pkg.Service.Commands.Installing.{install, install_local}
use mitos_pkg.Service.Commands.Removing.{remove, autoremove}
use mitos_pkg.Service.Commands.Upgrading.{upgrade}
use mitos_pkg.Service.Commands.Marking.{hold, unhold}
use mitos_pkg.Service.Commands.Verifying.{verify, list, history}
use mitos_pkg.Daemon.Server.{Outcome, PackageService}

module _ (sv : Semver) (out : Outside sv) (to_lowercase : String → String) (depth : ℕ) where
  -- The progress of one command goes to its connection.
  abbrev run_command : {A : Type 0} → Command sv A → State sv → Outcome (State sv) A
  run_command m s =
      let (r, s1) = m (record s { events = [] }) in
      record { result = r; after = record s1 { events = [] }; events = s1.events }

  unfoldable pub package_service : PackageService sv
  package_service = record {
    S = State sv;
    install = λ spec signature dry_run. run_command (install sv out spec signature dry_run);
    install_local =
        λ path signature dry_run. run_command (install_local sv out path signature dry_run);
    remove =
        λ name cascade force dry_run. run_command (remove sv out depth name cascade force dry_run);
    upgrade = λ name ignore_hold dry_run. run_command (upgrade sv out name ignore_hold dry_run);
    hold = λ name s. hold sv out name s;
    unhold = λ name s. unhold sv out name s;
    autoremove = run_command (autoremove sv out);
    update = run_command (update sv out);
    clean = λ s. clean sv out s;
    list = λ s. list sv out s;
    search = λ query s. Cache.search sv to_lowercase s.index query;
    info = λ name s. info sv s.index s.packages (effective_arch sv out s) name;
    verify = λ name s. verify sv out name s;
    history = λ limit s. history sv out limit s;
    to_string = out.to_string;
  }
