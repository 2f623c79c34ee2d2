-- ===== src/Lib.antt =====
-- mitos-pkg, the package manager of MITOS: a shallow embedding of its core.
--
-- How the parts of the program meet. A repository index (src/repository/index.rs) lists versions of
-- packages. The resolver (src/dependency/resolver.rs) walks it from the package that is asked for,
-- records a graph (src/dependency/graph.rs), orders it, and checks the plan for conflicts. The service
-- (src/service/lifecycle.rs) fetches each package of the plan (src/repository/download.rs), checks its
-- checksum and signature (src/package/signature.rs, src/security), and has it installed by a
-- transaction (src/install/transaction.rs), which keeps two databases (src/database): the installed
-- packages, and the owner of each file. Removing and upgrading ask the resolver which packages
-- depend on a package.
--
-- Where what is modelled.
--   Prelude              lists, `HashMap` as an association list, `Result`; Prelude.Text is UTF-8 and lines
--   Error, Semver        src/error.rs; the semver crate as a record of operations
--   Fs                   the calls of std::fs on a map from paths to bytes, each of which may fail;
--                        Fs.Directories reads directories, Fs.Paths splits and joins paths
--   Package, Security    manifests, architectures, checksums, keys and their directory,
--                        signatures; Package.Archive reads a manifest
--   Dependency.Graph     `install_order`, with its proofs in Count, Release, Order, Sorted, Build
--   Dependency.Resolver  `visit`, `intersect_req`; Conflicts, Dependents and Install are its other methods
--   Repository           the index, its cache file and its search, and the download
--   Database             the two databases in memory; Install.Store loads and saves them;
--                        Database.History is the log of operations, and its Clock the dates
--   Install              hooks, rollback, extraction, and Transaction: `install` and `remove`
--   Service              Lifecycle: the plans of remove and upgrade, the orphan search, `info`;
--                        Lock; State: the state of `PackageService` with the file system around it,
--                        and how steps compose; Commands: the commands, each with its lock, its
--                        fetches, its saves and its events in the order of the source
--   Daemon               the messages, their lines (Wire), the server's loop on an interface of the
--                        service, and the client; Daemon.Server.Wired fills the interface with the
--                        commands of Service
--   Config               src/config/files.rs
--   Examples             the properties at concrete inputs
-- A function of the source keeps its name. A method that changes `self` returns the new state; a
-- fallible function returns a `Result`; a panic is `none` of an `Option`. Code that is not in the
-- repository is a parameter: semver, JSON, tar, SHA-256, Ed25519, HTTP, child processes, and which
-- calls of the operating system fail, and when.
--
-- Paths. A path is the list of its components below `/`. `join` resolves `..` as the system does where
-- no directory on the way is a link, and joining an absolute text replaces the path. So the entries of
-- an archive, the name of a package and the names of its scripts can lead out of the directory they are
-- joined to, as in the source, and `extract_payload` unpacks an entry wherever its path leads. What
-- unpacking does with an entry that is neither a regular file nor a directory, such as a link, is a
-- parameter. Statements on `install` therefore say of which archives and packages they hold.
--
-- Panics of the daemon. An operation that panics while it holds the service for writing poisons its
-- lock, later requests panic as well, and the connection of a request that panics ends without a last
-- message.
--
-- Fuel. `visit` gets one unit more than the index has names, since the names in progress differ and
-- all but one are in the index; `install_order` gets one unit for each node, since each round takes a
-- node that no other round takes. Both suffice, as stated below. `plan_cascade` takes its fuel as an
-- argument and returns none without it: it does not end where packages depend on each other, and `remove`
-- passes it on as `depth`. The loop of `autoremove` gets one unit more than there are installed packages,
-- since each round takes one away. The client gets one unit more than lines arrive, and the loop of
-- `handle_connection` one more than there are requests.
--
-- What is not modelled: the command line, sockets and threads, printing, the building of packages,
-- empty directories, links in the file system, and the pauses between fetches. A directory is there
-- if a file is below it; for `open` and `clean` an empty directory is like a missing one.
pub mod Prelude
pub mod Error
pub mod Semver
pub mod Fs
pub mod Package
pub mod Security
pub mod Dependency
pub mod Repository
pub mod Database
pub mod Install
pub mod Config
pub mod Service
pub mod Daemon
pub mod Examples
