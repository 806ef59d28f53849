-- ===== src/Lib.antt =====
-- A model of the filesystem charms, with what makes it correct.
--
-- The program. `lustre_ops` (internal/lustre-ops/src/lustre_ops) configures LNet, Lustre's network
-- layer, by running `lnetctl`. The Lustre server charm (charms/lustre-server/src) makes a unit a
-- metadata server (MGS+MDS) or an object server (OSS): `lustre_fs.py` makes the zpools, targets and
-- mounts, `lustre_peer.py` agrees on the one MGS over the peer relation and publishes the
-- filesystem when all units are ready, `state.py` computes the unit's status, and `charm.py` calls
-- them in the handlers of a unit. The filesystem client charm (charms/filesystem-client/src) mounts
-- what a provider publishes, by writing an autofs map. What is published is a URI: the provider's
-- leader (`FilesystemProvides`) writes it to every client's relation, and the clients
-- (`FilesystemRequires`) read it back; the proxy charms publish what their configuration says.
-- `repository.py` stages and builds the charms.
--
-- The files.
--   Base           Python's strings, sets, dictionaries and exceptions, with their lemmas
--   System         processes and files of a machine, which are parameters
--   Lnet           internal/lustre-ops/src/lustre_ops/lnet.py: Lnet/Spec is `parse_network_config`,
--                  Lnet/Nids is `get_nids`, Lnet/Show is `_parse_networks`, Lnet/Reconcile is the
--                  rest. Lnet/Reconcile/Lawful has what the proofs take `lnetctl` to do.
--                  Lnet/Detect is lnet_detection.py.
--   Ppa            internal/lustre-ops/src/lustre_ops/ppa.py
--   LustreFs       charms/lustre-server/src/lustre_fs.py
--   Lustre         charms/lustre-server/src: Lustre/State is state.py, Lustre/Peers is
--                  lustre_peer.py with its event handler in Lustre/Peers/Handlers,
--                  Lustre/Charm is charm.py with `_on_install` in Lustre/Charm/Install
--   Client         charms/filesystem-client/src/utils/manager.py: Client/Mounts has the endpoints
--                  and the autofs map, Client/Manager the manager. Client/Config and Client/Handler
--                  are charms/filesystem-client/src/charm.py. Client/Mount is
--                  charms/filesystem-client/lib/charms/filesystem_client/v0/mount_info.py, with the
--                  two ends of its relation in Client/Mount/Requires and Client/Mount/Provides, and
--                  what the proofs take ops to save and load in Client/Asked
--   Filesystem     the information that a provider publishes
--                  (charms/filesystem-client/lib/charms/filesystem_client/v0/filesystem_info.py):
--                  Filesystem/Uri is `_UriData`, with what the proofs take `urllib.parse` to do in
--                  Filesystem/Uri/Lawful; Filesystem/Hosts is `_hostinfo`; Filesystem/Infos has the
--                  URIs of the three kinds of share, with what the proofs take Juju's secrets to do
--                  in Filesystem/Infos/Secret; Filesystem/Provides and Filesystem/Requires are the
--                  two ends of the relation
--   Proxies        charms/nfs-server-proxy/src/charm.py, charms/cephfs-server-proxy/src/charm.py and
--                  charms/lustre-server-proxy/src/charm.py
--   Repo           repository.py: Repo/Deps is the loop over the lock file in `load_charm`, Repo/Load
--                  the rest of it, Repo/Init the lists of `Repository`, Repo/Pyproject what
--                  `stage_charm` merges, Repo/Stage the staging, Repo/Cli the targets and commands,
--                  Repo/Checks the commands `typecheck`, `unit` and `integration`. Repo/Host has
--                  what it asks of the machine
--   Tests          concrete hosts and units, and the code run on them
--
-- A function keeps its Python name without leading underscores. The body of a loop, a branch or an
-- `except` clause that is a function of its own here says so above it. Logging is left out, and the
-- wording of messages is: a message is a constructor with what is formatted into it.
--
-- How it is modelled. A text is the list of its code points. `isdigit` and `int` know the ASCII
-- digits only; `\r\n` ends two lines in `splitlines`, which makes no difference where blank lines
-- are dropped. A set is a list without repetitions, and what a `for` over a set meets first is a
-- parameter, `set_order`. A Python function that may raise gives a result, and one that also
-- changes the machine or the relation is a function from the state to a result and the new state:
-- what was done before an exception stays done. The machine (`subprocess.run`, `pathlib.Path`,
-- systemd), `yaml` and `pydantic`, `urllib.parse`, `ipaddress`, Juju's secrets and the saving
-- and loading of ops are parameters; a program that `subprocess.run` starts ends with exit status 0,
-- with another, or is not found. The Lustre charm takes `FilesystemProvides` as a parameter too,
-- which `provider` fills, and what the decorator `retry` of `_get_storage_devices` ends up with.
-- All loops are over lists; only the loop over the lock file runs on fuel, one more than the
-- dependencies that the file lists, of which each is pending at most once.
--
-- The cluster of Lustre units is a sequence of hooks on the databags that all units share: the hook
-- (`_on_start`, `_on_relation_changed`) of a unit runs on the data that the previous hook has left.
-- Juju runs hooks of different units side by side, but each writes only its unit's databag, or, on
-- the leader, the application's.
--
-- A text of `urllib.parse` has no lone surrogates; host names come back in lower case, so what is
-- said of URIs is said of hosts without capital letters. Granting a secret may raise; what the leader
-- writes to its databags is written. The relations of a provider are listed with
-- whether their data can be read; a secret is read by its owner, or at the other end of a relation
-- that it was granted to.
--
-- What is not modelled: the decorator `refresh` and the registration of event handlers, which are
-- the frameworks'; the statuses that the client charm sets while it runs and after it has returned;
-- of repository.py the listing of directories, the arguments that argparse reads and
-- the threads that print what commands print; the tests.
pub mod Base
pub mod System
pub mod Ppa
pub mod Lnet
pub mod Filesystem
pub mod LustreFs
pub mod Lustre
pub mod Proxies
pub mod Repo
pub mod Client
pub mod Tests
