-- ===== src/Tests.antt =====
-- Concrete machines and peers that the witnesses run the code on.
pub mod Client
pub mod Handler
pub mod Lnet
pub mod Spec
pub mod Uri
pub mod Secrets
pub mod Share
pub mod Repo
pub mod Lustre
pub mod LustreFs
use filesystem_charms.Base.{
  Bool, true, false, Option, none, some, List, [], ◌∷◌, text_eq, ◌==◌, if◌then◌else◌,
}
use filesystem_charms.Base.Text.{Text, codes}
use filesystem_charms.Filesystem.{Provider, FilesystemInfo}
use filesystem_charms.System.{System, Completed, success, failure}

-- A machine on which every command succeeds, printing the given text, and nothing is mounted
-- but what is listed.
abbrev pub machine : Text → Bool → System
machine printed mounted = record {
  World = Unit {0};
  run = λ argv w. (success printed, w);
  file = λ call w. (true, w);
  is_mount = λ path w. mounted;
  exists = λ path w. mounted;
  service_running = λ name w. some true;
  service_restart = λ name w. (true, w);
  read_text = λ path w. some (codes "lustre 1\nlnet 2\n");
  glob = λ directory pattern w. codes "/mnt/ost0" ∷ [];
  set_order = λ xs. xs;
}

-- A provider that keeps what it was given last.
abbrev pub last_info : Provider
last_info = record { State = Option FilesystemInfo; set_info = λ info f. (true, some info) }
