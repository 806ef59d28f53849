-- ===== src/Tests/Client.antt =====
-- The mounts of the filesystem client, and the detection of networks, on concrete machines.
use filesystem_charms.System.{run_checked}
use filesystem_charms.System.{file_checked}
use filesystem_charms.Base.Text.{strip}
use filesystem_charms.Base.Text.{join}
use filesystem_charms.Base.Text.{is_space}
use filesystem_charms.Base.Sort.{sorted}
use filesystem_charms.Base.Exec.{for_each}
use filesystem_charms.Base.Dict.{keys}
use filesystem_charms.Base.{to_set}
use filesystem_charms.Base.{
  ◌≡◌, ◌≢◌, ◌∙◌, refl, All, Bool, true, false, some, [], ◌∷◌, text_beq, text_beq_refl, text_eq,
}
use filesystem_charms.Base.Dict.{Dict, NodupKeys, insert, lookup, lookup-insert}
use filesystem_charms.Base.Exec.{ok}
use filesystem_charms.Base.Text.{has, Text, codes}
use filesystem_charms.Client.{MountEntry, Host}
use filesystem_charms.Client.Applied.{KeepsFile, apply_mounts_converges}
use filesystem_charms.Client.Manager.{apply_mounts}
use filesystem_charms.Client.Mounts.{autofs_map}
use filesystem_charms.Lnet.{Networks}
use filesystem_charms.Lnet.Detect.{Json, Listing, detect_networks}
use filesystem_charms.Lnet.Detect.Detected.{detect_networks_valid}
use filesystem_charms.System.{System, FileCall, write_text, success}

abbrev autofs_file : Text
autofs_file = codes "/etc/auto.client-0"

abbrev call_file : FileCall → Dict Text Text → Bool × Dict Text Text
call_file (write_text path text) w = (true, insert path text w)
call_file call w = (true, w)

-- A machine that is its files.
abbrev pub disk : System
disk = record {
  World = Dict Text Text;
  run = λ argv w. (success [], w);
  file = call_file;
  is_mount = λ path w. false;
  exists = λ path w. true;
  service_running = λ name w. some true;
  service_restart = λ name w. (true, w);
  read_text = λ path w. lookup path w;
  glob = λ directory pattern w. [];
  set_order = λ xs. xs;
}

abbrev pub host : Host disk
host = record {
  Package = Text;
  from_system = λ name w. some name;
  package_name = λ name. name;
  present = λ name w. true;
  ensure = λ name w. (true, w);
  is_container = λ w. some false;
  reload_autofs = λ w. (true, w);
}

host-KeepsFile : (path : Text) → KeepsFile disk host path
host-KeepsFile path = record {
  written = λ text w w' plain h.
      let same : insert path text w ≡ w' = cc h in
      rw (← same) (lookup-insert path path text w ∙ rw (text_beq_refl path) refl);
  reloaded = λ w w' h. let same : w ≡ w' = cc h in rw (← same) refl;
}

abbrev mounts : Dict Text MountEntry
mounts =
    (
      codes "/data",
      record { endpoint = codes "10.0.0.1:/srv"; options = codes "fstype=nfs" ∷ codes "rw" ∷ [] },
    )
    ∷ []

abbrev before : Dict Text Text
before = (autofs_file, []) ∷ []

abbrev afterwards : Dict Text Text
afterwards = (autofs_file, codes "/data -fstype=nfs,rw 10.0.0.1:/srv") ∷ []

apply_mounts_converges_example :
    (lookup autofs_file afterwards ≡ some (autofs_map mounts))
    × (apply_mounts host autofs_file false mounts afterwards ≡ (ok tt, afterwards))
unfolding has apply_mounts lookup text_beq autofs_map join for_each keys file_checked insert
apply_mounts_converges_example =
    apply_mounts_converges host autofs_file (host-KeepsFile autofs_file) mounts refl false before
      afterwards refl

-- A host with one link and a default route; an object is its fields.
abbrev link : Dict Text Text
link =
    (codes "dev", codes "eth0")
    ∷ (codes "netdev", codes "ib0")
    ∷ (codes "state", codes "ACTIVE")
    ∷ (codes "physical_state", codes "LINK_UP")
    ∷ []

abbrev json : Json
json = record {
  Object = Dict Text Text;
  loads = λ text. some (link ∷ []);
  get = λ key d. lookup key d;
}

abbrev up : Dict Text Text
up = (codes "/sys/class/net/ib0/operstate", codes "up") ∷ []

abbrev listing : Listing disk
listing path w = []

detect_networks_valid_example :
    let networks : Networks =
      (codes "tcp", codes "eth0" ∷ []) ∷ (codes "o2ib", codes "ib0" ∷ []) ∷ [] in
    NodupKeys networks × All (λ p. p.1 ≢ []) networks
unfolding detect_networks run_checked lookup text_beq sorted to_set strip is_space insert
detect_networks_valid_example =
    detect_networks_valid disk json listing up up
      ((codes "tcp", codes "eth0" ∷ []) ∷ (codes "o2ib", codes "ib0" ∷ []) ∷ []) refl
