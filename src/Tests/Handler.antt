-- ===== src/Tests/Handler.antt =====
-- The event handler of the filesystem client on a concrete machine.
use filesystem_charms.Base.{
  ◌≡◌, ◌↔◌, ◌⊎◌, refl, Bool, ℕ, true, false, Option, none, some, [], ◌∷◌, ◌++◌, map, is_empty,
  text_eq, text_beq, ◌==◌, if◌then◌else◌,
}
use filesystem_charms.Base.Dict.{Dict, lookup}
use filesystem_charms.Base.Exec.{ok}
use filesystem_charms.Base.Text.{Text, codes}
use filesystem_charms.Client.Asked.{IsCodec, set_mount_info_lem}
use filesystem_charms.Client.Config.{get_config, get_config_ok}
use filesystem_charms.Client.Handler.{Event, handle_event, returned, handle_event_emits}
use filesystem_charms.Client.Mount.{MountInfo, Codec, MountRelation, active_relations}
use filesystem_charms.Client.Mount.Provides.{set_mount_status, mount_info, mount_requested}
use filesystem_charms.Client.Mount.Provides
use filesystem_charms.Client.Mount.Requires.{on_relation_changed, set_mount_info}
use filesystem_charms.Client.Mount.Told.{told}
use filesystem_charms.Filesystem.{nfs}
use filesystem_charms.Lnet.Show.{Yaml}
use filesystem_charms.Ppa.{Apt, release, completed}
use filesystem_charms.Tests.Client.{disk, host}

abbrev apt : Apt disk
apt = record {
  version_codename = λ w. release (codes "noble");
  import_key = λ name w. (completed, w);
  add_repository = λ name w. (completed, w);
  update = λ w. (completed, w);
  add_package = λ packages w. (completed, w);
}

abbrev yaml : Yaml
yaml = record {
  Data = Text;
  safe_load = λ text. some text;
  is_none = λ text. false;
  model_validate = λ text. some (record { net = none });
}

abbrev config : Text → MountInfo
config mountpoint = record {
  mountpoint = mountpoint;
  noexec = true;
  nosuid = false;
  nodev = false;
  read_only = true;
}

-- JSON, as far as the fields of a mount need it: 34 is the quotation mark.
abbrev json_bool : Bool → Text
json_bool b = if b then codes "true" else codes "false"

abbrev quote : Text
quote = 34 ∷ []

abbrev saved : MountInfo → Dict Text Text
saved info =
    (codes "mountpoint", quote ++ info.mountpoint)
    ∷ (codes "noexec", json_bool info.noexec)
    ∷ (codes "nosuid", json_bool info.nosuid)
    ∷ (codes "nodev", json_bool info.nodev)
    ∷ (codes "read_only", json_bool info.read_only)
    ∷ []

abbrev parsed : Dict Text Text → Option MountInfo
parsed ((k, q ∷ mountpoint) ∷ (k1, noexec) ∷ (k2, nosuid) ∷ (k3, nodev) ∷ (k4, read_only) ∷ bag) =
    some (record {
      mountpoint = mountpoint;
      noexec = noexec == codes "true";
      nosuid = nosuid == codes "true";
      nodev = nodev == codes "true";
      read_only = read_only == codes "true";
    })
parsed bag = none

abbrev codec : Codec
codec = record { save = λ info bag. saved info; load = parsed }

json_bool-true : (b : Bool) → (json_bool b == codes "true") ≡ b
unfolding text_beq
json_bool-true true = refl
json_bool-true false = refl

parsed-saved : (info : MountInfo) → parsed (saved info) ≡ some info
parsed-saved info =
    rw
      (
        json_bool-true info.noexec,
        json_bool-true info.nosuid,
        json_bool-true info.nodev,
        json_bool-true info.read_only,
      )
      refl

codec-IsCodec : IsCodec codec
unfolding lookup text_beq
codec-IsCodec = record {
  loaded = λ info bag. parsed-saved info;
  quoted = λ info bag. (quote ++ info.mountpoint, refl, refl);
}

abbrev relation : MountRelation
relation = record {
  id = 1;
  ready = true;
  app_data = saved (config (codes "/data"));
  unit_data = [];
}

abbrev fresh : MountRelation
fresh = record relation { app_data = [] }

get_config_ok_example :
    (get_config codec (config []) (relation ∷ []) ≡ ok (config (codes "/data"))) ↔ (
      ((is_empty {A = ℕ} [] ≡ false) × (relation ∷ [] ≡ []) × (config (codes "/data") ≡ config []))
      ⊎ ((is_empty {A = ℕ} [] ≡ true)
          × (r : MountRelation) × (relation ∷ [] ≡ r ∷ [])
          × (mount_info codec r ≡ ok (some (config (codes "/data"))))))
get_config_ok_example = get_config_ok codec (config []) (relation ∷ []) (config (codes "/data"))

set_mount_info_lem_example :
    let asked = set_mount_info codec true (config (codes "/scratch")) fresh in
    (Provides.on_relation_changed asked ≡ mount_requested 1 ∷ [])
    × (get_config codec (config []) (active_relations (asked ∷ []))
        ≡ ok (config (codes "/scratch")))
set_mount_info_lem_example =
    set_mount_info_lem codec codec-IsCodec (config (codes "/scratch")) fresh (config []) refl refl

abbrev event : Event
event = record {
  manager = record {
    master_file = codes "/etc/auto.master.d/client-0.autofs";
    autofs_file = codes "/etc/auto.client-0";
    enable_lustre = false;
    lnet_networks = [];
  };
  lnet_networks = [];
  config = config [];
  endpoints =
      nfs (record { hostname = codes "10.0.0.1"; port = none; path = codes "/srv"; version = none })
      ∷ [];
}

handle_event_emits_example :
    let (r, after) =
      handle_event host apt yaml codec
        (λ w. (ok [], w))
        (λ hostname. false)
        event
        (relation ∷ [], record { pkgs = none; machine = [] }) in
    map on_relation_changed (active_relations after.0)
    ≡ map (told (returned r)) (active_relations (relation ∷ []))
handle_event_emits_example =
    handle_event_emits host apt yaml codec (λ w. (ok [], w)) (λ hostname. false) event
      (relation ∷ []) (record { pkgs = none; machine = [] })
