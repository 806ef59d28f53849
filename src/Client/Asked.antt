-- ===== src/Client/Asked.antt =====
-- What the client mounts for an application that asks for it with `set_mount_info`.
use filesystem_charms.Base.{◌≡◌, refl, ap, ◌∙◌, true, false, some, [], ◌∷◌, is_empty, text_eq}
use filesystem_charms.Base.Dict.{Dict, lookup}
use filesystem_charms.Base.Exec.{ok}
use filesystem_charms.Base.Text.{Text, codes}
use filesystem_charms.Client.Config.{get_config, asked_for}
use filesystem_charms.Client.Mount.{MountInfo, Codec, MountRelation, active_relations}
use filesystem_charms.Client.Mount.Provides.{
  has_mountpoint, mount_info, mount_requested, on_relation_changed,
}
use filesystem_charms.Client.Mount.Requires.{set_mount_info}
use filesystem_charms.Client.Mount.Told.{active_relations-ready}

-- What the code relies on ops for: what was saved is what is loaded, and each field has a key of its
-- name with the field in JSON, which for a text has its quotes.
pub record IsCodec (C : Codec) : Type 0 where
  pub loaded : (info : MountInfo) (bag : Dict Text Text) → C.load (C.save info bag) ≡ some info
  pub quoted :
      (info : MountInfo) (bag : Dict Text Text)
      → (text : Text) × (lookup (codes "mountpoint") (C.save info bag) ≡ some text)
        × (is_empty text ≡ false)

mount_info-loaded :
    (C : Codec) (info : MountInfo) (r : MountRelation)
    → has_mountpoint r ≡ true
    → C.load r.app_data ≡ some info
    → mount_info C r ≡ ok (some info)
unfolding mount_info
mount_info-loaded C info r asked loaded = simp (asked, loaded)

on_relation_changed-asked :
    (r : MountRelation)
    → has_mountpoint r ≡ true
    → on_relation_changed r ≡ mount_requested r.id ∷ []
unfolding on_relation_changed
on_relation_changed-asked r asked = simp asked

get_config-asked :
    (C : Codec) (config info : MountInfo) (r : MountRelation)
    → is_empty config.mountpoint ≡ true
    → mount_info C r ≡ ok (some info)
    → get_config C config (r ∷ []) ≡ ok info
unfolding get_config asked_for
get_config-asked C config info r empty asked = simp (empty, asked)

module _ (C : Codec) (j : IsCodec C) (info : MountInfo) (r : MountRelation) where
  has_mountpoint-set_mount_info : has_mountpoint (set_mount_info C true info r) ≡ true
  unfolding has_mountpoint set_mount_info
  has_mountpoint-set_mount_info =
      let (text, written, filled) = j.quoted info r.app_data in simp (written, filled)

  mount_info-set_mount_info : mount_info C (set_mount_info C true info r) ≡ ok (some info)
  mount_info-set_mount_info =
      mount_info-loaded C info (set_mount_info C true info r) has_mountpoint-set_mount_info
        (unfold set_mount_info in j.loaded info r.app_data)

  -- When the leader of an application asks for a mount, the client is told so, and if it has no
  -- mountpoint of its own and no other active relation, its configuration is what was asked for.
  pub set_mount_info_lem :
      (config : MountInfo)
      → r.ready ≡ true
      → is_empty config.mountpoint ≡ true
      → let asked = set_mount_info C true info r in
        (on_relation_changed asked ≡ mount_requested r.id ∷ [])
        × (get_config C config (active_relations (asked ∷ [])) ≡ ok info)
  set_mount_info_lem config ready empty =
      let asked = set_mount_info C true info r in
      let active : active_relations (asked ∷ []) ≡ asked ∷ [] =
        active_relations-ready asked [] (unfold set_mount_info in ready)
        ∙ unfold active_relations in refl in
      (
        on_relation_changed-asked asked has_mountpoint-set_mount_info
            ∙ unfold set_mount_info in refl,
        ap (get_config C config) active
            ∙ get_config-asked C config info asked empty mount_info-set_mount_info,
      )
