-- ===== src/Client/Config.antt =====
-- `_get_config` of charms/filesystem-client/src/charm.py.
use filesystem_charms.Base.{
  ◌≡◌, ◌⊎◌, inl, inr, ◌↔◌, refl, arith, true, false, Option, none, some, List, [], ◌∷◌, is_empty,
  if◌then◌else◌,
}
use filesystem_charms.Base.Exec.{Result, ok, err}
use filesystem_charms.Base.Text.{Text, codes}
use filesystem_charms.Client.Mount.{MountInfo, Codec, MountRelation}
use filesystem_charms.Client.Mount.Provides.{LoadError, mount_info}

-- The statuses with which `_get_config` stops the handler; `unreadable` is for the exception of a
-- relation whose data do not load.
pub data ConfigStop : Type 0 where
  missing_mountpoint several_relations waiting_for_mountpoint two_mountpoints unreadable :
      ConfigStop

-- The mount information of the only relation.
unfoldable pub asked_for : Result LoadError (Option MountInfo) → Result ConfigStop MountInfo
asked_for (err e) = err unreadable
asked_for (ok none) = err waiting_for_mountpoint
asked_for (ok (some info)) = ok info

-- From the configuration, where the mountpoint may be empty, and the active relations.
unfoldable pub get_config : Codec → MountInfo → List MountRelation → Result ConfigStop MountInfo
unfolding mount_info asked_for
get_config C config [] = if is_empty config.mountpoint then err missing_mountpoint else ok config
get_config C config (relation ∷ []) =
    if is_empty config.mountpoint then asked_for (mount_info C relation) else err two_mountpoints
get_config C config (relation ∷ other ∷ relations) =
    if is_empty config.mountpoint then err several_relations else err two_mountpoints

-- The options of `_handle_event` for a mount.
unfoldable pub mount_options : MountInfo → List Text
mount_options config =
    (if config.noexec then codes "noexec" else codes "exec")
    ∷ (if config.nosuid then codes "nosuid" else codes "suid")
    ∷ (if config.nodev then codes "nodev" else codes "dev")
    ∷ (if config.read_only then codes "ro" else codes "rw")
    ∷ []

asked_for_ok :
    (x : Result LoadError (Option MountInfo)) (info : MountInfo)
    → (asked_for x ≡ ok info) ↔ (x ≡ ok (some info))
unfolding asked_for
asked_for_ok (err e) info = (λ h. absurd (ground arith), λ h. absurd (ground arith))
asked_for_ok (ok none) info = (λ h. absurd (ground arith), λ h. absurd (ground arith))
asked_for_ok (ok (some i)) info = (λ h. ground arith, λ h. ground arith)

-- There is a configuration exactly if there is one mountpoint: the configuration's own where no
-- relation is active, or the one that the only active relation asks for.
pub get_config_ok :
    (C : Codec) (config : MountInfo) (relations : List MountRelation) (info : MountInfo)
    → (get_config C config relations ≡ ok info) ↔ (
        ((is_empty config.mountpoint ≡ false) × (relations ≡ []) × (info ≡ config))
        ⊎ ((is_empty config.mountpoint ≡ true)
            × (relation : MountRelation) × (relations ≡ relation ∷ [])
            × (mount_info C relation ≡ ok (some info))))
unfolding get_config
get_config_ok C config [] info = (
  λ e. inl (ground arith, refl, ground arith),
  λ h. elim h [
    | inl own ↦ ground arith
    | inr (_, relation, none_there, _) ↦ absurd (cc none_there)
  ],
)
get_config_ok C config (relation ∷ []) info = (
  λ e.
      inr (
        ground arith,
        relation,
        refl,
        (asked_for_ok (mount_info C relation) info).0 (ground arith),
      ),
  λ h. elim h [
    | inl (_, some_there, _) ↦ absurd (cc some_there)
    | inr (empty, asked, same, p) ↦
        let this : relation ≡ asked = cc same in
        let q : mount_info C relation ≡ ok (some info) = rw this p in
        let r = (asked_for_ok (mount_info C relation) info).1 q in ground arith
  ],
)
get_config_ok C config (relation ∷ other ∷ relations) info = (
  λ e. absurd (ground arith),
  λ h. elim h [
    | inl (_, some_there, _) ↦ absurd (cc some_there)
    | inr (_, r, one_there, _) ↦ absurd (cc one_there)
  ],
)
