-- ===== src/Client/Mount.antt =====
-- The data of charms/filesystem-client/lib/charms/filesystem_client/v0/mount_info.py, and what it
-- uses of ops.
pub mod Provides
pub mod Requires
pub mod Told
use filesystem_charms.Base.{Bool, ℕ, Option, List, filter}
use filesystem_charms.Base.Dict.{Dict}
use filesystem_charms.Base.Text.{Text}

-- `MountInfo`
pub record MountInfo : Type 0 where
  pub mountpoint : Text
  pub noexec : Bool
  pub nosuid : Bool
  pub nodev : Bool
  pub read_only : Bool

-- `Relation.save` and `Relation.load` of ops, for `MountInfo`; `load` may raise.
pub record Codec : Type 0 where
  pub save : MountInfo → Dict Text Text → Dict Text Text
  pub load : Dict Text Text → Option MountInfo

-- A relation: whether its data can be read yet, the databag of the application that asks for the
-- mount, and the databag of the client's unit.
pub record MountRelation : Type 0 where
  pub id : ℕ
  pub ready : Bool
  pub app_data : Dict Text Text
  pub unit_data : Dict Text Text

-- `_BaseInterface.relations`
unfoldable pub active_relations : List MountRelation → List MountRelation
unfolding filter
active_relations relations = filter (λ r. r.ready) relations
