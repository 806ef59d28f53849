-- ===== src/Client.antt =====
-- The filesystem client charm (charms/filesystem-client): what its manager of mounts keeps, and
-- what it uses of the machine.
pub mod Mounts
pub mod Manager
pub mod Applied
pub mod Config
pub mod Handler
pub mod Mount
pub mod Asked
use filesystem_charms.Base.{Bool, Option, List, [], ◌∷◌}
use filesystem_charms.Base.Dict.{Dict}
use filesystem_charms.Base.Text.{Text, codes}
use filesystem_charms.Lnet.{Networks, LnetError}
use filesystem_charms.Ppa.{RepositoryError}
use filesystem_charms.System.{System}

-- `Error` of charms/filesystem-client/src/utils/manager.py, with what it was raised for; the last
-- two are `PackageNotFoundError` and `OSError`, where they are not caught.
pub data MountError : Type 0 where
  lustre_not_enabled autofs_failed package_failed autofs_files_failed : MountError
  repository_failed : RepositoryError → MountError
  lnet_failed : LnetError → MountError
  package_not_found os_error : MountError

-- `_MountInfo`
pub record MountEntry : Type 0 where
  pub endpoint : Text
  pub options : List Text

-- The fields of `MountsManager` that do not change while it runs.
pub record MountsManager : Type 0 where
  pub master_file : Text
  pub autofs_file : Text
  pub enable_lustre : Bool
  pub lnet_networks : Networks

abbrev pub base_packages : List Text
base_packages = codes "ceph-common" ∷ codes "nfs-common" ∷ codes "autofs" ∷ []

abbrev pub lustre_packages : List Text
lustre_packages =
    codes "lustre-client-modules-dkms" ∷ codes "lustre-client-utils" ∷ codes "rdma-core" ∷ []

-- `apt.DebianPackage`, `is_container`, `systemctl` and the access mode of files.
pub record Host (S : System) : Type 1 where
  pub Package : Type 0
  -- `from_system(name)`, which may raise `PackageNotFoundError`.
  pub from_system : Text → S.World → Option Package
  pub package_name : Package → Text
  pub present : Package → S.World → Bool
  -- `ensure(PackageState.Present)`, with whether it did not raise.
  pub ensure : Package → S.World → Bool × S.World
  -- `is_container()`, which may raise `UnknownVirtualizationStateError`.
  pub is_container : S.World → Option Bool
  -- `systemctl("reload-or-restart", "autofs", check=True)`, with whether it did not raise.
  pub reload_autofs : S.World → Bool × S.World
