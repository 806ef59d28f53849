-- ===== src/Client/Mounts.antt =====
-- `_get_endpoint_and_opts`, `Mounts` and the autofs map of
-- charms/filesystem-client/src/utils/manager.py.
use filesystem_charms.Base.{
  Bool, true, false, Option, none, some, List, [], ◌∷◌, ◌++◌, map, is_empty, text_eq, nat_eq, ◌==◌,
  if◌then◌else◌,
}
use filesystem_charms.Base.Dict.{Dict, insert}
use filesystem_charms.Base.Exec.{Result, ok, err, bind_result}
use filesystem_charms.Base.Sort.{sorted, text_leb}
use filesystem_charms.Base.Text.{Text, codes, join}
use filesystem_charms.Base.Text.Number.{ℤ, pos, negsuc, str}
use filesystem_charms.Client.{MountError, lustre_not_enabled, MountEntry}
use filesystem_charms.Filesystem.{FilesystemInfo, nfs, cephfs, lustre}

-- `if port: options.append(f"port={port}")`
abbrev port_option : Option ℤ → List Text
port_option none = []
port_option (some (pos n)) = if n == 0 then [] else (codes "port=" ++ str (pos n)) ∷ []
port_option (some (negsuc n)) = (codes "port=" ++ str (negsuc n)) ∷ []

-- `if version: options.append(f"vers={version}")`
abbrev version_option : Option Text → List Text
version_option none = []
version_option (some version) = if is_empty version then [] else (codes "vers=" ++ version) ∷ []

-- `IPv6Address(hostname)`, which raises `AddressValueError` on what is no address, is a parameter.
module _ (is_ipv6 : Text → Bool) where
  unfoldable pub get_endpoint_and_opts :
      FilesystemInfo → Bool → Result MountError (Text × List Text)
  unfolding join str
  get_endpoint_and_opts (nfs info) enable_lustre =
      let hostname =
        if is_ipv6 info.hostname
        then codes "[" ++ (info.hostname ++ codes "]")
        else info.hostname in
      ok (
        hostname ++ (codes ":" ++ info.path),
        codes "fstype=nfs" ∷ (port_option info.port ++ version_option info.version),
      )
  get_endpoint_and_opts (cephfs info) enable_lustre = ok (
    info.user
        ++ (codes "@" ++ (info.fsid ++ (codes "." ++ (info.name ++ (codes "=" ++ info.path))))),
    codes "fstype=ceph"
        ∷ (codes "mon_addr=" ++ join (codes "/") info.monitor_hosts)
        ∷ (codes "secret=" ++ info.key)
        ∷ [],
  )
  get_endpoint_and_opts (lustre info) true =
      ok (join (codes ":") info.mgs_ids ++ (codes ":/" ++ info.fs_name), codes "fstype=lustre" ∷ [])
  get_endpoint_and_opts (lustre info) false = err lustre_not_enabled

  -- `Mounts.add`, from the mounts that were added before.
  unfoldable pub add :
      Bool
      → FilesystemInfo
      → Text
      → Option (List Text)
      → Dict Text MountEntry
      → Result MountError (Dict Text MountEntry)
  unfolding get_endpoint_and_opts sorted insert
  add enable_lustre info mountpoint options mounts =
      let given : List Text = elim options [ none ↦ [] | some opts ↦ opts ] in
      bind_result (get_endpoint_and_opts info enable_lustre) λ found.
        let entry : MountEntry = record {
          endpoint = found.0;
          options = sorted (given ++ found.1);
        } in
        ok (insert mountpoint entry mounts)

-- `sorted(mounts._mounts.items())`: no mountpoint comes twice, so that they decide the order.
unfoldable pub insert_item : Text × MountEntry → Dict Text MountEntry → Dict Text MountEntry
unfolding text_leb
insert_item (p, e) [] = (p, e) ∷ []
insert_item (p, e) ((q, f) ∷ items) =
    let rest = insert_item (p, e) items in
    if text_leb p q then (p, e) ∷ (q, f) ∷ items else (q, f) ∷ rest

unfoldable pub sorted_items : Dict Text MountEntry → Dict Text MountEntry
unfolding insert_item
sorted_items [] = []
sorted_items (item ∷ items) = insert_item item (sorted_items items)

-- f"{mountpoint} -{','.join(info.options)} {info.endpoint}"
unfoldable pub autofs_line : Text × MountEntry → Text
autofs_line (mountpoint, entry) =
    mountpoint ++ (codes " -" ++ (join (codes ",") entry.options ++ (codes " " ++ entry.endpoint)))

unfoldable pub autofs_map : Dict Text MountEntry → Text
unfolding sorted_items autofs_line
autofs_map mounts = join (codes "\n") (map autofs_line (sorted_items mounts))
