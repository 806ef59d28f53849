-- ===== src/Lustre/State/Health.antt =====
-- What the unit status tells about the machine.
use filesystem_charms.Base.{
  ◌≡◌, ◌≢◌, ◌↔◌, true, false, some, List, [], ◌∷◌, arith, contains, difference, filter, text_eq,
  if◌then◌else◌,
}
use filesystem_charms.Base.Exec.{ok, err, bind_result}
use filesystem_charms.Base.Text.{Text, codes}
use filesystem_charms.Lustre.{AppData, Message, Status, active, mgs_mds_ready, oss_ready}
use filesystem_charms.Lustre.State.{
  Check, is_unpublished, peer_relation_app_data_check, modules_check, kernel_modules_check,
  mountpoint_check, mountpoint_checks, mgs_mds_check, oss_check, common_check, is_mgs_unit,
  role_check, keep_blocked, check_lustre,
}
use filesystem_charms.System.{System}
use filesystem_charms.LustreFs.{mgs_mdt_mountpoint}
use filesystem_charms.Lustre.State.{mount_directory}

-- The modules are found missing exactly if one of `lustre` and `lnet` is not loaded.
pub modules_check_iff :
    (loaded : List Text)
    → (modules_check loaded ≡ ok tt)
      ↔ ((contains loaded (codes "lustre") ≡ true) × (contains loaded (codes "lnet") ≡ true))
unfolding modules_check difference filter
modules_check_iff loaded = (λ e. (ground arith, ground arith), λ h. ground arith)

-- A check that fails does not say `active`.
abbrev IsHonest : Check → Type 0
IsHonest c = (m : Message) → c ≢ err (active m)

bind-IsHonest :
    (c : Check) (f : Unit {0} → Check) → IsHonest c → IsHonest (f tt) → IsHonest (bind_result c f)
bind-IsHonest (ok _) f h k = k
bind-IsHonest (err status) f h k = h

module _ (S : System) where
  kernel_modules_check-IsHonest : (w : S.World) → IsHonest (kernel_modules_check S w)
  unfolding kernel_modules_check modules_check
  kernel_modules_check-IsHonest w m e = ground arith

  mountpoint_check-IsHonest : (p : Text) (w : S.World) → IsHonest (mountpoint_check S p w)
  unfolding mountpoint_check
  mountpoint_check-IsHonest p w m e = ground arith

  mountpoint_checks-IsHonest : (ps : List Text) (w : S.World) → IsHonest (mountpoint_checks S ps w)
  unfolding mountpoint_checks
  mountpoint_checks-IsHonest [] w m e = cc e
  mountpoint_checks-IsHonest (p ∷ ps) w m e =
      bind-IsHonest (mountpoint_check S p w) (λ _. mountpoint_checks S ps w)
        (mountpoint_check-IsHonest p w) (mountpoint_checks-IsHonest ps w) m e

  oss_check-IsHonest : (w : S.World) → IsHonest (oss_check S w)
  unfolding oss_check
  oss_check-IsHonest w m e =
      let honest = mountpoint_checks-IsHonest (S.glob mount_directory (codes "ost[0-9]*") w) w m in
      ground arith

  peer_check-IsHonest : (d : AppData) → IsHonest (peer_relation_app_data_check d)
  unfolding peer_relation_app_data_check
  peer_check-IsHonest d m e = ground arith

module _ (S : System) (name : Text) (d : AppData) (w : S.World) where
  role_check-IsHonest : IsHonest (role_check S name d w)
  unfolding role_check mgs_mds_check
  role_check-IsHonest m e =
      let oss = oss_check-IsHonest S w m in
      let mgs = mountpoint_check-IsHonest S mgs_mdt_mountpoint w m in ground arith

  all_checks-IsHonest : IsHonest (bind_result (common_check S d w) λ _. role_check S name d w)
  unfolding common_check
  all_checks-IsHonest =
      bind-IsHonest (common_check S d w) (λ _. role_check S name d w)
        (bind-IsHonest (peer_relation_app_data_check d) (λ _. kernel_modules_check S w)
          (peer_check-IsHonest S d) (kernel_modules_check-IsHonest S w))
        role_check-IsHonest

  -- The status is active exactly if all checks pass; then it tells the role.
  pub check_lustre_passed :
      (existing : Status) (m : Message)
      → (check_lustre S name existing (some d) w ≡ active m) ↔ (
          (is_unpublished d ≡ false)
          × (kernel_modules_check S w ≡ ok tt)
          × (role_check S name d w ≡ ok tt)
          × ((if is_mgs_unit S name d then mgs_mds_ready else oss_ready) ≡ m))
  unfolding check_lustre keep_blocked common_check peer_relation_app_data_check
  check_lustre_passed existing m =
      (λ e. let honest = all_checks-IsHonest m in ground arith, λ h. ground arith)
