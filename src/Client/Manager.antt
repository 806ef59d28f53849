-- ===== src/Client/Manager.antt =====
-- `MountsManager` of charms/filesystem-client/src/utils/manager.py.
use filesystem_charms.Base.{
  Bool, true, false, not, ◌&&◌, ◌||◌, Option, none, some, List, [], ◌∷◌, ◌++◌, is_empty, contains,
  text_eq, ◌==◌, if◌then◌else◌,
}
use filesystem_charms.Base.Dict.{Dict, keys}
use filesystem_charms.Base.Exec.{Exec, ok, err, pure, wrap, when, for_each, ◌>>=◌, ◌>>◌}
use filesystem_charms.Base.Text.{Text, codes}
use filesystem_charms.Client.{
  MountError, autofs_failed, package_failed, autofs_files_failed, repository_failed, lnet_failed,
  package_not_found, os_error, MountEntry, MountsManager, base_packages, lustre_packages, Host,
}
use filesystem_charms.Client.Mounts.{autofs_map}
use filesystem_charms.Lnet.{Networks, LnetError}
use filesystem_charms.Lnet.Reconcile.{init, lnet_conf}
use filesystem_charms.Lnet.Show.{Yaml}
use filesystem_charms.Ppa.{Apt, setup_lustre_repository}
use filesystem_charms.System.{System, file_checked, touch, write_text, mkdir_parents}

-- The machine, and the packages that `_packages` keeps.
pub record World (S : System) (H : Host S) : Type 0 where
  pub pkgs : Option (List H.Package)
  pub machine : S.World

module _ {S : System} (H : Host S) where
  -- Code that acts on the machine only.
  abbrev pub of_machine : {E A : Type 0} → Exec S.World E A → Exec (World S H) E A
  of_machine m w = let (r, machine) = m w.machine in (r, record w { machine = machine })

  -- `[apt.DebianPackage.from_system(pkg) for pkg in names]`
  unfoldable pub load_packages : List Text → Exec S.World MountError (List H.Package)
  load_packages [] w = (ok [], w)
  load_packages (name ∷ names) w = elim (H.from_system name w) [
    | none ↦ (err package_not_found, w)
    | some pkg ↦ (do pkgs ← load_packages names; pure (pkg ∷ pkgs)) w
  ]

  -- `self._pkgs = …; return self._pkgs`
  unfoldable pub keep_packages : List Text → Exec (World S H) MountError (List H.Package)
  unfolding load_packages
  keep_packages names w =
      let (r, machine) = load_packages names w.machine in
      elim r [
        | ok pkgs ↦ (ok pkgs, record { pkgs = some pkgs; machine = machine })
        | err e ↦ (err e, record w { machine = machine })
      ]

  -- `any(pkg.name in LUSTRE_PACKAGES for pkg in self._pkgs)`
  unfoldable pub any_lustre : List H.Package → Bool
  any_lustre [] = false
  any_lustre (pkg ∷ pkgs) = contains lustre_packages (H.package_name pkg) || any_lustre pkgs

  -- `self._pkgs`, where it is none if it is not to be used.
  unfoldable pub kept_packages : Bool → Option (List H.Package) → Option (List H.Package)
  unfolding any_lustre
  kept_packages enable_lustre none = none
  kept_packages enable_lustre (some pkgs) =
      if is_empty pkgs
      then none
      else if enable_lustre && not (any_lustre pkgs)
      then none
      else some pkgs

  module _ (A : Apt S) (M : MountsManager) where
    unfoldable pub packages : Exec (World S H) MountError (List H.Package)
    unfolding kept_packages keep_packages setup_lustre_repository
    packages w = elim (kept_packages M.enable_lustre w.pkgs) [
      | some pkgs ↦ (ok pkgs, w)
      | none ↦
          if M.enable_lustre
          then (do
            of_machine (wrap repository_failed (setup_lustre_repository S A))
            keep_packages (base_packages ++ lustre_packages))
              w
          else keep_packages base_packages w
    ]

    -- The loop of `is_setup`.
    unfoldable pub all_present : List H.Package → S.World → Bool
    all_present [] w = true
    all_present (pkg ∷ pkgs) w = H.present pkg w && all_present pkgs w

    unfoldable pub is_setup : Exec (World S H) MountError Bool
    unfolding packages all_present
    is_setup w =
        let (r, w') = packages w in
        elim r [
          | err e ↦ (err e, w')
          | ok pkgs ↦ (
            ok (
                all_present pkgs w'.machine
                && S.exists M.master_file w'.machine
                && S.exists M.autofs_file w'.machine
                && (not M.enable_lustre || S.exists lnet_conf w'.machine)),
            w',
          )
        ]

    -- `pkg.ensure(apt.PackageState.Present)`
    unfoldable pub ensure_present : H.Package → Exec S.World MountError (Unit {0})
    ensure_present pkg w =
        let (done, w') = H.ensure pkg w in
        elim done [ true ↦ (ok tt, w') | false ↦ (err package_failed, w') ]

    -- What the `except` clause of `setup` makes of an error of the packages.
    unfoldable pub setup_failure : MountError → MountError
    setup_failure package_not_found = package_failed
    setup_failure e = e

    unfoldable pub write_autofs_files : Exec S.World MountError (Unit {0})
    write_autofs_files = do
      file_checked S (touch M.master_file) autofs_files_failed
      file_checked S (touch M.autofs_file) autofs_files_failed
      file_checked S (write_text M.master_file (codes "/- " ++ M.autofs_file)) autofs_files_failed

    unfoldable pub setup :
        Yaml → Exec S.World LnetError Networks → Exec (World S H) MountError (Unit {0})
    unfolding packages ensure_present setup_failure write_autofs_files init
    setup Y detect_networks = do
      pkgs ← wrap setup_failure packages
      of_machine (for_each pkgs ensure_present)
      of_machine write_autofs_files
      when M.enable_lustre
          (of_machine (wrap lnet_failed (init S Y detect_networks M.lnet_networks)))

  -- `supported`
  unfoldable pub supported : S.World → Bool
  supported w = elim (H.is_container w) [ none ↦ true | some container ↦ not container ]

  unfoldable pub reload : Exec S.World MountError (Unit {0})
  reload w =
      let (done, w') = H.reload_autofs w in
      elim done [ true ↦ (ok tt, w') | false ↦ (err autofs_failed, w') ]

  -- `for mount in mounts._mounts.keys(): pathlib.Path(mount).mkdir(…)`
  unfoldable pub make_mountpoints : List Text → Exec S.World MountError (Unit {0})
  make_mountpoints mountpoints =
      for_each mountpoints λ mountpoint. file_checked S (mkdir_parents mountpoint) os_error

  unfoldable pub write_mounts : Text → Dict Text MountEntry → Exec S.World MountError (Unit {0})
  unfolding make_mountpoints reload
  write_mounts autofs_file mounts = do
    make_mountpoints (keys mounts)
    file_checked S (write_text autofs_file (autofs_map mounts)) os_error
    reload

  -- `mounts` from where the block under `with` has ended.
  unfoldable pub apply_mounts :
      Text → Bool → Dict Text MountEntry → Exec S.World MountError (Unit {0})
  unfolding write_mounts
  apply_mounts autofs_file force_mount mounts w = elim (S.read_text autofs_file w) [
    | none ↦ (err os_error, w)
    | some old ↦
        if not force_mount && autofs_map mounts == old
        then (ok tt, w)
        else write_mounts autofs_file mounts w
  ]
