-- ===== src/Lustre/Charm/Install.antt =====
-- `_on_install` of charms/lustre-server/src/charm.py.
use filesystem_charms.Base.{Bool, true, false, if◌then◌else◌}
use filesystem_charms.Base.Exec.{Exec, ok, err, lift, ◌>>=◌, ◌>>◌}
use filesystem_charms.Base.Text.{Text}
use filesystem_charms.Filesystem.{Provider}
use filesystem_charms.Lnet.{Networks, LnetError}
use filesystem_charms.Lnet.Reconcile.{init}
use filesystem_charms.Lnet.Show.{Yaml}
use filesystem_charms.Lnet.Spec.{parse_network_config}
use filesystem_charms.Lustre.{
  Message, blocked, maintenance, repo_setup, failed_repo_setup, package_install, lnet_init,
  failed_lnet_init, preparing_services, failed_install,
}
use filesystem_charms.Lustre.Charm.{
  install_raised, Handler, put_status, of_machine, lustre_packages,
}
use filesystem_charms.Ppa.{
  RepositoryError, codename, gpg_key, sync, unexpected_error, Apt, attempt, setup_lustre_repository,
}
use filesystem_charms.System.{System}

-- What installing packages raises: `PackageNotFoundError` and `PackageError`, or any other exception.
pub data PackageFailure : Type 0 where
  not_installed not_caught : PackageFailure

unfoldable pub is_repository_error : RepositoryError → Bool
is_repository_error unexpected_error = false
is_repository_error codename = true
is_repository_error gpg_key = true
is_repository_error sync = true

unfoldable pub is_package_error : PackageFailure → Bool
is_package_error not_installed = true
is_package_error not_caught = false

module _ {S : System} {F : Provider} where
  -- `try: m except …: status = blocked; return`, and then the rest.
  unfoldable pub unless_failed :
      {E A : Type 0} → (E → Bool) → Exec S.World E A → Message → Handler S F → Handler S F
  unless_failed is_caught m message rest w =
      let (r, w') = of_machine {S = S} {F = F} m w in
      elim r [
        | ok a ↦ rest w'
        | err e ↦ if is_caught e then put_status (blocked message) w' else (err install_raised, w')
      ]

module _ (S : System) (Y : Yaml) (detect_networks : Exec S.World LnetError Networks)
    (spec : Text) where
  unfoldable pub configure_lnet : Exec S.World LnetError (Unit {0})
  unfolding init
  configure_lnet = do networks ← lift (parse_network_config spec); init S Y detect_networks networks

module _ {S : System} {F : Provider} (A : Apt S) (Y : Yaml)
    (detect_networks : Exec S.World LnetError Networks) (spec : Text) where
  unfoldable pub initialize_lnet : Handler S F
  unfolding unless_failed configure_lnet
  initialize_lnet = do
    put_status (maintenance lnet_init)
    unless_failed (λ e. true) (configure_lnet S Y detect_networks spec) failed_lnet_init
        (put_status (maintenance preparing_services))

  unfoldable pub install_packages : Handler S F
  unfolding unless_failed is_package_error attempt initialize_lnet
  install_packages = do
    put_status (maintenance package_install)
    unless_failed is_package_error
        (attempt S A (A.add_package lustre_packages) not_installed not_caught)
        (failed_install lustre_packages) initialize_lnet

  unfoldable pub on_install : Handler S F
  unfolding unless_failed is_repository_error setup_lustre_repository install_packages
  on_install = do
    put_status (maintenance repo_setup)
    unless_failed is_repository_error (setup_lustre_repository S A) failed_repo_setup
        install_packages
