-- ===== src/Repo/Init/Ends.antt =====
-- The loading of the charms ends.
use filesystem_charms.Base.{◌≢◌, arith, none, List, [], ◌∷◌}
use filesystem_charms.Base.Text.{Text}
use filesystem_charms.Repo.{CharmLibrary, Package, base_name}
use filesystem_charms.Repo.Deps.{Lock}
use filesystem_charms.Repo.Deps.Ends.{dependencies_terminates}
use filesystem_charms.Repo.Init.{load_charms}
use filesystem_charms.Repo.Load.{Files, load_charm}

module _ {Data : Type 0} (F : Files Data) (libraries : List CharmLibrary) (pkgs : List Package)
    (lock : Lock) where
  load_charm_ends : (path : Text) → load_charm F path libraries pkgs lock ≢ none
  unfolding load_charm
  load_charm_ends path e = let ends = dependencies_terminates lock (base_name path) in ground arith

  -- The loading of the charms ends: the loop over the lock file does not run out of fuel for any of
  -- them.
  pub load_charms_terminates : (paths : List Text) → load_charms F paths libraries pkgs lock ≢ none
  unfolding load_charms
  load_charms_terminates [] e = ground arith
  load_charms_terminates (path ∷ paths) e =
      let first = load_charm_ends path in let rest = load_charms_terminates paths in ground arith
