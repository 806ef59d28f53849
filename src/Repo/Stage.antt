-- ===== src/Repo/Stage.antt =====
-- `stage_charm`, `stage_charms` and `clean_charm` of repository.py.
pub mod DryRun
use filesystem_charms.Base.{
  Bool, true, false, not, Option, none, some, List, [], ◌∷◌, ◌++◌, map, is_empty, if◌then◌else◌,
}
use filesystem_charms.Base.Dict.{Dict}
use filesystem_charms.Base.Exec.{Result, Exec, ok, err, pure, raise, when, for_each, ◌>>=◌, ◌>>◌}
use filesystem_charms.Base.Text.{Text, codes, strip}
use filesystem_charms.Repo.{
  RepoError, repository, failed_to_write, key_error, os_error, called_process_error, CharmLibrary,
  Package, Charm, library_path, as_charmcraft_lib, base_name,
}
use filesystem_charms.Repo.Host.{
  Host, BuildTool, uv, Source, Entry, Pyproject, Action, run_command, fetch_libs, rmtree,
  rmtree_ignored, mkdir, make_parent, unlink, copytree, copy_file, write_text, write_metadata,
  write_libs, write_pyproject, Repository, Run, act_or, unless,
}
use filesystem_charms.Repo.Pyproject.{sdist_name, vendor, merged_sources, merged_metadata}

module _ (H : Host) where
  -- `BUILD_PATH`, `CHARMS_PATH`, `LOCK_FILE` and `LIBS_CHARM_PATH`
  abbrev pub build_dir : Text
  build_dir = H.root_dir ++ codes "/_build"

  abbrev pub charms_dir : Text
  charms_dir = H.root_dir ++ codes "/charms"

  abbrev pub lock_file : Text
  lock_file = H.root_dir ++ codes "/uv.lock"

  abbrev pub libs_charm : Text
  libs_charm = build_dir ++ codes "/libs"

  -- `Charm.build_path` and `Charm.charm_path`
  unfoldable pub build_path : Charm H.Data → Text
  unfolding base_name
  build_path charm = build_dir ++ (codes "/" ++ base_name charm.path)

  unfoldable pub charm_path : Charm H.Data → Text
  unfolding base_name
  charm_path charm = build_dir ++ (codes "/" ++ (base_name charm.path ++ codes ".charm"))

  -- `copy`
  unfoldable pub copy : Text → Text → Run H (Unit {0})
  unfolding act_or
  copy src dest = act_or H os_error (make_parent dest) >> act_or H os_error (copy_file src dest)

  -- The version file, from the git revision.
  unfoldable pub write_version : Charm H.Data → Run H (Unit {0})
  unfolding act_or build_path strip
  write_version charm w =
      let (described, w') = H.git_describe charm.path w in
      elim described [
        | none ↦ (err called_process_error, w')
        | some revision ↦
            act_or H os_error (write_text (build_path charm ++ codes "/version") (strip revision))
              w'
      ]

  -- The first part of `stage_charm`.
  unfoldable pub stage_files : Charm H.Data → Run H (Unit {0})
  unfolding act_or build_path write_version
  stage_files charm =
      let manifest = build_path charm ++ codes "/charmcraft.yaml" in
      act_or H os_error (rmtree (build_path charm))
      >> act_or H os_error (copytree charm.path (build_path charm))
      >> act_or H (repository (failed_to_write manifest)) (write_metadata manifest charm.metadata)
      >> act_or H os_error (copy_file lock_file (build_path charm))
      >> write_version charm

  -- A library of the charm.
  unfoldable pub stage_library : Bool → Charm H.Data → CharmLibrary → Run H (Unit {0})
  unfolding library_path build_path copy
  stage_library dry_run charm lib = unless H dry_run (
      copy (libs_charm ++ (codes "/lib/charms/" ++ library_path lib))
        (build_path charm ++ (codes "/lib/charms/" ++ library_path lib)))

  -- The loop over the packages, with `pyproject["project"]["dependencies"]`.
  unfoldable pub stage_packages :
      Charm H.Data → List Package → Option (List Text) → Run H (Option (List Text))
  unfolding copy sdist_name build_path vendor
  stage_packages charm [] deps = pure deps
  stage_packages charm (pkg ∷ pkgs) deps =
      copy (build_dir ++ (codes "/dist/" ++ sdist_name pkg))
        (build_path charm ++ (codes "/dist/" ++ sdist_name pkg))
      >> elim deps [
        | none ↦ raise key_error
        | some ds ↦ stage_packages charm pkgs (some (vendor pkg ds))
      ]

  -- The pyproject.toml of the staged charm.
  unfoldable pub staged_pyproject :
      Repository H.Data → Pyproject H.Data → Option (List Text) → Pyproject H.Data
  unfolding merged_sources merged_metadata
  staged_pyproject repo project deps = record project {
    dependencies = deps;
    sources = merged_sources (λ s. s.workspace) repo.sources project.sources;
    metadata = merged_metadata (λ e. e.name) repo.metadata project.metadata;
  }

  -- The last part of `stage_charm`.
  unfoldable pub stage_pyproject : Charm H.Data → Repository H.Data → Run H (Unit {0})
  unfolding build_path stage_packages staged_pyproject act_or
  stage_pyproject charm repo w =
      let path = build_path charm ++ codes "/pyproject.toml" in
      elim (H.read_pyproject path w) [
        | none ↦ (err os_error, w)
        | some project ↦
            (stage_packages charm charm.packages project.dependencies >>= λ deps.
            act_or H os_error (write_pyproject path (staged_pyproject repo project deps)))
              w
      ]

  unfoldable pub stage_charm : Charm H.Data → Repository H.Data → Bool → Run H (Unit {0})
  unfolding stage_files for_each stage_library stage_pyproject
  stage_charm charm repo dry_run =
      unless H dry_run (stage_files charm)
      >> for_each charm.libraries (stage_library dry_run charm)
      >> unless H dry_run (stage_pyproject charm repo)

  unfoldable pub clean_charm : Charm H.Data → Bool → Run H (Unit {0})
  unfolding build_path charm_path act_or
  clean_charm charm dry_run = unless H dry_run (
      act_or H os_error (rmtree_ignored (build_path charm))
      >> act_or H os_error (unlink (charm_path charm)))

  -- An internal library, copied to the libraries that charms are staged from.
  unfoldable pub stage_internal : Bool → CharmLibrary → Run H (Unit {0})
  unfolding library_path copy
  stage_internal dry_run lib = unless H dry_run (
      copy (charms_dir ++ (codes "/" ++ (lib.charm ++ (codes "/lib/charms/" ++ library_path lib))))
        (libs_charm ++ (codes "/lib/charms/" ++ library_path lib)))

  -- The source distribution of a package.
  unfoldable pub build_package : Bool → Package → Run H (Unit {0})
  unfolding act_or
  build_package dry_run pkg = unless H dry_run (
      act_or H called_process_error (
        run_command uv
          (codes "build"
            ∷ codes "--package"
            ∷ pkg.name
            ∷ codes "--sdist"
            ∷ codes "--out-dir"
            ∷ (build_dir ++ codes "/dist")
            ∷ [])
          []))

  -- One charm of `stage_charms`.
  unfoldable pub prepare_charm : Repository H.Data → Bool → Bool → Charm H.Data → Run H (Unit {0})
  unfolding clean_charm stage_charm
  prepare_charm repo clean dry_run charm =
      when clean (clean_charm charm dry_run) >> stage_charm charm repo dry_run

  -- The charm that the external libraries are fetched for.
  unfoldable pub prepare_libs : Repository H.Data → Bool → Bool → Run H (Unit {0})
  unfolding act_or as_charmcraft_lib
  prepare_libs repo clean dry_run =
      let manifest = libs_charm ++ codes "/charmcraft.yaml" in
      when clean (unless H dry_run (act_or H os_error (rmtree libs_charm)))
      >> unless H dry_run (act_or H os_error (mkdir libs_charm))
      >> unless H dry_run (
          act_or H (repository (failed_to_write manifest))
            (write_libs manifest (map as_charmcraft_lib repo.external_libraries)))
      >> when (not (is_empty repo.external_libraries))
          (unless H dry_run (act_or H called_process_error (fetch_libs libs_charm)))

  unfoldable pub stage_charms :
      List (Charm H.Data) → Repository H.Data → Bool → Bool → Run H (Unit {0})
  unfolding prepare_libs for_each stage_internal build_package prepare_charm
  stage_charms charms repo clean dry_run =
      prepare_libs repo clean dry_run
      >> for_each repo.internal_libraries (stage_internal dry_run)
      >> for_each repo.packages (build_package dry_run)
      >> for_each charms (prepare_charm repo clean dry_run)
