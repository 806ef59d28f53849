-- ===== src/Repo/Cli.antt =====
-- The command line of repository.py: its targets and its commands.
pub mod Chosen
use filesystem_charms.Base.{
  Bool, true, false, not, Option, none, some, List, [], ◌∷◌, ◌++◌, map, is_empty, text_eq, ◌==◌,
  if◌then◌else◌,
}
use filesystem_charms.Base.Dict.{Dict}
use filesystem_charms.Base.Exec.{
  Result, Exec, ok, err, bind_result, pure, raise, when, for_each, ◌>>=◌, ◌>>◌,
}
use filesystem_charms.Base.Text.{Text, codes}
use filesystem_charms.Repo.{
  RepoError, repository, unknown_charm, unknown_package, unknown_target, no_charms, os_error,
  called_process_error, index_error, Package, Charm, base_name, underscored,
}
use filesystem_charms.Repo.Host.{
  Host, uv, charmcraft, run_command, pack, rmtree_ignored, unlink, Repository, Run, act_or, unless,
}
use filesystem_charms.Repo.Stage.{build_dir, libs_charm, build_path, charm_path, copy, stage_charms}

module _ {Data : Type 0} where
  -- `Charm.name`
  unfoldable pub charm_name : Charm Data → Text
  unfolding base_name
  charm_name c = base_name c.path

  -- `next(filter(…))` of `validate_charm` and `validate_package`
  unfoldable pub find_charm : Text → List (Charm Data) → Option (Charm Data)
  unfolding charm_name
  find_charm name [] = none
  find_charm name (c ∷ cs) = if charm_name c == name then some c else find_charm name cs

  unfoldable pub validate_charm : Text → Repository Data → Result RepoError (Charm Data)
  unfolding find_charm
  validate_charm name repo = elim (find_charm name repo.charms) [
    | none ↦ err (repository (unknown_charm name))
    | some c ↦ ok c
  ]

-- `charms` and `packages` of the context
abbrev pub Targets : Type 0 → Type 0
Targets Data = List (Charm Data) × List Package

unfoldable pub find_package : Text → List Package → Option Package
unfolding base_name
find_package name [] = none
find_package name (p ∷ ps) = if base_name p.path == name then some p else find_package name ps

module _ {Data : Type 0} where
  unfoldable pub validate_package : Text → Repository Data → Result RepoError Package
  unfolding find_package
  validate_package name repo = elim (find_package name repo.packages) [
    | none ↦ err (repository (unknown_package name))
    | some p ↦ ok p
  ]

  -- The loop over the targets in `main_cli`, each put in front of what follows.
  unfoldable pub add_target :
      Repository Data → Text → Targets Data → Result RepoError (Targets Data)
  unfolding validate_charm validate_package
  add_target repo target (cs, ps) = elim (validate_charm target repo) [
    | ok c ↦ ok (cs ++ c ∷ [], ps)
    | err _ ↦ elim (validate_package target repo) [
      | ok p ↦ ok (cs, ps ++ p ∷ [])
      | err _ ↦ err (repository (unknown_target target))
    ]
  ]

  unfoldable pub add_targets :
      Repository Data → List Text → Targets Data → Result RepoError (Targets Data)
  unfolding add_target
  add_targets repo [] found = ok found
  add_targets repo (target ∷ targets) found =
      bind_result (add_target repo target found) (add_targets repo targets)

  -- What the commands operate on: everything without a target.
  unfoldable pub select_targets : Repository Data → List Text → Result RepoError (Targets Data)
  unfolding add_targets
  select_targets repo [] = ok (repo.charms, repo.packages)
  select_targets repo (target ∷ targets) = add_targets repo (target ∷ targets) ([], [])

module _ (H : Host) where
  -- `if len(charms) == 0: raise RepositoryError(…)`
  unfoldable pub require_charms : List (Charm H.Data) → Run H (Unit {0})
  require_charms charms = when (is_empty charms) (raise (repository no_charms))

  unfoldable pub stage_cli :
      List (Charm H.Data) → Repository H.Data → Bool → Bool → Run H (Unit {0})
  unfolding require_charms stage_charms
  stage_cli charms repo clean dry_run =
      require_charms charms >> stage_charms H charms repo clean dry_run

  -- The arguments of `charmcraft` that `gen_token_cli` runs.
  unfoldable pub token_args : List (Charm H.Data) → List Text
  unfolding charm_name
  token_args charms =
      (codes "login" ∷ codes "--export=.charmhub.secret" ∷ [])
      ++ (map (λ c. codes "--charm=" ++ charm_name c) charms
          ++ (codes "--permission=package-manage-metadata"
              ∷ codes "--permission=package-manage-releases"
              ∷ codes "--permission=package-manage-revisions"
              ∷ codes "--permission=package-view-metadata"
              ∷ codes "--permission=package-view-releases"
              ∷ codes "--permission=package-view-revisions"
              ∷ codes "--ttl=31536000"
              ∷ []))

  unfoldable pub gen_token_cli : List (Charm H.Data) → Run H (Unit {0})
  unfolding require_charms act_or token_args
  gen_token_cli charms =
      require_charms charms
      >> act_or H called_process_error (run_command charmcraft (token_args charms) [])

  unfoldable pub clean_cli : Bool → Run H (Unit {0})
  unfolding act_or
  clean_cli dry_run = unless H dry_run (act_or H os_error (rmtree_ignored (build_dir H)))

  -- `uv_run`, with what it adds to the environment.
  unfoldable pub uv_run : List Text → Dict Text Text → Run H (Unit {0})
  unfolding act_or
  uv_run args env =
      act_or H called_process_error
        (run_command uv (codes "run" ∷ codes "--frozen" ∷ codes "--extra" ∷ codes "dev" ∷ args) env)

  -- `get_source_dirs` of targets, by their paths.
  unfoldable pub get_source_dirs : List Text → H.World → List Text
  get_source_dirs [] w = []
  get_source_dirs (path ∷ paths) w =
      let rest = get_source_dirs paths w in
      let tests = path ++ codes "/tests" in
      let src = path ++ codes "/src" in
      let from_tests = if H.exists tests w then tests ∷ rest else rest in
      if H.exists src w then src ∷ from_tests else from_tests

  -- The directories that `fmt_cli` and `lint_cli` work on.
  unfoldable pub source_files : List (Charm H.Data) → List Package → H.World → List Text
  unfolding get_source_dirs
  source_files charms packages w =
      get_source_dirs (map (λ c. c.path) charms) w
      ++ (get_source_dirs (map (λ p. p.path) packages) w ++ (H.root_dir ++ codes "/tests") ∷ [])

  unfoldable pub fmt_cli : List (Charm H.Data) → List Package → Run H (Unit {0})
  unfolding source_files uv_run
  fmt_cli charms packages w =
      uv_run (codes "ruff" ∷ codes "format" ∷ source_files charms packages w) [] w

  unfoldable pub lint_cli : List (Charm H.Data) → List Package → Bool → Run H (Unit {0})
  unfolding source_files uv_run
  lint_cli charms packages fix w =
      let files = source_files charms packages w in
      (uv_run (codes "codespell" ∷ ((if fix then codes "-w" ∷ [] else []) ++ files)) []
          >> uv_run
              (codes "ruff" ∷ codes "check" ∷ ((if fix then codes "--fix" ∷ [] else []) ++ files))
              [])
        w

  -- One charm of `build_cli`.
  unfoldable pub build_charm_file : Charm H.Data → Run H (Unit {0})
  unfolding act_or build_path charm_path charm_name copy
  build_charm_file charm = act_or H called_process_error (pack (build_path H charm)) >> λ w.
      elim (H.glob (charm_name charm ++ codes "_*.charm") (build_path H charm) w) [
        | [] ↦ (err index_error, w)
        | name ∷ names ↦
            (let built = build_path H charm ++ (codes "/" ++ name) in
                act_or H os_error (unlink (charm_path H charm))
                >> copy H built (charm_path H charm)
                >> act_or H os_error (unlink built))
              w
      ]

  unfoldable pub build_cli : List (Charm H.Data) → Repository H.Data → Run H (Unit {0})
  unfolding require_charms stage_charms for_each build_charm_file
  build_cli charms repo =
      require_charms charms
      >> stage_charms H charms repo false false
      >> for_each charms build_charm_file
