-- ===== src/Repo/Checks.antt =====
-- The commands `typecheck`, `unit` and `integration` of repository.py.
use filesystem_charms.Base.{
  Bool, false, not, ◌&&◌, ◌||◌, leb, ◌-◌, List, [], ◌∷◌, ◌++◌, map, text_eq, if◌then◌else◌,
}
use filesystem_charms.Base.Dict.{Dict, insert}
use filesystem_charms.Base.Exec.{ok, pure, for_each, ◌>>=◌, ◌>>◌}
use filesystem_charms.Base.Text.{Text, codes}
use filesystem_charms.Repo.{Package, Charm, underscored}
use filesystem_charms.Repo.Cli.{charm_name, require_charms, uv_run, build_cli}
use filesystem_charms.Repo.Host.{Host, Repository, Run}
use filesystem_charms.Repo.Stage.{libs_charm, build_path, charm_path, stage_charms}

-- `str.upper` of an ASCII text
unfoldable pub upper : Text → Text
upper text = map (λ c. if leb 97 c && leb c 122 then c - 32 else c) text

-- The directories of a staged charm that Python's modules are looked up in.
abbrev pub charm_pythonpath : Text → Text
charm_pythonpath path = path ++ (codes "/src:" ++ (path ++ codes "/lib"))

module _ (H : Host) where
  -- `pyright` on the sources of a target
  unfoldable pub pyright : Text → Text → Run H (Unit {0})
  unfolding uv_run
  pyright path pythonpath =
      uv_run H (codes "pyright" ∷ (path ++ codes "/src") ∷ [])
        ((codes "PYTHONPATH", pythonpath) ∷ [])

  unfoldable pub typecheck_cli :
      List (Charm H.Data) → List Package → Repository H.Data → Run H (Unit {0})
  unfolding stage_charms for_each pyright build_path
  typecheck_cli charms packages repo =
      stage_charms H charms repo false false
      >> for_each charms (λ c. pyright (build_path H c) (charm_pythonpath (build_path H c)))
      >> for_each packages (λ p. pyright p.path (p.path ++ codes "/src"))

  -- The unit tests of a target, with its coverage file, if one was written.
  unfoldable pub run_unit_tests : Text → Text → Run H (List Text)
  unfolding uv_run
  run_unit_tests path pythonpath =
      let coverage_file = path ++ codes "/.coverage" in
      uv_run H (codes "coverage" ∷ codes "erase" ∷ []) ((codes "COVERAGE_FILE", coverage_file) ∷ [])
      >> uv_run H
          (codes "coverage"
            ∷ codes "run"
            ∷ codes "--source"
            ∷ (path ++ codes "/src")
            ∷ codes "-m"
            ∷ codes "pytest"
            ∷ codes "-v"
            ∷ codes "--tb"
            ∷ codes "native"
            ∷ codes "-s"
            ∷ (path ++ codes "/tests/unit")
            ∷ [])
          ((codes "PYTHONPATH", pythonpath) ∷ (codes "COVERAGE_FILE", coverage_file) ∷ [])
      >> λ w. (ok (if H.is_file coverage_file w then coverage_file ∷ [] else []), w)

  -- The loop over the charms.
  unfoldable pub charms_unit_tests : List (Charm H.Data) → Run H (List Text)
  unfolding run_unit_tests build_path
  charms_unit_tests [] = pure []
  charms_unit_tests (c ∷ cs) = do
    let path = build_path H c
    files ← λ w.
        (if H.exists (path ++ codes "/tests") w
            then run_unit_tests path (charm_pythonpath path)
            else pure [])
          w
    more ← charms_unit_tests cs
    pure (files ++ more)

  -- The loop over the packages.
  unfoldable pub packages_unit_tests : List Package → Run H (List Text)
  unfolding run_unit_tests
  packages_unit_tests [] = pure []
  packages_unit_tests (p ∷ ps) = do
    let tests_path = p.path ++ codes "/tests/unit"
    files ← λ w.
        (if not (H.exists tests_path w) || not (H.has_tests tests_path w)
            then pure []
            else run_unit_tests p.path (p.path ++ codes "/src"))
          w
    more ← packages_unit_tests ps
    pure (files ++ more)

  unfoldable pub unit_test_cli :
      List (Charm H.Data) → List Package → Repository H.Data → Run H (Unit {0})
  unfolding stage_charms uv_run charms_unit_tests packages_unit_tests
  unit_test_cli charms packages repo = do
    stage_charms H charms repo false false
    uv_run H (codes "coverage" ∷ codes "erase" ∷ []) []
    of_charms ← charms_unit_tests charms
    of_packages ← packages_unit_tests packages
    uv_run H (codes "coverage" ∷ codes "combine" ∷ (of_charms ++ of_packages)) []
    uv_run H (codes "coverage" ∷ codes "report" ∷ []) []
    uv_run H (codes "coverage" ∷ codes "xml" ∷ codes "-o" ∷ codes "cover/coverage.xml" ∷ []) []

  -- `local_charms`
  unfoldable pub local_charms : List (Charm H.Data) → Dict Text Text → Dict Text Text
  unfolding insert upper underscored charm_name charm_path
  local_charms [] found = found
  local_charms (c ∷ cs) found =
      local_charms cs
        (insert (codes "LOCAL_" ++ underscored (upper (charm_name c))) (charm_path H c) found)

  -- What is added to the environment: `PYTHONPATH` only if the environment has none.
  unfoldable pub integration_env : Bool → List (Charm H.Data) → Dict Text Text
  unfolding local_charms
  integration_env has_pythonpath charms =
      (if has_pythonpath then [] else (codes "PYTHONPATH", libs_charm H ++ codes "/lib") ∷ [])
      ++ local_charms charms []

  -- With whether the environment has a `PYTHONPATH`.
  unfoldable pub integration_tests_cli :
      Bool → List (Charm H.Data) → Repository H.Data → List Text → Run H (Unit {0})
  unfolding require_charms stage_charms build_cli uv_run integration_env
  integration_tests_cli has_pythonpath charms repo rest = do
    require_charms H charms
    stage_charms H charms repo false false
    build_cli H charms repo
    uv_run H
        ((codes "pytest"
            ∷ codes "-v"
            ∷ codes "--exitfirst"
            ∷ codes "-s"
            ∷ codes "--tb"
            ∷ codes "native"
            ∷ codes "--log-cli-level=INFO"
            ∷ codes "./tests/integration"
            ∷ [])
          ++ rest)
        (integration_env has_pythonpath charms)
