-- ===== src/Repo/Host.antt =====
-- What repository.py changes on the machine, which is a parameter.
use filesystem_charms.Base.{Bool, not, Option, List, if◌then◌else◌}
use filesystem_charms.Base.Dict.{Dict}
use filesystem_charms.Base.Exec.{Exec, ok, err, when}
use filesystem_charms.Base.Text.{Text}
use filesystem_charms.Repo.{RepoError, CharmLibrary, Package, Charm}

-- `UV` and `CHARMCRAFT`
pub data BuildTool : Type 0 where
  uv charmcraft : BuildTool

-- A source and an entry of a pyproject.toml, with what is not looked at.
pub record Source (Data : Type 0) : Type 0 where
  pub workspace : Bool
  pub rest : Data

pub record Entry (Data : Type 0) : Type 0 where
  pub name : Text
  pub rest : Data

-- A pyproject.toml: `tool.uv.sources` and `tool.uv.dependency-metadata` are empty where they are
-- missing, and `project.dependencies` may be missing.
pub record Pyproject (Data : Type 0) : Type 0 where
  pub dependencies : Option (List Text)
  pub sources : Dict Text (Source Data)
  pub metadata : List (Entry Data)
  pub rest : Data

-- `rmtree` skips a directory that does not exist, `rmtree_ignored` all errors, and `unlink` a
-- missing file.
pub data Action (Data : Type 0) : Type 0 where
  run_command : BuildTool → List Text → Dict Text Text → Action Data
  fetch_libs pack : Text → Action Data
  rmtree rmtree_ignored mkdir make_parent unlink : Text → Action Data
  copytree copy_file : Text → Text → Action Data
  write_text : Text → Text → Action Data
  write_metadata : Text → Data → Action Data
  write_libs : Text → List (Dict Text Text) → Action Data
  write_pyproject : Text → Pyproject Data → Action Data

pub record Host : Type 1 where
  pub World : Type 0
  pub Data : Type 0
  pub root_dir : Text
  -- Whether the action did not raise.
  pub act : Action Data → World → Bool × World
  -- `git -C path describe --always --dirty`
  pub git_describe : Text → World → Option Text × World
  pub read_pyproject : Text → World → Option (Pyproject Data)
  pub exists : Text → World → Bool
  pub is_file : Text → World → Bool
  -- `any(path.glob("test_*.py"))`
  pub has_tests : Text → World → Bool
  -- `glob.glob(pattern, root_dir=…)`
  pub glob : Text → Text → World → List Text

-- `Repository`; the sources and the entries are those of the root.
pub record Repository (Data : Type 0) : Type 0 where
  pub charms : List (Charm Data)
  pub external_libraries : List CharmLibrary
  pub internal_libraries : List CharmLibrary
  pub packages : List Package
  pub sources : Dict Text (Source Data)
  pub metadata : List (Entry Data)

module _ (H : Host) where
  abbrev pub Run : Type 0 → Type 0
  Run A = Exec H.World RepoError A

  -- An action, with what it raises.
  unfoldable pub act_or : RepoError → Action H.Data → Run (Unit {0})
  act_or e action w = let (done, w') = H.act action w in (if done then ok tt else err e, w')

  -- `if not dry_run: m`
  abbrev pub unless : Bool → Run (Unit {0}) → Run (Unit {0})
  unless dry_run m = when (not dry_run) m
