-- ===== src/System.antt =====
-- What the charms use of the machine: processes, and files. These are the operating system's, so
-- they are parameters.
use filesystem_charms.Base.{Bool, true, false, Option, List}
use filesystem_charms.Base.Exec.{Exec, ok, err}
use filesystem_charms.Base.Text.{Text}

-- How `subprocess.run` ends, with the standard output: with exit status 0, with another, or with
-- `FileNotFoundError`.
pub data Completed : Type 0 where
  success failure : Text → Completed
  not_found : Completed

-- The methods of `pathlib.Path` that change files and may raise `OSError`.
pub data FileCall : Type 0 where
  unlink_missing_ok touch mkdir_parents : Text → FileCall
  write_text : Text → Text → FileCall
  replace : Text → Text → FileCall

pub record System : Type 1 where
  pub World : Type 0
  -- `subprocess.run(argv)`
  pub run : List Text → World → Completed × World
  -- Whether the call did not raise.
  pub file : FileCall → World → Bool × World
  -- `Path.is_mount()`, `Path.exists()`
  pub is_mount : Text → World → Bool
  pub exists : Text → World → Bool
  -- `service_running`, which may raise `SystemdError`, and whether `service_restart` did not.
  pub service_running : Text → World → Option Bool
  pub service_restart : Text → World → Bool × World
  -- `Path.read_text()`, which may raise `OSError`.
  pub read_text : Text → World → Option Text
  -- `Path(directory).glob(pattern)`
  pub glob : Text → Text → World → List Text
  -- The order in which a `for` goes through a set.
  pub set_order : List Text → List Text

module _ (S : System) {E : Type 0} where
  -- `try: subprocess.run(argv, check=True) except (CalledProcessError, FileNotFoundError): raise e`
  unfoldable pub run_checked : List Text → E → Exec S.World E Text
  run_checked argv e w =
      let (result, w') = S.run argv w in
      elim result [
        | success out ↦ (ok out, w')
        | failure out ↦ (err e, w')
        | not_found ↦ (err e, w')
      ]

  -- `try: call except OSError: raise e`
  unfoldable pub file_checked : FileCall → E → Exec S.World E (Unit {0})
  file_checked call e w =
      let (done, w') = S.file call w in elim done [ true ↦ (ok tt, w') | false ↦ (err e, w') ]
