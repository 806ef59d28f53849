-- ===== src/Ppa.antt =====
-- internal/lustre-ops/src/lustre_ops/ppa.py: the repository of the Lustre packages. `apt` of
-- `charmlibs` and `platform` are parameters.
use filesystem_charms.Base.{List}
use filesystem_charms.Base.Exec.{Exec, ok, err, ◌>>◌}
use filesystem_charms.Base.Text.{Text}
use filesystem_charms.System.{System}

-- The subclasses of `RepositoryError`; the last is any other exception, which is not caught.
pub data RepositoryError : Type 0 where
  codename gpg_key sync unexpected_error : RepositoryError

-- `freedesktop_os_release()["VERSION_CODENAME"]`, which may raise `KeyError`, or `OSError` where
-- there is no such file.
pub data Release : Type 0 where
  release : Text → Release
  no_codename os_error : Release

-- How a call ends: without an exception, with one that the `except` clause around it names, or with
-- another.
pub data Outcome : Type 0 where
  completed caught unexpected : Outcome

pub record Apt (S : System) : Type 0 where
  pub version_codename : S.World → Release
  -- `repo.import_key(LUSTRE_REPOSITORY_KEY)`, for the repository of the release.
  pub import_key : Text → S.World → Outcome × S.World
  -- `RepositoryMapping().add(repo)`
  pub add_repository : Text → S.World → Outcome × S.World
  pub update : S.World → Outcome × S.World
  pub add_package : List Text → S.World → Outcome × S.World

module _ (S : System) (A : Apt S) where
  -- `try: call except …: raise e`, where `other` stands for what is not caught.
  unfoldable pub attempt :
      {E : Type 0} → (S.World → Outcome × S.World) → E → E → Exec S.World E (Unit {0})
  attempt call e other w =
      let (outcome, w') = call w in
      elim outcome [ completed ↦ (ok tt, w') | caught ↦ (err e, w') | unexpected ↦ (err other, w') ]

  -- From the release on.
  unfoldable pub add_lustre_repository : Text → Exec S.World RepositoryError (Unit {0})
  unfolding attempt
  add_lustre_repository name = do
    attempt (A.import_key name) gpg_key unexpected_error
    attempt (A.add_repository name) sync unexpected_error
    attempt A.update sync unexpected_error

  unfoldable pub setup_lustre_repository : Exec S.World RepositoryError (Unit {0})
  unfolding add_lustre_repository
  setup_lustre_repository w = elim (A.version_codename w) [
    | no_codename ↦ (err codename, w)
    | os_error ↦ (err unexpected_error, w)
    | release name ↦ add_lustre_repository name w
  ]
