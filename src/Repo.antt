-- ===== src/Repo.antt =====
-- The data of repository.py: charm libraries, packages, charms and the monorepo.
pub mod Deps
pub mod Roundtrip
pub mod Pyproject
pub mod Host
pub mod Stage
pub mod Load
pub mod Init
pub mod Cli
pub mod Checks
use filesystem_charms.Base.{
  Bool, true, false, ℕ, Option, none, some, List, [], ◌∷◌, ◌++◌, text_eq, nat_eq, ◌==◌,
  if◌then◌else◌,
}
use filesystem_charms.Base.Dict.{Dict, lookup}
use filesystem_charms.Base.Exec.{Result, ok, err, bind_result}
use filesystem_charms.Base.Text.{Text, codes, split, split_once}
use filesystem_charms.Base.Text.Number.{ℤ, int, str}

-- The messages of `RepositoryError`, with what is formatted into them.
pub data RepositoryFault : Type 0 where
  failed_to_read failed_to_write : Text → RepositoryFault
  unknown_library : Text → Text → RepositoryFault
  unknown_charm unknown_package unknown_target : Text → RepositoryFault
  no_charms : RepositoryFault

-- What the tool raises: a `RepositoryError`, or an exception of Python.
pub data RepoError : Type 0 where
  repository : RepositoryFault → RepoError
  key_error value_error stop_iteration index_error os_error called_process_error : RepoError

pub record CharmLibrary : Type 0 where
  pub charm : Text
  pub name : Text
  pub major_version : ℤ
  pub minor_version : ℤ

-- `s.replace("-", "_")`
unfoldable pub underscored : Text → Text
underscored [] = []
underscored (c ∷ s) = (if c == b'-' then b'_' else c) ∷ underscored s

-- `CharmLibrary.path`
unfoldable pub library_path : CharmLibrary → Text
unfolding underscored str
library_path lib =
    underscored lib.charm
    ++ (codes "/v" ++ (str lib.major_version ++ (codes "/" ++ (lib.name ++ codes ".py"))))

-- `as_charmcraft_lib`
unfoldable pub as_charmcraft_lib : CharmLibrary → Dict Text Text
unfolding str
as_charmcraft_lib lib =
    (codes "lib", lib.charm ++ (codes "." ++ lib.name))
    ∷ (codes "version", str lib.major_version ++ (codes "." ++ str lib.minor_version))
    ∷ []

-- `info[key]`
unfoldable pub item : Text → Dict Text Text → Result RepoError Text
unfolding lookup
item key info = elim (lookup key info) [ none ↦ err key_error | some value ↦ ok value ]

-- `a, b = s.split(".", maxsplit=1)`
unfoldable pub two_names : Text → Result RepoError (Text × Text)
unfolding split_once
two_names s = elim (split_once b'.' s) [ none ↦ err value_error | some p ↦ ok p ]

-- `int(s)`
unfoldable pub to_int : Text → Result RepoError ℤ
unfolding int
to_int s = elim (int s) [ none ↦ err value_error | some z ↦ ok z ]

-- `from_charmcraft_lib`
unfoldable pub from_charmcraft_lib : Dict Text Text → Result RepoError CharmLibrary
unfolding item two_names to_int
from_charmcraft_lib info =
    bind_result (bind_result (item (codes "lib") info) two_names) (λ (charm, name).
      bind_result (bind_result (item (codes "version") info) two_names) (λ (major, minor).
        bind_result (to_int major) (λ major_version. bind_result (to_int minor) (λ minor_version.
          ok (record {
            charm = charm;
            name = name;
            major_version = major_version;
            minor_version = minor_version;
          })))))

pub record Package : Type 0 where
  pub name : Text
  pub version : Text
  pub path : Text

-- The last of the parts, which there always is.
unfoldable pub last_part : List Text → Text
last_part [] = []
last_part (s ∷ []) = s
last_part (s ∷ t ∷ ts) = last_part (t ∷ ts)

-- `path.name`: what follows the last `/`.
unfoldable pub base_name : Text → Text
unfolding split
base_name path = last_part (split b'/' path)

-- `Charm`, whose metadata is the data that `yaml` reads.
pub record Charm (Data : Type 0) : Type 0 where
  pub metadata : Data
  pub path : Text
  pub libraries : List CharmLibrary
  pub packages : List Package
