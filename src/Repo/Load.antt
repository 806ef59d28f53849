-- ===== src/Repo/Load.antt =====
-- `load_charm` and `load_package` of repository.py.
use filesystem_charms.Base.{
  ◌&&◌, Option, none, some, List, [], ◌∷◌, ◌++◌, contains, filter, text_eq, ◌==◌, if◌then◌else◌,
}
use filesystem_charms.Base.Exec.{Result, ok, err, bind_result}
use filesystem_charms.Base.Text.{Text, codes, split_once}
use filesystem_charms.Repo.{
  RepoError, repository, failed_to_read, unknown_library, key_error, value_error, CharmLibrary,
  Package, Charm, base_name,
}
use filesystem_charms.Repo.Deps.{Lock, dependencies}

-- How opening a file ends: with its content, with `NotADirectoryError`, or with another `OSError`.
pub data Read {ℓ} (A : Type ℓ) : Type ℓ where
  content : A → Read A
  not_a_directory read_error : Read A

-- The pyproject.toml of a charm or a package: `tool.repository.libraries`, and the name and version
-- of the project. A field is missing where a key is.
pub record Project : Type 0 where
  pub libraries : Option (List Text)
  pub name : Option Text
  pub version : Option Text

-- The files that are read, by their paths.
pub record Files (Data : Type 0) : Type 0 where
  pub project : Text → Read Project
  pub metadata : Text → Option Data

-- The first library with the charm and the name.
unfoldable pub find_library : Text → Text → List CharmLibrary → Option CharmLibrary
find_library charm name [] = none
find_library charm name (lib ∷ libs) =
    if lib.charm == charm && lib.name == name then some lib else find_library charm name libs

-- One name of the loop over the libraries of a charm.
unfoldable pub resolve_library : Text → List CharmLibrary → Text → Result RepoError CharmLibrary
unfolding split_once find_library
resolve_library path libraries lib = elim (split_once b'.' lib) [
  | none ↦ err value_error
  | some (charm, name) ↦ elim (find_library charm name libraries) [
    | none ↦ err (repository (unknown_library lib path))
    | some found ↦ ok found
  ]
]

unfoldable pub resolve_libraries :
    Text → List CharmLibrary → List Text → Result RepoError (List CharmLibrary)
unfolding resolve_library
resolve_libraries path libraries [] = ok []
resolve_libraries path libraries (lib ∷ libs) =
    bind_result (resolve_library path libraries lib)
      (λ found. bind_result (resolve_libraries path libraries libs) (λ rest. ok (found ∷ rest)))

-- The packages of the repository that a charm depends on.
unfoldable pub used_packages : List Text → List Package → List Package
unfolding filter contains
used_packages deps packages = filter (λ p. contains deps p.name) packages

-- `libs`, where a `KeyError` is passed over.
unfoldable pub charm_libraries :
    Text → List CharmLibrary → Project → Result RepoError (List CharmLibrary)
unfolding resolve_libraries
charm_libraries path libraries project = elim project.libraries [
  | none ↦ ok []
  | some names ↦ resolve_libraries path libraries names
]

module _ {Data : Type 0} (F : Files Data) where
  -- `load_charm` from the lock file on.
  unfoldable pub build_charm :
      Text
      → List CharmLibrary
      → List Package
      → Project
      → Data
      → List Text
      → Result RepoError (Charm Data)
  unfolding charm_libraries used_packages
  build_charm charm libraries packages project metadata deps =
      bind_result (charm_libraries (charm ++ codes "/pyproject.toml") libraries project) (λ libs.
        ok (record {
          metadata = metadata;
          path = charm;
          libraries = libs;
          packages = used_packages deps packages;
        }))

  -- `load_charm`; a charm that is not a directory is skipped. The outer option is that of the loop
  -- over the lock file.
  unfoldable pub load_charm :
      Text
      → List CharmLibrary
      → List Package
      → Lock
      → Option (Result RepoError (Option (Charm Data)))
  unfolding dependencies base_name build_charm
  load_charm charm libraries packages lock =
      let project_path = charm ++ codes "/pyproject.toml" in
      let metadata_path = charm ++ codes "/charmcraft.yaml" in
      elim (F.project project_path) [
        | not_a_directory ↦ some (ok none)
        | read_error ↦ some (err (repository (failed_to_read project_path)))
        | content project ↦ elim (F.metadata metadata_path) [
          | none ↦ some (err (repository (failed_to_read metadata_path)))
          | some metadata ↦ elim (dependencies lock (base_name charm)) [
            | none ↦ none
            | some deps ↦ some (
                bind_result deps (λ ds.
                  bind_result (build_charm charm libraries packages project metadata ds)
                    (λ c. ok (some c))))
          ]
        ]
      ]

  -- `load_package`
  unfoldable pub load_package : Text → Result RepoError (Option Package)
  load_package path =
      let project_path = path ++ codes "/pyproject.toml" in
      elim (F.project project_path) [
        | not_a_directory ↦ ok none
        | read_error ↦ err (repository (failed_to_read project_path))
        | content project ↦ elim project.name [
          | none ↦ err key_error
          | some name ↦ elim project.version [
            | none ↦ err key_error
            | some version ↦ ok (some (record { name = name; version = version; path = path }))
          ]
        ]
      ]
