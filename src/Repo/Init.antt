-- ===== src/Repo/Init.antt =====
-- The libraries, the packages and the charms that `Repository` of repository.py loads, from the
-- directories that were listed.
pub mod Ends
use filesystem_charms.Base.{Option, none, some, List, [], ◌∷◌, ◌++◌, text_eq, if◌then◌else◌}
use filesystem_charms.Base.Exec.{Result, ok, err, bind_result}
use filesystem_charms.Base.Text.{Text}
use filesystem_charms.Base.Dict.{Dict}
use filesystem_charms.Base.Text.Number.{negsuc}
use filesystem_charms.Repo.{
  RepoError, key_error, to_int, CharmLibrary, from_charmcraft_lib, Package, Charm,
}
use filesystem_charms.Repo.Deps.{Lock}
use filesystem_charms.Repo.Load.{Files, load_charm, load_package}

-- A module under `lib` of a charm: the name of the charm's directory, the part of the path that holds
-- the major version, and the name of the file without its suffix.
pub record LibFile : Type 0 where
  pub charm : Text
  pub version_part : Text
  pub stem : Text

abbrev without_first : Text → Text
without_first [] = []
without_first (c ∷ s) = s

-- `internal_libraries`
unfoldable pub internal_libraries : List LibFile → Result RepoError (List CharmLibrary)
unfolding to_int
internal_libraries [] = ok []
internal_libraries (f ∷ files) = bind_result (to_int (without_first f.version_part)) (λ major.
    bind_result (internal_libraries files) (λ libs. ok (
      record { charm = f.charm; name = f.stem; major_version = major; minor_version = negsuc 0 }
      ∷ libs)))

-- `external_libraries`, where a missing key is passed over.
unfoldable pub external_libraries : List (Dict Text Text) → Result RepoError (List CharmLibrary)
unfolding from_charmcraft_lib
external_libraries [] = ok []
external_libraries (entry ∷ entries) =
    bind_result (from_charmcraft_lib entry)
      (λ lib. bind_result (external_libraries entries) (λ libs. ok (lib ∷ libs)))

unfoldable pub libraries_or_none :
    Result RepoError (List CharmLibrary) → Result RepoError (List CharmLibrary)
libraries_or_none (err key_error) = ok []
libraries_or_none r = r

-- `libraries`, of what `external-libraries` holds and the modules of the charms.
unfoldable pub libraries :
    Option (List (Dict Text Text)) → List LibFile → Result RepoError (List CharmLibrary)
unfolding internal_libraries external_libraries libraries_or_none
libraries entries files =
    let external : Result RepoError (List CharmLibrary) = elim entries [
      | none ↦ ok []
      | some es ↦ external_libraries es
    ] in
    bind_result (libraries_or_none external)
      (λ ext. bind_result (internal_libraries files) (λ own. ok (own ++ ext)))

-- `[x for … if (x := …) is not None]`, one step
unfoldable pub keep_loaded : {A : Type 0} → Option A → List A → List A
keep_loaded none xs = xs
keep_loaded (some x) xs = x ∷ xs

module _ {Data : Type 0} (F : Files Data) where
  -- The packages of the paths that `iterdir` lists.
  unfoldable pub load_packages : List Text → Result RepoError (List Package)
  unfolding load_package keep_loaded
  load_packages [] = ok []
  load_packages (path ∷ paths) =
      bind_result (load_package F path)
        (λ p. bind_result (load_packages paths) (λ ps. ok (keep_loaded p ps)))

  -- `private_packages` or `public_packages`, where a directory that is not there has none.
  unfoldable pub packages_of : Option (List Text) → Result RepoError (List Package)
  unfolding load_packages
  packages_of none = ok []
  packages_of (some paths) = load_packages paths

  -- `packages`
  unfoldable pub packages :
      Option (List Text) → Option (List Text) → Result RepoError (List Package)
  unfolding packages_of
  packages private public =
      bind_result (packages_of private)
        (λ ps. bind_result (packages_of public) (λ qs. ok (ps ++ qs)))

  -- `charms`; the outer option is that of the loop over the lock file.
  unfoldable pub load_charms :
      List Text
      → List CharmLibrary
      → List Package
      → Lock
      → Option (Result RepoError (List (Charm Data)))
  unfolding load_charm keep_loaded
  load_charms [] libraries pkgs lock = some (ok [])
  load_charms (path ∷ paths) libraries pkgs lock =
      let rest = load_charms paths libraries pkgs lock in
      elim (load_charm F path libraries pkgs lock) [
        | none ↦ none
        | some (err e) ↦ some (err e)
        | some (ok c) ↦ elim rest [
          | none ↦ none
          | some cs ↦ some (bind_result cs (λ loaded. ok (keep_loaded c loaded)))
        ]
      ]
