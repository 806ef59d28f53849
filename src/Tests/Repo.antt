-- ===== src/Tests/Repo.antt =====
-- A small repository, its lock file and its command line.
use filesystem_charms.Base.Text.{is_space}
use filesystem_charms.Repo.{last_part}
use filesystem_charms.Base.{text_beq}
use filesystem_charms.Base.{
  ◌≡◌, ◌≢◌, ◌↔◌, refl, true, false, not, ℕ, none, some, List, [], ◌∷◌, ◌+◌, map, filter, contains,
  text_eq, Option-cases, inl, inr, arith,
}
use filesystem_charms.Base.Dict.{Dict, lookup, keys, NodupKeys}
use filesystem_charms.Base.Exec.{ok}
use filesystem_charms.Base.Text.{Text, codes, has}
use filesystem_charms.Base.Text.Number.{pos, negsuc, int}
use filesystem_charms.Repo.{
  CharmLibrary, Package, Charm, as_charmcraft_lib, from_charmcraft_lib, base_name, to_int,
}
use filesystem_charms.Repo.Cli.{find_charm, find_package, charm_name, select_targets}
use filesystem_charms.Repo.Cli.Chosen.{is_charm, is_package, AllKnown, select_targets_lem}
use filesystem_charms.Repo.Deps.{Lock, mentioned, dependencies, find_dependencies}
use filesystem_charms.Repo.Deps.Closure.{Reach}
use filesystem_charms.Repo.Deps.Ends.{IsListed, dependencies_lem}
use filesystem_charms.Repo.Host.{Host, Source, Repository}
use filesystem_charms.Repo.Init.{LibFile, internal_libraries, load_charms}
use filesystem_charms.Repo.Init.Ends.{load_charms_terminates}
use filesystem_charms.Repo.Load.{Files, content}
use filesystem_charms.Repo.Pyproject.{merged_sources}
use filesystem_charms.Repo.Pyproject.Merged.{or_else, external, lookup-merged_sources}
use filesystem_charms.Repo.Roundtrip.{from_charmcraft_lib-as_charmcraft_lib}
use filesystem_charms.Repo.Stage.{stage_charms}
use filesystem_charms.Repo.Stage.DryRun.{stage_charms_dry_run}

-- The charm needs `ops` and `yaml`, which need each other.
abbrev lock : Lock
lock =
    record { name = codes "nfs"; dependencies = codes "ops" ∷ codes "yaml" ∷ [] }
    ∷ record { name = codes "ops"; dependencies = codes "yaml" ∷ [] }
    ∷ record { name = codes "yaml"; dependencies = codes "ops" ∷ [] }
    ∷ record { name = codes "unused"; dependencies = [] }
    ∷ []

collected :
    dependencies lock (codes "nfs") ≡ some (ok (codes "yaml" ∷ codes "ops" ∷ codes "nfs" ∷ []))
unfolding dependencies text_beq
collected = refl

abbrev lib : CharmLibrary
lib = record {
  charm = codes "operator-libs";
  name = codes "apt";
  major_version = pos 1;
  minor_version = negsuc 0;
}

listed : (n : Text) → contains (codes "nfs" ∷ mentioned lock) n ≡ true → IsListed lock n
unfolding contains mentioned find_dependencies
listed n h = elim (Option-cases (find_dependencies n lock)) [
  | inl missing ↦ absurd (found missing)
  | inr present ↦ present
]
  where
    found : find_dependencies n lock ≡ none → ⊥
    found missing = ground arith

no_dot : has b'.' lib.charm ≡ false
unfolding has
no_dot = refl

from_charmcraft_lib-as_charmcraft_lib_example : from_charmcraft_lib (as_charmcraft_lib lib) ≡ ok lib
from_charmcraft_lib-as_charmcraft_lib_example = from_charmcraft_lib-as_charmcraft_lib lib no_dot

abbrev files : Files (Unit {0})
files = record {
  project = λ path.
      content (record { libraries = none; name = some (codes "nfs"); version = some (codes "1") });
  metadata = λ path. some tt;
}

load_charms_terminates_example :
    load_charms files (codes "charms/nfs" ∷ []) (lib ∷ []) [] lock ≢ none
load_charms_terminates_example =
    load_charms_terminates files (lib ∷ []) [] lock (codes "charms/nfs" ∷ [])

-- The library of the charm in the directory `filesystem-client`.
abbrev lib_file : LibFile
lib_file = record {
  charm = codes "filesystem-client";
  version_part = codes "v0";
  stem = codes "mount_info";
}

own_library :
    internal_libraries (lib_file ∷ [])
    ≡ ok (
        record {
          charm = codes "filesystem-client";
          name = codes "mount_info";
          major_version = pos 0;
          minor_version = negsuc 0;
        }
        ∷ [])
unfolding internal_libraries to_int int is_space
own_library = refl

dependencies_lem_example :
    (deps : List Text) × (dependencies lock (codes "nfs") ≡ some (ok deps))
    × ((v : Text) → (contains deps v ≡ true) ↔ Reach lock (codes "nfs") v)
dependencies_lem_example = dependencies_lem lock (codes "nfs") listed

abbrev root_sources : Dict Text (Source (Unit {0}))
root_sources =
    (codes "lustre-ops", record { workspace = true; rest = tt })
    ∷ (codes "charmlibs", record { workspace = false; rest = tt })
    ∷ []

root_sources-NodupKeys : NodupKeys root_sources
unfolding contains keys text_beq
root_sources-NodupKeys = (refl, (refl, tt))

lookup-merged_sources_example :
    lookup (codes "charmlibs") (merged_sources (λ s. s.workspace) root_sources [])
    ≡ or_else
        (lookup (codes "charmlibs") [])
        (external (λ s. s.workspace) (lookup (codes "charmlibs") root_sources))
lookup-merged_sources_example =
    lookup-merged_sources (λ s. s.workspace) (codes "charmlibs") root_sources []
      root_sources-NodupKeys tt

abbrev nfs_charm : Charm (Unit {0})
nfs_charm = record { metadata = tt; path = codes "charms/nfs"; libraries = lib ∷ []; packages = [] }

abbrev ops_package : Package
ops_package = record {
  name = codes "lustre-ops";
  version = codes "1.0";
  path = codes "internal/ops";
}

abbrev repo : Repository (Unit {0})
repo = record {
  charms = nfs_charm ∷ [];
  external_libraries = lib ∷ [];
  internal_libraries = [];
  packages = ops_package ∷ [];
  sources = root_sources;
  metadata = [];
}

known : AllKnown repo (codes "ops" ∷ codes "nfs" ∷ [])
unfolding is_charm is_package find_charm find_package charm_name base_name text_beq last_part
known = (refl, (refl, tt))

select_targets_lem_example :
    (cs : List (Charm (Unit {0}))) × (ps : List Package) × (select_targets repo
        (codes "ops" ∷ codes "nfs" ∷ [])
      ≡ ok (cs, ps))
    × (map charm_name cs ≡ filter (is_charm repo) (codes "ops" ∷ codes "nfs" ∷ []))
    × (map (λ p. base_name p.path) ps
        ≡ filter (λ t. not (is_charm repo t)) (codes "ops" ∷ codes "nfs" ∷ []))
select_targets_lem_example = select_targets_lem repo (codes "ops") (codes "nfs" ∷ []) known

-- A machine that counts the actions.
abbrev host : Host
host = record {
  World = ℕ;
  Data = Unit {0};
  root_dir = codes "/repo";
  act = λ action w. (true, w + 1);
  git_describe = λ path w. (some (codes "abc"), w + 1);
  read_pyproject = λ path w. none;
  exists = λ path w. true;
  is_file = λ path w. true;
  has_tests = λ path w. true;
  glob = λ pattern path w. [];
}

stage_charms_dry_run_example : stage_charms host (nfs_charm ∷ []) repo true true 7 ≡ (ok tt, 7)
stage_charms_dry_run_example = stage_charms_dry_run host (nfs_charm ∷ []) repo true 7
