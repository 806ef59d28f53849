-- ===== src/Repo/Pyproject.antt =====
-- How `stage_charm` of repository.py changes the pyproject.toml of a charm.
pub mod Merged
use filesystem_charms.Base.{
  ◌≡◌, refl, sym, ap, ◌∙◌, Bool, true, false, not, Option, none, some, List, [], ◌∷◌, ◌++◌, text_eq,
  text_beq_iff, ◌==◌, if◌then◌else◌, contains, arith,
}
use filesystem_charms.Base.Dict.{
  Dict, lookup, insert, keys, values, NodupKeys, lookup-insert, lookup_absent,
}
use filesystem_charms.Base.Text.{Text, codes}
use filesystem_charms.Repo.{Package, underscored}

-- `filename` of a package's source distribution
unfoldable pub sdist_name : Package → Text
unfolding underscored
sdist_name pkg = underscored pkg.name ++ (codes "-" ++ (pkg.version ++ codes ".tar.gz"))

-- `deps.remove(name)`, where `ValueError` is passed over.
unfoldable pub remove_first : Text → List Text → List Text
remove_first name [] = []
remove_first name (d ∷ deps) =
    let rest = remove_first name deps in if d == name then deps else d ∷ rest

-- The loop body over the packages, on `pyproject["project"]["dependencies"]`.
unfoldable pub vendor : Package → List Text → List Text
unfolding remove_first sdist_name
vendor pkg deps =
    remove_first pkg.name deps
    ++ (pkg.name ++ (codes " @ file:///${PROJECT_ROOT}/dist/" ++ sdist_name pkg)) ∷ []

unfoldable pub vendor_all : List Package → List Text → List Text
unfolding vendor
vendor_all [] deps = deps
vendor_all (pkg ∷ pkgs) deps = vendor_all pkgs (vendor pkg deps)

-- `{**a, **b}`
unfoldable pub merge {ℓ} : {V : Type ℓ} → Dict Text V → Dict Text V → Dict Text V
unfolding insert
merge a [] = a
merge a ((k, v) ∷ b) = merge (insert k v a) b

-- `d.setdefault(k, v)`
unfoldable pub set_default {ℓ} : {V : Type ℓ} → Text → V → Dict Text V → Dict Text V
unfolding lookup insert
set_default k v d = elim (lookup k d) [ some w ↦ d | none ↦ insert k v d ]

-- A source of `tool.uv.sources`, with its `workspace` key. The rest of it is copied as it is.
module _ {Source : Type 0} (workspace : Source → Bool) where
  -- `inherited_sources`
  unfoldable pub inherited_sources : Dict Text Source → Dict Text Source
  inherited_sources [] = []
  inherited_sources ((name, source) ∷ d) =
      let rest = inherited_sources d in if workspace source then rest else (name, source) ∷ rest

  -- `pyproject["tool"]["uv"]["sources"]`, from those of the root and of the charm.
  unfoldable pub merged_sources : Dict Text Source → Dict Text Source → Dict Text Source
  unfolding inherited_sources merge
  merged_sources root own = merge (inherited_sources root) own

-- An entry of `tool.uv.dependency-metadata`, with its name.
module _ {Entry : Type 0} (entry_name : Entry → Text) where
  -- `{entry["name"]: entry …}`
  unfoldable pub by_name : Dict Text Entry → List Entry → Dict Text Entry
  unfolding insert
  by_name d [] = d
  by_name d (e ∷ es) = by_name (insert (entry_name e) e d) es

  -- The loop over the inherited entries.
  unfoldable pub add_missing : List Entry → Dict Text Entry → Dict Text Entry
  unfolding set_default
  add_missing [] d = d
  add_missing (e ∷ es) d = add_missing es (set_default (entry_name e) e d)

  -- `pyproject["tool"]["uv"]["dependency-metadata"]`
  unfoldable pub merged_metadata : List Entry → List Entry → List Entry
  unfolding by_name add_missing values
  merged_metadata inherited own = values (add_missing inherited (by_name [] own))
