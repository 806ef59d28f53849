-- ===== src/Repo/Deps.antt =====
-- The dependencies that `load_charm` of repository.py collects from the lock file.
pub mod Closure
pub mod Ends
use filesystem_charms.Base.{
  Bool, true, false, ℕ, zero, suc, Option, none, some, List, [], ◌∷◌, ◌++◌, contains, text_eq, ◌==◌,
  if◌then◌else◌, length,
}
use filesystem_charms.Base.Exec.{Result, ok, err}
use filesystem_charms.Base.Text.{Text}
use filesystem_charms.Repo.{RepoError, stop_iteration}

-- A package of `uv.lock`, with the names of its dependencies.
pub record LockPackage : Type 0 where
  pub name : Text
  pub dependencies : List Text

abbrev pub Lock : Type 0
Lock = List LockPackage

-- The first package of the name: nothing where `next` raises `StopIteration`.
unfoldable pub find_dependencies : Text → Lock → Option (List Text)
find_dependencies name [] = none
find_dependencies name (p ∷ lock) =
    if p.name == name then some p.dependencies else find_dependencies name lock

-- `deps.add(name)`
unfoldable pub add_name : Text → List Text → List Text
unfolding contains
add_name name deps = if contains deps name then deps else name ∷ deps

-- `deps`, and the stack `pending` with its top in front.
abbrev pub Progress : Type 0
Progress = List Text × List Text

-- The body of the loop over the dependencies of a package.
unfoldable pub push_dependency : Text → Progress → Progress
unfolding contains
push_dependency name (deps, pending) =
    if contains deps name then (deps, pending) else (name ∷ deps, name ∷ pending)

unfoldable pub push_dependencies : List Text → Progress → Progress
unfolding push_dependency
push_dependencies [] s = s
push_dependencies (name ∷ names) s = push_dependencies names (push_dependency name s)

-- All names that the lock file lists as dependencies.
unfoldable pub mentioned : Lock → List Text
mentioned [] = []
mentioned (p ∷ ps) = p.dependencies ++ mentioned ps

module _ (lock : Lock) where
  -- `while pending`: nothing where the fuel runs out.
  unfoldable pub collect : ℕ → Progress → Option (Result RepoError (List Text))
  unfolding find_dependencies push_dependencies add_name
  collect fuel (deps, []) = some (ok deps)
  collect zero (deps, name ∷ pending) = none
  collect (suc fuel) (deps, name ∷ pending) = elim (find_dependencies name lock) [
    | none ↦ some (err stop_iteration)
    | some names ↦ collect fuel (push_dependencies names (add_name name deps, pending))
  ]

  -- `deps` of `load_charm`, from the charm's name on. Every round but the first pops a name that
  -- was mentioned.
  unfoldable pub dependencies : Text → Option (Result RepoError (List Text))
  unfolding collect mentioned
  dependencies charm = collect (suc (length (mentioned lock))) ([], charm ∷ [])
