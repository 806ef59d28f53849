-- ===== src/Repo/Deps/Ends.antt =====
-- The loop over the lock file ends.
use filesystem_charms.Base.{
  ◌≡◌, ◌≢◌, ◌↔◌, refl, sym, ap, ◌∙◌, subst, true, false, ℕ, zero, suc, ◌+◌, ◌≤◌, ◌<◌, none, some,
  List, [], ◌∷◌, contains, contains-append, text_eq, text_beq_iff, ◌==◌, if◌then◌else◌, length,
  Bool-cases, Option-cases, inl, inr, arith,
}
use filesystem_charms.Base.Exec.{Result, ok, err}
use filesystem_charms.Base.Text.{Text}
use filesystem_charms.Repo.{RepoError, stop_iteration}
use filesystem_charms.Repo.Deps.{
  LockPackage, Lock, Progress, find_dependencies, add_name, push_dependency, push_dependencies,
  collect, mentioned, dependencies,
}
use filesystem_charms.Repo.Deps.Closure.{
  Reach, collect-Reach, pending-push_dependencies, none-ne-some,
}

-- How many of the names are not collected.
unseen : List Text → List Text → ℕ
unseen [] deps = 0
unseen (u ∷ us) deps = let rest = unseen us deps in if contains deps u then rest else suc rest

first_in : (n : Text) (ns : List Text) → contains (n ∷ ns) n ≡ true
unfolding contains
first_in n ns = ground (arith, text_beq_iff n n)

in_rest : (n : Text) (ns : List Text) (m : Text) → contains ns m ≡ true → contains (n ∷ ns) m ≡ true
unfolding contains
in_rest n ns m h = ground arith

unseen-cons-le : (us deps : List Text) (n : Text) → unseen us (n ∷ deps) ≤ unseen us deps
unfolding unseen contains
unseen-cons-le [] deps n = omega arith
unseen-cons-le (u ∷ us) deps n = ground (arith, unseen-cons-le us deps n)

unseen-cons-lt :
    (us deps : List Text) (n : Text)
    → contains us n ≡ true
    → contains deps n ≡ false
    → unseen us (n ∷ deps) < unseen us deps
unfolding unseen contains
unseen-cons-lt [] deps n h q = ground arith
unseen-cons-lt (u ∷ us) deps n h q =
    ground (
      arith,
      unseen-cons-lt us deps n,
      unseen-cons-le us deps n,
      text_beq_iff u n,
      text_beq_iff n u,
    )

unseen-add_name : (us deps : List Text) (n : Text) → unseen us (add_name n deps) ≤ unseen us deps
unfolding add_name
unseen-add_name us deps n = ground (arith, unseen-cons-le us deps n)

found_first :
    (p : LockPackage) (lock : Lock) (a : Text) (names : List Text)
    → (p.name == a) ≡ true
    → find_dependencies a (p ∷ lock) ≡ some names
    → p.dependencies ≡ names
unfolding find_dependencies
found_first p lock a names same e = ground arith

found_later :
    (p : LockPackage) (lock : Lock) (a : Text)
    → (p.name == a) ≡ false
    → find_dependencies a (p ∷ lock) ≡ find_dependencies a lock
unfolding find_dependencies
found_later p lock a other = ground arith

mentioned-find :
    (lock : Lock) (a n : Text) (names : List Text)
    → find_dependencies a lock ≡ some names
    → contains names n ≡ true
    → contains (mentioned lock) n ≡ true
unfolding find_dependencies mentioned contains
mentioned-find [] a n names e h = ground arith
mentioned-find (p ∷ lock) a n names e h = elim (Bool-cases (p.name == a)) [
  | inl same ↦
      (let listed : p.dependencies ≡ names = found_first p lock a names same e in
        ground (
          arith,
          contains-append p.dependencies (mentioned lock) n,
          subst (λ l. contains l n ≡ true) (sym listed) h,
        ))
  | inr other ↦ ground (
    arith,
    mentioned-find lock a n names (sym (found_later p lock a other) ∙ e) h,
    contains-append p.dependencies (mentioned lock) n,
  )
]

module _ (lock : Lock) where
  -- A round pops one name and pushes only names that it collects, so this falls by one.
  work : Progress → ℕ
  work s = unseen (mentioned lock) s.0 + length s.1

  work-push_dependency :
      (n : Text) (s : Progress)
      → contains (mentioned lock) n ≡ true
      → work (push_dependency n s) ≤ work s
  unfolding work push_dependency
  work-push_dependency n (deps, pending) h =
      ground (arith, unseen-cons-lt (mentioned lock) deps n h)

  work-push_dependencies :
      (ns : List Text) (s : Progress)
      → ((n : Text) → contains ns n ≡ true → contains (mentioned lock) n ≡ true)
      → work (push_dependencies ns s) ≤ work s
  unfolding push_dependencies
  work-push_dependencies [] s h = omega arith
  work-push_dependencies (n ∷ ns) s h =
      let first = work-push_dependency n s (h n (first_in n ns)) in
      let rest = work-push_dependencies ns (push_dependency n s) (λ m q. h m (in_rest n ns m q)) in
      omega arith

  work-round :
      (p : Text) (names deps rest : List Text)
      → find_dependencies p lock ≡ some names
      → work (push_dependencies names (add_name p deps, rest)) < work (deps, p ∷ rest)
  unfolding work
  work-round p names deps rest found =
      let fewer =
        work-push_dependencies names (add_name p deps, rest)
          (λ n. mentioned-find lock p n names found) in
      omega (arith, fewer, unseen-add_name (mentioned lock) deps p)

  busy : (deps rest : List Text) (p : Text) → ¬ (work (deps, p ∷ rest) ≤ 0)
  unfolding work
  busy deps rest p h = omega (arith, h)

  collect_ends :
      (fuel : ℕ) (deps pending : List Text)
      → work (deps, pending) ≤ fuel
      → (r : Result RepoError (List Text)) × (collect lock fuel (deps, pending) ≡ some r)
  unfolding collect
  collect_ends fuel deps [] h = (ok deps, refl)
  collect_ends zero deps (p ∷ rest) h = absurd (busy deps rest p h)
  collect_ends (suc fuel) deps (p ∷ rest) h = elim (Option-cases (find_dependencies p lock)) [
    | inl missing ↦ (err stop_iteration, rw (collect, missing) refl)
    | inr (names, found) ↦
        let s = push_dependencies names (add_name p deps, rest) in
        let less = work-round p names deps rest found in
        let (r, e) = collect_ends fuel s.0 s.1 (omega arith) in (r, rw (collect, found) e)
  ]

  -- A name that the lock file has a package for.
  abbrev pub IsListed : Text → Type 0
  IsListed name = (names : List Text) × (find_dependencies name lock ≡ some names)

  pending-IsListed :
      (p : Text) (names deps rest : List Text)
      → ((n : Text) → contains (mentioned lock) n ≡ true → IsListed n)
      → ((n : Text) → contains (p ∷ rest) n ≡ true → IsListed n)
      → find_dependencies p lock ≡ some names
      → (n : Text) → contains (push_dependencies names (add_name p deps, rest)).1 n ≡ true
      → IsListed n
  pending-IsListed p names deps rest all queue found n h = ground (
    arith,
    pending-push_dependencies names n (add_name p deps, rest),
    mentioned-find lock p n names found,
    all n,
    in_rest p rest n,
    queue n,
  )

  found_result :
      {r : Result RepoError (List Text)} {deps : List Text} → some r ≡ some (ok deps) → r ≡ ok deps
  found_result e = cc e

  collect_listed :
      (fuel : ℕ) (deps pending : List Text) (r : Result RepoError (List Text))
      → ((n : Text) → contains (mentioned lock) n ≡ true → IsListed n)
      → ((n : Text) → contains pending n ≡ true → IsListed n)
      → collect lock fuel (deps, pending) ≡ some r
      → (out : List Text) × (r ≡ ok out)
  unfolding collect
  collect_listed fuel deps [] r all queue e = (deps, found_result (sym e))
  collect_listed zero deps (p ∷ rest) r all queue e = absurd (none-ne-some e)
  collect_listed (suc fuel) deps (p ∷ rest) r all queue e =
      let (names, found) = queue p (first_in p rest) in
      let s = push_dependencies names (add_name p deps, rest) in
      collect_listed fuel s.0 s.1 r all (pending-IsListed p names deps rest all queue found)
        (rw (collect, found) at e)

  unseen-empty :
      (us : List Text) (charm : Text) → unseen us [] + length (charm ∷ []) ≤ suc (length us)
  unfolding unseen contains
  unseen-empty [] charm = omega arith
  unseen-empty (u ∷ us) charm = omega (arith, unseen-empty us charm)

  -- The fuel is enough.
  dependencies_end :
      (charm : Text) → (r : Result RepoError (List Text)) × (dependencies lock charm ≡ some r)
  unfolding dependencies work
  dependencies_end charm =
      collect_ends (suc (length (mentioned lock))) [] (charm ∷ [])
        (unseen-empty (mentioned lock) charm)

-- The loop of `load_charm` over the lock file ends: the fuel, one more than the number of
-- dependencies that the lock file lists, never runs out.
pub dependencies_terminates : (lock : Lock) (charm : Text) → dependencies lock charm ≢ none
dependencies_terminates lock charm e =
    let (r, q) = dependencies_end lock charm in none-ne-some (sym e ∙ q)

only :
    (charm : Text) (ns : List Text) (n : Text)
    → contains (charm ∷ []) n ≡ true
    → contains (charm ∷ ns) n ≡ true
unfolding contains
only charm ns n h = ground arith

-- If the lock file has a package for the charm and for every name that it lists as a dependency,
-- the loop of `load_charm` returns, with exactly the names that the charm reaches through
-- dependencies.
pub dependencies_lem :
    (lock : Lock) (charm : Text)
    → ((n : Text) → contains (charm ∷ mentioned lock) n ≡ true → IsListed lock n)
    → (deps : List Text) × (dependencies lock charm ≡ some (ok deps))
      × ((v : Text) → (contains deps v ≡ true) ↔ Reach lock charm v)
dependencies_lem lock charm all =
    let (r, e) = dependencies_end lock charm in
    let (deps, done) =
      collect_listed lock (suc (length (mentioned lock))) [] (charm ∷ []) r
        (λ n h. all n (in_rest charm (mentioned lock) n h))
        (λ n h. all n (only charm (mentioned lock) n h)) (unfold dependencies in e) in
    (
      deps,
      e ∙ ap some done,
      collect-Reach lock charm (suc (length (mentioned lock))) deps
          (unfold dependencies in (e ∙ ap some done)),
    )
