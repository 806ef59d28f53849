-- ===== src/Repo/Deps/Closure.antt =====
-- The collected names are those that the charm reaches in the lock file, and the loop ends.
use filesystem_charms.Base.{
  ◌≡◌, ◌≢◌, ◌↔◌, refl, sym, ap, ◌∙◌, subst, true, not, ◌||◌, ◌&&◌, ℕ, zero, suc, Option, none, some,
  List, [], ◌∷◌, contains, text_eq, text_beq_iff, text_beq_refl, ◌==◌, Option-cases, inl, inr,
  arith,
}
use filesystem_charms.Base.Exec.{Result, ok, err}
use filesystem_charms.Base.Text.{Text}
use filesystem_charms.Repo.{RepoError, stop_iteration}
use filesystem_charms.Repo.Deps.{
  Lock, Progress, find_dependencies, add_name, push_dependency, push_dependencies, collect,
}

-- The names that a name leads to.
pub data Reach (lock : Lock) (root : Text) : Text → Type 0 where
  here : Reach lock root root
  step :
      {a b : Text} (names : List Text)
      → Reach lock root a
      → find_dependencies a lock ≡ some names
      → contains names b ≡ true
      → Reach lock root b

some-injective : {a b : List Text} → ◌≡◌ {A = Option (List Text)} (some a) (some b) → a ≡ b
some-injective e = cc e

ok-injective :
    {a b : List Text}
    → ◌≡◌ {A = Option (Result RepoError (List Text))} (some (ok a)) (some (ok b))
    → a ≡ b
ok-injective e = cc e

pub none-ne-some : {r : Result RepoError (List Text)} → none ≢ some r
none-ne-some e = cc e

stop-ne-ok :
    {d : List Text}
    → ◌≢◌ {A = Option (Result RepoError (List Text))} (some (err stop_iteration)) (some (ok d))
stop-ne-ok e = cc e

contains-push_dependency :
    (n m : Text) (s : Progress) → contains (push_dependency n s).0 m ≡ (contains s.0 m || n == m)
unfolding push_dependency contains
contains-push_dependency n m (deps, pending) = ground (arith, text_beq_iff n m)

contains-push_dependencies :
    (ns : List Text) (m : Text) (s : Progress)
    → contains (push_dependencies ns s).0 m ≡ (contains s.0 m || contains ns m)
unfolding push_dependencies contains
contains-push_dependencies [] m s = ground arith
contains-push_dependencies (n ∷ ns) m s =
    ground
      (arith, contains-push_dependencies ns m (push_dependency n s), contains-push_dependency n m s)

-- What is newly collected is pending.
pending-push_dependency :
    (n m : Text) (s : Progress)
    → contains (push_dependency n s).1 m ≡ (contains s.1 m || (n == m && not (contains s.0 m)))
unfolding push_dependency contains
pending-push_dependency n m (deps, pending) = ground (arith, text_beq_iff n m)

pub pending-push_dependencies :
    (ns : List Text) (m : Text) (s : Progress)
    → contains (push_dependencies ns s).1 m
      ≡ (contains s.1 m || (contains ns m && not (contains s.0 m)))
unfolding push_dependencies contains
pending-push_dependencies [] m s = ground arith
pending-push_dependencies (n ∷ ns) m s = ground (
  arith,
  pending-push_dependencies ns m (push_dependency n s),
  contains-push_dependency n m s,
  pending-push_dependency n m s,
)

contains-add_name :
    (n m : Text) (deps : List Text) → contains (add_name n deps) m ≡ (contains deps m || n == m)
unfolding add_name contains
contains-add_name n m deps = ground (arith, text_beq_iff n m)

module _ (lock : Lock) (root : Text) where
  record Inv (s : Progress) : Type 0 where
    source : (contains s.0 root || contains s.1 root) ≡ true
    sound : (v : Text) → contains s.0 v ≡ true → Reach lock root v
    queued : (v : Text) → contains s.1 v ≡ true → Reach lock root v
    closed :
        (a b : Text) (names : List Text)
        → contains s.0 a ≡ true
        → find_dependencies a lock ≡ some names
        → contains names b ≡ true
        → (contains s.0 b || contains s.1 a) ≡ true

  Inv-start : Inv ([], root ∷ [])
  unfolding contains
  Inv-start = record {
    source = rw (text_beq_refl root) refl;
    sound = λ v m. cc m;
    queued = λ v m. subst (Reach lock root) ((text_beq_iff root v).0 (ground (arith, m))) here;
    closed = λ a b names m e q. cc m;
  }

  -- What a round leaves collected and pending.
  abbrev round : Text → List Text → List Text → List Text → Progress
  round p names deps rest = push_dependencies names (add_name p deps, rest)

  round_deps :
      (p : Text) (names deps rest : List Text) (m : Text)
      → contains (round p names deps rest).0 m ≡ (contains deps m || (p == m || contains names m))
  round_deps p names deps rest m = ground (
    arith,
    contains-push_dependencies names m (add_name p deps, rest),
    contains-add_name p m deps,
  )

  round_pending :
      (p : Text) (names deps rest : List Text) (m : Text)
      → contains (round p names deps rest).1 m
        ≡ (contains rest m || (contains names m && not (contains deps m || p == m)))
  round_pending p names deps rest m =
      ground (
        arith,
        pending-push_dependencies names m (add_name p deps, rest),
        contains-add_name p m deps,
      )

  Inv-round :
      (p : Text) (names deps rest : List Text)
      → find_dependencies p lock ≡ some names
      → Inv (deps, p ∷ rest)
      → Inv (round p names deps rest)
  unfolding contains
  Inv-round p names deps rest found h = record {
    source =
        ground (
          arith,
          round_deps p names deps rest root,
          round_pending p names deps rest root,
          h.source,
        );
    sound = sound;
    queued = λ v m. ground (arith, round_pending p names deps rest v, h.queued v, step_to v);
    closed = closed;
  }
    where
      at : Reach lock root p
      at = h.queued p (rw (text_beq_refl p) refl)

      step_to : (v : Text) → contains names v ≡ true → Reach lock root v
      step_to v m = step names at found m

      self : (v : Text) → (p == v) ≡ true → Reach lock root v
      self v e = subst (Reach lock root) ((text_beq_iff p v).0 e) at

      sound : (v : Text) → contains (round p names deps rest).0 v ≡ true → Reach lock root v
      sound v m = ground (arith, round_deps p names deps rest v, h.sound v, step_to v, self v)

      closed :
          (a b : Text) (ns : List Text)
          → contains (round p names deps rest).0 a ≡ true
          → find_dependencies a lock ≡ some ns
          → contains ns b ≡ true
          → (contains (round p names deps rest).0 b || contains (round p names deps rest).1 a)
            ≡ true
      closed a b ns m e q = ground (
        arith,
        round_deps p names deps rest a,
        round_deps p names deps rest b,
        round_pending p names deps rest a,
        h.closed a b ns,
        own,
      )
        where
          own : (p == a) ≡ true → contains names b ≡ true
          own s =
              let same = (text_beq_iff p a).0 s in
              let listed : some ns ≡ some names =
                sym e ∙ ap (λ x. find_dependencies x lock) (sym same) ∙ found in
              subst (λ l. contains l b ≡ true) (some-injective listed) q

  -- With nothing pending, what is reached is collected.
  complete :
      (deps : List Text) → Inv (deps, []) → {v : Text} → Reach lock root v → contains deps v ≡ true
  unfolding contains
  complete deps h here = ground (arith, h.source)
  complete deps h (step {a} {b} names r e q) =
      ground (arith, h.closed a b names (complete deps h r) e q)

  collected : (fuel : ℕ) (deps : List Text) → collect lock fuel (deps, []) ≡ some (ok deps)
  unfolding collect
  collected zero deps = refl
  collected (suc fuel) deps = refl

  collect-Inv :
      (fuel : ℕ) (deps pending out : List Text)
      → Inv (deps, pending)
      → collect lock fuel (deps, pending) ≡ some (ok out)
      → Inv (out, [])
  unfolding collect
  collect-Inv fuel deps [] out h e =
      subst (λ d. Inv (d, [])) (ok-injective (sym (collected fuel deps) ∙ e)) h
  collect-Inv zero deps (p ∷ rest) out h e = absurd (none-ne-some e)
  collect-Inv (suc fuel) deps (p ∷ rest) out h e = elim (Option-cases (find_dependencies p lock)) [
    | inl missing ↦ absurd (stop-ne-ok (rw (collect, missing) at e))
    | inr (names, found) ↦
        collect-Inv fuel (round p names deps rest).0 (round p names deps rest).1 out
          (Inv-round p names deps rest found h) (rw (collect, found) at e)
  ]

-- What is collected from a name is what the name reaches.
pub collect-Reach :
    (lock : Lock) (root : Text) (fuel : ℕ) (out : List Text)
    → collect lock fuel ([], root ∷ []) ≡ some (ok out)
    → (v : Text) → (contains out v ≡ true) ↔ Reach lock root v
collect-Reach lock root fuel out e v =
    let inv = collect-Inv lock root fuel [] (root ∷ []) out (Inv-start lock root) e in
    (inv.sound v, complete lock root out inv)
