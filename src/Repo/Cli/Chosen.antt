-- ===== src/Repo/Cli/Chosen.antt =====
-- What the targets of the command line choose.
use filesystem_charms.Base.{
  ◌≡◌, refl, sym, ap, ◌∙◌, Bool, true, false, not, ◌||◌, Option, none, some, List, [], ◌∷◌, ◌++◌,
  map, filter, text_eq, text_beq_iff, ◌==◌, All, arith, Option-cases, Bool-cases, inl, inr,
}
use mathlib.Core.List.{append-nil, append_assoc}
use filesystem_charms.Base.Exec.{Result, ok, bind_result}
use filesystem_charms.Base.Text.{Text}
use filesystem_charms.Repo.{RepoError, Package, Charm, base_name}
use filesystem_charms.Repo.Cli.{
  charm_name, find_charm, validate_charm, Targets, find_package, validate_package, add_target,
  add_targets, select_targets,
}
use filesystem_charms.Repo.Host.{Repository}

found_some : {A : Type 0} {a b : A} → ◌≡◌ {A = Option A} (some a) (some b) → a ≡ b
found_some e = cc e

found_none : {A : Type 0} {a : A} → ¬ (◌≡◌ {A = Option A} none (some a))
found_none e = cc e

find_package_name :
    (t : Text) (ps : List Package) (p : Package) → find_package t ps ≡ some p → base_name p.path ≡ t
unfolding find_package
find_package_name t [] p e = absurd (found_none e)
find_package_name t (d ∷ ps) p e = elim (Bool-cases (base_name d.path == t)) [
  | inl same ↦
      ap (λ (q : Package). base_name q.path) (sym (found_some (rw (find_package, same) at e)))
      ∙ (text_beq_iff (base_name d.path) t).0 same
  | inr other ↦ find_package_name t ps p (rw (find_package, other) at e)
]

module _ {Data : Type 0} where
  find_charm_name :
      (t : Text) (cs : List (Charm Data)) (c : Charm Data)
      → find_charm t cs ≡ some c
      → charm_name c ≡ t
  unfolding find_charm
  find_charm_name t [] c e = absurd (found_none e)
  find_charm_name t (d ∷ cs) c e = elim (Bool-cases (charm_name d == t)) [
    | inl same ↦
        ap charm_name (sym (found_some (rw (find_charm, same) at e)))
        ∙ (text_beq_iff (charm_name d) t).0 same
    | inr other ↦ find_charm_name t cs c (rw (find_charm, other) at e)
  ]

abbrev is_some {ℓ} : {A : Type ℓ} → Option A → Bool
is_some none = false
is_some (some a) = true

module _ {Data : Type 0} (repo : Repository Data) where
  -- A target that is a charm, and one that is a package.
  unfoldable pub is_charm : Text → Bool
  is_charm t = is_some (find_charm t repo.charms)

  unfoldable pub is_package : Text → Bool
  is_package t = is_some (find_package t repo.packages)

  abbrev charm_names : List (Charm Data) → List Text
  charm_names cs = map charm_name cs

  abbrev package_names : List Package → List Text
  package_names ps = map (λ p. base_name p.path) ps

  -- The names of what was found, in the order of the targets: a charm goes before a package of the
  -- same name.
  record Adds (targets : List Text) (found : Targets Data) (r : Result RepoError (Targets Data))
      : Type 0 where
    after : Targets Data
    returned : r ≡ ok after
    charms : charm_names after.0 ≡ charm_names found.0 ++ filter is_charm targets
    packages :
        package_names after.1 ≡ package_names found.1 ++ filter (λ t. not (is_charm t)) targets

  filter-cons :
      (p : Text → Bool) (t : Text) (ts : List Text)
      → filter p (t ∷ []) ++ filter p ts ≡ filter p (t ∷ ts)
  unfolding filter
  filter-cons p t ts = ground arith

  map-snoc :
      {A : Type 0} (f : A → Text) (xs : List A) (a : A)
      → map f (xs ++ a ∷ []) ≡ map f xs ++ f a ∷ []
  map-snoc f [] a = refl
  map-snoc f (x ∷ xs) a = ap (λ l. f x ∷ l) (map-snoc f xs a)

  charm_yes : (t : Text) (c : Charm Data) → find_charm t repo.charms ≡ some c → is_charm t ≡ true
  unfolding is_charm
  charm_yes t c e = ap is_some e

  charm_no : (t : Text) → find_charm t repo.charms ≡ none → is_charm t ≡ false
  unfolding is_charm
  charm_no t e = ap is_some e

  package_no : (t : Text) → find_package t repo.packages ≡ none → is_package t ≡ false
  unfolding is_package
  package_no t e = ap is_some e

  add_target-Adds :
      (t : Text) (found : Targets Data)
      → (is_charm t || is_package t) ≡ true
      → Adds (t ∷ []) found (add_target repo t found)
  unfolding add_target validate_charm validate_package filter
  add_target-Adds t (cs, ps) known = elim (Option-cases (find_charm t repo.charms)) [
    | inl missing ↦ elim (Option-cases (find_package t repo.packages)) [
      | inl unknown ↦ absurd (nothing (charm_no t missing) (package_no t unknown))
      | inr (p, e) ↦ record {
        after = (cs, ps ++ p ∷ []);
        returned = rw (add_target, validate_charm, missing, validate_package, e) refl;
        charms = rw (filter, charm_no t missing) (sym (append-nil (charm_names cs)));
        packages =
            rw (filter, charm_no t missing)
              (map-snoc (λ q. base_name q.path) ps p
                ∙ ap (λ n. package_names ps ++ n ∷ []) (find_package_name t repo.packages p e));
      }
    ]
    | inr (c, e) ↦ record {
      after = (cs ++ c ∷ [], ps);
      returned = rw (add_target, validate_charm, e) refl;
      charms =
          rw (filter, charm_yes t c e)
            (map-snoc charm_name cs c
              ∙ ap (λ n. charm_names cs ++ n ∷ []) (find_charm_name t repo.charms c e));
      packages = rw (filter, charm_yes t c e) (sym (append-nil (package_names ps)));
    }
  ]
    where
      nothing : is_charm t ≡ false → is_package t ≡ false → ⊥
      nothing a b = ground (arith, known)

  -- All targets are known.
  abbrev pub AllKnown : List Text → Type 0
  AllKnown = All (λ t. (is_charm t || is_package t) ≡ true)

  add_targets-Adds :
      (targets : List Text) (found : Targets Data)
      → AllKnown targets
      → Adds targets found (add_targets repo targets found)
  unfolding add_targets filter
  add_targets-Adds [] found h = record {
    after = found;
    returned = refl;
    charms = sym (append-nil _);
    packages = sym (append-nil _);
  }
  add_targets-Adds (t ∷ ts) found h =
      let other : Text → Bool = λ t. not (is_charm t) in
      let one = add_target-Adds t found h.0 in
      let rest = add_targets-Adds ts one.after h.1 in
      record {
        after = rest.after;
        returned = ap (λ r. bind_result r (add_targets repo ts)) one.returned ∙ rest.returned;
        charms =
            rest.charms
            ∙ ap (λ l. l ++ filter is_charm ts) one.charms
            ∙ append_assoc (charm_names found.0) (filter is_charm (t ∷ [])) (filter is_charm ts)
            ∙ ap (λ l. charm_names found.0 ++ l) (filter-cons is_charm t ts);
        packages =
            rest.packages
            ∙ ap (λ l. l ++ filter (λ t. not (is_charm t)) ts) one.packages
            ∙ append_assoc (package_names found.1) (filter other (t ∷ [])) (filter other ts)
            ∙ ap (λ l. package_names found.1 ++ l) (filter-cons other t ts);
      }

  -- If every target is the name of a charm or of a package, `main_cli` selects, in the order of
  -- the targets, the charms among them and the packages of the other names.
  pub select_targets_lem :
      (t : Text) (ts : List Text)
      → AllKnown (t ∷ ts)
      → (cs : List (Charm Data)) × (ps : List Package) × (select_targets repo (t ∷ ts)
          ≡ ok (cs, ps))
        × (map charm_name cs ≡ filter is_charm (t ∷ ts))
        × (map (λ p. base_name p.path) ps ≡ filter (λ t. not (is_charm t)) (t ∷ ts))
  unfolding select_targets
  select_targets_lem t ts h =
      let all = add_targets-Adds (t ∷ ts) ([], []) h in
      (all.after.0, all.after.1, all.returned, all.charms, all.packages)
