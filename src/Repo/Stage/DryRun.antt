-- ===== src/Repo/Stage/DryRun.antt =====
-- A dry run changes nothing.
use filesystem_charms.Base.{◌≡◌, refl, ◌∙◌, Bool, true, false, List, [], ◌∷◌}
use filesystem_charms.Base.Exec.{ok, pure, when, for_each, ◌>>=◌, >>=_ok}
use filesystem_charms.Repo.{CharmLibrary, Charm}
use filesystem_charms.Repo.Host.{Host, Repository, Run}
use filesystem_charms.Repo.Stage.{
  stage_library, stage_charm, clean_charm, stage_internal, build_package, prepare_charm,
  prepare_libs, stage_charms,
}

module _ (H : Host) where
  -- Code that returns and changes nothing.
  record Idle (m : Run H (Unit {0})) : Type 0 where
    run : (w : H.World) → m w ≡ (ok tt, w)

  Idle-pure : Idle (pure tt)
  Idle-pure = record { run = λ w. refl }

  Idle-bind : (m k : Run H (Unit {0})) → Idle m → Idle k → Idle (m >>= λ _. k)
  Idle-bind m k hm hk = record { run = λ w. >>=_ok m (λ _. k) w (hm.run w) ∙ hk.run w }

  Idle-when : (b : Bool) (m : Run H (Unit {0})) → Idle m → Idle (when b m)
  Idle-when true m h = h
  Idle-when false m h = Idle-pure

  Idle-for_each :
      {A : Type 0} (xs : List A) (f : A → Run H (Unit {0}))
      → ((a : A) → Idle (f a))
      → Idle (for_each xs f)
  unfolding for_each
  Idle-for_each [] f h = Idle-pure
  Idle-for_each (x ∷ xs) f h = Idle-bind (f x) (for_each xs f) (h x) (Idle-for_each xs f h)

  ruleset idle_rules = (Idle-pure, Idle-bind, Idle-when, Idle-for_each)

  stage_library-Idle :
      (charm : Charm H.Data) (lib : CharmLibrary) → Idle (stage_library H true charm lib)
  unfolding stage_library
  stage_library-Idle charm lib = Idle-pure

  stage_charm-Idle :
      (charm : Charm H.Data) (repo : Repository H.Data) → Idle (stage_charm H charm repo true)
  unfolding stage_charm
  stage_charm-Idle charm repo = search (idle_rules, stage_library-Idle charm)

  clean_charm-Idle : (charm : Charm H.Data) → Idle (clean_charm H charm true)
  unfolding clean_charm
  clean_charm-Idle charm = Idle-pure

  prepare_charm-Idle :
      (repo : Repository H.Data) (clean : Bool) (charm : Charm H.Data)
      → Idle (prepare_charm H repo clean true charm)
  unfolding prepare_charm clean_charm
  prepare_charm-Idle repo clean charm =
      Idle-bind (when clean (clean_charm H charm true)) (stage_charm H charm repo true)
        (Idle-when clean _ (clean_charm-Idle charm)) (stage_charm-Idle charm repo)

  prepare_libs-Idle :
      (repo : Repository H.Data) (clean : Bool) → Idle (prepare_libs H repo clean true)
  unfolding prepare_libs
  prepare_libs-Idle repo clean = search idle_rules

  stage_charms-Idle :
      (charms : List (Charm H.Data)) (repo : Repository H.Data) (clean : Bool)
      → Idle (stage_charms H charms repo clean true)
  unfolding stage_charms stage_internal build_package
  stage_charms-Idle charms repo clean =
      Idle-bind _ _
        (Idle-bind _ _
          (Idle-bind _ _ (prepare_libs-Idle repo clean)
            (Idle-for_each repo.internal_libraries (stage_internal H true) (λ lib. Idle-pure)))
          (Idle-for_each repo.packages (build_package H true) (λ pkg. Idle-pure)))
        (Idle-for_each charms (prepare_charm H repo clean true) (prepare_charm-Idle repo clean))

  -- A dry run of `stage_charms` returns and leaves the machine as it was, whatever charms and
  -- libraries there are, cleaning or not.
  pub stage_charms_dry_run :
      (charms : List (Charm H.Data)) (repo : Repository H.Data) (clean : Bool) (w : H.World)
      → stage_charms H charms repo clean true w ≡ (ok tt, w)
  stage_charms_dry_run charms repo clean = (stage_charms-Idle charms repo clean).run
