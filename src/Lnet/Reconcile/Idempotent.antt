-- ===== src/Lnet/Reconcile/Idempotent.antt =====
-- A host that is configured as specified is left alone.
use filesystem_charms.Base.{
  ◌≡◌, refl, ap, ◌∙◌, sym, true, false, List, [], ◌∷◌, contains, text_eq, arith, All, difference,
  to_set, text_beq_refl,
}
use filesystem_charms.Base.Dict.{keys, lookup}
use filesystem_charms.Base.Exec.{◌>>=◌, lift, >>=_ok, ok, for_each}
use filesystem_charms.Base.Text.{Text}
use filesystem_charms.Lnet.{Networks, query_networks}
use filesystem_charms.Lnet.Show.{Yaml, parse_networks}
use filesystem_charms.Lnet.Reconcile.{
  net_show, bound_list, reconcile, ensure_network, ensure_networks,
}
use filesystem_charms.Lnet.Reconcile.Lawful.{View, IsShown}
use filesystem_charms.Lnet.Reconcile.Stages.{run_checked_ok, contains-set_difference}
use filesystem_charms.System.{System, success, run_checked}

nothing_in : (xs : List Text) → ((a : Text) → contains xs a ≡ false) → xs ≡ []
unfolding contains
nothing_in [] h = refl
nothing_in (x ∷ xs) h = absurd (ground (arith, h x, text_beq_refl x))

-- Two lists with the same elements have no difference.
no_difference :
    (xs ys : List Text)
    → ((a : Text) → contains xs a ≡ contains ys a)
    → difference (to_set xs) (to_set ys) ≡ []
no_difference xs ys h = nothing_in _ λ a. rw (contains-set_difference xs ys a) (ground (arith, h a))

-- The host has the networks, each with exactly its interfaces.
abbrev pub IsConfigured : {W : Type 0} → View W → W → Networks → Type 0
IsConfigured V w =
    All (λ p. (V.has_network w p.0 ≡ true) × ((i : Text) → V.is_bound w p.0 i ≡ contains p.1 i))

module _ (S : System) (Y : Yaml) (V : View S.World) (L : IsShown S Y V) where
  reconcile_same :
      (name : Text) (bound is : List Text) (w : S.World)
      → ((i : Text) → contains bound i ≡ contains is i)
      → reconcile S Y name bound is w ≡ (ok tt, w)
  unfolding reconcile
  reconcile_same name bound is w h =
      rw (no_difference is bound (λ a. sym (h a)), no_difference bound is h)

  ensure_network_same :
      (existing : Networks) (name : Text) (is : List Text) (w : S.World)
      → contains (keys existing) name ≡ true
      → ((i : Text) → contains (bound_list (lookup name existing)) i ≡ contains is i)
      → ensure_network S Y existing (name, is) w ≡ (ok tt, w)
  unfolding ensure_network
  ensure_network_same existing name is w there h =
      rw there (reconcile_same name (bound_list (lookup name existing)) is w h)

  loop_same :
      (existing networks : Networks) (w : S.World)
      → ((n : Text) → contains (keys existing) n ≡ V.has_network w n)
      → ((n i : Text) → contains (bound_list (lookup n existing)) i ≡ V.is_bound w n i)
      → IsConfigured V w networks
      → for_each networks (ensure_network S Y existing) w ≡ (ok tt, w)
  unfolding for_each
  loop_same existing [] w listed agrees h = refl
  loop_same existing ((name, is) ∷ networks) w listed agrees h =
      let first =
        ensure_network_same existing name is w (listed name ∙ h.0.0)
          (λ i. agrees name i ∙ h.0.1 i) in
      >>=_ok (ensure_network S Y existing (name, is))
        (λ _. for_each networks (ensure_network S Y existing)) w first
      ∙ loop_same existing networks w listed agrees h.1

  -- If `lnetctl net show` lists what there is and changes nothing, it answers with output that
  -- parses, and the host already has each of the networks with exactly its interfaces, then
  -- `_ensure_networks` returns and has changed nothing.
  pub ensure_networks_idempotent :
      (networks : Networks) (w w₁ : S.World) (out : Text) (existing : Networks)
      → S.run net_show w ≡ (success out, w₁)
      → parse_networks Y out ≡ ok existing
      → IsConfigured V w networks
      → ensure_networks S Y networks w ≡ (ok tt, w)
  unfolding ensure_networks
  ensure_networks_idempotent networks w w₁ out existing h parsed configured =
      >>=_ok (run_checked S net_show query_networks)
        (λ o. lift (parse_networks Y o) >>= λ nets. for_each networks (ensure_network S Y nets)) w
        (run_checked_ok S net_show query_networks w w₁ out h)
      ∙ >>=_ok (lift (parse_networks Y out)) (λ nets. for_each networks (ensure_network S Y nets))
          w₁ (ap (λ r. (r, w₁)) parsed)
      ∙ rw (L.show w w₁ out h) (
          loop_same existing networks w (L.show_networks w w₁ out existing h parsed)
            (L.show_bound w w₁ out existing h parsed) configured)
