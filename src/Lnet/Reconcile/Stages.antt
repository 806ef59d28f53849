-- ===== src/Lnet/Reconcile/Stages.antt =====
-- What each command of `_ensure_networks` makes of the host.
use filesystem_charms.Base.{
  ◌≡◌, refl, ◌∙◌, ap, true, false, not, ◌&&◌, ◌||◌, List, [], ◌∷◌, contains, text_eq, ◌==◌,
  if◌then◌else◌, arith, is_empty, difference, to_set, text_beq_iff, text_beq_refl,
  contains-difference, contains-to_set,
}
use filesystem_charms.Base.Exec.{Result, ok, pure, >>=-eq-ok, ◌>>=◌, when}
use filesystem_charms.Base.Sort.{sorted, contains-sorted}
use filesystem_charms.Base.Text.{Text}
use filesystem_charms.Lnet.{LnetError, add_interface, remove_interface}
use filesystem_charms.Lnet.Show.{Yaml}
use filesystem_charms.Lnet.Reconcile.{
  interface_add, interface_del, add_interfaces, remove_interfaces, reconcile,
}
use filesystem_charms.Lnet.Reconcile.Lawful.{View, IsRendered, IsLawful}
use filesystem_charms.System.{System, success, run_checked}

pub contains-set_difference :
    (xs ys : List Text) (a : Text)
    → contains (difference (to_set xs) (to_set ys)) a ≡ (contains xs a && not (contains ys a))
contains-set_difference xs ys a =
    rw (contains-difference (to_set xs) (to_set ys) a, contains-to_set xs a, contains-to_set ys a)

module _ (S : System) where
  pub run_checked_inv :
      {E : Type 0} (argv : List Text) (e : E) (w w' : S.World) (out : Text)
      → run_checked S argv e w ≡ (ok out, w')
      → S.run argv w ≡ (success out, w')
  unfolding run_checked
  run_checked_inv argv e w w' out h = ground arith

  pub run_checked_ok :
      {E : Type 0} (argv : List Text) (e : E) (w w' : S.World) (out : Text)
      → S.run argv w ≡ (success out, w')
      → run_checked S argv e w ≡ (ok out, w')
  unfolding run_checked
  run_checked_ok argv e w w' out h = ground arith

  -- The commands whose output is not used.
  pub run_unit_inv :
      {E : Type 0} (argv : List Text) (e : E) (w w' : S.World)
      → ◌≡◌ {A = Result E (Unit {0}) × S.World}
          ((run_checked S argv e >>= λ _. pure tt) w)
          (ok tt, w')
      → (out : Text) × (S.run argv w ≡ (success out, w'))
  run_unit_inv argv e w w' h =
      let (out, w₁, p, q) = >>=-eq-ok (run_checked S argv e) (λ _. pure tt) w w' tt h in
      let same : w₁ ≡ w' = ap (λ r. r.1) q in
      (out, run_checked_inv argv e w w' out (p ∙ ap (λ v. (ok out, v)) same))

module _ (S : System) (Y : Yaml) (V : View S.World) (L : IsLawful S Y V) where
  -- What binding `is` to `name` makes of the host.
  add_interfaces_lem :
      (name : Text) (is : List Text) (w w' : S.World)
      → IsRendered V name
      → add_interfaces S Y name is w ≡ (ok tt, w')
      → V.has_network w name ≡ true
      → (n i : Text)
      → (V.has_network w' n ≡ V.has_network w n)
        × (V.is_bound w' n i
            ≡ (if name == n then V.is_bound w n i || contains is i else V.is_bound w n i))
  add_interfaces_lem name is w w' c h there n i =
      let (out, p) =
        run_unit_inv S {E = LnetError} (interface_add name (sorted is)) (add_interface is name) w w'
          (unfold add_interfaces in h) in
      (
        L.bind_has w w' out name (sorted is) c p there n,
        L.bind_bound w w' out name (sorted is) c p there n i ∙ rw (contains-sorted is i),
      )

  remove_interfaces_lem :
      (name kept : Text) (is : List Text) (w w' : S.World)
      → IsRendered V name
      → remove_interfaces S Y name is w ≡ (ok tt, w')
      → V.is_bound w name kept ≡ true
      → contains is kept ≡ false
      → (n i : Text)
      → (V.has_network w' n ≡ V.has_network w n)
        × (V.is_bound w' n i
            ≡ (if name == n then V.is_bound w n i && not (contains is i) else V.is_bound w n i))
  remove_interfaces_lem name kept is w w' c h there stays n i =
      let (out, p) =
        run_unit_inv S {E = LnetError} (interface_del name (S.set_order is))
          (remove_interface is name) w w' (unfold remove_interfaces in h) in
      let stays' : contains (S.set_order is) kept ≡ false = L.set_order is kept ∙ stays in
      (
        L.unbind_has w w' out name kept (S.set_order is) c p there stays' n,
        L.unbind_bound w w' out name kept (S.set_order is) c p there stays' n i
            ∙ rw (L.set_order is i),
      )

  add_stage :
      (name : Text) (to_add : List Text) (w w' : S.World)
      → IsRendered V name
      → when (not (is_empty to_add)) (add_interfaces S Y name to_add) w ≡ (ok tt, w')
      → V.has_network w name ≡ true
      → (n i : Text)
      → (V.has_network w' n ≡ V.has_network w n)
        × (V.is_bound w' n i
            ≡ (if name == n then V.is_bound w n i || contains to_add i else V.is_bound w n i))
  unfolding contains
  add_stage name [] w w' c h there n i =
      let same : w ≡ w' = ap (λ r. r.1) h in rw (← same) (refl, ground arith)
  add_stage name (a ∷ to_add) w w' c h there n i =
      add_interfaces_lem name (a ∷ to_add) w w' c h there n i

  remove_stage :
      (name kept : Text) (to_remove : List Text) (w w' : S.World)
      → IsRendered V name
      → when (not (is_empty to_remove)) (remove_interfaces S Y name to_remove) w ≡ (ok tt, w')
      → V.is_bound w name kept ≡ true
      → contains to_remove kept ≡ false
      → (n i : Text)
      → (V.has_network w' n ≡ V.has_network w n)
        × (V.is_bound w' n i ≡ (
            if name == n then V.is_bound w n i && not (contains to_remove i) else V.is_bound w n i))
  unfolding contains
  remove_stage name kept [] w w' c h there stays n i =
      let same : w ≡ w' = ap (λ r. r.1) h in rw (← same) (refl, ground arith)
  remove_stage name kept (a ∷ to_remove) w w' c h there stays n i =
      remove_interfaces_lem name kept (a ∷ to_remove) w w' c h there stays n i

  contains_head : (a : Text) (xs : List Text) → contains (a ∷ xs) a ≡ true
  unfolding contains
  contains_head a xs = rw (text_beq_refl a)

  -- The interfaces of an existing network become the given ones.
  pub reconcile_lem :
      (name : Text) (bound : List Text) (kept : Text) (is : List Text) (w w' : S.World)
      → IsRendered V name
      → reconcile S Y name bound (kept ∷ is) w ≡ (ok tt, w')
      → V.has_network w name ≡ true
      → ((i : Text) → contains bound i ≡ V.is_bound w name i)
      → (n i : Text)
      → (V.has_network w' n ≡ V.has_network w n)
        × (V.is_bound w' n i ≡ (if name == n then contains (kept ∷ is) i else V.is_bound w n i))
  reconcile_lem name bound kept is w w' c h there agrees n i =
      let wanted = kept ∷ is in
      let to_add = difference (to_set wanted) (to_set bound) in
      let to_remove = difference (to_set bound) (to_set wanted) in
      let (_, w₁, p, q) =
        >>=-eq-ok (when (not (is_empty to_add)) (add_interfaces S Y name to_add))
          (λ _. when (not (is_empty to_remove)) (remove_interfaces S Y name to_remove)) w w' tt
          (unfold reconcile in h) in
      let added = add_stage name to_add w w₁ c p there in
      let kept_bound : V.is_bound w₁ name kept ≡ true = ground (
        arith,
        (added name kept).1,
        text_beq_refl name,
        agrees kept,
        contains_head kept is,
        contains-set_difference wanted bound kept,
      ) in
      let kept_stays : contains to_remove kept ≡ false =
        rw (contains-set_difference bound wanted kept) (ground (arith, contains_head kept is)) in
      let removed = remove_stage name kept to_remove w₁ w' c q kept_bound kept_stays n i in
      (
        removed.0 ∙ (added n i).0,
        ground (
          arith,
          removed.1,
          (added n i).1,
          contains-set_difference wanted bound i,
          contains-set_difference bound wanted i,
          agrees i,
          text_beq_iff name n,
        ),
      )
