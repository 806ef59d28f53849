-- ===== src/Lustre/Peers/Promote.antt =====
-- The promotion of MGS NIDs: the first MGS is kept.
use mathlib.Core.List.{Perm}
use filesystem_charms.Base.{◌≡◌, ◌↔◌, true, false, some, List, arith, text_eq}
use filesystem_charms.Base.Exec.{ok}
use filesystem_charms.Base.Sort.{sorted, sorted_iff, texts_beq_iff, texts_eq}
use filesystem_charms.Base.Text.{Text}
use filesystem_charms.Filesystem.{Provider}
use filesystem_charms.Lustre.{AppData}
use filesystem_charms.Lustre.Peers.{
  Databags, app_data, is_assigned, is_named, World, get_relation_checked, get_app_data,
  check_promoted, promote_mgs_nids,
}
use filesystem_charms.System.{System}

module _ {S : System} {F : Provider} where
  -- What promotion does to the peer relation's data, by whether an MGS is assigned.
  promote_assigned :
      (name : Text) (nids : List Text) (bags : Databags) (w : World S F)
      → w.relation ≡ some bags
      → is_assigned (app_data bags) ≡ true
      → promote_mgs_nids name nids w ≡ check_promoted (app_data bags) name nids w
  unfolding promote_mgs_nids get_app_data get_relation_checked
  promote_assigned name nids bags w h a = ground arith

  check_promoted-kept :
      (d : AppData) (name : Text) (nids : List Text) (w : World S F)
      → (check_promoted d name nids w).1 ≡ w
  unfolding check_promoted
  check_promoted-kept d name nids w = ground arith

  check_promoted-sorted :
      (d : AppData) (name : Text) (nids : List Text) (w : World S F)
      → ((check_promoted d name nids w).0 ≡ ok tt)
        ↔ ((is_named d name ≡ true) × (sorted d.mgs_nids ≡ sorted nids))
  unfolding check_promoted
  check_promoted-sorted d name nids w = (
    λ e. (ground arith, (texts_beq_iff (sorted d.mgs_nids) (sorted nids)).0 (ground arith)),
    λ h. let same = (texts_beq_iff (sorted d.mgs_nids) (sorted nids)).1 h.1 in ground arith,
  )

  check_promoted-ok_iff :
      (d : AppData) (name : Text) (nids : List Text) (w : World S F)
      → ((check_promoted d name nids w).0 ≡ ok tt)
        ↔ ((is_named d name ≡ true) × Perm d.mgs_nids nids)
  check_promoted-ok_iff d name nids w =
      let (to, from) = check_promoted-sorted d name nids w in
      (
        λ e. ((to e).0, (sorted_iff d.mgs_nids nids).0 (to e).1),
        λ h. from (h.0, (sorted_iff d.mgs_nids nids).1 h.1),
      )

  -- Where an MGS is assigned, promotion changes nothing; and it goes through exactly for the
  -- assigned unit with the same NIDs in any order.
  pub promote_keeps_mgs :
      (name : Text) (nids : List Text) (bags : Databags) (w : World S F)
      → w.relation ≡ some bags
      → is_assigned (app_data bags) ≡ true
      → ((promote_mgs_nids name nids w).1 ≡ w)
        × (((promote_mgs_nids name nids w).0 ≡ ok tt)
            ↔ ((is_named (app_data bags) name ≡ true) × Perm (app_data bags).mgs_nids nids))
  promote_keeps_mgs name nids bags w h a = rw (promote_assigned name nids bags w h a) (
    check_promoted-kept (app_data bags) name nids w,
    check_promoted-ok_iff (app_data bags) name nids w,
  )

  -- Where no MGS is assigned, promotion goes through, and the unit and its NIDs are assigned.
  pub promote_assigns :
      (name : Text) (nids : List Text) (bags : Databags) (w : World S F)
      → w.relation ≡ some bags
      → is_assigned (app_data bags) ≡ false
      → promote_mgs_nids name nids w ≡ (
        ok tt,
        record w {
          relation =
              some (record bags {
                app = some (record { mgs_nids = nids; mgs_unit_name = some name });
              });
        },
      )
  unfolding promote_mgs_nids
  promote_assigns name nids bags w h a = ground arith
