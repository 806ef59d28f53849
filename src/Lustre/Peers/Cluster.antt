-- ===== src/Lustre/Peers/Cluster.antt =====
-- The peer relation under any sequence of hooks of any units.
use filesystem_charms.Lustre.Charm.{on_start}
use filesystem_charms.Lustre.Charm.Kept.{on_start-kept}
use filesystem_charms.Base.{
  ◌≡◌, refl, true, Option, some, List, arith, if◌then◌else◌, Bool-cases, inl, inr, ◌==◌, text_eq,
  text_beq_iff,
}
use filesystem_charms.Base.Dict.{lookup-insert}
use filesystem_charms.Base.Exec.Keeps.{Keeps}
use filesystem_charms.Base.Text.{Text}
use filesystem_charms.Filesystem.{Provider}
use filesystem_charms.Lustre.{AppData, UnitData}
use filesystem_charms.Lustre.Peers.{
  Databags, Hook, app_data, unit_data, is_assigned, World, promote_mgs_nids,
}
use filesystem_charms.Lustre.Peers.Handlers.{on_relation_changed}
use filesystem_charms.Lustre.Peers.Promote.{promote_keeps_mgs, promote_assigns}
use filesystem_charms.System.{System}
use filesystem_charms.Lustre.Peers.Kept.{HasBags, with_unit, IsKept}
use filesystem_charms.Lustre.Peers.Kept.Changed.{on_relation_changed-kept}

-- One hook of some unit, `_on_start` or `_on_relation_changed`, on the data that all units share:
-- Juju hands the unit the data, and keeps what the hook has written.
pub data Step (S : System) (F : Provider) (bags bags' : Databags) : Type 0 where
  starts :
      (hook : Hook) (storages : Option (List Text × List Text)) (w : World S F)
      → w.relation ≡ some bags
      → (on_start hook storages w).1.relation ≡ some bags'
      → Step S F bags bags'
  relation_changed :
      (hook : Hook) (from : Option Text) (w : World S F)
      → w.relation ≡ some bags
      → (on_relation_changed hook from w).1.relation ≡ some bags'
      → Step S F bags bags'

pub data Reach (S : System) (F : Provider) (bags : Databags) : Databags → Type 0 where
  here : Reach S F bags bags
  next : {mid last : Databags} → Reach S F bags mid → Step S F mid last → Reach S F bags last

module _ {S : System} {F : Provider} (Q : Databags → Type 0) (k : IsKept S F Q) where
  holds_after : (w : World S F) (bags : Databags) → HasBags Q w → w.relation ≡ some bags → Q bags
  holds_after w bags h e = let same : h.bags ≡ bags = cc (h.there, e) in rw same at h.holds

  Step-kept : {bags bags' : Databags} → Step S F bags bags' → Q bags → Q bags'
  Step-kept {bags} {bags'} (starts hook storages w there after) q =
      holds_after _ bags'
        ((on_start-kept Q k hook storages).run (record { bags = bags; there = there; holds = q }))
        after
  Step-kept {bags} {bags'} (relation_changed hook from w there after) q =
      holds_after _ bags'
        ((on_relation_changed-kept Q k hook from).run
          (record { bags = bags; there = there; holds = q }))
        after

  Reach-kept : {bags bags' : Databags} → Reach S F bags bags' → Q bags → Q bags'
  Reach-kept here q = q
  Reach-kept (next r s) q = Step-kept s (Reach-kept r q)

-- An assigned MGS is kept.
app_data-IsKept :
    (S : System) (F : Provider) (d : AppData)
    → is_assigned d ≡ true
    → IsKept S F (λ bags. app_data bags ≡ d)
app_data-IsKept S F d assigned = record {
  promote = λ name nids. record {
    run = λ {w} h. rw (promote_keeps_mgs name nids h.bags w h.there (rw h.holds assigned)).0 h;
  };
  set_nids = λ bags name nids q. q;
  set_ready = λ bags name q. q;
}

-- A unit that has reported ready stays ready.
abbrev pub IsReady : Text → Databags → Type 0
IsReady x bags = (unit_data bags x).ready ≡ true

unit_data-with_unit :
    (bags : Databags) (name x : Text) (u : UnitData)
    → unit_data (with_unit bags name u) x ≡ (if name == x then u else unit_data bags x)
unfolding unit_data
unit_data-with_unit bags name x u = ground (arith, lookup-insert name x u bags.units)

-- Application data are no unit's data.
IsReady-app :
    (x : Text) (bags : Databags) (d : AppData)
    → IsReady x bags
    → IsReady x (record bags { app = some d })
unfolding unit_data
IsReady-app x bags d h = h

promote-IsReady :
    (S : System) (F : Provider) (x name : Text) (nids : List Text)
    → Keeps (HasBags {S = S} {F = F} (IsReady x)) (promote_mgs_nids name nids)
promote-IsReady S F x name nids = record {
  run = λ {w} h. elim (Bool-cases (is_assigned (app_data h.bags))) [
    | inl assigned ↦ rw (promote_keeps_mgs name nids h.bags w h.there assigned).0 h
    | inr free ↦
        let d : AppData = record { mgs_nids = nids; mgs_unit_name = some name } in
        rw (promote_assigns name nids h.bags w h.there free) (record {
          bags = record h.bags { app = some d };
          there = refl;
          holds = IsReady-app x h.bags d h.holds;
        })
  ];
}

IsReady-IsKept : (S : System) (F : Provider) (x : Text) → IsKept S F (IsReady x)
IsReady-IsKept S F x = record {
  promote = promote-IsReady S F x;
  set_nids = λ bags name nids q.
      rw (unit_data-with_unit bags name x (record (unit_data bags name) { mgs_nids = nids }))
        (ground (arith, text_beq_iff name x));
  set_ready = λ bags name q.
      rw (unit_data-with_unit bags name x (record (unit_data bags name) { ready = true }))
        (ground arith);
}

-- Once an MGS is assigned, its unit and its NIDs stay what they are, whatever hooks of whatever
-- units run, and whichever units are leaders in them.
pub mgs_stable :
    (S : System) (F : Provider) {bags bags' : Databags}
    → Reach S F bags bags'
    → is_assigned (app_data bags) ≡ true
    → app_data bags' ≡ app_data bags
mgs_stable S F {bags} r assigned =
    Reach-kept (λ b. app_data b ≡ app_data bags) (app_data-IsKept S F (app_data bags) assigned) r
      refl

-- A unit that has reported ready stays ready in the relation's data, whatever hooks run.
pub ready_stable :
    (S : System) (F : Provider) (x : Text) {bags bags' : Databags}
    → Reach S F bags bags'
    → (unit_data bags x).ready ≡ true
    → (unit_data bags' x).ready ≡ true
ready_stable S F x r ready = Reach-kept (IsReady x) (IsReady-IsKept S F x) r ready
