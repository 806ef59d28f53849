-- ===== src/Client/Mount/Told.antt =====
-- What the two sides of a mount relation tell each other.
use filesystem_charms.Base.{
  ◌≡◌, refl, ap, ◌∙◌, Bool, true, false, List, [], ◌∷◌, map, filter, Bool-cases, inl, inr, some,
  text_eq, text_beq, text_beq_refl, if◌then◌else◌,
}
use filesystem_charms.Base.Dict.{lookup-insert, insert-insert}
use filesystem_charms.Base.Text.{codes}
use filesystem_charms.Client.Mount.{MountRelation, active_relations}
use filesystem_charms.Client.Mount.Provides.{
  mounted_text, set_mounted, write_mounted, set_mount_status,
}
use filesystem_charms.Client.Mount.Requires.{
  MountRequiresEvent, mounted_filesystem, unmounted_filesystem, status_event, on_relation_changed,
}

set_mounted-ready :
    (a : Bool) (r : MountRelation) → r.ready ≡ true → set_mounted a r ≡ write_mounted a r
unfolding set_mounted
set_mounted-ready a r e = rw e refl

set_mounted-unready : (a : Bool) (r : MountRelation) → r.ready ≡ false → set_mounted a r ≡ r
unfolding set_mounted
set_mounted-unready a r e = rw e refl

write_mounted-ready : (a : Bool) (r : MountRelation) → (write_mounted a r).ready ≡ r.ready
unfolding write_mounted
write_mounted-ready a r = refl

write_mounted-write_mounted :
    (a b : Bool) (r : MountRelation) → write_mounted a (write_mounted b r) ≡ write_mounted a r
unfolding write_mounted
write_mounted-write_mounted a b r =
    ap (λ bag. record r { unit_data = bag })
      (insert-insert (codes "mounted") (mounted_text a) (mounted_text b) r.unit_data)

set_mounted-set_mounted :
    (a b : Bool) (r : MountRelation) → set_mounted a (set_mounted b r) ≡ set_mounted a r
set_mounted-set_mounted a b r = elim (Bool-cases r.ready) [
  | inl e ↦
      rw (set_mounted-ready b r e, set_mounted-ready a r e)
        (set_mounted-ready a (write_mounted b r) (write_mounted-ready b r ∙ e)
          ∙ write_mounted-write_mounted a b r)
  | inr e ↦ rw (set_mounted-unready b r e) refl
]

-- The last status that was set is the one that is there.
pub set_mount_status-set_mount_status :
    (a b : Bool) (relations : List MountRelation)
    → set_mount_status a (set_mount_status b relations) ≡ set_mount_status a relations
unfolding set_mount_status
set_mount_status-set_mount_status a b [] = refl
set_mount_status-set_mount_status a b (r ∷ relations) =
    cc (set_mounted-set_mounted a b r, set_mount_status-set_mount_status a b relations)

-- The event of a relation whose mount status is told.
abbrev pub told : Bool → MountRelation → List MountRequiresEvent
told mounted r = if mounted then mounted_filesystem r.id ∷ [] else unmounted_filesystem r.id ∷ []

status_event-mounted_text :
    (mounted : Bool) (r : MountRelation)
    → status_event r.id (some (mounted_text mounted)) ≡ told mounted r
unfolding status_event text_beq
status_event-mounted_text true r = refl
status_event-mounted_text false r = refl

on_relation_changed-write_mounted :
    (mounted : Bool) (r : MountRelation)
    → on_relation_changed (write_mounted mounted r) ≡ told mounted r
unfolding on_relation_changed write_mounted
on_relation_changed-write_mounted mounted r =
    rw
      (
        lookup-insert (codes "mounted") (codes "mounted") (mounted_text mounted) r.unit_data,
        text_beq_refl (codes "mounted"),
      )
      (status_event-mounted_text mounted r)

pub active_relations-ready :
    (r : MountRelation) (relations : List MountRelation)
    → r.ready ≡ true
    → active_relations (r ∷ relations) ≡ r ∷ active_relations relations
unfolding active_relations filter
active_relations-ready r relations e = simp e

active_relations-unready :
    (r : MountRelation) (relations : List MountRelation)
    → r.ready ≡ false
    → active_relations (r ∷ relations) ≡ active_relations relations
unfolding active_relations filter
active_relations-unready r relations e = simp e

-- What is set is what the other end of every active relation is told.
pub on_relation_changed-set_mount_status :
    (mounted : Bool) (relations : List MountRelation)
    → map on_relation_changed (active_relations (set_mount_status mounted relations))
      ≡ map (told mounted) (active_relations relations)
unfolding set_mount_status
on_relation_changed-set_mount_status mounted [] = unfold active_relations in refl
on_relation_changed-set_mount_status mounted (r ∷ relations) =
    let rest = on_relation_changed-set_mount_status mounted relations in
    elim (Bool-cases r.ready) [
      | inl e ↦
          rw
            (
              set_mounted-ready mounted r e,
              active_relations-ready (write_mounted mounted r) (set_mount_status mounted relations)
                  (write_mounted-ready mounted r ∙ e),
              active_relations-ready r relations e,
              on_relation_changed-write_mounted mounted r,
            )
            (ap (λ rs. told mounted r ∷ rs) rest)
      | inr e ↦
          rw
            (
              set_mounted-unready mounted r e,
              active_relations-unready r (set_mount_status mounted relations) e,
              active_relations-unready r relations e,
            )
            rest
    ]
