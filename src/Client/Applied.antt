-- ===== src/Client/Applied.antt =====
-- What the autofs map is after the mounts were applied.
use filesystem_charms.Base.{
  ◌≡◌, ◌∙◌, arith, Bool, true, false, not, ◌&&◌, some, Option-cases, Bool-cases, inl, inr, text_eq,
  ◌==◌, text_beq_iff, text_beq_refl,
}
use filesystem_charms.Base.Dict.{Dict, keys}
use filesystem_charms.Base.Exec.{ok, ◌>>◌, >>=-eq-ok}
use filesystem_charms.Base.Text.{Text, has}
use filesystem_charms.Client.{MountEntry, Host, os_error}
use filesystem_charms.Client.Manager.{make_mountpoints, reload, write_mounts, apply_mounts}
use filesystem_charms.Client.Mounts.{autofs_map}
use filesystem_charms.System.{System, file_checked, write_text}

-- What is written to the file is what is read from it, as long as it has no carriage return, which
-- `read_text` would make a line feed; and the reload of autofs leaves the file alone.
pub record KeepsFile (S : System) (H : Host S) (path : Text) : Type 0 where
  pub written :
      (text : Text) (w w' : S.World)
      → has b'\r' text ≡ false
      → S.file (write_text path text) w ≡ (true, w')
      → S.read_text path w' ≡ some text
  pub reloaded :
      (w w' : S.World) → H.reload_autofs w ≡ (true, w') → S.read_text path w' ≡ S.read_text path w

module _ {S : System} (H : Host S) (path : Text) (L : KeepsFile S H path)
    (mounts : Dict Text MountEntry) (plain : has b'\r' (autofs_map mounts) ≡ false) where
  -- If the file reads as the map of the mounts, they are applied without a change.
  apply_mounts_same :
      (w : S.World)
      → S.read_text path w ≡ some (autofs_map mounts)
      → apply_mounts H path false mounts w ≡ (ok tt, w)
  unfolding apply_mounts
  apply_mounts_same w h = ground (arith, text_beq_refl (autofs_map mounts))

  write_inv :
      (w w' : S.World)
      → file_checked S (write_text path (autofs_map mounts)) os_error w ≡ (ok tt, w')
      → S.read_text path w' ≡ some (autofs_map mounts)
  unfolding file_checked
  write_inv w w' h = L.written (autofs_map mounts) w w' plain (ground arith)

  reload_inv :
      (w w' : S.World) → reload H w ≡ (ok tt, w') → S.read_text path w' ≡ S.read_text path w
  unfolding reload
  reload_inv w w' h = L.reloaded w w' (ground arith)

  write_mounts_writes :
      (w w' : S.World)
      → write_mounts H path mounts w ≡ (ok tt, w')
      → S.read_text path w' ≡ some (autofs_map mounts)
  write_mounts_writes w w' h =
      let write = file_checked S (write_text path (autofs_map mounts)) os_error in
      let (_, w₁, _, h₁) =
        >>=-eq-ok (make_mountpoints H (keys mounts)) (λ _. write >> reload H) w w' tt
          (unfold write_mounts in h) in
      let (_, w₂, written, h₂) = >>=-eq-ok write (λ _. reload H) w₁ w' tt h₁ in
      reload_inv w₂ w' h₂ ∙ write_inv w₁ w₂ written

  apply_mounts_writes :
      (force_mount : Bool) (w w' : S.World)
      → apply_mounts H path force_mount mounts w ≡ (ok tt, w')
      → S.read_text path w' ≡ some (autofs_map mounts)
  unfolding apply_mounts
  apply_mounts_writes force_mount w w' h = elim (Option-cases (S.read_text path w)) [
    | inl unread ↦ absurd (ground arith)
    | inr (old, read) ↦ elim (Bool-cases (not force_mount && autofs_map mounts == old)) [
      | inl same ↦
          let unchanged : w ≡ w' = ground arith in
          let this : autofs_map mounts ≡ old =
            ground (arith, text_beq_iff (autofs_map mounts) old) in
          rw (← unchanged, this) read
      | inr other ↦ write_mounts_writes w w' (ground arith)
    ]
  ]

  -- If the autofs file keeps what is written to it and the map of the mounts has no carriage return,
  -- then after the mounts were applied without an error the file is the map of the mounts, and
  -- applying them once more changes nothing.
  pub apply_mounts_converges :
      (force_mount : Bool) (w w' : S.World)
      → apply_mounts H path force_mount mounts w ≡ (ok tt, w')
      → (S.read_text path w' ≡ some (autofs_map mounts))
        × (apply_mounts H path false mounts w' ≡ (ok tt, w'))
  apply_mounts_converges force_mount w w' h =
      let written = apply_mounts_writes force_mount w w' h in
      (written, apply_mounts_same w' written)
