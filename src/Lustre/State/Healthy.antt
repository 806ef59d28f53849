-- ===== src/Lustre/State/Healthy.antt =====
-- When the unit status tells that a unit is healthy.
use filesystem_charms.Base.{
  ◌≡◌, ◌≢◌, ◌↔◌, ◌⊎◌, inl, inr, refl, ap, sym, ◌∙◌, true, false, Option, none, some, List, [], ◌∷◌,
  arith, contains, text_eq, ◌==◌, if◌then◌else◌, All, Option-cases, Bool-cases, text_beq_iff,
}
use filesystem_charms.Base.Exec.{ok, bind_result, Result-cases}
use filesystem_charms.Base.Text.{Text, codes, split, words}
use filesystem_charms.Lustre.{AppData, Message, Status, active, blocked, mgs_mds_ready, oss_ready}
use filesystem_charms.Lustre.State.{
  loaded_modules, is_unpublished, kernel_modules_check, mountpoint_check, mountpoint_checks,
  mgs_mds_check, oss_check, is_mgs_unit, role_check, common_check, check_lustre,
}
use filesystem_charms.Lustre.State.Health.{modules_check_iff, check_lustre_passed}
use filesystem_charms.System.{System}

List-cases : {A : Type 0} (xs : List A) → (xs ≡ []) ⊎ ((x : A) × (rest : List A) × (xs ≡ x ∷ rest))
List-cases [] = inl refl
List-cases (x ∷ xs) = inr (x, xs, refl)

-- One of the lines begins with the name.
abbrev pub IsLoaded : Text → List Text → Type 0
IsLoaded name [] = ⊥
IsLoaded name (line ∷ lines) =
    ((more : List Text) × (words line ≡ name ∷ more)) ⊎ IsLoaded name lines

loaded_blank :
    (line : Text) (lines : List Text)
    → words line ≡ []
    → loaded_modules (line ∷ lines) ≡ loaded_modules lines
unfolding loaded_modules
loaded_blank line lines e = rw (loaded_modules, e) refl

loaded_name :
    (line m : Text) (more lines : List Text)
    → words line ≡ m ∷ more
    → loaded_modules (line ∷ lines) ≡ m ∷ loaded_modules lines
unfolding loaded_modules
loaded_name line m more lines e = rw (loaded_modules, e) refl

contains_cons :
    (m name : Text) (ms : List Text)
    → (contains (m ∷ ms) name ≡ true) ↔ ((m ≡ name) ⊎ (contains ms name ≡ true))
unfolding contains
contains_cons m name ms = elim (Bool-cases (m == name)) [
  | inl same ↦ (λ h. inl ((text_beq_iff m name).0 same), λ h. ground arith)
  | inr other ↦ (
    λ h. inr (ground arith),
    λ h. elim h [
      | inl e ↦ absurd (ground (arith, (text_beq_iff m name).1 e))
      | inr later ↦ ground arith
    ],
  )
]

loaded_modules-IsLoaded :
    (name : Text) (lines : List Text)
    → (contains (loaded_modules lines) name ≡ true) ↔ IsLoaded name lines
unfolding loaded_modules contains
loaded_modules-IsLoaded name [] = (λ h. absurd (ground arith), λ h. absurd h)
loaded_modules-IsLoaded name (line ∷ lines) =
    let (to, from) = loaded_modules-IsLoaded name lines in
    elim (List-cases (words line)) [
      | inl blank ↦
          let e = loaded_blank line lines blank in
          (
            λ h. inr (to (rw e at h)),
            λ h. elim h [ inl (more, q) ↦ absurd (cc (blank, q)) | inr later ↦ rw e (from later) ],
          )
      | inr (m, rest, q) ↦
          let e = loaded_name line m rest lines q in
          let (split_head, join_head) = contains_cons m name (loaded_modules lines) in
          (
            λ h. elim (split_head (rw e at h)) [
              | inl same ↦ inl (rest, q ∙ ap (λ t. t ∷ rest) same)
              | inr later ↦ inr (to later)
            ],
            λ h. rw e (
                join_head (elim h [
                  | inl (more, found) ↦ inl (cc (q, found))
                  | inr later ↦ inr (from later)
                ])),
          )
    ]

-- A directory that is there and is a mount point.
abbrev pub IsMounted : (S : System) → S.World → Text → Type 0
IsMounted S w path = (S.exists path w ≡ true) × (S.is_mount path w ≡ true)

module _ (S : System) (w : S.World) where
  -- `lustre` and `lnet` are among the modules that the kernel lists.
  pub record HasModules : Type 0 where
    pub text : Text
    pub listed : S.read_text (codes "/proc/modules") w ≡ some text
    pub lustre : IsLoaded (codes "lustre") (split b'\n' text)
    pub lnet : IsLoaded (codes "lnet") (split b'\n' text)

  -- What a unit is to have mounted, with what its status then says: the MGS its MGS and MDT, any
  -- other unit all its OSTs, of which there is one.
  abbrev pub HasTargets : Text → AppData → Message → Type 0
  HasTargets name d m =
      ((d.mgs_unit_name ≡ some name) × IsMounted S w (codes "/mnt/mgs_mdt") × (m ≡ mgs_mds_ready))
      ⊎ ((d.mgs_unit_name ≢ some name)
          × (S.glob (codes "/mnt") (codes "ost[0-9]*") w ≢ [])
          × All (IsMounted S w) (S.glob (codes "/mnt") (codes "ost[0-9]*") w)
          × (m ≡ oss_ready))

  -- A unit of a cluster with an MGS, whose modules are loaded and whose targets are mounted.
  abbrev pub IsHealthy : Text → AppData → Message → Type 0
  IsHealthy name d m =
      ((mgs : Text) × (d.mgs_unit_name ≡ some mgs))
      × (d.mgs_nids ≢ [])
      × HasModules
      × HasTargets name d m

  published_iff :
      (d : AppData)
      → (is_unpublished d ≡ false)
        ↔ (((mgs : Text) × (d.mgs_unit_name ≡ some mgs)) × (d.mgs_nids ≢ []))
  unfolding is_unpublished
  published_iff d = elim (Option-cases d.mgs_unit_name) [
    | inl missing ↦
        (λ h. absurd (ground (arith, missing)), λ h. let (mgs, e) = h.0 in absurd (cc (missing, e)))
    | inr (mgs, there) ↦ elim (List-cases d.mgs_nids) [
      | inl empty ↦ (λ h. absurd (ground (arith, there, empty)), λ h. absurd (h.1 empty))
      | inr (nid, nids, filled) ↦
          (λ h. ((mgs, there), (λ e. cc (filled, e))), λ h. rw (is_unpublished, there, filled) refl)
    ]
  ]

  kernel_modules_iff : (kernel_modules_check S w ≡ ok tt) ↔ HasModules
  unfolding kernel_modules_check
  kernel_modules_iff = elim (Option-cases (S.read_text (codes "/proc/modules") w)) [
    | inl unread ↦ (λ h. absurd (ground (arith, unread)), λ h. absurd (cc (unread, h.listed)))
    | inr (text, read) ↦
        let lines = split b'\n' text in
        let both = modules_check_iff (loaded_modules lines) in
        let lustre = loaded_modules-IsLoaded (codes "lustre") lines in
        let lnet = loaded_modules-IsLoaded (codes "lnet") lines in
        (
          λ h.
              let (l, n) = both.0 (rw (kernel_modules_check, read) at h) in
              record { text = text; listed = read; lustre = lustre.0 l; lnet = lnet.0 n },
          λ h.
              let same : h.text ≡ text = cc (h.listed, read) in
              rw (kernel_modules_check, read)
                (both.1 (lustre.1 (rw same at h.lustre), lnet.1 (rw same at h.lnet))),
        )
  ]

  mountpoint_iff : (path : Text) → (mountpoint_check S path w ≡ ok tt) ↔ IsMounted S w path
  unfolding mountpoint_check
  mountpoint_iff path = (λ h. (ground arith, ground arith), λ h. ground arith)

  mountpoints_iff :
      (paths : List Text) → (mountpoint_checks S paths w ≡ ok tt) ↔ All (IsMounted S w) paths
  unfolding mountpoint_checks
  mountpoints_iff [] = (λ h. tt, λ h. refl)
  mountpoints_iff (path ∷ paths) =
      let one = mountpoint_iff path in
      let more = mountpoints_iff paths in
      elim (Result-cases (mountpoint_check S path w)) [
        | inl (_, p) ↦ (λ h. (one.0 p, more.0 (rw p at h)), λ h. rw p (more.1 h.1))
        | inr (e, p) ↦ (λ h. absurd (ground arith), λ h. absurd (ground (arith, one.1 h.0)))
      ]

  oss_iff :
      let osts = S.glob (codes "/mnt") (codes "ost[0-9]*") w in
      (oss_check S w ≡ ok tt) ↔ ((osts ≢ []) × All (IsMounted S w) osts)
  unfolding oss_check
  oss_iff = elim (List-cases (S.glob (codes "/mnt") (codes "ost[0-9]*") w)) [
    | inl none_there ↦ (λ h. absurd (ground (arith, none_there)), λ h. absurd (h.0 none_there))
    | inr (ost, osts, e) ↦
        let all = mountpoints_iff (S.glob (codes "/mnt") (codes "ost[0-9]*") w) in
        let checked : oss_check S w
            ≡ mountpoint_checks S (S.glob (codes "/mnt") (codes "ost[0-9]*") w) w =
          rw (oss_check, e) refl in
        (λ h. ((λ q. cc (e, q)), all.0 (sym checked ∙ h)), λ h. checked ∙ all.1 h.1)
  ]

  is_mgs_unit_iff :
      (name : Text) (d : AppData) → (is_mgs_unit S name d ≡ true) ↔ (d.mgs_unit_name ≡ some name)
  unfolding is_mgs_unit
  is_mgs_unit_iff name d = elim (Option-cases d.mgs_unit_name) [
    | inl missing ↦ (λ h. absurd (ground (arith, missing)), λ h. absurd (cc (missing, h)))
    | inr (mgs, e) ↦
        let named : is_mgs_unit S name d ≡ (name == mgs) = rw (is_mgs_unit, e) refl in
        (
          λ h. e ∙ ap (λ t. some t) (sym ((text_beq_iff name mgs).0 (sym named ∙ h))),
          λ h. named ∙ (text_beq_iff name mgs).1 (cc (e, h)),
        )
  ]

  -- The check of the role, with the message that tells it.
  role_iff :
      (name : Text) (d : AppData) (m : Message)
      → ((role_check S name d w ≡ ok tt)
          × ((if is_mgs_unit S name d then mgs_mds_ready else oss_ready) ≡ m))
        ↔ HasTargets name d m
  unfolding role_check mgs_mds_check
  role_iff name d m =
      let unit = is_mgs_unit_iff name d in
      let mgs = mountpoint_iff (codes "/mnt/mgs_mdt") in
      elim (Bool-cases (is_mgs_unit S name d)) [
        | inl e ↦
            let checked : role_check S name d w ≡ mountpoint_check S (codes "/mnt/mgs_mdt") w =
              rw (role_check, e) refl in
            (
              λ h. inl (unit.0 e, mgs.0 (sym checked ∙ h.0), sym h.1 ∙ rw e refl),
              λ h. elim h [
                | inl (_, mounted, told) ↦ (checked ∙ mgs.1 mounted, rw e (sym told))
                | inr (other, _, _, _) ↦ absurd (other (unit.0 e))
              ],
            )
        | inr e ↦
            let checked : role_check S name d w ≡ oss_check S w = rw (role_check, e) refl in
            (
              λ h.
                  let (some_ost, mounted) = oss_iff.0 (sym checked ∙ h.0) in
                  inr ((λ q. cc (unit.1 q, e)), some_ost, mounted, sym h.1 ∙ rw e refl),
              λ h. elim h [
                | inl (named, _, _) ↦ absurd (cc (unit.1 named, e))
                | inr (_, some_ost, mounted, told) ↦
                    (checked ∙ oss_iff.1 (some_ost, mounted), rw e (sym told))
              ],
            )
      ]

module _ (S : System) (name : Text) (d : AppData) (w : S.World) where
  -- The status is active exactly if the unit is healthy: the MGS data are published, `lustre` and
  -- `lnet` are loaded, and the unit has its targets mounted, the MGS unit its MGS and MDT and any
  -- other unit all of its OSTs, at least one; then the message tells which of the two it is.
  pub check_lustre_active :
      (existing : Status) (m : Message)
      → (check_lustre S name existing (some d) w ≡ active m) ↔ IsHealthy S w name d m
  check_lustre_active existing m =
      let (to, from) = check_lustre_passed S name d w existing m in
      let (out, back) = published_iff S w d in
      let modules = kernel_modules_iff S w in
      let role = role_iff S w name d m in
      (
        λ h.
            let (unpublished, loaded, passed, told) = to h in
            let (named, nids) = out unpublished in
            (named, nids, modules.0 loaded, role.0 (passed, told)),
        λ h.
            let (named, nids, loaded, targets) = h in
            let (passed, told) = role.1 targets in
            from (back (named, nids), modules.1 loaded, passed, told),
      )

module _ (S : System) (name : Text) (w : S.World) where
  -- An error that the unit already shows is replaced by no other: the status stays, or the unit is
  -- healthy, and the status is active.
  pub check_lustre_keeps_error :
      (message : Message) (data' : Option AppData)
      → (check_lustre S name (blocked message) data' w ≡ blocked message)
        ⊎ ((d : AppData) × (m : Message) × (data' ≡ some d)
            × IsHealthy S w name d m
            × (check_lustre S name (blocked message) data' w ≡ active m))
  unfolding check_lustre
  check_lustre_keeps_error message none = inl refl
  check_lustre_keeps_error message (some d) =
      elim (Result-cases (bind_result (common_check S d w) λ _. role_check S name d w)) [
        | inl (_, passed) ↦
            let m = if is_mgs_unit S name d then mgs_mds_ready else oss_ready in
            let shown : check_lustre S name (blocked message) (some d) w ≡ active m =
              ground arith in
            inr (d, m, refl, (check_lustre_active S name d w (blocked message) m).0 shown, shown)
        | inr (status, failed) ↦ inl (ground arith)
      ]
