-- ===== src/Xfer/Open.antt =====
-- The rule of firmware/src/comm/xfer/navlink_xfer.c that file transfers go one direction at a time:
-- `xfer_on_open` checks it, and a late NAK (`xfer_on_ack`) gets around it.
use vayu.Common.{
  ℕ, ◌≡◌, refl, Bool, true, false, not, ◌&&◌, ◌||◌, List, arith, inl, inr, Bool-cases, Option-cases,
  leb, ◌==◌, get_elem?,
}
use vayu.Xfer.{
  Session, Provider, OpenArgs, Core, max_sessions, active, done_linger, is_free, is_linger,
  is_pending, mode_file, dir_upload, dir_download, find_provider, flag_done, flag_abort, flag_nak,
}
use vayu.Xfer.Comm.{blocks, capability, stash, open_with, open_slot, on_open, ack_slot}

-- Two sessions move files in opposite directions.
abbrev pub clash : Session → Session → Bool
clash o s =
    not (is_free o.state || is_linger o.state)
    && (not (is_free s.state || is_linger s.state)
        && (o.mode == mode_file && (s.mode == mode_file && not (o.dir == s.dir))))

clash_comm : (o s : Session) → clash o s ≡ false → clash s o ≡ false
clash_comm o s h = ground arith

module _ {W : Type 0} (ps : List (Provider W)) where
  -- A request that is not blocked.
  stash_fits :
      (a : OpenArgs) (i : ℕ) (o s : Session)
      → (a.mode == mode_file) && blocks a o ≡ false
      → clash o (stash ps a i s) ≡ false
  stash_fits a i o s h = ground arith

  open_with_fits :
      (a : OpenArgs) (o s : Session)
      → (a.mode == mode_file) && blocks a o ≡ false
      → clash o s ≡ false
      → clash o (open_with ps a s).0 ≡ false
  unfolding open_with
  open_with_fits a o s h c = elim (Option-cases (find_provider ps a.service_id 0)) [
    | inl e ↦ simp (open_with, e) c
    | inr (i, e) ↦ elim (Option-cases (get_elem? ps i)) [
      | inl g ↦ simp (open_with, e, g) c
      | inr (p, g) ↦ elim (Option-cases (capability ps p a)) [
        | inl k ↦ simp (open_with, e, g, k) (stash_fits a i o s h)
        | inr (r, k) ↦ simp (open_with, e, g, k) c
      ]
    ]
  ]

  open_slot_fits :
      (a : OpenArgs) (o s : Session) → clash o s ≡ false → clash o (open_slot ps a o s).0 ≡ false
  unfolding open_slot
  open_slot_fits a o s c = elim (Bool-cases (not (is_free s.state))) [
    | inl f ↦ elim (Bool-cases ((s.open_req_seq == a.req_seq) && is_pending s.state)) [
      | inl q ↦ simp (open_slot, f, q) c
      | inr q ↦ simp (open_slot, f, q) c
    ]
    | inr f ↦ elim (Bool-cases ((a.mode == mode_file) && blocks a o)) [
      | inl b ↦ simp (open_slot, f, b) c
      | inr b ↦ simp (open_slot, f, b) (open_with_fits a o s b c)
    ]
  ]

  -- If no file upload is in progress beside a file download, none is after any open request: pending
  -- and active sessions count as in progress, lingering ones do not.
  on_open_keeps_one_way :
      (a : OpenArgs) (c : Core)
      → clash c.slot0 c.slot1 ≡ false
      → clash (on_open ps a c).0.slot0 (on_open ps a c).0.slot1 ≡ false
  unfolding on_open
  on_open_keeps_one_way a c h = elim (Bool-cases (not c.ready || leb max_sessions a.session)) [
    | inl g ↦ simp (on_open, g) h
    | inr g ↦ elim (Bool-cases (a.session == 0)) [
      | inl z ↦
          simp (on_open, g, z)
            (clash_comm c.slot1 (open_slot ps a c.slot1 c.slot0).0
              (open_slot_fits a c.slot1 c.slot0 (clash_comm c.slot0 c.slot1 h)))
      | inr z ↦ simp (on_open, g, z) (open_slot_fits a c.slot0 c.slot1 h)
    ]
  ]

  -- A NAK without DONE or ABORT that reaches a lingering file download beside an active file upload
  -- leaves both active.
  late_nak_breaks_one_way :
      (next_offset flags : ℕ) (o s : Session) (w : W)
      → o.state ≡ active
      → o.mode ≡ mode_file
      → o.dir ≡ dir_upload
      → s.state ≡ done_linger
      → s.mode ≡ mode_file
      → s.dir ≡ dir_download
      → flag_nak flags ≡ true
      → flag_done flags ≡ false
      → flag_abort flags ≡ false
      → (clash o s ≡ false) × (clash o (ack_slot ps next_offset flags s w).0 ≡ true)
  unfolding ack_slot
  late_nak_breaks_one_way next_offset flags o s w h₁ h₂ h₃ h₄ h₅ h₆ n d a =
      (simp (h₁, h₄) refl, simp (ack_slot, h₆, h₄, d, a, n, h₁, h₂, h₃, h₅) refl)
