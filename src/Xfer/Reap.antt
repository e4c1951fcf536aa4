-- ===== src/Xfer/Reap.antt =====
-- Timeouts of firmware/src/comm/xfer/navlink_xfer.c: the tick on an upload whose peer is silent, and on
-- a session that lingers.
use vayu.Common.{ℕ, ◌<◌, ◌≤◌, ◌≡◌, ◌↔◌, refl, ◌∙◌, true, false, List, arith, sub32}
use mathlib.Core.Path.{subst}
use vayu.Xfer.{Session, Provider, Tx, active, done_linger, is_free, dir_upload}
use vayu.Xfer.Tick.{
  tick_slot, tick_active, tick_linger, tick_upload, progress_ack, info_retry, idle_reap, serve,
}

module _ {W : Type 0} (ps : List (Provider W)) (tx : Tx W) where
  abbrev after : ℕ × ℕ × Session × W → Session
  after r = r.2

  progress_ack_same :
      (now : ℕ) (s : Session) (w : W)
      → ((progress_ack ps tx now s w).0.state ≡ s.state)
        × ((progress_ack ps tx now s w).0.last_rx_ms ≡ s.last_rx_ms)
        × ((progress_ack ps tx now s w).0.info_acked ≡ s.info_acked)
  unfolding progress_ack
  progress_ack_same now s w = ground arith

  info_retry_same :
      (now : ℕ) (s : Session) (w : W)
      → ((info_retry ps tx now s w).0.state ≡ s.state)
        × ((info_retry ps tx now s w).0.last_rx_ms ≡ s.last_rx_ms)
  unfolding info_retry
  info_retry_same now s w = ground arith

  -- The silent-upload tick, step by step.
  silent_tick :
      (now overflow last budget : ℕ) (s : Session) (w : W)
      → s.state ≡ active
      → s.dir ≡ dir_upload
      → s.close_pending ≡ false
      → s.rx_activity ≡ false
      → s.upload_eof ≡ false
      → after (tick_slot ps tx now overflow last budget s w) ≡ (
          let (t, w₁) = progress_ack ps tx now s w in
          let (u, w₂) = info_retry ps tx now t w₁ in (idle_reap ps tx now u w₂).0)
  unfolding tick_slot tick_active serve tick_upload
  silent_tick now overflow last budget s w a d c r e =
      simp (tick_slot, tick_active, serve, tick_upload, c, a, d, r, e) refl

  -- The tick on an upload with a chunk since the last one, step by step.
  heard_tick :
      (now overflow last budget : ℕ) (s : Session) (w : W)
      → s.state ≡ active
      → s.dir ≡ dir_upload
      → s.close_pending ≡ false
      → s.rx_activity ≡ true
      → s.upload_eof ≡ false
      → after (tick_slot ps tx now overflow last budget s w) ≡ (
          let (t, w₁) =
            progress_ack ps tx now (record s { last_rx_ms = now; rx_activity = false }) w in
          let (u, w₂) = info_retry ps tx now t w₁ in (idle_reap ps tx now u w₂).0)
  unfolding tick_slot tick_active serve tick_upload
  heard_tick now overflow last budget s w a d c r e =
      simp (tick_slot, tick_active, serve, tick_upload, c, a, d, r, e) refl

  idle_reap_keeps :
      (now : ℕ) (s : Session) (w : W)
      → s.state ≡ active
      → s.last_rx_ms ≡ now
      → now < 4294967296
      → is_free (idle_reap ps tx now s w).0.state ≡ false
  unfolding idle_reap
  idle_reap_keeps now s w a l h = ground arith

  idle_reap_frees :
      (now : ℕ) (s : Session) (w : W)
      → s.state ≡ active
      → (is_free (idle_reap ps tx now s w).0.state ≡ true) ↔ (5000 ≤ sub32 now s.last_rx_ms)
  unfolding idle_reap
  idle_reap_frees now s w a = ground arith

  -- A tick on an active upload that no close request, no end of file and no chunk since the last tick
  -- touches frees the slot exactly when the peer was last heard 5000 ms ago or more.
  pub silent_upload_reaped :
      (now overflow last budget : ℕ) (s : Session) (w : W)
      → s.state ≡ active
      → s.dir ≡ dir_upload
      → s.close_pending ≡ false
      → s.rx_activity ≡ false
      → s.upload_eof ≡ false
      → (is_free (tick_slot ps tx now overflow last budget s w).2.state ≡ true)
        ↔ (5000 ≤ sub32 now s.last_rx_ms)
  silent_upload_reaped now overflow last budget s w a d c r e =
      let p = progress_ack ps tx now s w in
      let q = info_retry ps tx now p.0 p.1 in
      let P = progress_ack_same now s w in
      let Q = info_retry_same now p.0 p.1 in
      rw (silent_tick now overflow last budget s w a d c r e) (
        subst (λ x. (is_free (idle_reap ps tx now q.0 q.1).0.state ≡ true) ↔ (5000 ≤ sub32 now x))
          (Q.1 ∙ P.1) (idle_reap_frees now q.0 q.1 (Q.0 ∙ P.0 ∙ a)))

  -- A chunk or ack since the last tick keeps an active upload, whose end is not marked and which no
  -- close request touches, for another tick.
  pub heard_upload_kept :
      (now overflow last budget : ℕ) (s : Session) (w : W)
      → s.state ≡ active
      → s.dir ≡ dir_upload
      → s.close_pending ≡ false
      → s.rx_activity ≡ true
      → s.upload_eof ≡ false
      → now < 4294967296
      → is_free (tick_slot ps tx now overflow last budget s w).2.state ≡ false
  heard_upload_kept now overflow last budget s w a d c r e h =
      let s' = record s { last_rx_ms = now; rx_activity = false } in
      let p = progress_ack ps tx now s' w in
      let q = info_retry ps tx now p.0 p.1 in
      let P = progress_ack_same now s' w in
      let Q = info_retry_same now p.0 p.1 in
      rw (heard_tick now overflow last budget s w a d c r e)
        (idle_reap_keeps now q.0 q.1 (Q.0 ∙ P.0 ∙ a) (Q.1 ∙ P.1) h)

  linger_tick :
      (now overflow last budget : ℕ) (s : Session) (w : W)
      → s.state ≡ done_linger
      → s.close_pending ≡ false
      → after (tick_slot ps tx now overflow last budget s w) ≡ (tick_linger ps tx now s w).0
  unfolding tick_slot
  linger_tick now overflow last budget s w l c = simp (tick_slot, c, l) refl

  tick_linger_frees :
      (now : ℕ) (s : Session) (w : W)
      → s.state ≡ done_linger
      → now < 4294967296
      → (is_free (tick_linger ps tx now s w).0.state ≡ true)
        ↔ ((s.rx_activity ≡ false) × (1000 ≤ sub32 now s.last_emit_ms))
  unfolding tick_linger
  tick_linger_frees now s w l h = ground arith

  -- A lingering session is freed exactly when nothing has come or gone for 1000 ms, and a late ack
  -- restarts that time. No close request is pending.
  pub linger_reaped :
      (now overflow last budget : ℕ) (s : Session) (w : W)
      → s.state ≡ done_linger
      → s.close_pending ≡ false
      → now < 4294967296
      → (is_free (tick_slot ps tx now overflow last budget s w).2.state ≡ true)
        ↔ ((s.rx_activity ≡ false) × (1000 ≤ sub32 now s.last_emit_ms))
  linger_reaped now overflow last budget s w l c h =
      rw (linger_tick now overflow last budget s w l c) (tick_linger_frees now s w l h)
