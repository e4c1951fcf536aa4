-- ===== src/Providers/Done.antt =====
-- What the end of a file upload means: firmware/src/comm/xfer/providers/file_provider.c behind the tick of
-- firmware/src/comm/xfer/navlink_xfer.c.
use vayu.Common.{
  ℕ, ◌≡◌, refl, ap, ap₂, ◌∙◌, Bool, true, false, not, List, Option, none, some, ℤ, pos, negsuc,
  get_elem?, get_or, leb, sub32, if◌then◌else◌, ◌==◌, ◌<◌, Bool-cases, inl, inr, arith,
}
use vayu.FsOwner.{Vfs, Owner}
use vayu.FsOwner.Lanes.{Queues}
use vayu.FsOwner.Sync.{Gate, writeat_pending, writeat_failed}
use vayu.FsOwner.Pending.{IsCounted}
use vayu.Xfer.{Session, Provider, Tx, provider_of, done_linger, res_accepted, res_failed}
use vayu.Xfer.Tick.{tick_upload, progress_ack, finish_upload, refresh, flush_of}
use vayu.Providers.{Disk, Media, file_provider, file_flush}

-- The session with what came in since the last tick noted.
abbrev pub noted : ℕ → Session → Session
noted now s = if s.rx_activity then record s { last_rx_ms = now; rx_activity = false } else s

module _ {W : Type 0} (tx : Tx (Disk W)) where
  -- An end: the session lingers, and the peer is told DONE (1) with the result and the cursor.
  abbrev pub told_done : ℕ → ℕ → Session → Disk W → Session × Disk W
  told_done now result t d =
      (record t { state = done_linger; last_emit_ms = now }, tx.ack t 1 result t.cursor d)

  -- No end: the idle timeout starts again, and each 200 ms the peer is told the cursor, without DONE.
  abbrev pub goes_on : ℕ → Session → Disk W → Session × Disk W
  goes_on now t d =
      let u = record t { last_rx_ms = now } in
      if leb 200 (sub32 now t.last_emit_ms)
      then (record u { last_emit_ms = now }, tx.ack u 0 0 t.cursor d)
      else (u, d)

module _ {W : Type 0} (fs : Vfs W) (q : Queues W) (g : Gate W) (media : Media W)
    (ready task_mode : Bool) (ps : List (Provider (Disk W))) (tx : Tx (Disk W))
    (lane : ℕ → W → ℕ) where
  refresh_kept :
      (now : ℕ) (s : Session)
      → ((refresh ps tx now s).provider ≡ s.provider)
        × ((refresh ps tx now s).session ≡ s.session)
        × ((refresh ps tx now s).upload_eof ≡ s.upload_eof)
  refresh_kept now s = elim (Bool-cases s.rx_activity) [
    | inl h ↦ simp h (refl, refl, refl)
    | inr h ↦ simp h (refl, refl, refl)
  ]

  -- The count of a session below 3 is what waits in the lanes.
  pending_lane :
      (k : ℕ) (o : Owner) (w : W) → k < 3 → IsCounted lane 3 o w → writeat_pending k o ≡ lane k w
  unfolding writeat_pending
  pending_lane k o w h c = ground (arith, h, c.counts k h)

  -- What the flush of a file upload says.
  answer : Session → Disk W → ℤ
  answer t d =
      if writeat_failed t.session d.owner
      then negsuc 0
      else if writeat_pending t.session d.owner == 0
      then pos 1
      else pos 0

  file_flush_lem :
      (t : Session) (d : Disk W) → file_flush fs q g media ready task_mode t d ≡ (answer t d, d)
  unfolding file_flush answer
  file_flush_lem t d = elim (Bool-cases (writeat_failed t.session d.owner)) [
    | inl h ↦ simp (file_flush, answer, h) refl
    | inr h ↦ simp (file_flush, answer, h) refl
  ]

  flush_of_file :
      (t : Session) (d : Disk W)
      → provider_of ps t ≡ some (file_provider fs q g media ready task_mode)
      → flush_of ps tx t d ≡ (answer t d, d)
  flush_of_file t d p =
      ap
        (λ o. elim o as (λ _. ℤ × Disk W) [
          | none ↦ (pos 1, d)
          | some v ↦ elim v.flush as (λ _. ℤ × Disk W) [ none ↦ (pos 1, d) | some f ↦ f t d ]
        ])
        p
      ∙ file_flush_lem t d

  -- What a tick makes of the answer of the flush.
  pub ended : ℕ → Session → ℤ → Disk W → Session × Disk W
  ended now t n d = elim n as (λ _. Session × Disk W) [
    | negsuc _ ↦ finish_upload ps tx now res_failed t d
    | pos k ↦
        if k == 0
        then progress_ack ps tx now (record t { last_rx_ms = now }) d
        else finish_upload ps tx now res_accepted t d
  ]

  -- A tick of an upload that has its last byte, by the answer of the flush.
  eof_tick :
      (now : ℕ) (s : Session) (d : Disk W)
      → (refresh ps tx now s).upload_eof ≡ true
      → provider_of ps (refresh ps tx now s) ≡ some (file_provider fs q g media ready task_mode)
      → tick_upload ps tx now s d
        ≡ ended now (refresh ps tx now s) (answer (refresh ps tx now s) d) d
  unfolding tick_upload ended
  eof_tick now s d e p =
      let t = refresh ps tx now s in
      ap₂
        (λ b r. if not b then progress_ack ps tx now t d else elim r.0 as (λ _. Session × Disk W) [
          | negsuc _ ↦ finish_upload ps tx now res_failed t r.1
          | pos k ↦
              if k == 0
              then progress_ack ps tx now (record t { last_rx_ms = now }) r.1
              else finish_upload ps tx now res_accepted t r.1
        ])
        e (flush_of_file t d p)

  served_still :
      (now : ℕ) (s : Session)
      → provider_of ps s ≡ some (file_provider fs q g media ready task_mode)
      → provider_of ps (refresh ps tx now s) ≡ some (file_provider fs q g media ready task_mode)
  served_still now s p =
      ap
        (λ o. elim o as (λ _. Option (Provider (Disk W))) [ none ↦ none | some i ↦ get_elem? ps i ])
        (refresh_kept now s).0
      ∙ p

  -- The answer by what waits in the lanes.
  answer_lem :
      (s t : Session) (d : Disk W)
      → t.session ≡ s.session
      → s.session < 3
      → IsCounted lane 3 d.owner d.world
      → answer t d ≡ (
          if writeat_failed s.session d.owner
          then negsuc 0
          else if lane s.session d.world == 0
          then pos 1
          else pos 0)
  unfolding answer
  answer_lem s t d e h c =
      ap
        (λ k.
          if writeat_failed k d.owner
          then negsuc 0
          else if writeat_pending k d.owner == 0
          then pos 1
          else pos 0)
        e
      ∙ ap
          (λ n.
            if writeat_failed s.session d.owner then negsuc 0 else if n == 0 then pos 1 else pos 0)
          (pending_lane s.session d.owner d.world h c)

  -- A file upload that has its last byte, whose session's pending count is right: if a write of the
  -- session has failed for good, a tick makes it linger and tells the peer DONE with FAILED (4);
  -- otherwise, while a request of the session waits in the lanes, it goes on with its idle timeout
  -- started again and an ack without DONE each 200 ms; and when none does, it lingers and the peer is
  -- told DONE with ACCEPTED (0).
  pub done_means_written :
      (now : ℕ) (s : Session) (d : Disk W)
      → provider_of ps s ≡ some (file_provider fs q g media ready task_mode)
      → s.upload_eof ≡ true
      → s.session < 3
      → IsCounted lane 3 d.owner d.world
      → tick_upload ps tx now s d ≡ (
          if not (get_or d.owner.failed s.session 0 == 0)
          then told_done tx now 4 (noted now s) d
          else if lane s.session d.world == 0
          then told_done tx now 0 (noted now s) d
          else goes_on tx now (noted now s) d)
  unfolding ended writeat_failed progress_ack
  done_means_written now s d p e h c =
      let t = refresh ps tx now s in
      let k = refresh_kept now s in
      let a = answer_lem s t d k.1 h c in
      let f : writeat_failed s.session d.owner ≡ not (get_or d.owner.failed s.session 0 == 0) =
        ground (arith, h) in
      eof_tick now s d (k.2 ∙ e) (served_still now s p)
      ∙ ap (λ n. ended now t n d) a
      ∙ ap
          (λ b.
            ended now t
              (if b then negsuc 0 else if lane s.session d.world == 0 then pos 1 else pos 0) d)
          f
      ∙ elim (Bool-cases (not (get_or d.owner.failed s.session 0 == 0))) [
        | inl f ↦ simp (ended, f) refl
        | inr f ↦ elim (Bool-cases (lane s.session d.world == 0)) [
          | inl z ↦ simp (ended, f, z) refl
          | inr z ↦ simp (ended, progress_ack, f, z) refl
        ]
      ]
