-- ===== src/FsOwner/Lanes.antt =====
-- The lanes of firmware/src/storage/fs_owner.c and the task that drains them. The kernel's queues are a
-- record of operations; a `while (mpmc_try_pop(...))` loop recurses on fuel, of which any amount above
-- the number of queued requests is enough.
use vayu.Common.{
  ℕ, zero, suc, ◌+◌, Bool, true, false, not, ◌||◌, List, [], ◌∷◌, length, Option, none, some, ℤ,
  pos, negsuc, u32, u8, ltb, ◌==◌, if◌then◌else◌,
}
use vayu.FsOwner.{
  Vfs, Owner, WriteReq, landed, wronly_creat_trunc, process_writeat, idle_write, idle_read,
  exec_read, exec_unlink, exec_truncate,
}

abbrev pub save_payload_max : ℕ
save_payload_max = 216

abbrev pub save_max_tries : ℕ
save_max_tries = 8

-- `fs_save_type_t`.
pub data SaveType : Type 0 where
  pid calib : SaveType

-- `fs_save_req_t`.
pub record SaveReq : Type 0 where
  pub kind : SaveType
  pub tries : ℕ
  pub payload : List ℕ

-- "0:pid.bin" and "0:cal.bin".
abbrev pub path_of : SaveType → List ℕ
path_of pid = 48 ∷ 58 ∷ 112 ∷ 105 ∷ 100 ∷ 46 ∷ 98 ∷ 105 ∷ 110 ∷ []
path_of calib = 48 ∷ 58 ∷ 99 ∷ 97 ∷ 108 ∷ 46 ∷ 98 ∷ 105 ∷ 110 ∷ []

-- `fs_sync_req_t`, by its operation.
pub data SyncReq : Type 0 where
  read_at : List ℕ → ℕ → ℕ → SyncReq
  truncate unlink stat opendir : List ℕ → SyncReq
  readdir closedir : ℕ → SyncReq

-- `mpmc_try_pop` and `mpmc_try_push` on the other queues, the directory calls of the virtual file
-- system, and the recorder's drain.
pub record Queues (W : Type 0) : Type 0 where
  pub save_pop : W → Option SaveReq × W
  pub save_push : SaveReq → W → Bool × W
  pub write_pop : W → Option WriteReq × W
  pub retry_pop : W → Option WriteReq × W
  pub sync_pop : W → Option SyncReq × W
  pub result_push : ℤ → W → W
  pub browse : SyncReq → W → ℤ × W
  pub hsl_drain : W → W

module _ {W : Type 0} (fs : Vfs W) (q : Queues W) where
  -- `fs_do_save`.
  unfoldable pub do_save : SaveReq → W → Bool × W
  do_save req w = elim (fs.open_at (path_of req.kind) wronly_creat_trunc w).0 [
    | negsuc _ ↦ (false, (fs.open_at (path_of req.kind) wronly_creat_trunc w).1)
    | pos fd ↦
        let w₁ = (fs.open_at (path_of req.kind) wronly_creat_trunc w).1 in
        let (n, w₂) = fs.write fd req.payload w₁ in
        let (r, w₃) = fs.sync fd w₂ in (landed fs n r (length req.payload), fs.close fd w₃)
  ]

  -- The body of the loop of `fs_drain_saves`: whether the loop goes on, `s_dropped_saves`, the world.
  unfoldable pub save_one : SaveReq → ℕ → W → Bool × ℕ × W
  unfolding do_save
  save_one req dropped w =
      let (ok, w₁) = do_save req w in
      let r = record req { tries = u8 (req.tries + 1) } in
      if ok
      then (true, dropped, w₁)
      else if ltb r.tries save_max_tries
      then (let (pushed, w₂) = q.save_push r w₁ in
          (if pushed then (false, dropped, w₂) else (true, u32 (dropped + 1), w₂)))
      else (true, u32 (dropped + 1), w₁)

  -- `fs_drain_saves`.
  unfoldable pub drain_saves : ℕ → ℕ → W → ℕ × W
  unfolding save_one
  drain_saves zero dropped w = (dropped, w)
  drain_saves (suc k) dropped w = elim (q.save_pop w).0 [
    | none ↦ (dropped, (q.save_pop w).1)
    | some req ↦
        let (again, d, w₁) = save_one req dropped (q.save_pop w).1 in
        elim again [ true ↦ drain_saves k d w₁ | false ↦ (d, w₁) ]
  ]

  -- The loop of `fs_drain_writeats` over the fresh requests: `did`, the statics, the world.
  unfoldable pub drain_fresh : ℕ → Bool → Owner → W → Bool × Owner × W
  drain_fresh zero did o w = (did, o, w)
  drain_fresh (suc k) did o w = elim (q.write_pop w).0 [
    | none ↦ (did, o, (q.write_pop w).1)
    | some req ↦
        drain_fresh k true (process_writeat fs req o (q.write_pop w).1).0
          (process_writeat fs req o (q.write_pop w).1).1
  ]

  -- The one retry.
  unfoldable pub retry_one : Bool → Owner → W → Bool × Owner × W
  retry_one did o w = elim (q.retry_pop w).0 [
    | none ↦ (did, o, (q.retry_pop w).1)
    | some req ↦ (
      true,
      (process_writeat fs req o (q.retry_pop w).1).0,
      (process_writeat fs req o (q.retry_pop w).1).1,
    )
  ]

  -- `fs_drain_writeats`, with both lanes allocated.
  unfoldable pub drain_writeats : ℕ → Owner → W → Owner × W
  unfolding drain_fresh retry_one
  drain_writeats k o w =
      let (did, o₁, w₁) = drain_fresh k false o w in
      let (did', o₂, w₂) = retry_one did o₁ w₁ in idle_write fs did' o₂ w₂

  -- `fs_exec_sync`.
  unfoldable pub exec_sync : SyncReq → Owner → W → ℤ × Owner × W
  exec_sync (read_at path offset len) o w = exec_read fs path offset len o w
  exec_sync (truncate path) o w = exec_truncate fs path o w
  exec_sync (unlink path) o w = exec_unlink fs path o w
  exec_sync r o w = ((q.browse r w).0, o, (q.browse r w).1)

  -- The request that the task serves, if one came, and the result that it passes back.
  unfoldable pub serve_sync : Option SyncReq → Owner → W → Owner × W
  unfolding exec_sync
  serve_sync none o w = (o, w)
  serve_sync (some req) o w = let (n, u, v) = exec_sync req o w in (u, q.result_push n v)

  -- One round of `fs_owner_task`.
  unfoldable pub task_round : ℕ → ℕ → Owner → W → ℕ × Owner × W
  unfolding drain_saves drain_writeats serve_sync
  task_round k dropped o w =
      let (d, w₁) = drain_saves k dropped w in
      let (o₁, w₂) = drain_writeats k o w₁ in
      let w₃ = q.hsl_drain w₂ in
      let (r, w₄) = q.sync_pop w₃ in
      let (o₂, w₅) = serve_sync r o₁ w₄ in let (o₃, w₆) = idle_read fs o₂ w₅ in (d, o₃, w₆)

  -- `fs_owner_enqueue_pid_save` and `fs_owner_enqueue_calib_save`, with pointers that are not null; for
  -- a calibration `payload` is the header and the payload.
  unfoldable pub enqueue_save : Bool → SaveType → List ℕ → ℕ → W → Bool × ℕ × W
  enqueue_save ready kind payload dropped w =
      if not ready || (length payload == 0 || ltb save_payload_max (length payload))
      then (false, u32 (dropped + 1), w)
      else let (pushed, w₁) =
          q.save_push (record { kind = kind; tries = 0; payload = payload }) w in
        if pushed then (true, dropped, w₁) else (false, u32 (dropped + 1), w₁)
