-- ===== src/FsOwner/Sync.antt =====
-- How other tasks reach the file-system task in firmware/src/storage/fs_owner.c: the queue of requests,
-- the queue of results, and the token that lets one caller in. A wait that ends with its timeout gives
-- `none`.
use vayu.Common.{
  ℕ, Bool, true, false, Option, none, some, ℤ, negsuc, ◌≡◌, refl, ◌∙◌, if◌then◌else◌, get_or, ltb,
  ◌==◌, not,
}
use vayu.FsOwner.{Vfs, Owner, wa_sessions}
use vayu.FsOwner.Lanes.{Queues, SyncReq, exec_sync}

-- The calls of the kernel's queues in `fs_sync_call`.
pub record Gate (W : Type 0) : Type 0 where
  pub lock_pop : W → Bool × W
  pub lock_push : W → W
  pub request_push : SyncReq → W → Bool × W
  pub result_pop : W → Option ℤ × W

-- `int rc = -1;` and the assignment to it.
abbrev rc_of : Option ℤ → ℤ
rc_of none = negsuc 0
rc_of (some n) = n

module _ {W : Type 0} (g : Gate W) where
  -- The push of the request and the wait for its result.
  unfoldable pub ask : SyncReq → W → Option ℤ × W
  ask req w = let (ok, w₁) = g.request_push req w in if ok then g.result_pop w₁ else (none, w₁)

  -- `fs_sync_call`.
  unfoldable pub sync_call : SyncReq → W → ℤ × W
  sync_call req w =
      let (got, w₁) = g.lock_pop w in
      let (n, w₂) = ask req w₁ in if got then (rc_of n, g.lock_push w₂) else (negsuc 0, w₁)

  -- The choice at the end of `fs_owner_truncate`, `fs_owner_unlink` and the calls after them.
  unfoldable pub route : Vfs W → Queues W → Bool → SyncReq → Owner → W → ℤ × Owner × W
  route fs q task_mode req o w =
      if task_mode then (let (n, w₁) = sync_call req w in (n, o, w₁)) else exec_sync fs q req o w

-- `fs_owner_writeat_pending`, `fs_owner_writeat_committed` and `fs_owner_writeat_failed`.
unfoldable pub writeat_pending : ℕ → Owner → ℕ
writeat_pending k o = if ltb k wa_sessions then get_or o.pending k 0 else 0

unfoldable pub writeat_committed : ℕ → Owner → ℕ
writeat_committed k o = if ltb k wa_sessions then get_or o.committed k 0 else 0

unfoldable pub writeat_failed : ℕ → Owner → Bool
writeat_failed k o = if ltb k wa_sessions then not (get_or o.failed k 0 == 0) else false

-- `waiting` is the result in the result queue, which holds one: what the queues promise of it.
pub record IsGate {W : Type 0} (g : Gate W) (q : Queues W) (waiting : W → Option ℤ) : Type 0 where
  pub locks : (w : W) → waiting (g.lock_pop w).1 ≡ waiting w
  pub unlocks : (w : W) → waiting (g.lock_push w) ≡ waiting w
  pub requests : (r : SyncReq) (w : W) → waiting (g.request_push r w).1 ≡ waiting w
  pub answers : (n : ℤ) (w : W) → waiting w ≡ none → waiting (q.result_push n w) ≡ some n
  pub oldest : (n : ℤ) (w : W) → waiting w ≡ some n → (g.result_pop w).0 ≡ some n
  pub timed_out : (w : W) → (g.result_pop w).0 ≡ none → waiting (g.result_pop w).1 ≡ none

module _ {W : Type 0} (g : Gate W) (q : Queues W) (waiting : W → Option ℤ)
    (law : IsGate g q waiting) where
  -- A result that waits is what the next call gets.
  stale_lem :
      (r : SyncReq) (n : ℤ) (w : W)
      → waiting w ≡ some n
      → (g.lock_pop w).0 ≡ true
      → (g.request_push r (g.lock_pop w).1).0 ≡ true
      → (sync_call g r w).0 ≡ n
  unfolding sync_call ask
  stale_lem r n w h l p =
      let v = (g.request_push r (g.lock_pop w).1).1 in
      let e : (g.result_pop v).0 ≡ some n = law.oldest n v (law.requests r _ ∙ law.locks w ∙ h) in
      simp (sync_call, ask, l, p, e) refl

  timeout_lem :
      (r : SyncReq) (w : W)
      → (g.lock_pop w).0 ≡ true
      → (g.request_push r (g.lock_pop w).1).0 ≡ true
      → (g.result_pop (g.request_push r (g.lock_pop w).1).1).0 ≡ none
      → ((sync_call g r w).0 ≡ negsuc 0) × (waiting (sync_call g r w).1 ≡ none)
  unfolding sync_call ask
  timeout_lem r w l p t = simp (sync_call, ask, l, p, t) (refl, law.unlocks _ ∙ law.timed_out _ t)

  -- A call that gives up leaves its request behind, and the next call gets its answer: if a call for `r₁`
  -- took the token and queued its request but no result came in time, it returns -1, and when the
  -- file-system task then answers `r₁` with `n`, the next call that gets in, for any request `r₂`,
  -- returns `n`.
  pub late_answer_misleads :
      (r₁ r₂ : SyncReq) (n : ℤ) (w : W)
      → (g.lock_pop w).0 ≡ true
      → (g.request_push r₁ (g.lock_pop w).1).0 ≡ true
      → (g.result_pop (g.request_push r₁ (g.lock_pop w).1).1).0 ≡ none
      → (g.lock_pop (q.result_push n (sync_call g r₁ w).1)).0 ≡ true
      → (g.request_push r₂ (g.lock_pop (q.result_push n (sync_call g r₁ w).1)).1).0 ≡ true
      → ((sync_call g r₁ w).0 ≡ negsuc 0)
        × ((sync_call g r₂ (q.result_push n (sync_call g r₁ w).1)).0 ≡ n)
  late_answer_misleads r₁ r₂ n w l p t l₂ p₂ =
      let a = timeout_lem r₁ w l p t in (a.0, stale_lem r₂ n _ (law.answers n _ a.1) l₂ p₂)
