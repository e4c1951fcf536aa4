-- ===== src/FsOwner/Drains.antt =====
-- The loop of fs_drain_writeats in firmware/src/storage/fs_owner.c ends.
use vayu.Common.{
  ℕ, zero, suc, ◌<◌, ◌≡◌, refl, ◌∙◌, Bool, true, none, some, arith, inl, inr, Option-cases,
  Bool-cases, ltb, u8, ◌+◌,
}
use vayu.FsOwner.{Vfs, Owner, WriteReq, process_writeat, write_failed, do_write_at, max_tries}
use vayu.FsOwner.Lanes.{Queues, drain_fresh}
use vayu.FsOwner.Pending.{IsQuiet, do_write_at-quiet}

-- `depth` is the number of requests in the write lane: only a pop takes one, and a retry, which goes to
-- the other lane, adds none.
pub record IsDepth {W : Type 0} (fs : Vfs W) (q : Queues W) (depth : W → ℕ) : Type 0 where
  pub quiet : IsQuiet fs depth
  pub retried : (r : WriteReq) (w : W) → depth (fs.retry_push r w).1 ≡ depth w
  pub popped :
      (r : WriteReq) (w : W) → (q.write_pop w).0 ≡ some r → suc (depth (q.write_pop w).1) ≡ depth w
  pub empty : (w : W) → (q.write_pop w).0 ≡ none → (depth w ≡ 0) × (depth (q.write_pop w).1 ≡ 0)

module _ {W : Type 0} (fs : Vfs W) (q : Queues W) (depth : W → ℕ) (law : IsDepth fs q depth) where
  -- A request that is processed adds none to the write lane.
  process_writeat-quiet :
      (r : WriteReq) (o : Owner) (w : W) → depth (process_writeat fs r o w).1 ≡ depth w
  unfolding process_writeat write_failed
  process_writeat-quiet r o w =
      let e = do_write_at-quiet fs depth law.quiet r o w in
      elim (Bool-cases (do_write_at fs r o w).0) [
        | inl k ↦ simp (process_writeat, k) e
        | inr k ↦ elim (Bool-cases (ltb (u8 (r.tries + 1)) max_tries)) [
          | inr l ↦ simp (process_writeat, write_failed, k, l) e
          | inl l ↦
              let t = record r { tries = u8 (r.tries + 1) } in
              let v = (do_write_at fs r o w).2 in
              let g = law.retried t v ∙ e in
              elim (Bool-cases (fs.retry_push t v).0) [
                | inl p ↦ simp (process_writeat, write_failed, k, l, p) g
                | inr p ↦ simp (process_writeat, write_failed, k, l, p) g
              ]
        ]
      ]

  -- The loop that drains the write lane ends: with any fuel above the number of requests in the lane it
  -- leaves the lane empty, and any two such amounts of fuel give the same result.
  pub drain_ends :
      (k j : ℕ) (did : Bool) (o : Owner) (w : W)
      → depth w < k
      → depth w < j
      → (depth (drain_fresh fs q k did o w).2 ≡ 0)
        × (drain_fresh fs q k did o w ≡ drain_fresh fs q j did o w)
  unfolding drain_fresh
  drain_ends zero j did o w h g = absurd (ground arith)
  drain_ends (suc k) zero did o w h g = absurd (ground arith)
  drain_ends (suc k) (suc j) did o w h g = elim (Option-cases (q.write_pop w).0) [
    | inl e ↦ simp (drain_fresh, e) ((law.empty w e).1, refl)
    | inr (r, e) ↦
        let v = (q.write_pop w).1 in
        let d : depth (process_writeat fs r o v).1 < depth w =
          ground (arith, process_writeat-quiet r o v, law.popped r w e) in
        simp (drain_fresh, e)
          (drain_ends k j true _ _ (ground (arith, d, h)) (ground (arith, d, g)))
  ]
