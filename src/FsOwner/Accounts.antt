-- ===== src/FsOwner/Accounts.antt =====
-- The per-session bookkeeping of positioned writes in firmware/src/storage/fs_owner.c.
use vayu.Common.{
  ◌+◌, ◌-◌, ◌<◌, ◌≡◌, refl, true, false, length, get_or, get_or-set_self, arith, u8, u32, ltb,
}
use vayu.FsOwner.{
  Vfs, Owner, WriteReq, do_write_at, write_failed, process_writeat, sess_of, max_tries,
}

module _ {W : Type 0} (fs : Vfs W) where
  given_up :
      (req : WriteReq) (o : Owner) (w : W)
      → ltb (u8 (req.tries + 1)) max_tries ≡ false
      → req.session < 3
      → length o.pending ≡ 3
      → length o.failed ≡ 3
      → (get_or (write_failed fs req o w).0.failed req.session 0 ≡ 1)
        × (get_or (write_failed fs req o w).0.pending req.session 0
            ≡ get_or o.pending req.session 0 - 1)
  unfolding write_failed
  given_up req o w t h p q =
      let s : sess_of fs req ≡ req.session = ground arith in
      simp (write_failed, t, s)
        (
          get_or-set_self o.failed req.session 1 0 (omega (arith, h, q)),
          get_or-set_self o.pending req.session (get_or o.pending req.session 0 - 1) 0
              (omega (arith, h, p)),
        )

  -- A write that lands is counted: its bytes are added to what its session has committed, it stops
  -- counting as pending, and no session is flagged.
  pub good_write_counts :
      (req : WriteReq) (o : Owner) (w : W)
      → (do_write_at fs req o w).0 ≡ true
      → req.session < 3
      → length (do_write_at fs req o w).1.pending ≡ 3
      → length (do_write_at fs req o w).1.committed ≡ 3
      → (get_or (process_writeat fs req o w).0.committed req.session 0
          ≡ u32 (get_or (do_write_at fs req o w).1.committed req.session 0 + length req.payload))
        × (get_or (process_writeat fs req o w).0.pending req.session 0
            ≡ get_or (do_write_at fs req o w).1.pending req.session 0 - 1)
        × ((process_writeat fs req o w).0.failed ≡ (do_write_at fs req o w).1.failed)
  unfolding process_writeat
  good_write_counts req o w d h p q =
      let s : sess_of fs req ≡ req.session = ground arith in
      simp (process_writeat, d, s)
        (
          get_or-set_self _ req.session _ 0 (omega (arith, h, q)),
          get_or-set_self _ req.session _ 0 (omega (arith, h, p)),
          refl,
        )

  -- No write of a session is lost in silence: one that fails on its last try, the sixteenth, flags the
  -- session as failed, and stops counting as pending.
  last_try_flags :
      (req : WriteReq) (o : Owner) (w : W)
      → (do_write_at fs req o w).0 ≡ false
      → req.tries ≡ 15
      → req.session < 3
      → length (do_write_at fs req o w).1.pending ≡ 3
      → length (do_write_at fs req o w).1.failed ≡ 3
      → (get_or (process_writeat fs req o w).0.failed req.session 0 ≡ 1)
        × (get_or (process_writeat fs req o w).0.pending req.session 0
            ≡ get_or (do_write_at fs req o w).1.pending req.session 0 - 1)
  unfolding process_writeat
  last_try_flags req o w d t h p q =
      let l : ltb (u8 (req.tries + 1)) max_tries ≡ false = ground arith in
      simp (process_writeat, d)
        (given_up req (do_write_at fs req o w).1 (do_write_at fs req o w).2 l h p q)
