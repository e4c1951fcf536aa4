-- ===== src/FsOwner/Pending.antt =====
-- What the counts of firmware/src/storage/fs_owner.c mean: the number that a session has pending is the
-- number of its requests that wait in the lanes; and the drain of the fresh lane ends.
use vayu.Common.{
  ℕ, zero, suc, ◌+◌, ◌-◌, ◌<◌, ◌≤◌, ◌≡◌, refl, sym, ap, ◌∙◌, Bool, true, false, List, length,
  length-set, none, some, arith, inl, inr, Bool-cases, Option-cases, Int-cases, get_or, set,
  get_or-set_self, get_or-set_ne, ltb, leb, not, ◌||◌, u8, u32, ◌==◌, if◌then◌else◌,
}
use mathlib.Core.Path.{subst}
use vayu.FsOwner.{
  Vfs, Owner, WriteReq, rpath_is, wpath_is, writeat_fd_close, read_fd_close, open_write, writeat_fd,
  do_write_at, write_failed, process_writeat, sess_of, enqueue_write_at, max_tries, rdwr_creat,
  idle_write, is_open, idle_close_loops, path_max, wa_sessions,
}
use vayu.FsOwner.Lanes.{Queues, drain_fresh, retry_one, drain_writeats}

-- A measure of the world that the file system's calls leave alone.
pub record IsQuiet {W : Type 0} (fs : Vfs W) (m : W → ℕ) : Type 0 where
  pub opens : (p : List ℕ) (w : W) → m (fs.open_at p rdwr_creat w).1 ≡ m w
  pub closes : (fd : ℕ) (w : W) → m (fs.close fd w) ≡ m w
  pub syncs : (fd : ℕ) (w : W) → m (fs.sync fd w).1 ≡ m w
  pub seeks : (fd off : ℕ) (w : W) → m (fs.lseek fd off w).1 ≡ m w
  pub writes : (fd : ℕ) (b : List ℕ) (w : W) → m (fs.write fd b w).1 ≡ m w

module _ {W : Type 0} (fs : Vfs W) (m : W → ℕ) (quiet : IsQuiet fs m) where
  write_close-quiet : (o : Owner) (w : W) → m (writeat_fd_close fs o w).1 ≡ m w
  unfolding writeat_fd_close
  write_close-quiet o w = elim (Option-cases o.wfd) [
    | inl e ↦ simp (writeat_fd_close, e) refl
    | inr (k, e) ↦ simp (writeat_fd_close, e) (quiet.closes k (fs.sync k w).1 ∙ quiet.syncs k w)
  ]

  read_close-quiet : (o : Owner) (w : W) → m (read_fd_close fs o w).1 ≡ m w
  unfolding read_fd_close
  read_close-quiet o w = elim (Option-cases o.rfd) [
    | inl e ↦ simp (read_fd_close, e) refl
    | inr (k, e) ↦ simp (read_fd_close, e) (quiet.closes k w)
  ]

  open_write-quiet : (p : List ℕ) (o : Owner) (w : W) → m (open_write fs p o w).2 ≡ m w
  unfolding open_write
  open_write-quiet p o w = elim (Int-cases (fs.open_at p rdwr_creat w).0) [
    | inl (k, e) ↦ simp (open_write, e) (quiet.opens p w)
    | inr (k, e) ↦ simp (open_write, e) (quiet.opens p w)
  ]

  writeat_fd-quiet : (p : List ℕ) (o : Owner) (w : W) → m (writeat_fd fs p o w).2 ≡ m w
  unfolding writeat_fd
  writeat_fd-quiet p o w = elim (Bool-cases (wpath_is p o)) [
    | inl h ↦ simp (writeat_fd, h) refl
    | inr h ↦
        let c = writeat_fd_close fs o w in
        elim (Bool-cases (rpath_is p c.0)) [
          | inl g ↦
              simp (writeat_fd, h, g)
                (open_write-quiet p _ _ ∙ read_close-quiet c.0 c.1 ∙ write_close-quiet o w)
          | inr g ↦ simp (writeat_fd, h, g) (open_write-quiet p c.0 c.1 ∙ write_close-quiet o w)
        ]
  ]

  pub do_write_at-quiet : (req : WriteReq) (o : Owner) (w : W) → m (do_write_at fs req o w).2 ≡ m w
  unfolding do_write_at
  do_write_at-quiet req o w =
      let r = writeat_fd fs req.path o w in
      let e₀ = writeat_fd-quiet req.path o w in
      elim (Option-cases r.0) [
        | inl e ↦ simp (do_write_at, e) e₀
        | inr (h, e) ↦
            simp (do_write_at, e)
              (quiet.syncs h _ ∙ quiet.writes h req.payload _ ∙ quiet.seeks h req.offset r.2 ∙ e₀)
      ]

-- Opening and closing handles leaves the counts alone.
module _ {W : Type 0} (fs : Vfs W) where
  write_close_pending : (o : Owner) (w : W) → (writeat_fd_close fs o w).0.pending ≡ o.pending
  unfolding writeat_fd_close
  write_close_pending o w = elim (Option-cases o.wfd) [
    | inl e ↦ simp (writeat_fd_close, e) refl
    | inr (k, e) ↦ simp (writeat_fd_close, e) refl
  ]

  read_close_pending : (o : Owner) (w : W) → (read_fd_close fs o w).0.pending ≡ o.pending
  unfolding read_fd_close
  read_close_pending o w = elim (Option-cases o.rfd) [
    | inl e ↦ simp (read_fd_close, e) refl
    | inr (k, e) ↦ simp (read_fd_close, e) refl
  ]

  open_write_pending :
      (p : List ℕ) (o : Owner) (w : W) → (open_write fs p o w).1.pending ≡ o.pending
  unfolding open_write
  open_write_pending p o w = elim (Int-cases (fs.open_at p rdwr_creat w).0) [
    | inl (k, e) ↦ simp (open_write, e) refl
    | inr (k, e) ↦ simp (open_write, e) refl
  ]

  writeat_fd_pending :
      (p : List ℕ) (o : Owner) (w : W) → (writeat_fd fs p o w).1.pending ≡ o.pending
  unfolding writeat_fd
  writeat_fd_pending p o w = elim (Bool-cases (wpath_is p o)) [
    | inl h ↦ simp (writeat_fd, h) refl
    | inr h ↦
        let c = writeat_fd_close fs o w in
        elim (Bool-cases (rpath_is p c.0)) [
          | inl g ↦
              simp (writeat_fd, h, g)
                (open_write_pending p _ _ ∙ read_close_pending c.0 c.1 ∙ write_close_pending o w)
          | inr g ↦ simp (writeat_fd, h, g) (open_write_pending p c.0 c.1 ∙ write_close_pending o w)
        ]
  ]

  do_write_at_pending :
      (req : WriteReq) (o : Owner) (w : W) → (do_write_at fs req o w).1.pending ≡ o.pending
  unfolding do_write_at
  do_write_at_pending req o w =
      let e₀ = writeat_fd_pending req.path o w in
      elim (Option-cases (writeat_fd fs req.path o w).0) [
        | inl e ↦ simp (do_write_at, e) e₀
        | inr (h, e) ↦ simp (do_write_at, e) e₀
      ]

-- One request, if `s` is its session.
abbrev pub one : ℕ → ℕ → ℕ
one k s = if k == s then 1 else 0

-- `lane s` is the number of requests of session `s` in the write and retry lanes: what the queues
-- promise of it. The lanes hold two and four requests.
pub record IsLane {W : Type 0} (fs : Vfs W) (q : Queues W) (lane : ℕ → W → ℕ) : Type 0 where
  pub quiet : (s : ℕ) → IsQuiet fs (lane s)
  pub bounded : (s : ℕ) (w : W) → lane s w ≤ 6
  pub pushed :
      (r : WriteReq) (s : ℕ) (w : W)
      → (fs.write_push r w).0 ≡ true
      → lane s (fs.write_push r w).1 ≡ lane s w + one r.session s
  pub refused :
      (r : WriteReq) (s : ℕ) (w : W)
      → (fs.write_push r w).0 ≡ false
      → lane s (fs.write_push r w).1 ≡ lane s w
  pub retried :
      (r : WriteReq) (s : ℕ) (w : W)
      → (fs.retry_push r w).0 ≡ true
      → lane s (fs.retry_push r w).1 ≡ lane s w + one r.session s
  pub retry_refused :
      (r : WriteReq) (s : ℕ) (w : W)
      → (fs.retry_push r w).0 ≡ false
      → lane s (fs.retry_push r w).1 ≡ lane s w
  pub popped :
      (r : WriteReq) (s : ℕ) (w : W)
      → (q.write_pop w).0 ≡ some r
      → (r.session < 3) × (lane s w ≡ lane s (q.write_pop w).1 + one r.session s)
  pub retry_popped :
      (r : WriteReq) (s : ℕ) (w : W)
      → (q.retry_pop w).0 ≡ some r
      → (r.session < 3) × (lane s w ≡ lane s (q.retry_pop w).1 + one r.session s)
  pub retry_empty : (s : ℕ) (w : W) → (q.retry_pop w).0 ≡ none → lane s (q.retry_pop w).1 ≡ lane s w
  pub empty : (s : ℕ) (w : W) → (q.write_pop w).0 ≡ none → lane s (q.write_pop w).1 ≡ lane s w

-- The pending counts are right, but for one request of session `k` in hand (`k` of 3 means none).
pub record IsCounted {W : Type 0} (lane : ℕ → W → ℕ) (k : ℕ) (o : Owner) (w : W) : Type 0 where
  pub slots : length o.pending ≡ 3
  pub counts : (s : ℕ) → s < 3 → get_or o.pending s 0 ≡ lane s w + one k s

module _ {W : Type 0} (fs : Vfs W) (q : Queues W) (lane : ℕ → W → ℕ) (law : IsLane fs q lane) where
  -- The request in hand stops counting.
  settled :
      (k : ℕ) (o : Owner) (w : W)
      → k < 3
      → IsCounted lane k o w
      → (p : List ℕ) → p ≡ set o.pending k (get_or o.pending k 0 - 1)
      → IsCounted lane 3 (record o { pending = p }) w
  settled k o w h c p g = record {
    slots = ap length g ∙ length-set o.pending k (get_or o.pending k 0 - 1) ∙ c.slots;
    counts = λ s l. elim (Bool-cases (k == s)) [
      | inl z ↦
          let e : k ≡ s = ground arith in
          let n : get_or p k 0 ≡ get_or o.pending k 0 - 1 =
            ap (λ xs. get_or xs k 0) g
            ∙ get_or-set_self o.pending k (get_or o.pending k 0 - 1) 0
                (omega (arith, h, c.slots)) in
          subst (λ j. get_or p j 0 ≡ lane j w + one 3 j) e (ground (arith, n, c.counts k h))
      | inr z ↦
          let n : get_or p s 0 ≡ get_or o.pending s 0 =
            ap (λ xs. get_or xs s 0) g
            ∙ get_or-set_ne o.pending (get_or o.pending k 0 - 1) 0 (λ e. absurd (ground arith)) in
          ground (arith, n, c.counts s l)
    ];
  }

  -- A write that failed, of the request in hand.
  write_failed-IsCounted :
      (r : WriteReq) (o : Owner) (w : W)
      → r.session < 3
      → IsCounted lane r.session o w
      → IsCounted lane 3 (write_failed fs r o w).0 (write_failed fs r o w).1
  unfolding write_failed
  write_failed-IsCounted r o w h c =
      let s : sess_of fs r ≡ r.session = ground arith in
      let t = record r { tries = u8 (r.tries + 1) } in
      let v = settled r.session o w h c _ refl in
      elim (Bool-cases (ltb (u8 (r.tries + 1)) max_tries)) [
        | inl l ↦ elim (Bool-cases (fs.retry_push t w).0) [
          | inl p ↦
              simp (write_failed, l, p)
                (record {
                  slots = c.slots;
                  counts = λ j g. ground (arith, c.counts j g, law.retried t j w p);
                })
          | inr p ↦
              simp (write_failed, l, p, s)
                (record {
                  slots = v.slots;
                  counts =
                      λ j g. v.counts j g ∙ ap (λ n. n + one 3 j) (sym (law.retry_refused t j w p));
                })
        ]
        | inr l ↦ simp (write_failed, l, s) (record { slots = v.slots; counts = v.counts })
      ]

  -- A request taken from a lane and processed.
  process-IsCounted :
      (r : WriteReq) (o : Owner) (w : W)
      → r.session < 3
      → IsCounted lane r.session o w
      → IsCounted lane 3 (process_writeat fs r o w).0 (process_writeat fs r o w).1
  unfolding process_writeat
  process-IsCounted r o w h c =
      let s : sess_of fs r ≡ r.session = ground arith in
      let d = do_write_at fs r o w in
      let p = do_write_at_pending fs r o w in
      let c' : IsCounted lane r.session d.1 d.2 = record {
        slots = ap length p ∙ c.slots;
        counts = λ j g.
            ap (λ xs. get_or xs j 0) p
            ∙ c.counts j g
            ∙ ap (λ n. n + one r.session j)
                (sym (do_write_at-quiet fs (lane j) (law.quiet j) r o w));
      } in
      elim (Bool-cases d.0) [
        | inl k ↦
            let v = settled r.session d.1 d.2 h c' _ refl in
            simp (process_writeat, k, s) (record { slots = v.slots; counts = v.counts })
        | inr k ↦ simp (process_writeat, k) (write_failed-IsCounted r d.1 d.2 h c')
      ]

  -- The drain of the fresh lane keeps the counts right.
  drain_fresh-IsCounted :
      (k : ℕ) (did : Bool) (o : Owner) (w : W)
      → IsCounted lane 3 o w
      → IsCounted lane 3 (drain_fresh fs q k did o w).1 (drain_fresh fs q k did o w).2
  unfolding drain_fresh
  drain_fresh-IsCounted zero did o w c = c
  drain_fresh-IsCounted (suc k) did o w c = elim (Option-cases (q.write_pop w).0) [
    | inl e ↦
        simp (drain_fresh, e)
          (record {
            slots = c.slots;
            counts = λ s l. c.counts s l ∙ ap (λ n. n + one 3 s) (sym (law.empty s w e));
          })
    | inr (r, e) ↦
        let c' : IsCounted lane r.session o (q.write_pop w).1 = record {
          slots = c.slots;
          counts = λ s l. ground (arith, c.counts s l, (law.popped r s w e).1);
        } in
        simp (drain_fresh, e)
          (drain_fresh-IsCounted k true _ _ (process-IsCounted r o _ (law.popped r 0 w e).0 c'))
  ]

  -- The retry keeps the counts right.
  retry_one-IsCounted :
      (did : Bool) (o : Owner) (w : W)
      → IsCounted lane 3 o w
      → IsCounted lane 3 (retry_one fs q did o w).1 (retry_one fs q did o w).2
  unfolding retry_one
  retry_one-IsCounted did o w c = elim (Option-cases (q.retry_pop w).0) [
    | inl e ↦
        simp (retry_one, e)
          (record {
            slots = c.slots;
            counts = λ s l. c.counts s l ∙ ap (λ n. n + one 3 s) (sym (law.retry_empty s w e));
          })
    | inr (r, e) ↦
        let c' : IsCounted lane r.session o (q.retry_pop w).1 = record {
          slots = c.slots;
          counts = λ s l. ground (arith, c.counts s l, (law.retry_popped r s w e).1);
        } in
        simp (retry_one, e) (process-IsCounted r o _ (law.retry_popped r 0 w e).0 c')
  ]

  -- Closing the write handle keeps the counts right.
  write_close-IsCounted :
      (o : Owner) (w : W)
      → IsCounted lane 3 o w
      → IsCounted lane 3 (writeat_fd_close fs o w).0 (writeat_fd_close fs o w).1
  write_close-IsCounted o w c = record {
    slots = ap length (write_close_pending fs o w) ∙ c.slots;
    counts = λ s l.
        ap (λ xs. get_or xs s 0) (write_close_pending fs o w)
        ∙ c.counts s l
        ∙ ap (λ n. n + one 3 s) (sym (write_close-quiet fs (lane s) (law.quiet s) o w));
  }

  -- So does the close of an idle handle.
  idle_write-IsCounted :
      (did : Bool) (o : Owner) (w : W)
      → IsCounted lane 3 o w
      → IsCounted lane 3 (idle_write fs did o w).0 (idle_write fs did o w).1
  unfolding idle_write
  idle_write-IsCounted true o w c = record { slots = c.slots; counts = c.counts }
  idle_write-IsCounted false o w c = elim (Bool-cases (is_open o.wfd)) [
    | inr g ↦ simp (idle_write, g) c
    | inl g ↦
        let t = record o { wfd_idle_loops = u32 (o.wfd_idle_loops + 1) } in
        let d = write_close-IsCounted t w (record { slots = c.slots; counts = c.counts }) in
        elim (Bool-cases (leb idle_close_loops (u32 (o.wfd_idle_loops + 1)))) [
          | inl h ↦ simp (idle_write, g, h) (record { slots = d.slots; counts = d.counts })
          | inr h ↦ simp (idle_write, g, h) (record { slots = c.slots; counts = c.counts })
        ]
  ]

  -- One more request of session `k` in the lanes, and one more counted.
  accepted :
      (k : ℕ) (o : Owner) (w v : W)
      → k < 3
      → IsCounted lane 3 o w
      → ((s : ℕ) → lane s v ≡ lane s w + one k s)
      → IsCounted lane 3 (record o { pending = set o.pending k (u32 (get_or o.pending k 0 + 1)) }) v
  accepted k o w v h c g = record {
    slots = length-set o.pending k (u32 (get_or o.pending k 0 + 1)) ∙ c.slots;
    counts = λ s l. elim (Bool-cases (k == s)) [
      | inl z ↦
          let e : k ≡ s = ground arith in
          let x = u32 (get_or o.pending k 0 + 1) in
          let n : get_or (set o.pending k x) k 0 ≡ x =
            get_or-set_self o.pending k x 0 (omega (arith, h, c.slots)) in
          subst (λ j. get_or (set o.pending k x) j 0 ≡ lane j v + one 3 j) e
            (ground (arith, n, c.counts k h, g k, law.bounded k w))
      | inr z ↦
          let n =
            get_or-set_ne o.pending {i = k} {j = s} (u32 (get_or o.pending k 0 + 1)) 0
              (λ e. absurd (ground arith)) in
          ground (arith, n, c.counts s l, g s)
    ];
  }

  -- Accepting a request.
  enqueue-IsCounted :
      (ready : Bool) (session : ℕ) (path : List ℕ) (offset : ℕ) (bytes : List ℕ) (o : Owner) (w : W)
      → IsCounted lane 3 o w
      → IsCounted lane 3
          (enqueue_write_at fs ready session path offset bytes o w).1
          (enqueue_write_at fs ready session path offset bytes o w).2
  unfolding enqueue_write_at
  enqueue-IsCounted ready session path offset bytes o w c =
      let req : WriteReq = record {
        path = path;
        offset = offset;
        session = session;
        tries = 0;
        payload = bytes;
      } in
      elim (Bool-cases
        (not ready || length bytes == 0 || ltb 247 (length bytes) || leb wa_sessions session)) [
          | inl g ↦ simp (enqueue_write_at, g) (record { slots = c.slots; counts = c.counts })
          | inr g ↦ elim (Bool-cases (leb path_max (length path))) [
            | inl l ↦ simp (enqueue_write_at, g, l) (record { slots = c.slots; counts = c.counts })
            | inr l ↦ elim (Bool-cases (fs.write_push req w).0) [
              | inl p ↦
                  let a =
                    accepted session o w (fs.write_push req w).1 (ground arith) c
                      (λ s. law.pushed req s w p) in
                  simp (enqueue_write_at, g, l, p) (record { slots = a.slots; counts = a.counts })
              | inr p ↦
                  simp (enqueue_write_at, g, l, p)
                    (record {
                      slots = c.slots;
                      counts =
                          λ s h. c.counts s h ∙ ap (λ n. n + one 3 s) (sym (law.refused req s w p));
                    })
            ]
          ]
        ]

  -- If the pending count of each of the three sessions is the number of its requests that wait in the
  -- write and retry lanes, this still holds after `enqueue_write_at` was called with any arguments, and
  -- after `drain_writeats` with any fuel, whichever calls of the file system and of the queues fail.
  pub pending_counts_lanes :
      (ready : Bool) (session : ℕ) (path : List ℕ) (offset : ℕ) (bytes : List ℕ) (k : ℕ) (o : Owner)
      (w : W)
      → IsCounted lane 3 o w
      → IsCounted lane 3
          (enqueue_write_at fs ready session path offset bytes o w).1
          (enqueue_write_at fs ready session path offset bytes o w).2
        × IsCounted lane 3 (drain_writeats fs q k o w).0 (drain_writeats fs q k o w).1
  unfolding drain_writeats
  pending_counts_lanes ready session path offset bytes k o w c = (
    enqueue-IsCounted ready session path offset bytes o w c,
    idle_write-IsCounted _ _ _ (retry_one-IsCounted _ _ _ (drain_fresh-IsCounted k false o w c)),
  )
