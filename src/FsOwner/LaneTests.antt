-- ===== src/FsOwner/LaneTests.antt =====
-- Lanes of one place each, on a card that takes every write, for firmware/src/storage/fs_owner.c.
use vayu.Common.{
  ℕ, zero, suc, ◌<◌, ◌≤◌, ◌+◌, ◌≡◌, refl, Bool, true, false, [], ◌∷◌, length, ap, sym, Option, none,
  some, pos, arith, get_or,
}
use vayu.FsOwner.{Vfs, Owner, WriteReq, enqueue_write_at}
use vayu.FsOwner.Lanes.{Queues, drain_fresh, drain_writeats}
use vayu.FsOwner.Pending.{IsQuiet, IsLane, IsCounted, one, pending_counts_lanes}
use vayu.FsOwner.Drains.{IsDepth, drain_ends}

-- A place holds nothing or a request of one of the three sessions.
data Place : Type 0 where
  vacant s0 s1 s2 : Place

-- The request of session `s` that a place keeps; `vacant` if there is no such session.
abbrev keep : ℕ → Place
keep zero = s0
keep (suc zero) = s1
keep (suc (suc zero)) = s2
keep (suc (suc (suc n))) = vacant

abbrev request : ℕ → WriteReq
request s = record { path = 97 ∷ []; offset = 0; session = s; tries = 0; payload = 1 ∷ [] }

abbrev offer : Place → ℕ → Bool × Place
offer vacant zero = (true, s0)
offer vacant (suc zero) = (true, s1)
offer vacant (suc (suc zero)) = (true, s2)
offer vacant (suc (suc (suc n))) = (false, vacant)
offer s0 n = (false, s0)
offer s1 n = (false, s1)
offer s2 n = (false, s2)

abbrev taken : Place → Option WriteReq
taken vacant = none
taken s0 = some (request 0)
taken s1 = some (request 1)
taken s2 = some (request 2)

abbrev waiting : Place → ℕ → ℕ
waiting vacant s = 0
waiting s0 s = one 0 s
waiting s1 s = one 1 s
waiting s2 s = one 2 s

abbrev filled : Place → ℕ
filled vacant = 0
filled s0 = 1
filled s1 = 1
filled s2 = 1

-- What an accepted offer adds, and what a refused one leaves.
offer_adds :
    (p : Place) (n s : ℕ) → (offer p n).0 ≡ true → waiting (offer p n).1 s ≡ waiting p s + one n s
offer_adds vacant zero s h = ground arith
offer_adds vacant (suc zero) s h = ground arith
offer_adds vacant (suc (suc zero)) s h = ground arith
offer_adds vacant (suc (suc (suc n))) s h = absurd (ground (arith, h))
offer_adds s0 n s h = absurd (ground (arith, h))
offer_adds s1 n s h = absurd (ground (arith, h))
offer_adds s2 n s h = absurd (ground (arith, h))

offer_leaves : (p : Place) (n s : ℕ) → (offer p n).0 ≡ false → waiting (offer p n).1 s ≡ waiting p s
offer_leaves vacant zero s h = absurd (ground (arith, h))
offer_leaves vacant (suc zero) s h = absurd (ground (arith, h))
offer_leaves vacant (suc (suc zero)) s h = absurd (ground (arith, h))
offer_leaves vacant (suc (suc (suc n))) s h = refl
offer_leaves s0 n s h = refl
offer_leaves s1 n s h = refl
offer_leaves s2 n s h = refl

one_le : (k s : ℕ) → one k s ≤ 1
one_le k s = ground arith

waiting_le : (p : Place) (s : ℕ) → waiting p s ≤ 1
waiting_le vacant s = omega arith
waiting_le s0 s = one_le 0 s
waiting_le s1 s = one_le 1 s
waiting_le s2 s = one_le 2 s

abbrev session_of : Option WriteReq → ℕ
session_of none = 0
session_of (some r) = r.session

taken_counts :
    (p : Place) (r : WriteReq) (s : ℕ)
    → taken p ≡ some r
    → (r.session < 3) × (waiting p s ≡ one r.session s)
taken_counts vacant r s e = absurd (ground (arith, e))
taken_counts s0 r s e = (omega (arith, ap session_of e), ap (λ k. one k s) (ap session_of e))
taken_counts s1 r s e = (omega (arith, ap session_of e), ap (λ k. one k s) (ap session_of e))
taken_counts s2 r s e = (omega (arith, ap session_of e), ap (λ k. one k s) (ap session_of e))

taken-none : (p : Place) → taken p ≡ none → p ≡ vacant
taken-none vacant e = refl
taken-none s0 e = absurd (ground (arith, e))
taken-none s1 e = absurd (ground (arith, e))
taken-none s2 e = absurd (ground (arith, e))

taken-some : (p : Place) (r : WriteReq) → taken p ≡ some r → filled p ≡ 1
taken-some vacant r e = absurd (ground (arith, e))
taken-some s0 r e = refl
taken-some s1 r e = refl
taken-some s2 r e = refl

abbrev Shelf : Type 0
Shelf = Place × Place

abbrev shelf_vfs : Vfs Shelf
shelf_vfs = record {
  open_at = λ path mode w. (pos 3, w);
  close = λ fd w. w;
  sync = λ fd w. (pos 0, w);
  lseek = λ fd off w. (pos off, w);
  write = λ fd bytes w. (pos (length bytes), w);
  read = λ fd len w. (pos len, w);
  unlink = λ path w. (pos 0, w);
  write_push = λ req w. ((offer w.0 req.session).0, ((offer w.0 req.session).1, w.1));
  retry_push = λ req w. ((offer w.1 req.session).0, (w.0, (offer w.1 req.session).1));
}

abbrev shelf_queues : Queues Shelf
shelf_queues = record {
  save_pop = λ w. (none, w);
  save_push = λ req w. (true, w);
  write_pop = λ w. (taken w.0, (vacant, w.1));
  retry_pop = λ w. (taken w.1, (w.0, vacant));
  sync_pop = λ w. (none, w);
  result_push = λ n w. w;
  browse = λ req w. (pos 0, w);
  hsl_drain = λ w. w;
}

abbrev queued : ℕ → Shelf → ℕ
queued s w = waiting w.0 s + waiting w.1 s

abbrev quiet_card : (m : Shelf → ℕ) → IsQuiet shelf_vfs m
quiet_card m = record {
  opens = λ p w. refl;
  closes = λ fd w. refl;
  syncs = λ fd w. refl;
  seeks = λ fd off w. refl;
  writes = λ fd b w. refl;
}

queued-IsLane : IsLane shelf_vfs shelf_queues queued
queued-IsLane = record {
  quiet = λ s. quiet_card (queued s);
  bounded = λ s w. omega (arith, waiting_le w.0 s, waiting_le w.1 s);
  pushed = λ r s w h. omega (arith, offer_adds w.0 r.session s h);
  refused = λ r s w h. omega (arith, offer_leaves w.0 r.session s h);
  retried = λ r s w h. omega (arith, offer_adds w.1 r.session s h);
  retry_refused = λ r s w h. omega (arith, offer_leaves w.1 r.session s h);
  popped = λ r s w e. ((taken_counts w.0 r s e).0, omega (arith, (taken_counts w.0 r s e).1));
  retry_popped = λ r s w e. ((taken_counts w.1 r s e).0, omega (arith, (taken_counts w.1 r s e).1));
  retry_empty = λ s w e. ap (λ p. waiting w.0 s + waiting p s) (sym (taken-none w.1 e));
  empty = λ s w e. ap (λ p. waiting p s + waiting w.1 s) (sym (taken-none w.0 e));
}

filled-IsDepth : IsDepth shelf_vfs shelf_queues (λ w. filled w.0)
filled-IsDepth = record {
  quiet = quiet_card (λ w. filled w.0);
  retried = λ r w. refl;
  popped = λ r w e. sym (taken-some w.0 r e);
  empty = λ w e. (ap filled (taken-none w.0 e), refl);
}

-- Session 1 has one request in each lane.
abbrev busy_owner : Owner
busy_owner = record {
  wfd = none;
  wpath = [];
  wfd_idle_loops = 0;
  rfd = none;
  rpath = [];
  rfd_idle_loops = 0;
  rpos = 0;
  pending = 0 ∷ 2 ∷ 0 ∷ [];
  committed = 0 ∷ 0 ∷ 0 ∷ [];
  failed = 0 ∷ 0 ∷ 0 ∷ [];
  dropped_writeats = 0;
}

busy_counts : (s : ℕ) → s < 3 → get_or busy_owner.pending s 0 ≡ queued s (s1, s1) + one 3 s
busy_counts zero h = refl
busy_counts (suc zero) h = refl
busy_counts (suc (suc zero)) h = refl
busy_counts (suc (suc (suc n))) h = absurd (ground arith)

pending_counts_lanes_example :
    IsCounted queued 3
      (enqueue_write_at shelf_vfs true 2 (97 ∷ []) 0 (7 ∷ []) busy_owner (s1, s1)).1
      (enqueue_write_at shelf_vfs true 2 (97 ∷ []) 0 (7 ∷ []) busy_owner (s1, s1)).2
    × IsCounted queued 3
        (drain_writeats shelf_vfs shelf_queues 2 busy_owner (s1, s1)).0
        (drain_writeats shelf_vfs shelf_queues 2 busy_owner (s1, s1)).1
pending_counts_lanes_example =
    pending_counts_lanes shelf_vfs shelf_queues queued queued-IsLane true 2 (97 ∷ []) 0 (7 ∷ []) 2
      busy_owner (s1, s1) (record { slots = refl; counts = busy_counts })

drain_ends_example :
    (filled (drain_fresh shelf_vfs shelf_queues 2 false busy_owner (s1, s1)).2.0 ≡ 0)
    × (drain_fresh shelf_vfs shelf_queues 2 false busy_owner (s1, s1)
        ≡ drain_fresh shelf_vfs shelf_queues 5 false busy_owner (s1, s1))
drain_ends_example =
    drain_ends shelf_vfs shelf_queues (λ w. filled w.0) filled-IsDepth 2 5 false busy_owner (s1, s1)
      (omega arith) (omega arith)
