-- ===== src/Hub/Tests.antt =====
-- A topic with four slots, for firmware/src/hub/hub.c.
use vayu.Common.{
  ℕ, ◌+◌, ◌-◌, ◌≤◌, ◌≡◌, ◌↔◌, refl, true, false, none, some, List, [], ◌∷◌, pos, ltb, lt→ltb, ◌==◌,
  not, if◌then◌else◌, arith,
}
use vayu.Hub.{Bus, imu_telemetry, Stat, came}
use vayu.Hub.Queues.{stat_pub, stat_pop}
use vayu.Hub.Queues.Drops
use vayu.Hub.Queues.Drops.{Pipe, IsCounted, run, unused, drops_never_under}
use vayu.Hub.Queues.Overrun.{overrun_sticks}
use vayu.Hub.Slot.{
  Use, push, peek, pop, answers, promised, unpublished, slot_refines, vertical_push, vertical_peek,
  vertical_pop,
}

-- The world is how many messages wait and how many were overwritten.
abbrev four : Bus ℕ (ℕ × ℕ)
four = record {
  publish = λ t m w. (true, if ltb w.0 4 then (w.0 + 1, w.1) else (4, w.1 + 1));
  pop = λ t w. (
    record { pass = not (w.0 == 0); whole = true; missed = 0; msg = 7 },
    if w.0 == 0 then w else (w.0 - 1, w.1),
  );
  fd_open = λ t w. (pos 3, w);
  recv = λ fd w. (record { pass = false; whole = true; missed = 0; msg = 7 }, w);
  wait = λ fd n w. (true, w);
}

room_lem :
    (m : ℕ) (w : ℕ × ℕ)
    → ltb w.0 4 ≡ true
    → ((four.publish imu_telemetry m w).1.0 ≡ w.0 + 1)
      × ((four.publish imu_telemetry m w).1.1 ≡ w.1)
room_lem m w h = ground arith

full_lem :
    (m : ℕ) (w : ℕ × ℕ)
    → 4 ≤ w.0
    → ((four.publish imu_telemetry m w).1.0 ≡ 4) × ((four.publish imu_telemetry m w).1.1 ≡ w.1 + 1)
full_lem m w h = ground arith

read_lem :
    (w : ℕ × ℕ)
    → came (four.pop imu_telemetry w).0 ≡ true
    → (w.0 ≡ (four.pop imu_telemetry w).1.0 + 1) × ((four.pop imu_telemetry w).1.1 ≡ w.1)
read_lem w h = ground arith

unread_lem :
    (w : ℕ × ℕ)
    → came (four.pop imu_telemetry w).0 ≡ false
    → ((four.pop imu_telemetry w).1.0 ≡ w.0) × ((four.pop imu_telemetry w).1.1 ≡ w.1)
unread_lem w h = ground arith

-- A publish is never refused.
refused_lem :
    (m : ℕ) (w : ℕ × ℕ)
    → (four.publish imu_telemetry m w).0 ≡ false
    → ((four.publish imu_telemetry m w).1.0 ≡ w.0) × ((four.publish imu_telemetry m w).1.1 ≡ w.1)
refused_lem m w h = cc

abbrev four_pipe : Pipe four imu_telemetry 4
four_pipe = record {
  depth = λ w. w.0;
  lost = λ w. w.1;
  room = λ m w ok h. room_lem m w (lt→ltb _ _ h);
  full = λ m w ok h. full_lem m w h;
  refused = refused_lem;
  read = read_lem;
  unread = unread_lem;
}

abbrev crowd : List (Drops.Use ℕ)
crowd = Drops.push 1 ∷ Drops.push 2 ∷ Drops.push 3 ∷ Drops.push 4 ∷ Drops.push 5 ∷ Drops.pop ∷ []

drops_never_under_example :
    let r = run four imu_telemetry crowd (unused four imu_telemetry 4) (0, 0) in
    (r.1.1 ≤ r.0.evicted) × ((r.0.evicted ≡ 0) ↔ (r.1.1 ≡ 0))
drops_never_under_example =
    drops_never_under four imu_telemetry 4 four_pipe crowd (0, 0) (omega arith) refl refl

-- After eight pushes and four pops.
abbrev caught_up : Stat
caught_up = record { published = 8; popped = 4; missed = 4; evicted = 4; peak = 4; capacity = 4 }

overrun_sticks_example :
    let st' = stat_pub true (stat_pop true 0 (stat_pub true caught_up)) in
    (st'.evicted ≡ 6) × (st'.peak ≡ 65535)
overrun_sticks_example =
    overrun_sticks caught_up 4 4 0 (omega arith)
      (record {
        slots = refl;
        within = omega arith;
        balance = refl;
        never_under = omega arith;
        none_early = λ e. absurd (omega (arith, e));
        bounded = omega arith;
      })
      refl (omega arith) (omega arith) (omega arith)

abbrev readings : List (Use ℕ)
readings = peek ∷ push 3 ∷ push 5 ∷ pop ∷ pop ∷ peek ∷ []

fresh_once : answers readings (unpublished 0) ≡ none ∷ some 5 ∷ none ∷ some 5 ∷ []
unfolding answers vertical_push vertical_peek vertical_pop
fresh_once = refl

slot_refines_example : answers readings (unpublished 0) ≡ promised readings none false
slot_refines_example = slot_refines readings 0 (omega arith)
