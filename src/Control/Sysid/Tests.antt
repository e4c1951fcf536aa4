-- ===== src/Control/Sysid/Tests.antt =====
-- A run on the pitch axis, for firmware/src/control/sysid.c, on fixed-point numbers.
use vayu.Common.{
  ℕ, ◌+◌, ◌≡◌, ◌⊎◌, refl, true, false, Option, none, some, List, [], ◌∷◌, map, length, take, ℤ, pos,
  arith, ◌==◌, by_test,
}
use vayu.Maths.Fixed.{fixed, fixed-IsOrder}
use vayu.Control.Sysid.{
  Request, Sysid, start, abort, step, capture, dump_request, dump_next, cap_samples, quantised,
}
use vayu.Control.Sysid.Dump.{collect, seconds, polls, joined, IsWhole, dump_complete}
use vayu.Control.Sysid.Gate.{
  Event, begin, stop, tick, sample, ask, hand_out, happens, IsWave, IsLadder, injection_gated,
}
use vayu.Control.Sysid.Endless.{Tick, ticks, endless_run}

abbrev at : ℕ → Option ℤ
at m = fixed.lit m 2

-- No sine, and no rounding.
abbrev flat : Option ℤ → Option ℤ
flat a = some (pos 1000000)

abbrev whole : Option ℤ → ℤ
whole none = pos 0
whole (some v) = v

abbrev pitch : Request (Option ℤ)
pitch = record {
  axis = 1;
  mode = 0;
  f0_hz = at 100;
  f1_hz = at 1000;
  amp_dps = at 20000;
  duration_s = at 100;
}

abbrev pub still : Sysid (Option ℤ)
still = record {
  active = false;
  axis = 0;
  mode = 0;
  f0 = at 0;
  f1 = at 0;
  amp = at 0;
  dur = at 0;
  elapsed = at 0;
  phase = at 0;
  allocated = false;
  cap = [];
  decim = 0;
  dump_active = false;
  dump_pos = 0;
}

abbrev level : ℕ → Option ℤ
level i = at 0

abbrev reading : ℕ → (ℕ → Option ℤ) × (ℕ → Option ℤ)
reading n = (λ i. at n, λ i. at (n + 1))

abbrev five : List ((ℕ → Option ℤ) × (ℕ → Option ℤ))
five = reading 1 ∷ reading 2 ∷ reading 3 ∷ reading 4 ∷ reading 5 ∷ []

two_are_kept :
    length (
      joined
        (polls 3 10
          (dump_request (abort (collect fixed whole five (start fixed true pitch still).1)))).0)
    ≡ 2
unfolding start abort capture dump_request dump_next
two_are_kept = refl

-- The amplitude that was asked for is 200, the cap is 120.
capped_amplitude : (start fixed true pitch still).1.amp ≡ some (pos 120000000)
unfolding start
capped_amplitude = refl

-- A sixth of the taper after 0.05 s.
injected :
    (step fixed flat (at 5) level level (happens fixed flat whole (begin true pitch ∷ []) still)).0
      1
    ≡ some (pos 19999920)
unfolding start step
injected = refl

started : (start fixed true pitch still).0 ≡ true
unfolding start
started = refl

dump_complete_example :
    IsWhole 0 (take cap_samples (map (quantised fixed whole 1) (seconds five))) (
      polls 1000 10
        (dump_request (abort (collect fixed whole five (start fixed true pitch still).1))))
dump_complete_example =
    dump_complete fixed whole true pitch still five 10 1000 started (omega arith) (omega arith)

fixed-IsLadder : IsLadder fixed
fixed-IsLadder = record {
  order = fixed-IsOrder;
  amp_up = λ mode. by_test (λ a. fixed.lt a (at 0) ≡ false) (mode == 1) (λ _. refl) (λ _. refl);
  freq_up = refl;
  dur_up = refl;
  unit_up = refl;
}

-- After a start, a tick and an abort that a second start follows.
abbrev morning : List (Event (Option ℤ))
morning =
    begin true pitch
    ∷ tick (at 5) level level
    ∷ sample level level
    ∷ stop
    ∷ ask
    ∷ hand_out 10
    ∷ begin true pitch
    ∷ []

injection_gated_example :
    ((step fixed flat (at 5) level level (happens fixed flat whole morning still)).0 1 ≡ at 0)
    ⊎ IsWave fixed flat whole
        (at 5)
        level
        level
        (happens fixed flat whole morning still)
        1
        ((step fixed flat (at 5) level level (happens fixed flat whole morning still)).0 1)
injection_gated_example =
    injection_gated fixed flat whole morning still (at 5) level level 1 fixed-IsLadder refl

abbrev undated : Request (Option ℤ)
undated = record pitch { duration_s = none }

abbrev three : List (Tick (Option ℤ))
three = (at 10, level, level) ∷ (at 10, level, level) ∷ (at 10, level, level) ∷ []

undated_started : (start fixed true undated still).0 ≡ true
unfolding start
undated_started = refl

none_le : (a b : Option ℤ) → fixed.is_nan a ≡ true → fixed.le a b ≡ false
none_le none b h = refl
none_le (some a) b h = absurd (ground (arith, h))

endless_run_example : (ticks fixed flat three (start fixed true undated still).1).active ≡ true
endless_run_example =
    endless_run fixed flat true undated still three fixed-IsOrder none_le undated_started refl refl
