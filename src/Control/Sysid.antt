-- ===== src/Control/Sysid.antt =====
-- firmware/src/control/sysid.c: the excitation of an axis for system identification, its capture and
-- the dump. The sine and the conversion to an int16 are parameters; an array of three is a function
-- from axes. The capture buffer is the list of the samples in it.
pub mod Gate
pub mod Dump
pub mod Endless
mod Accepted
pub mod Tests
use vayu.Common.{
  ℕ, suc, ◌+◌, ◌-◌, Bool, true, false, not, ◌&&◌, ◌||◌, List, [], ◌∷◌, ◌++◌, length, take, drop,
  ltb, leb, ◌==◌, if◌then◌else◌, ℤ, u16, u8,
}
use vayu.Maths.{Float}

-- `sysid_request_t`.
pub record Request (F : Type 0) : Type 0 where
  pub axis : ℕ
  pub mode : ℕ
  pub f0_hz : F
  pub f1_hz : F
  pub amp_dps : F
  pub duration_s : F

abbrev pub inject_rate_sp : ℕ
inject_rate_sp = 0

abbrev pub inject_u : ℕ
inject_u = 1

abbrev pub cap_samples : ℕ
cap_samples = 1000

abbrev pub decimation : ℕ
decimation = 2

-- The statics of the file; `cap` holds the `s_cap_n` samples that are captured.
pub record Sysid (F : Type 0) : Type 0 where
  pub active : Bool
  pub axis : ℕ
  pub mode : ℕ
  pub f0 : F
  pub f1 : F
  pub amp : F
  pub dur : F
  pub elapsed : F
  pub phase : F
  pub allocated : Bool
  pub cap : List (ℤ × ℤ)
  pub decim : ℕ
  pub dump_active : Bool
  pub dump_pos : ℕ

module _ {F : Type 0} (fl : Float F) where
  abbrev pub zero_s : F
  zero_s = fl.lit 0 0

  -- `clampf` of this file.
  abbrev pub limited : F → F → F → F
  limited v lo hi = if fl.lt v lo then lo else if fl.lt hi v then hi else v

  -- The cap on the amplitude in a mode.
  abbrev pub max_amp : ℕ → F
  max_amp mode = if mode == inject_u then fl.lit 30 2 else fl.lit 120 0

  abbrev pub chosen_mode : ℕ → ℕ
  chosen_mode mode = if mode == inject_u then inject_u else inject_rate_sp

  -- The statics that a start sets.
  abbrev pub begun : Request F → Sysid F → Sysid F
  begun req s =
      let f0 = limited req.f0_hz (fl.lit 1 1) (fl.lit 40 0) in
      record {
        active = true;
        axis = req.axis;
        mode = chosen_mode req.mode;
        f0 = f0;
        f1 = limited req.f1_hz f0 (fl.lit 40 0);
        amp = limited req.amp_dps zero_s (max_amp (chosen_mode req.mode));
        dur = limited req.duration_s (fl.lit 1 1) (fl.lit 12 0);
        elapsed = zero_s;
        phase = zero_s;
        allocated = true;
        cap = [];
        decim = 0;
        dump_active = false;
        dump_pos = s.dump_pos;
      }

  -- `sysid_start`, with what the allocator answers.
  unfoldable pub start : Bool → Request F → Sysid F → Bool × Sysid F
  start malloc_ok req s =
      if ltb 2 req.axis
      then (false, s)
      else if not s.allocated && not malloc_ok
      then (false, s)
      else (true, begun req s)

  abbrev pub magnitude : F → F
  magnitude a = if fl.lt a zero_s then fl.neg a else a

  -- The limits on the excited axis.
  abbrev pub exceeds : (ℕ → F) → (ℕ → F) → Sysid F → Bool
  exceeds angles rates s =
      fl.lt (fl.lit 35 0) (magnitude (angles s.axis))
      || fl.lt (fl.lit 300 0) (magnitude (rates s.axis))

  abbrev pub silent : ℕ → F
  silent i = zero_s

  -- The taper.
  abbrev pub envelope : F → Sysid F → F
  envelope elapsed s =
      limited
        (if fl.lt elapsed (fl.lit 3 1)
          then fl.div elapsed (fl.lit 3 1)
          else if fl.lt (fl.sub s.dur (fl.lit 3 1)) elapsed
          then fl.div (fl.sub s.dur elapsed) (fl.lit 3 1)
          else fl.lit 1 0)
        zero_s (fl.lit 1 0)

  -- The phase of the chirp after a step.
  abbrev pub advanced : F → F → Sysid F → F
  advanced dt elapsed s =
      let f = fl.add s.f0 (fl.mul (fl.sub s.f1 s.f0) (fl.div elapsed s.dur)) in
      fl.add s.phase (fl.mul (fl.mul (fl.lit 628318530717958647692 20) f) dt)

  -- `sysid_step`: what is injected on each axis, and the statics.
  unfoldable pub step : (F → F) → F → (ℕ → F) → (ℕ → F) → Sysid F → (ℕ → F) × Sysid F
  step m_sin dt angles rates s =
      if not s.active
      then (silent, s)
      else if fl.le dt zero_s || fl.lt (fl.lit 1 1) dt
      then (silent, s)
      else if exceeds angles rates s
      then (silent, record s { active = false })
      else if fl.le s.dur (fl.add s.elapsed dt)
      then (silent, record s { elapsed = fl.add s.elapsed dt; active = false })
      else let elapsed = fl.add s.elapsed dt in
        let phase = advanced dt elapsed s in
        (
          λ i.
              if i == s.axis
              then fl.mul (fl.mul s.amp (envelope elapsed s)) (m_sin phase)
              else zero_s,
          record s { elapsed = elapsed; phase = phase },
        )

  -- `to_i16`.
  abbrev pub to_i16 : (F → ℤ) → F → F → ℤ
  to_i16 trunc v scale = trunc (limited (fl.mul v scale) (fl.neg (fl.lit 32768 0)) (fl.lit 32767 0))

  -- The two numbers that are kept of a sample.
  abbrev pub quantised : (F → ℤ) → ℕ → (ℕ → F) × (ℕ → F) → ℤ × ℤ
  quantised trunc axis (u, gyro) =
      (to_i16 trunc (u axis) (fl.lit 1000 0), to_i16 trunc (gyro axis) (fl.lit 10 0))

  -- `sysid_capture`.
  unfoldable pub capture : (F → ℤ) → (ℕ → F) × (ℕ → F) → Sysid F → Sysid F
  capture trunc x s =
      if not s.active || not s.allocated
      then s
      else if ltb (s.decim + 1) decimation
      then record s { decim = s.decim + 1 }
      else if leb cap_samples (length s.cap)
      then record s { decim = 0 }
      else record s { decim = 0; cap = s.cap ++ (quantised trunc s.axis x ∷ []) }

-- `sysid_abort`.
unfoldable pub abort : {F : Type 0} → Sysid F → Sysid F
abort s = record s { active = false }

-- `sysid_dump_request`.
unfoldable pub dump_request : {F : Type 0} → Sysid F → Sysid F
dump_request s = record s { dump_pos = 0; dump_active = ltb 0 (length s.cap) }

abbrev pub least : ℕ → ℕ → ℕ
least n cap = if ltb cap n then cap else n

-- `sysid_dump_next`: the start and the samples, and the statics.
unfoldable pub dump_next : {F : Type 0} → ℕ → Sysid F → (ℕ × List (ℤ × ℤ)) × Sysid F
dump_next room s =
    if not s.dump_active || leb (length s.cap) s.dump_pos
    then ((0, []), record s { dump_active = false })
    else let n = least (length s.cap - s.dump_pos) (least room 10) in
      (
        (u16 s.dump_pos, take n (drop s.dump_pos s.cap)),
        record s {
          dump_pos = s.dump_pos + n;
          dump_active = if leb (length s.cap) (s.dump_pos + n) then false else s.dump_active;
        },
      )
