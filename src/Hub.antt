-- ===== src/Hub.antt =====
-- firmware/src/hub/hub.c, built with VAIOS_DEVFS as firmware/vaios.defconfig sets it: the topics on the
-- message bus with their counters, and the latest-value slots. The bus is the kernel's, and a record of
-- operations on a type of worlds.
pub mod Queues
pub mod Slot
mod Tests
use vayu.Common.{
  ℕ, ◌+◌, Bool, true, false, not, ◌&&◌, Option, none, some, List, [], ◌∷◌, ◌++◌, length, ltb, take,
  if◌then◌else◌, u32, ℤ, pos, negsuc, is_negative, map,
}
use vayu.Maths.{Float}

pub data Topic : Type 0 where
  imu_attitude imu_control imu_telemetry att_telemetry att_control imu_calib est_perf vert_input :
      Topic

-- The slots that each topic is declared with.
abbrev pub slots : Topic → ℕ
slots imu_attitude = 6
slots imu_control = 6
slots imu_telemetry = 4
slots att_telemetry = 4
slots att_control = 6
slots imu_calib = 4
slots est_perf = 4
slots vert_input = 6

-- What a read returns: VA_PASS, whether the length is the message's, how many were missed, and the
-- buffer.
pub record Got (M : Type 0) : Type 0 where
  pub pass : Bool
  pub whole : Bool
  pub missed : ℕ
  pub msg : M

pub record Bus (M W : Type 0) : Type 0 where
  pub publish : Topic → M → W → Bool × W
  pub pop : Topic → W → Got M × W
  pub fd_open : Topic → W → ℤ × W
  pub recv : ℤ → W → Got M × W
  pub wait : ℤ → ℕ → W → Bool × W

-- `hub_stat_t`.
pub record Stat : Type 0 where
  pub published : ℕ
  pub popped : ℕ
  pub missed : ℕ
  pub evicted : ℕ
  pub peak : ℕ
  pub capacity : ℕ

-- The message that a read hands out, if any.
abbrev pub taken : {M : Type 0} → Got M → Option M
taken g = if g.pass && g.whole then some g.msg else none

abbrev pub came : {M : Type 0} → Got M → Bool
came g = g.pass && g.whole

-- `HUB_DEFINE_LATEST`: the slot and its flag. A null pointer is refused before it.
pub record Latest (A : Type 0) : Type 0 where
  pub latest : A
  pub have : Bool

unfoldable pub publish_latest : {A : Type 0} → A → Latest A → Latest A
publish_latest a s = record { latest = a; have = true }

unfoldable pub read_latest : {A : Type 0} → Latest A → Option A
read_latest s = if s.have then some s.latest else none

-- `_vs_latest`, `_vs_seq` and `_vs_seq_popped`.
pub record Vertical (A : Type 0) : Type 0 where
  pub latest : A
  pub seq : ℕ
  pub seq_popped : ℕ

-- The board trim, and its two accessors.
pub record Trim (F : Type 0) : Type 0 where
  pub roll : F
  pub pitch : F

unfoldable pub set_board_trim : {F : Type 0} → F → F → Trim F → Trim F
set_board_trim roll pitch t = record { roll = roll; pitch = pitch }

-- `hub_altitude_m`, over the power function of the mathematics module.
unfoldable pub altitude_m : {F : Type 0} → Float F → (F → F → F) → F → F → F
altitude_m fl m_pow pressure sea_level =
    let level = if fl.le sea_level (fl.lit 0 0) then fl.lit 101325 0 else sea_level in
    fl.mul (fl.lit 44330 0)
      (fl.sub (fl.lit 1 0) (m_pow (fl.div pressure level) (fl.lit 190294957 9)))

-- A row of the diagnostic packet.
pub record Row : Type 0 where
  pub fifo_id : ℕ
  pub row_peak : ℕ
  pub row_capacity : ℕ
  pub drops : ℕ

abbrev pub saturated : ℕ → ℕ
saturated n = if ltb 0xFFFF n then 0xFFFF else n

abbrev pub row_of : ℕ × Stat → Row
row_of (id, st) = record {
  fifo_id = id;
  row_peak = st.peak;
  row_capacity = st.capacity;
  drops = saturated st.evicted;
}

-- `imu_buffer_perf_fifos`, from the five counted topics with their ids and the rows that drivers
-- registered.
unfoldable pub perf_fifos : ℕ → List (ℕ × Stat) → List Row → List Row
perf_fifos max counted extra = take max (map row_of counted ++ extra)

-- `hub_perf_register`.
unfoldable pub perf_register : Row → List Row → List Row
perf_register r extra = if ltb (length extra) 4 then extra ++ (r ∷ []) else extra
