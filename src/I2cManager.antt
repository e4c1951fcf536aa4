-- ===== src/I2cManager.antt =====
-- firmware/src/driver/i2c_manager.c and its header: who owns the bus. The hardware layer, the kernel's
-- mutex and the callback that a transaction carries are a record of operations over a type of worlds; a
-- callback is named by a number, and a null one is `none`. The two pins are written as the code writes
-- them; the delay between is one operation.
pub mod Ownership
pub mod Recovery
mod Tests
use vayu.Common.{
  ℕ, zero, suc, ◌+◌, Bool, true, false, not, List, [], ◌∷◌, Option, none, some, u32, ltb,
  if◌then◌else◌,
}

-- `hal_status_t`, as far as the code tells its values apart.
pub data Status : Type 0 where
  ok timeout not_initialized : Status
  other : ℕ → Status

abbrev pub is_ok : Status → Bool
is_ok ok = true
is_ok timeout = false
is_ok not_initialized = false
is_ok (other n) = false

abbrev pub is_not_initialized : Status → Bool
is_not_initialized ok = false
is_not_initialized timeout = false
is_not_initialized not_initialized = true
is_not_initialized (other n) = false

-- `i2c_trans_state_t`.
pub data TransState : Type 0 where
  blank idle busy_trans done_trans error_trans : TransState

abbrev pub is_busy_trans : TransState → Bool
is_busy_trans busy_trans = true
is_busy_trans blank = false
is_busy_trans idle = false
is_busy_trans done_trans = false
is_busy_trans error_trans = false

-- `i2c_op_type_t`.
pub data OpType : Type 0 where
  op_write op_read op_write_read : OpType

-- `i2c_async_t`, without the two fields that nothing reads or sets.
pub record Trans : Type 0 where
  pub addr : ℕ
  pub reg_addr : ℕ
  pub rx_len : ℕ
  pub callback : Option ℕ
  pub op_type : OpType
  pub state : TransState

-- The statics `_bus_busy`, `_current_trans` and `_consecutive_errors`.
pub record Manager : Type 0 where
  pub bus_busy : Bool
  pub current : Trans
  pub consecutive_errors : ℕ

-- The three transfers that a caller waits for.
pub data Transfer : Type 0 where
  write_to : ℕ → List ℕ → Transfer
  read_from : ℕ → ℕ → Transfer
  write_read : ℕ → List ℕ → ℕ → Transfer

-- What lies below. `scl` and `sda` write a pin.
pub record Hal (W : Type 0) : Type 0 where
  pub lock : W → Bool × W
  pub unlock : W → W
  pub transfer : Transfer → W → Status × W
  pub read_dma : ℕ → ℕ → ℕ → W → Status × W
  pub pins_out : W → W
  pub pins_i2c : W → W
  pub scl : Bool → W → W
  pub sda : Bool → W → W
  pub delay : W → W
  pub deinit : W → W
  pub init : W → Status × W

-- The current transaction after the `v_memset`.
abbrev pub no_trans : Trans
no_trans = record {
  addr = 0;
  reg_addr = 0;
  rx_len = 0;
  callback = none;
  op_type = op_write;
  state = blank;
}

-- `i2c_manager_acquire_bus`.
abbrev pub acquire_bus : Manager → Bool × Manager
acquire_bus m = (not m.bus_busy, record m { bus_busy = true })

-- `i2c_manager_release_bus`.
abbrev pub release_bus : Manager → Manager
release_bus m = record m { bus_busy = false }

module _ {W : Type 0} (hal : Hal W) where
  -- The loop of `i2c_manager_unstick`: `n` pulses.
  unfoldable pub pulses : ℕ → W → W
  pulses zero w = w
  pulses (suc n) w = pulses n (hal.delay (hal.scl true (hal.delay (hal.scl false w))))

  -- `i2c_manager_unstick`.
  unfoldable pub unstick : W → W
  unfolding pulses
  unstick w =
      let w₁ = pulses 9 (hal.delay (hal.sda true (hal.pins_out w))) in
      hal.delay (hal.sda true (hal.delay (hal.scl true (hal.delay (hal.sda false w₁)))))

  -- One attempt of `init_i2c_manager`.
  unfoldable pub attempt : W → Status × W
  attempt w = hal.init (hal.pins_i2c (hal.deinit (unstick w)))

  -- The attempts: one, and at most `n` more.
  unfoldable pub bring_up : ℕ → W → Status × W
  bring_up zero w = attempt w
  bring_up (suc n) w =
      let rest = bring_up n (attempt w).1 in
      if is_not_initialized (attempt w).0 then rest else attempt w

  -- `init_i2c_manager` with a configuration, and `i2c_manager_recover`, which calls it with the one kept.
  unfoldable pub recover : Manager → W → Status × Manager × W
  recover m w =
      let (ts, w₁) = bring_up 2 w in (ts, record m { bus_busy = false; current = no_trans }, w₁)

  -- `i2c_manager_write`, `i2c_manager_read` and `i2c_manager_write_read`.
  unfoldable pub sync_transfer : Transfer → Manager → W → Status × Manager × W
  sync_transfer t m w =
      let (locked, w₁) = hal.lock w in
      let (got, m₁) = acquire_bus m in
      let (ts, w₂) = hal.transfer t w₁ in
      if not locked
      then (timeout, m, w₁)
      else if not got
      then (timeout, m, hal.unlock w₁)
      else (ts, release_bus m₁, hal.unlock w₂)

  -- The branch of `i2c_manager_read_async` on a bus that is taken.
  unfoldable pub refuse : Manager → W → Status × Manager × W
  refuse m w =
      let n = u32 (m.consecutive_errors + 1) in
      let (ts, m₁, w₁) = recover (record m { consecutive_errors = n }) w in
      if ltb 100 n
      then (timeout, record m₁ { consecutive_errors = 0 }, w₁)
      else (timeout, record m { consecutive_errors = n }, w)

  -- The transaction that it starts.
  unfoldable pub start : ℕ → ℕ → ℕ → Option ℕ → Manager → W → Status × Manager × W
  start addr reg_addr len callback m w =
      let t : Trans = record {
        addr = addr;
        reg_addr = reg_addr;
        rx_len = len;
        callback = callback;
        op_type = op_read;
        state = busy_trans;
      } in
      let m₁ = record m { consecutive_errors = 0; current = t } in
      let (ts, w₁) = hal.read_dma addr reg_addr len w in
      let (again, m₂, w₂) = recover (release_bus m₁) w₁ in
      if is_ok ts then (ok, m₁, w₁) else (ts, m₂, w₂)

  -- `i2c_manager_read_async`.
  unfoldable pub read_async : ℕ → ℕ → ℕ → Option ℕ → Manager → W → Status × Manager × W
  read_async addr reg_addr len callback m w =
      let (got, m₁) = acquire_bus m in
      if got then start addr reg_addr len callback m₁ w else refuse m w

-- The call of the user's callback, if there is one.
abbrev pub invoke :
    {W : Type 0} → (ℕ → Manager → W → Manager × W) → Option ℕ → Manager → W → Manager × W
invoke user none m w = (m, w)
invoke user (some k) m w = user k m w

-- `i2c_manager_callback`; `user` is what the callbacks do, which may start a transaction.
unfoldable pub complete : {W : Type 0} → (ℕ → Manager → W → Manager × W) → Manager → W → Manager × W
complete user m w =
    let m₁ = release_bus (record m { current = record m.current { state = blank } }) in
    if not (is_busy_trans m.current.state) then (m, w) else invoke user m.current.callback m₁ w
