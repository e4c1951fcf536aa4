-- ===== src/I2cManager/Tests.antt =====
-- A bus whose hardware answers, for firmware/src/driver/i2c_manager.c. A world is the number of calls of
-- the callback.
use vayu.Common.{ℕ, ◌+◌, ◌≡◌, refl, true, false, some, replicate}
use vayu.I2cManager.{
  Manager, Hal, ok, recover, read_async, complete, is_busy_trans, no_trans, busy_trans, timeout,
}
use vayu.I2cManager.Ownership.{booted, requested, completed, bus_never_leaks}
use vayu.I2cManager.Recovery.{requests, brought_back, stuck_bus_freed}

abbrev bench : Hal ℕ
bench = record {
  lock = λ w. (true, w);
  unlock = λ w. w;
  transfer = λ t w. (ok, w);
  read_dma = λ a r n w. (ok, w);
  pins_out = λ w. w;
  pins_i2c = λ w. w;
  scl = λ b w. w;
  sda = λ b w. w;
  delay = λ w. w;
  deinit = λ w. w;
  init = λ w. (ok, w);
}

abbrev count_call : ℕ → Manager → ℕ → Manager × ℕ
count_call k m w = (m, w + 1)

-- A read is in flight.
abbrev flying : Manager
flying = record {
  bus_busy = true;
  current = record no_trans { rx_len = 6; callback = some 1; state = busy_trans };
  consecutive_errors = 40;
}

-- The bench starts, and a read is asked for and completes.
abbrev asked : Manager × ℕ
asked = (
  (read_async bench 104 4 6 (some 1) (recover bench flying 0).1 (recover bench flying 0).2).1,
  (read_async bench 104 4 6 (some 1) (recover bench flying 0).1 (recover bench flying 0).2).2,
)

bus_never_leaks_example :
    (complete count_call asked.0 asked.1).0.bus_busy
    ≡ is_busy_trans (complete count_call asked.0 asked.1).0.current.state
bus_never_leaks_example =
    bus_never_leaks bench count_call (λ k m w o. o) (complete count_call asked.0 asked.1).0
      (complete count_call asked.0 asked.1).1
      (completed (requested 104 4 6 (some 1) (booted flying 0)))

stuck_bus_freed_example : requests bench 61 104 4 6 (some 1) flying 0 ≡ (
  replicate 61 timeout,
  record flying { bus_busy = false; current = no_trans; consecutive_errors = 0 },
  brought_back bench 0,
)
stuck_bus_freed_example = stuck_bus_freed bench 104 4 6 (some 1) 60 flying 0 refl refl
