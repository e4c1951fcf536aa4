-- ===== src/I2cManager/Recovery.antt =====
-- How firmware/src/driver/i2c_manager.c gets a stuck bus back.
use vayu.Common.{
  ℕ, zero, suc, ◌+◌, ◌≡◌, refl, ap, ◌∙◌, true, false, Option, u32, ltb, arith, List, [], ◌∷◌,
  replicate, if◌then◌else◌, Bool-cases, inl, inr,
}
use vayu.I2cManager.{
  Manager, Hal, Status, timeout, read_async, refuse, recover, bring_up, attempt, unstick, pulses,
  no_trans, is_not_initialized,
}

-- Asynchronous reads, one after the other, with their answers.
pub requests :
    {W : Type 0} → Hal W → ℕ → ℕ → ℕ → ℕ → Option ℕ → Manager → W → List Status × Manager × W
requests hal zero addr reg len cb m w = ([], m, w)
requests hal (suc n) addr reg len cb m w =
    let r = read_async hal addr reg len cb m w in
    let rest = requests hal n addr reg len cb r.1 r.2 in (r.0 ∷ rest.0, rest.1, rest.2)

module _ {W : Type 0} (hal : Hal W) where
  -- A pulse of the clock line.
  abbrev pub pulse : W → W
  pulse w = hal.delay (hal.scl true (hal.delay (hal.scl false w)))

  abbrev pub nine_pulses : W → W
  nine_pulses w = pulse (pulse (pulse (pulse (pulse (pulse (pulse (pulse (pulse w))))))))

  -- Nine pulses with the data line let go, and a stop condition.
  abbrev pub cleared : W → W
  cleared w =
      let w₁ = nine_pulses (hal.delay (hal.sda true (hal.pins_out w))) in
      hal.delay (hal.sda true (hal.delay (hal.scl true (hal.delay (hal.sda false w₁)))))

  -- The peripheral set up anew on a cleared bus.
  abbrev pub restarted : W → Status × W
  restarted w = hal.init (hal.pins_i2c (hal.deinit (cleared w)))

  -- One restart, and up to two more while the peripheral is not initialised.
  abbrev pub brought_back : W → W
  brought_back w =
      let a = restarted w in
      let b = restarted a.1 in
      let c = restarted b.1 in
      if is_not_initialized a.0 then (if is_not_initialized b.0 then c.1 else b.1) else a.1

module _ {W : Type 0} (hal : Hal W) (addr reg len : ℕ) (cb : Option ℕ) where
  refused :
      (m : Manager) (w : W)
      → m.bus_busy ≡ true
      → ltb 100 (u32 (m.consecutive_errors + 1)) ≡ false
      → read_async hal addr reg len cb m w
        ≡ (timeout, record m { consecutive_errors = u32 (m.consecutive_errors + 1) }, w)
  unfolding read_async refuse
  refused m w b h = simp (read_async, refuse, b, h) refl

  brought_back_lem : (w : W) → (bring_up hal 2 w).1 ≡ brought_back hal w
  unfolding bring_up attempt unstick pulses
  brought_back_lem w = elim (Bool-cases (is_not_initialized (restarted hal w).0)) [
    | inr a ↦ simp a
    | inl a ↦
        let b = restarted hal (restarted hal w).1 in
        elim (Bool-cases (is_not_initialized b.0)) [ inl c ↦ simp (a, c) | inr c ↦ simp (a, c) ]
  ]

  freed :
      (m : Manager) (w : W)
      → m.bus_busy ≡ true
      → ltb 100 (u32 (m.consecutive_errors + 1)) ≡ true
      → read_async hal addr reg len cb m w ≡ (
        timeout,
        record m { bus_busy = false; current = no_trans; consecutive_errors = 0 },
        (bring_up hal 2 w).1,
      )
  unfolding read_async refuse recover
  freed m w b h = simp (read_async, refuse, recover, b, h) refl

  -- A bus that no completion ever frees is brought back by the callers themselves: with the bus taken
  -- and `e` errors in a row counted, 101 - e further asynchronous reads are all answered with a timeout,
  -- the last of them clears the lines with nine pulses and a stop condition and sets the peripheral up
  -- anew, again for up to two times while it is not initialised, and the bus is free then, with no
  -- transaction and no errors counted.
  pub stuck_bus_freed :
      (n : ℕ) (m : Manager) (w : W)
      → m.bus_busy ≡ true
      → m.consecutive_errors + suc n ≡ 101
      → requests hal (suc n) addr reg len cb m w ≡ (
        replicate (suc n) timeout,
        record m { bus_busy = false; current = no_trans; consecutive_errors = 0 },
        brought_back hal w,
      )
  unfolding requests
  stuck_bus_freed zero m w b e =
      let t = record m { bus_busy = false; current = no_trans; consecutive_errors = 0 } in
      ap (λ r. (r.0 ∷ [], r.1, r.2)) (freed m w b (ground arith))
      ∙ ap (λ v. (timeout ∷ [], t, v)) (brought_back_lem w)
  stuck_bus_freed (suc n) m w b e =
      let t = record m { consecutive_errors = u32 (m.consecutive_errors + 1) } in
      ap
        (λ r.
          let rest = requests hal (suc n) addr reg len cb r.1 r.2 in (r.0 ∷ rest.0, rest.1, rest.2))
        (refused m w b (ground arith))
      ∙ ap (λ r. (timeout ∷ r.0, r.1, r.2)) (stuck_bus_freed n t w b (ground arith))
