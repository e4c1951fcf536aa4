-- ===== src/I2cManager/Ownership.antt =====
-- Who owns the bus in firmware/src/driver/i2c_manager.c.
use vayu.Common.{
  ℕ, ◌+◌, ◌≡◌, refl, sym, ◌∙◌, true, false, Option, none, some, u32, ltb, Bool-cases, inl, inr,
}
use vayu.I2cManager.{
  Manager, Transfer, Hal, is_busy_trans, blank, is_ok, release_bus, recover, sync_transfer, refuse,
  start, read_async, invoke, complete,
}

-- The bus is taken exactly while a transaction is in flight.
abbrev pub IsOwned : Manager → Type 0
IsOwned m = m.bus_busy ≡ is_busy_trans m.current.state

module _ {W : Type 0} (hal : Hal W) where
  sync_transfer-IsOwned :
      (t : Transfer) (m : Manager) (w : W) → IsOwned m → IsOwned (sync_transfer hal t m w).1
  unfolding sync_transfer
  sync_transfer-IsOwned t m w o = elim (Bool-cases (hal.lock w).0) [
    | inr l ↦ simp (sync_transfer, l) o
    | inl l ↦ elim (Bool-cases m.bus_busy) [
      | inl b ↦ simp (sync_transfer, l, b) (sym b ∙ o)
      | inr b ↦ simp (sync_transfer, l, b) (sym b ∙ o)
    ]
  ]

  refuse-IsOwned : (m : Manager) (w : W) → IsOwned m → IsOwned (refuse hal m w).1
  unfolding refuse recover
  refuse-IsOwned m w o = elim (Bool-cases (ltb 100 (u32 (m.consecutive_errors + 1)))) [
    | inl h ↦ simp (refuse, recover, h) refl
    | inr h ↦ simp (refuse, h) o
  ]

  start-IsOwned :
      (addr reg len : ℕ) (cb : Option ℕ) (m : Manager) (w : W)
      → m.bus_busy ≡ true
      → IsOwned (start hal addr reg len cb m w).1
  unfolding start recover
  start-IsOwned addr reg len cb m w b = elim (Bool-cases (is_ok (hal.read_dma addr reg len w).0)) [
    | inl h ↦ simp (start, h) b
    | inr h ↦ simp (start, recover, h) refl
  ]

  read_async-IsOwned :
      (addr reg len : ℕ) (cb : Option ℕ) (m : Manager) (w : W)
      → IsOwned m
      → IsOwned (read_async hal addr reg len cb m w).1
  unfolding read_async
  read_async-IsOwned addr reg len cb m w o = elim (Bool-cases m.bus_busy) [
    | inl b ↦ simp (read_async, b) (refuse-IsOwned m w o)
    | inr b ↦
        simp (read_async, b) (start-IsOwned addr reg len cb (record m { bus_busy = true }) w refl)
  ]

-- What keeps the ownership.
abbrev pub IsKeeping : {W : Type 0} → (ℕ → Manager → W → Manager × W) → Type 0
IsKeeping {W = W} user = (k : ℕ) (m : Manager) (w : W) → IsOwned m → IsOwned (user k m w).0

module _ {W : Type 0} (hal : Hal W) (user : ℕ → Manager → W → Manager × W)
    (keeping : IsKeeping user) where
  invoke-IsOwned :
      (cb : Option ℕ) (m : Manager) (w : W) → IsOwned m → IsOwned (invoke user cb m w).0
  invoke-IsOwned none m w o = o
  invoke-IsOwned (some k) m w o = keeping k m w o

  complete-IsOwned : (m : Manager) (w : W) → IsOwned m → IsOwned (complete user m w).0
  unfolding complete
  complete-IsOwned m w o = elim (Bool-cases (is_busy_trans m.current.state)) [
    | inl h ↦
        let m₁ = release_bus (record m { current = record m.current { state = blank } }) in
        simp (complete, h) (invoke-IsOwned m.current.callback m₁ w refl)
    | inr h ↦ simp (complete, h) (o ∙ h)
  ]

  -- What the tasks and the interrupt make of the manager, from the start on.
  pub data IsReached : Manager → W → Type 0 where
    booted : (m : Manager) (w : W) → IsReached (recover hal m w).1 (recover hal m w).2
    recovered :
        {m : Manager} {w : W} → IsReached m w → IsReached (recover hal m w).1 (recover hal m w).2
    transferred :
        (t : Transfer) {m : Manager} {w : W}
        → IsReached m w
        → IsReached (sync_transfer hal t m w).1 (sync_transfer hal t m w).2
    requested :
        (addr reg len : ℕ) (cb : Option ℕ) {m : Manager} {w : W}
        → IsReached m w
        → IsReached (read_async hal addr reg len cb m w).1 (read_async hal addr reg len cb m w).2
    completed :
        {m : Manager} {w : W}
        → IsReached m w
        → IsReached (complete user m w).0 (complete user m w).1

  -- After any calls and completions in any order, whatever the hardware answers and however often an
  -- interrupt repeats, the bus is taken exactly while a transaction is in flight: no path leaks it. A
  -- callback may start transactions, as long as it keeps this too.
  pub bus_never_leaks :
      (m : Manager) (w : W) → IsReached m w → m.bus_busy ≡ is_busy_trans m.current.state
  unfolding recover
  bus_never_leaks _ _ (booted m w) = refl
  bus_never_leaks _ _ (recovered r) = refl
  bus_never_leaks _ _ (transferred t r) = sync_transfer-IsOwned hal t _ _ (bus_never_leaks _ _ r)
  bus_never_leaks _ _ (requested addr reg len cb r) =
      read_async-IsOwned hal addr reg len cb _ _ (bus_never_leaks _ _ r)
  bus_never_leaks _ _ (completed r) = complete-IsOwned _ _ (bus_never_leaks _ _ r)

  -- A second completion interrupt of the same transaction does nothing, if the callback started none.
  pub second_completion_ignored :
      (m : Manager) (w : W)
      → is_busy_trans (complete user m w).0.current.state ≡ false
      → complete user (complete user m w).0 (complete user m w).1 ≡ complete user m w
  unfolding complete
  second_completion_ignored m w h = simp (complete, h) refl
