-- ===== src/State/Rules.antt =====
-- What the transition table of firmware/src/sys/state.c guarantees.
use vayu.Common.{◌≡◌, ◌⊎◌, inl, inr, ◌≢◌, List, [], ◌∷◌, Bool, true, false, arith}
use vayu.State.{
  SysState, uninitialized, init, standby, prearm, armed, in_air, failsafe, terminated, esc_calib,
  ok, err_invalid, set, run,
}

-- A request either succeeds, and the state is the one requested, or is rejected with an error and a
-- log line, and the state is unchanged.
pub set_outcome :
    (cur new : SysState)
    → ((set cur new).status ≡ ok) × ((set cur new).state ≡ new) × ((set cur new).logged ≡ false)
      ⊎ ((set cur new).status ≡ err_invalid)
        × ((set cur new).state ≡ cur)
        × ((set cur new).logged ≡ true)
unfolding set
set_outcome cur new = ground arith

-- FAILSAFE is granted from every state.
pub set-failsafe : (cur : SysState) → (set cur failsafe).state ≡ failsafe
unfolding set
set-failsafe cur = ground arith

pub set-standby_of_live :
    (cur : SysState)
    → (cur ≡ armed) ⊎ (cur ≡ in_air) ⊎ (cur ≡ failsafe)
    → (set cur standby).state ≡ standby
unfolding set
set-standby_of_live cur h = ground arith

-- The states from which a request can turn the motors on.
abbrev pub CanArm : SysState → Type 0
CanArm s = (s ≡ standby) ⊎ (s ≡ prearm) ⊎ (s ≡ armed) ⊎ (s ≡ in_air)

-- A granted request leads to ARMED only from STANDBY, PREARM, ARMED or IN_AIR.
pub armed_sources : (cur new : SysState) → (set cur new).state ≡ armed → CanArm cur
unfolding set
armed_sources cur new h = ground arith

pub in_air_sources :
    (cur new : SysState) → (set cur new).state ≡ in_air → (cur ≡ armed) ⊎ (cur ≡ in_air)
unfolding set
in_air_sources cur new h = ground arith

pub prearm_sources :
    (cur new : SysState) → (set cur new).state ≡ prearm → (cur ≡ standby) ⊎ (cur ≡ prearm)
unfolding set
prearm_sources cur new h = ground arith

-- ESC calibration is entered only from INIT or STANDBY, and left only to STANDBY or FAILSAFE.
pub esc_calib_gate :
    (cur new : SysState)
    → ((set cur new).state ≡ esc_calib → (cur ≡ init) ⊎ (cur ≡ standby) ⊎ (cur ≡ esc_calib))
      × (cur ≡ esc_calib
          → ((set cur new).state ≡ standby)
            ⊎ ((set cur new).state ≡ failsafe)
            ⊎ ((set cur new).state ≡ esc_calib))
unfolding set
esc_calib_gate cur new = (λ h. ground arith, λ h. ground arith)

-- The state passes through `t` at some point of the run.
abbrev pub Visits : SysState → SysState → List SysState → Type 0
Visits t cur [] = cur ≡ t
Visits t cur (new ∷ rest) = (cur ≡ t) ⊎ Visits t (set cur new).state rest

Visits-now : (t : SysState) {cur : SysState} (reqs : List SysState) → cur ≡ t → Visits t cur reqs
Visits-now t [] e = e
Visits-now t (new ∷ rest) e = inl e

-- Neither armed nor on the way to it.
abbrev pub is_safe : SysState → Bool
is_safe prearm = false
is_safe armed = false
is_safe in_air = false
is_safe _ = true

is_safe-set :
    (cur new : SysState)
    → is_safe cur ≡ true
    → (cur ≡ standby) ⊎ (is_safe (set cur new).state ≡ true)
unfolding set
is_safe-set cur new h = ground arith

-- No sequence of requests, whoever makes them, leads from a state other than PREARM, ARMED and
-- IN_AIR to ARMED or IN_AIR without passing through STANDBY.
pub arming_passes_standby :
    (cur : SysState) (reqs : List SysState)
    → is_safe cur ≡ true
    → (run cur reqs ≡ armed) ⊎ (run cur reqs ≡ in_air)
    → Visits standby cur reqs
unfolding run
arming_passes_standby cur [] s h = ground arith
arming_passes_standby cur (new ∷ rest) s h = elim (is_safe-set cur new s) [
  | inl e ↦ inl e
  | inr s' ↦ inr (arming_passes_standby (set cur new).state rest s' h)
]

-- TERMINATED and UNINITIALIZED are never granted: a request for either is refused unless the state
-- is that one already.
pub dead_states :
    (cur new : SysState)
    → (new ≡ terminated) ⊎ (new ≡ uninitialized)
    → cur ≢ new
    → set cur new ≡ record { state = cur; status = err_invalid; logged = true }
unfolding set
dead_states cur new h n = ground arith
