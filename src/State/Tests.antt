-- ===== src/State/Tests.antt =====
-- Tests and instances for the system state.
use vayu.Common.{◌≡◌, refl, inr, List, [], ◌∷◌}
use vayu.State.{SysState, standby, armed, in_air, failsafe, set, run}
use vayu.State.Rules.{Visits, arming_passes_standby}

abbrev flight : List SysState
flight = standby ∷ armed ∷ in_air ∷ []

flight_flies : run failsafe flight ≡ in_air
unfolding run set
flight_flies = refl

arming_passes_standby_example : Visits standby failsafe flight
unfolding run set
arming_passes_standby_example = arming_passes_standby failsafe flight refl (inr refl)
