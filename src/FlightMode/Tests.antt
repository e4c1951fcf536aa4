-- ===== src/FlightMode/Tests.antt =====
-- A command of one argument for firmware/src/control/flight_mode.c.
use vayu.Common.{ℕ, false, List, [], ◌∷◌}
use vayu.FlightMode.{Arbiter, angle, rc}

abbrev at_boot : Arbiter
at_boot = record { override_active = false; override_mode = angle; effective = angle; source = rc }

-- The payload of 1.0.
abbrev acro_command : List ℕ
acro_command = 7 ∷ 0 ∷ 1 ∷ 0 ∷ 0 ∷ 128 ∷ 63 ∷ []
