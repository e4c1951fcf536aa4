-- ===== src/IrqRegistry/Tests.antt =====
-- A registry of two slots for firmware/src/sys/irq_registry.c.
use vayu.Common.{List, [], ◌∷◌, none, some}
use vayu.IrqRegistry.{Slot}

abbrev slots : List Slot
slots = record { vector = 37; owner = some (1 ∷ []) } ∷ record { vector = 0; owner = none } ∷ []
