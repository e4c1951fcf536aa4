-- ===== src/Channel/Tests.antt =====
-- Concrete channels for firmware/src/comm/channel.c.
use vayu.Common.{◌≡◌, refl, true, false, List, [], ◌∷◌, arith}
use vayu.Channel.{Channel, write, write_xfer, write_upto, flush, complete}
use vayu.Channel.Fifo.{Event, wrote, wrote_xfer, flushes, completes, Trace, run, IsFifo, run-IsFifo}

abbrev idle : Channel
idle = record { buf0 = []; buf1 = []; active = false; busy = false; by_dma = true; overflow = 0 }

abbrev fresh : Trace
fresh = record { channel = idle; accepted = []; passed = [] }

abbrev events : List Event
events = wrote (1 ∷ []) ∷ flushes ∷ wrote_xfer (2 ∷ []) ∷ flushes ∷ completes ∷ flushes ∷ []

run-IsFifo_example : IsFifo (run events fresh)
run-IsFifo_example = run-IsFifo events fresh (record { order = refl; fits = omega arith })

events_pass_all : (run events fresh).passed ≡ 1 ∷ 2 ∷ []
unfolding write write_xfer write_upto flush complete
events_pass_all = refl

abbrev sending : Channel
sending = record idle { buf0 = 1 ∷ []; active = true; busy = true }
