-- ===== src/RxRing/Tests.antt =====
-- A run of the receive ring of firmware/src/comm/serializer.c from its initial state.
use vayu.Common.{ℕ, ◌≡◌, refl, List, [], ◌∷◌, length-replicate, arith}
use vayu.RxRing.{boot}
use vayu.RxRing.Queue.{Op, received, drained, IsRing, waiting, run, replay, run_refines}

abbrev ops : List Op
ops = received 7 ∷ received 8 ∷ drained 1 ∷ received 9 ∷ drained 64 ∷ []

boot-IsRing : IsRing boot
unfolding boot
boot-IsRing = record {
  storage = length-replicate {A = ℕ} 512 0;
  head_in = omega arith;
  tail_in = omega arith;
}

ops_take_all : (replay ops [] []).1 ≡ 7 ∷ 8 ∷ 9 ∷ []
ops_take_all = refl

run_refines_example :
    (waiting (run ops boot []).0 ≡ (replay ops (waiting boot) []).0)
    × ((run ops boot []).1 ≡ (replay ops (waiting boot) []).1)
run_refines_example = run_refines ops boot [] boot-IsRing
