-- ===== src/FsOwner/SyncTests.antt =====
-- Queues of one place between a caller and the file-system task, for firmware/src/storage/fs_owner.c.
use vayu.Common.{Bool, true, false, [], ◌∷◌, Option, none, some, ℤ, pos, negsuc, ◌≡◌, refl, arith}
use vayu.FsOwner.Lanes.{Queues, SyncReq, unlink, truncate}
use vayu.FsOwner.Sync.{Gate, IsGate, sync_call, ask, late_answer_misleads}

record Desk : Type 0 where
  token : Bool
  request : Option SyncReq
  result : Option ℤ

-- A push into a place.
abbrev place : {A : Type 0} → A → Option A → Bool × Option A
place a none = (true, some a)
place a (some b) = (false, some b)

abbrev gate : Gate Desk
gate = record {
  lock_pop = λ w. (w.token, record w { token = false });
  lock_push = λ w. record w { token = true };
  request_push = λ r w. ((place r w.request).0, record w { request = (place r w.request).1 });
  result_pop = λ w. (w.result, record w { result = none });
}

-- The task takes the request when it answers.
abbrev desk_queues : Queues Desk
desk_queues = record {
  save_pop = λ w. (none, w);
  save_push = λ req w. (true, w);
  write_pop = λ w. (none, w);
  retry_pop = λ w. (none, w);
  sync_pop = λ w. (w.request, record w { request = none });
  result_push = λ n w. record w { request = none; result = (place n w.result).1 };
  browse = λ req w. (pos 0, w);
  hsl_drain = λ w. w;
}

answered : (n : ℤ) (o : Option ℤ) → o ≡ none → (place n o).1 ≡ some n
answered n none h = refl
answered n (some m) h = absurd (ground (arith, h))

gate-IsGate : IsGate gate desk_queues (λ w. w.result)
gate-IsGate = record {
  locks = λ w. refl;
  unlocks = λ w. refl;
  requests = λ r w. refl;
  answers = λ n w h. answered n w.result h;
  oldest = λ n w h. h;
  timed_out = λ w h. refl;
}

abbrev idle : Desk
idle = record { token = true; request = none; result = none }

-- An unlink that is answered too late answers the truncation after it.
late_answer_misleads_example :
    ((sync_call gate (unlink (97 ∷ [])) idle).0 ≡ negsuc 0)
    × ((sync_call gate
          (truncate (98 ∷ []))
          (desk_queues.result_push (pos 0) (sync_call gate (unlink (97 ∷ [])) idle).1)).0
        ≡ pos 0)
unfolding sync_call ask
late_answer_misleads_example =
    late_answer_misleads gate desk_queues (λ w. w.result) gate-IsGate (unlink (97 ∷ []))
      (truncate (98 ∷ [])) (pos 0) idle refl refl refl refl refl
