-- ===== src/Hub/Slot.antt =====
-- The one slot of the vertical state of firmware/src/hub/hub.c, and what it refines.
use vayu.Common.{
  ◌+◌, ◌<◌, ◌≤◌, ◌≡◌, ap₂, suc, refl, Bool, true, false, not, Option, none, some, List, [], ◌∷◌,
  length, ◌==◌, if◌then◌else◌, u32, arith, Bool-cases, inl, inr,
}
use vayu.Hub.{Vertical}

pub data Use (A : Type 0) : Type 0 where
  push : A → Use A
  peek : Use A
  pop : Use A

module _ {A : Type 0} where
  -- `vertical_state_queue_push`, on a pointer that is not null.
  unfoldable pub vertical_push : A → Vertical A → Vertical A
  vertical_push a s = record s { latest = a; seq = u32 (s.seq + 1) }

  -- `vertical_state_queue_peek`.
  unfoldable pub vertical_peek : Vertical A → Option A
  vertical_peek s = if not (s.seq == 0) then some s.latest else none

  -- `vertical_state_queue_pop`.
  unfoldable pub vertical_pop : Vertical A → Option A × Vertical A
  vertical_pop s =
      if not (s.seq == s.seq_popped)
      then (some s.latest, record s { seq_popped = s.seq })
      else (none, s)

  -- What the readers get from a list of uses, in order.
  unfoldable pub answers : List (Use A) → Vertical A → List (Option A)
  answers [] s = []
  answers (push a ∷ us) s = answers us (vertical_push a s)
  answers (peek ∷ us) s = vertical_peek s ∷ answers us s
  answers (pop ∷ us) s = (vertical_pop s).0 ∷ answers us (vertical_pop s).1

  -- The slot that the readers are promised: the newest state, and whether it is new.
  pub promised : List (Use A) → Option A → Bool → List (Option A)
  promised [] v fresh = []
  promised (push a ∷ us) v fresh = promised us (some a) true
  promised (peek ∷ us) v fresh = v ∷ promised us v fresh
  promised (pop ∷ us) v fresh = (if fresh then v else none) ∷ promised us v false

  -- The slot with a sequence number that has not wrapped.
  record Matches (s : Vertical A) (v : Option A) (fresh : Bool) : Type 0 where
    value : v ≡ (if s.seq == 0 then none else some s.latest)
    bookmark : fresh ≡ not (s.seq == s.seq_popped)
    behind : s.seq_popped ≤ s.seq

  push-Matches :
      (a : A) (s : Vertical A) (v : Option A) (fresh : Bool)
      → s.seq + 1 < 4294967296
      → Matches s v fresh
      → Matches (vertical_push a s) (some a) true
  unfolding vertical_push
  push-Matches a s v fresh h m = record {
    value = ground (arith, m.behind);
    bookmark = ground (arith, m.behind);
    behind = omega (arith, m.behind);
  }

  pop-Matches :
      (s : Vertical A) (v : Option A) (fresh : Bool)
      → Matches s v fresh
      → ((vertical_pop s).0 ≡ (if fresh then v else none))
        × Matches (vertical_pop s).1 v false
        × ((vertical_pop s).1.seq ≡ s.seq)
  unfolding vertical_pop
  pop-Matches s v fresh m = elim (Bool-cases (s.seq == s.seq_popped)) [
    | inl e ↦
        simp (vertical_pop, e)
          (
            ground (arith, m.bookmark),
            record { value = m.value; bookmark = ground arith; behind = m.behind },
            refl,
          )
    | inr e ↦
        simp (vertical_pop, e)
          (
            ground (arith, m.bookmark, m.value, m.behind),
            record { value = m.value; bookmark = ground arith; behind = omega arith },
            refl,
          )
  ]

  pushed :
      (a : A) (s : Vertical A) (us : List (Use A))
      → s.seq + suc (length us) < 4294967296
      → (vertical_push a s).seq + length us < 4294967296
  unfolding vertical_push
  pushed a s us h = omega arith

  answers_lem :
      (us : List (Use A)) (s : Vertical A) (v : Option A) (fresh : Bool)
      → s.seq + length us < 4294967296
      → Matches s v fresh
      → answers us s ≡ promised us v fresh
  unfolding answers promised
  answers_lem [] s v fresh h m = refl
  answers_lem (push a ∷ us) s v fresh h m =
      answers_lem us (vertical_push a s) (some a) true (pushed a s us h)
        (push-Matches a s v fresh (omega arith) m)
  answers_lem (peek ∷ us) s v fresh h m =
      ap₂ (λ x xs. x ∷ xs) (unfold vertical_peek in ground (arith, m.value))
        (answers_lem us s v fresh (omega arith) m)
  answers_lem (pop ∷ us) s v fresh h m =
      let (e, k, q) = pop-Matches s v fresh m in
      ap₂ (λ x xs. x ∷ xs) e (answers_lem us (vertical_pop s).1 v false (omega (arith, q)) k)

  -- Before anything is published.
  abbrev pub unpublished : A → Vertical A
  unpublished a = record { latest = a; seq = 0; seq_popped = 0 }

  -- The slot gives its two readers what they are promised: from the start, fewer than 2 ^ 32 publishes,
  -- peeks and pops in any order give a peek the newest state, or nothing before the first, and a pop
  -- the newest state exactly if one was published since the last pop.
  pub slot_refines :
      (us : List (Use A)) (a : A)
      → length us < 4294967296
      → answers us (unpublished a) ≡ promised us none false
  slot_refines us a h =
      answers_lem us (unpublished a) none false (omega arith)
        (record { value = refl; bookmark = refl; behind = omega arith })

  -- The publish that wraps the sequence number hides the state from a peek: after publish number
  -- 2 ^ 32 a peek answers that there has never been one.
  wrap_hides :
      (a : A) (s : Vertical A) → s.seq ≡ 4294967295 → vertical_peek (vertical_push a s) ≡ none
  unfolding vertical_push vertical_peek
  wrap_hides a s h = ground arith
