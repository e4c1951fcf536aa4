-- ===== src/IrqRegistry.antt =====
-- firmware/src/sys/irq_registry.c: who owns which interrupt vector. An owner is a string; the log lines
-- are left out.
mod Tests
use vayu.Common.{
  ℕ, ◌+◌, ◌≡◌, ◌<◌, ◌≤◌, ◌≢◌, Bool, true, false, List, [], ◌∷◌, length, Option, none, some, ◌==◌,
  ◌&&◌, if◌then◌else◌, refl, arith, ap, ap₂, ◌∙◌, Bool-cases, Option-cases, inl, inr, ◌⊎◌,
}

-- `irq_slot_t`; a null owner is `none`.
pub record Slot : Type 0 where
  pub vector : ℕ
  pub owner : Option (List ℕ)

-- The test of `_find` on one slot.
abbrev holds : Slot → ℕ → Bool
holds s v = elim s.owner [ none ↦ false | some _ ↦ s.vector == v ]

-- `_find`: the owner of the first slot that holds the vector.
unfoldable pub owner_of : List Slot → ℕ → Option (List ℕ)
owner_of [] v = none
owner_of (s ∷ ss) v = if holds s v then s.owner else owner_of ss v

-- `_same` on strings that are not null.
unfoldable pub same : List ℕ → List ℕ → Bool
same [] [] = true
same [] (y ∷ ys) = false
same (x ∷ xs) [] = false
same (x ∷ xs) (y ∷ ys) = (x == y) && same xs ys

-- `held->owner = o` for the slot that `_find` gives.
unfoldable pub put_owner : List Slot → ℕ → Option (List ℕ) → List Slot
put_owner [] v o = []
put_owner (s ∷ ss) v o = if holds s v then record s { owner = o } ∷ ss else s ∷ put_owner ss v o

-- The loop that takes the first free slot: the slots, and whether there was one.
unfoldable pub take_free : List Slot → ℕ → List ℕ → List Slot × Bool
take_free [] v o = ([], false)
take_free (s ∷ ss) v o =
    let rest = take_free ss v o in
    elim s.owner [
      | none ↦ (record { vector = v; owner = some o } ∷ ss, true)
      | some _ ↦ (s ∷ rest.0, rest.1)
    ]

-- `irq_registry_claim`.
unfoldable pub claim : List Slot → ℕ → List ℕ → List Slot × Bool
claim ss v o = elim (owner_of ss v) [
  | none ↦ take_free ss v o
  | some h ↦ if same h o then (ss, true) else (put_owner ss v (some o), false)
]

-- `irq_registry_release`.
unfoldable pub release : List Slot → ℕ → List ℕ → List Slot
release ss v o = elim (owner_of ss v) [
  | none ↦ ss
  | some h ↦ if same h o then put_owner ss v none else ss
]

-- Vectors that no slot of the list holds keep their owner.
other_put :
    (ss : List Slot) (v u : ℕ) (o : Option (List ℕ))
    → v ≢ u
    → owner_of (put_owner ss v o) u ≡ owner_of ss u
unfolding owner_of put_owner
other_put [] v u o n = refl
other_put (s ∷ ss) v u o n = elim (Option-cases s.owner) [
  | inl e ↦ ground (arith, other_put ss v u o n)
  | inr (p, e) ↦ ground (arith, other_put ss v u o n)
]

same_sound : (xs ys : List ℕ) → same xs ys ≡ true → xs ≡ ys
unfolding same
same_sound [] [] h = refl
same_sound [] (y ∷ ys) h = absurd (grind arith)
same_sound (x ∷ xs) [] h = absurd (grind arith)
same_sound (x ∷ xs) (y ∷ ys) h =
    ap₂ (λ z zs. z ∷ zs) (ground arith) (same_sound xs ys (ground arith))

taken :
    (ss : List Slot) (v : ℕ) (o : List ℕ)
    → owner_of ss v ≡ none
    → (take_free ss v o).1 ≡ true
    → owner_of (take_free ss v o).0 v ≡ some o
unfolding owner_of take_free
taken [] v o n h = absurd (grind arith)
taken (s ∷ ss) v o n h = elim (Option-cases s.owner) [
  | inl e ↦ ground arith
  | inr (p, e) ↦ ground (arith, taken ss v o)
]

other_taken :
    (ss : List Slot) (v u : ℕ) (o : List ℕ)
    → v ≢ u
    → owner_of (take_free ss v o).0 u ≡ owner_of ss u
unfolding owner_of take_free
other_taken [] v u o n = refl
other_taken (s ∷ ss) v u o n = elim (Option-cases s.owner) [
  | inl e ↦ ground arith
  | inr (p, e) ↦ ground (arith, other_taken ss v u o n)
]

-- A claim that succeeds leaves the vector with the claimant, whoever had it before.
pub claim_owns :
    (ss : List Slot) (v : ℕ) (o : List ℕ)
    → (claim ss v o).1 ≡ true
    → owner_of (claim ss v o).0 v ≡ some o
unfolding claim
claim_owns ss v o h = elim (Option-cases (owner_of ss v)) [
  | inl e ↦
      let g : (take_free ss v o).1 ≡ true = simp (claim, e) at h in
      simp (claim, e) (taken ss v o e g)
  | inr (p, e) ↦ elim (Bool-cases (same p o)) [
    | inl q ↦ simp (claim, e, q) (ap some (same_sound p o q))
    | inr q ↦ absurd (ground (claim, e, q, arith))
  ]
]

-- A claim of one vector, whatever its result, and a release of one change no other vector's owner.
pub claim_spares :
    (ss : List Slot) (v u : ℕ) (o : List ℕ)
    → v ≢ u
    → (owner_of (claim ss v o).0 u ≡ owner_of ss u) × (owner_of (release ss v o) u ≡ owner_of ss u)
unfolding claim release
claim_spares ss v u o n = elim (Option-cases (owner_of ss v)) [
  | inl e ↦ simp (claim, release, e) (other_taken ss v u o n, refl)
  | inr (p, e) ↦ elim (Bool-cases (same p o)) [
    | inl q ↦ simp (claim, release, e, q) (refl, other_put ss v u none n)
    | inr q ↦ simp (claim, release, e, q) (other_put ss v u (some o) n, refl)
  ]
]
