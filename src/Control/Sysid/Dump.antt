-- ===== src/Control/Sysid/Dump.antt =====
-- The read-out of a run of firmware/src/control/sysid.c, as src/comm's telemetry task asks for it.
use vayu.Common.{
  ℕ, zero, suc, ◌+◌, ◌-◌, ◌≤◌, ◌<◌, ◌≡◌, refl, sym, ap, ◌∙◌, Bool, true, false, List, [], ◌∷◌, ◌++◌,
  map, length, take, take_all, drop, length-append, length-take, length-drop, take-append-drop,
  drop-drop, ltb, ltb→lt, lt→ltb, leb, leb→le, ◌==◌, if◌then◌else◌, ℤ, u16, arith, Bool-cases, inl,
  inr,
}
use mathlib.Core.List.{append_assoc, append-nil}
use mathlib.Core.Path.{subst}
use vayu.Maths.{Float}
use vayu.Control.Sysid.Accepted.{begun_lem}
use vayu.Control.Sysid.{
  Sysid, cap_samples, Request, start, begun, quantised, capture, dump_request, dump_next, abort,
  least,
}

-- A run of the control loop.
abbrev pub collect : {F : Type 0} → Float F → (F → ℤ) → List ((ℕ → F) × (ℕ → F)) → Sysid F → Sysid F
collect fl trunc [] s = s
collect fl trunc (x ∷ xs) s = collect fl trunc xs (capture fl trunc x s)

-- Every second of a list.
abbrev pub seconds : {A : Type 0} → List A → List A
seconds [] = []
seconds (x ∷ []) = []
seconds (x ∷ y ∷ xs) = y ∷ seconds xs

-- One round of the loop of the telemetry task (firmware/src/comm/telemetry_task.c), of which a turn of
-- the task makes up to two: at most one chunk.
abbrev pub poll : {F : Type 0} → ℕ → Sysid F → List (ℕ × List (ℤ × ℤ)) × Sysid F
poll room s =
    let r = dump_next room s in
    if s.dump_active then (if ltb 0 (length r.0.1) then r.0 ∷ [] else [], r.1) else ([], s)

-- As many rounds as a number; a round without a dump does nothing.
abbrev pub polls : {F : Type 0} → ℕ → ℕ → Sysid F → List (ℕ × List (ℤ × ℤ)) × Sysid F
polls zero room s = ([], s)
polls (suc n) room s = let r = poll room s in let rest = polls n room r.1 in (r.0 ++ rest.0, rest.1)

abbrev pub joined : List (ℕ × List (ℤ × ℤ)) → List (ℤ × ℤ)
joined [] = []
joined (c ∷ cs) = c.1 ++ joined cs

-- Each chunk says how many samples came before it.
abbrev pub is_placed : ℕ → List (ℕ × List (ℤ × ℤ)) → Bool
is_placed n [] = true
is_placed n (c ∷ cs) = if c.0 == n then is_placed (n + length c.1) cs else false

take_prefix : {A : Type 0} (n : ℕ) (xs ys : List A) → n ≡ length xs → take n (xs ++ ys) ≡ xs
take_prefix zero [] ys h = refl
take_prefix zero (x ∷ xs) ys h = absurd (omega arith)
take_prefix (suc n) [] ys h = absurd (omega arith)
take_prefix (suc n) (x ∷ xs) ys h = ap (λ zs. x ∷ zs) (take_prefix n xs ys (omega arith))

drop_all : {A : Type 0} (n : ℕ) (xs : List A) → length xs ≤ n → drop n xs ≡ []
drop_all zero [] h = refl
drop_all zero (x ∷ xs) h = absurd (omega arith)
drop_all (suc n) [] h = refl
drop_all (suc n) (x ∷ xs) h = drop_all n xs (omega arith)

module _ {F : Type 0} (fl : Float F) (trunc : F → ℤ) where
  full_lem :
      (x y : (ℕ → F) × (ℕ → F)) (s : Sysid F)
      → s.active ≡ true
      → s.allocated ≡ true
      → s.decim ≡ 0
      → leb cap_samples (length s.cap) ≡ true
      → capture fl trunc y (capture fl trunc x s) ≡ record s { decim = 0 }
  unfolding capture
  full_lem x y s a h d f = simp (a, h, d, f)

  room_lem :
      (x y : (ℕ → F) × (ℕ → F)) (s : Sysid F)
      → s.active ≡ true
      → s.allocated ≡ true
      → s.decim ≡ 0
      → leb cap_samples (length s.cap) ≡ false
      → capture fl trunc y (capture fl trunc x s)
        ≡ record s { decim = 0; cap = s.cap ++ (quantised fl trunc s.axis y ∷ []) }
  unfolding capture
  room_lem x y s a h d f = simp (a, h, d, f)

  one_lem :
      (x : (ℕ → F) × (ℕ → F)) (s : Sysid F)
      → s.active ≡ true
      → s.allocated ≡ true
      → s.decim ≡ 0
      → (capture fl trunc x s).cap ≡ s.cap
  unfolding capture
  one_lem x s a h d = simp (a, h, d)

  -- What a run keeps of the samples that come in.
  collect_cap :
      (xs : List ((ℕ → F) × (ℕ → F))) (s : Sysid F)
      → s.active ≡ true
      → s.allocated ≡ true
      → s.decim ≡ 0
      → length s.cap ≤ cap_samples
      → (collect fl trunc xs s).cap
        ≡ take cap_samples (s.cap ++ map (quantised fl trunc s.axis) (seconds xs))
  collect_cap [] s a h d l =
      sym (ap (take cap_samples) (append-nil s.cap) ∙ take_all cap_samples s.cap l)
  collect_cap (x ∷ []) s a h d l =
      one_lem x s a h d
      ∙ sym (ap (take cap_samples) (append-nil s.cap) ∙ take_all cap_samples s.cap l)
  collect_cap (x ∷ y ∷ xs) s a h d l = elim (Bool-cases (leb cap_samples (length s.cap))) [
    | inl f ↦
        ap (λ t. (collect fl trunc xs t).cap) (full_lem x y s a h d f)
        ∙ collect_cap xs (record s { decim = 0 }) a h refl l
        ∙ take_prefix cap_samples s.cap _ (ground arith)
        ∙ sym (take_prefix cap_samples s.cap _ (ground arith))
    | inr f ↦
        let s' = record s { decim = 0; cap = s.cap ++ (quantised fl trunc s.axis y ∷ []) } in
        ap (λ t. (collect fl trunc xs t).cap) (room_lem x y s a h d f)
        ∙ collect_cap xs s' a h refl
            (ground (arith, length-append s.cap (quantised fl trunc s.axis y ∷ [])))
        ∙ ap (take cap_samples) (
            append_assoc s.cap (quantised fl trunc s.axis y ∷ [])
              (map (quantised fl trunc s.axis) (seconds xs)))
  ]

-- The size of a chunk.
abbrev chunk : {F : Type 0} → ℕ → Sysid F → ℕ
chunk room s = least (length s.cap - s.dump_pos) (least room 10)

-- A dump on its way, and what is left to it.
record IsDumping {F : Type 0} (left : ℕ) (s : Sysid F) : Type 0 where
  on : s.dump_active ≡ true
  short : length s.cap ≤ cap_samples
  begun : s.dump_pos < length s.cap
  rest : length s.cap ≤ s.dump_pos + left

-- Chunks that are `xs` from `n` on, one after the other, and no dump afterwards.
pub record IsWhole {F : Type 0} (n : ℕ) (xs : List (ℤ × ℤ)) (r : List (ℕ × List (ℤ × ℤ)) × Sysid F)
    : Type 0 where
  pub all : joined r.0 ≡ xs
  pub placed : is_placed n r.0 ≡ true
  pub ended : r.1.dump_active ≡ false

module _ {F : Type 0} (room : ℕ) (some_room : 0 < room) where
  -- The read-out after a chunk.
  abbrev moved : Sysid F → Bool → Sysid F
  moved s on = record s { dump_pos = s.dump_pos + chunk room s; dump_active = on }

  chunk_lem :
      (s : Sysid F) {left : ℕ}
      → IsDumping left s
      → (0 < chunk room s) × (s.dump_pos + chunk room s ≤ length s.cap)
  chunk_lem s d = ground (arith, d.begun)

  length_chunk :
      (s : Sysid F) {left : ℕ}
      → IsDumping left s
      → length (take (chunk room s) (drop s.dump_pos s.cap)) ≡ chunk room s
  length_chunk s d =
      let c = chunk_lem s d in
      omega (
        arith,
        length-take (chunk room s) (drop s.dump_pos s.cap),
        length-drop s.dump_pos s.cap,
        c.1,
      )

  poll_lem :
      (s : Sysid F) {left : ℕ}
      → IsDumping left s
      → poll room s ≡ (
        (s.dump_pos, take (chunk room s) (drop s.dump_pos s.cap)) ∷ [],
        moved s (if leb (length s.cap) (s.dump_pos + chunk room s) then false else s.dump_active),
      )
  unfolding dump_next
  poll_lem s d =
      let c = chunk_lem s d in
      let e : leb (length s.cap) s.dump_pos ≡ false = ground (arith, d.begun) in
      let w : u16 s.dump_pos ≡ s.dump_pos = omega (arith, d.begun, d.short) in
      let z : ltb 0 (length (take (chunk room s) (drop s.dump_pos s.cap))) ≡ true =
        lt→ltb 0 _ (omega (arith, length_chunk s d, c.0)) in
      simp (d.on, e, w, z)

  polls_idle : (n : ℕ) (s : Sysid F) → s.dump_active ≡ false → polls n room s ≡ ([], s)
  polls_idle zero s h = refl
  polls_idle (suc n) s h = simp (h, polls_idle n s h)

  -- A chunk and what follows it.
  chunk-IsWhole :
      (s : Sysid F) (n : ℕ) {left : ℕ} (b : Bool)
      → IsDumping left s
      → poll room s ≡ ((s.dump_pos, take (chunk room s) (drop s.dump_pos s.cap)) ∷ [], moved s b)
      → IsWhole
          (s.dump_pos + chunk room s)
          (drop (s.dump_pos + chunk room s) s.cap)
          (polls n room (moved s b))
      → IsWhole s.dump_pos (drop s.dump_pos s.cap) (polls (suc n) room s)
  chunk-IsWhole s n b d e w =
      let k = chunk room s in
      let xs = drop s.dump_pos s.cap in
      let same : (s.dump_pos == s.dump_pos) ≡ true = ground arith in
      subst (λ r. IsWhole s.dump_pos xs (r.0 ++ (polls n room r.1).0, (polls n room r.1).1)) (sym e)
        (record {
          all =
              ap (λ ys. take k xs ++ ys) (w.all ∙ sym (drop-drop k s.dump_pos s.cap))
              ∙ take-append-drop k xs;
          placed =
              ap
                (λ c.
                  if c
                  then is_placed (s.dump_pos + length (take k xs)) (polls n room (moved s b)).0
                  else false)
                same
              ∙ ap (λ l. is_placed (s.dump_pos + l) (polls n room (moved s b)).0) (length_chunk s d)
              ∙ w.placed;
          ended = w.ended;
        })

  idle-IsWhole :
      (n k : ℕ) (s : Sysid F)
      → s.dump_active ≡ false
      → length s.cap ≤ k
      → IsWhole k (drop k s.cap) (polls n room s)
  idle-IsWhole n k s h l =
      subst (IsWhole k (drop k s.cap)) (sym (polls_idle n s h))
        (record { all = sym (drop_all k s.cap l); placed = refl; ended = h })

  polls-IsWhole :
      (n : ℕ) (s : Sysid F)
      → IsDumping n s
      → IsWhole s.dump_pos (drop s.dump_pos s.cap) (polls n room s)
  polls-IsWhole zero s d = absurd (omega (arith, d.begun, d.rest))
  polls-IsWhole (suc n) s d = elim (Bool-cases (leb (length s.cap) (s.dump_pos + chunk room s))) [
    | inl f ↦
        chunk-IsWhole s n false d (poll_lem s d ∙ simp f)
          (idle-IsWhole n (s.dump_pos + chunk room s) (moved s false) refl (leb→le _ _ f))
    | inr f ↦ chunk-IsWhole s n s.dump_active d (poll_lem s d ∙ simp f) (
        polls-IsWhole n (moved s s.dump_active) (record {
          on = d.on;
          short = d.short;
          begun = ground arith;
          rest = omega (arith, chunk_lem s d, d.rest);
        }))
  ]

-- What a dump hands out that is asked for once the run is over.
handed_out :
    {F : Type 0} (room n : ℕ) (t : Sysid F)
    → 0 < room
    → cap_samples ≤ n
    → length t.cap ≤ cap_samples
    → IsWhole 0 t.cap (polls n room (dump_request (abort t)))
unfolding abort dump_request
handed_out room n t r m l = elim (Bool-cases (ltb 0 (length t.cap))) [
  | inl f ↦
      polls-IsWhole room r n (dump_request (abort t))
        (record { on = f; short = l; begun = ltb→lt _ _ f; rest = omega arith })
  | inr f ↦ idle-IsWhole room r n 0 (dump_request (abort t)) f (ground arith)
]

-- When a request starts a run, the samples that come in are quantised, every second one of them is
-- kept, and a dump that is asked for once the run is aborted hands out the first 1000 of those that are
-- kept, in their order, each chunk with the number of the samples before it, and then ends: with some
-- room in each chunk, 1000 rounds of the telemetry task's loop are enough.
pub dump_complete :
    {F : Type 0} (fl : Float F) (trunc : F → ℤ) (malloc_ok : Bool) (req : Request F) (s : Sysid F)
    (xs : List ((ℕ → F) × (ℕ → F))) (room n : ℕ)
    → (start fl malloc_ok req s).0 ≡ true
    → 0 < room
    → cap_samples ≤ n
    → IsWhole 0
        (take cap_samples (map (quantised fl trunc req.axis) (seconds xs)))
        (polls n room (dump_request (abort (collect fl trunc xs (start fl malloc_ok req s).1))))
dump_complete fl trunc malloc_ok req s xs room n ok r m =
    let kept = take cap_samples (map (quantised fl trunc req.axis) (seconds xs)) in
    let e : (collect fl trunc xs (start fl malloc_ok req s).1).cap ≡ kept =
      ap (λ t. (collect fl trunc xs t).cap) (begun_lem fl malloc_ok req s ok)
      ∙ collect_cap fl trunc xs (begun fl req s) refl refl refl (omega arith) in
    subst
      (λ ys.
        IsWhole 0 ys
          (polls n room (dump_request (abort (collect fl trunc xs (start fl malloc_ok req s).1)))))
      e
      (handed_out room n _ r m (
        omega (
          arith,
          ap length e,
          length-take cap_samples (map (quantised fl trunc req.axis) (seconds xs)),
        )))
