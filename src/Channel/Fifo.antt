-- ===== src/Channel/Fifo.antt =====
-- Order and loss on the transmit side of firmware/src/comm/channel.c.
use vayu.Common.{
  ℕ, ◌+◌, ◌<◌, ◌≤◌, ◌≡◌, refl, sym, ap, ◌∙◌, true, false, List, [], ◌∷◌, ◌++◌, length,
  length-append, arith, Bool-cases, inl, inr, ltb, ◌==◌, not,
}
use mathlib.Core.Path.{subst}
use mathlib.Core.List.{append_assoc, append-nil}
use vayu.Channel.{
  Channel, Err, none, error, usage, filling, flushed, fill, write_upto, write, write_xfer, flush,
  complete,
}

-- What can happen to a channel, in any interleaving.
pub data Event : Type 0 where
  wrote : List ℕ → Event
  wrote_xfer : List ℕ → Event
  flushes : Event
  completes : Event

-- The bytes that a write puts in the buffer.
abbrev pub taken : Err → List ℕ → List ℕ
taken none bytes = bytes
taken error bytes = []
taken usage bytes = []

-- A channel after some events, with the bytes accepted so far and those passed to the driver.
pub record Trace : Type 0 where
  pub channel : Channel
  pub accepted : List ℕ
  pub passed : List ℕ

abbrev pub step : Event → Trace → Trace
step (wrote b) t = record {
  channel = (write b t.channel).0;
  accepted = t.accepted ++ taken (write b t.channel).1 b;
  passed = t.passed;
}
step (wrote_xfer b) t = record {
  channel = (write_xfer b t.channel).0;
  accepted = t.accepted ++ taken (write_xfer b t.channel).1 b;
  passed = t.passed;
}
step flushes t = record {
  channel = (flush t.channel).1;
  accepted = t.accepted;
  passed = t.passed ++ (flush t.channel).0;
}
step completes t = record t { channel = complete t.channel }

abbrev pub run : List Event → Trace → Trace
run [] t = t
run (e ∷ es) t = run es (step e t)

-- What is passed on and what is still buffered make up what was accepted, and the buffer fits.
pub record IsFifo (t : Trace) : Type 0 where
  pub order : t.accepted ≡ t.passed ++ filling t.channel
  pub fits : length (filling t.channel) ≤ 2048

filling-fill : (b : List ℕ) (c : Channel) → filling (fill b c) ≡ b
filling-fill b c = elim (Bool-cases c.active) [ inl h ↦ simp h refl | inr h ↦ simp h refl ]

flushed-fill : (b : List ℕ) (c : Channel) → flushed (fill b c) ≡ flushed c
flushed-fill b c = elim (Bool-cases c.active) [ inl h ↦ simp h refl | inr h ↦ simp h refl ]

-- The buffer that a flush starts to fill is empty.
swapped :
    (c : Channel)
    → filling (record (fill [] (record c { active = not c.active })) { busy = c.by_dma }) ≡ []
swapped c = elim (Bool-cases c.active) [ inl h ↦ simp h refl | inr h ↦ simp h refl ]

write_upto_outcome :
    (most cap : ℕ) (b : List ℕ) (c : Channel)
    → cap ≤ most
    → length (filling c) ≤ most
    → (filling (write_upto cap b c).0 ≡ filling c ++ taken (write_upto cap b c).1 b)
      × (length (filling (write_upto cap b c).0) ≤ most)
unfolding write_upto
write_upto_outcome most cap b c h k = elim (Bool-cases (length b == 0)) [
  | inl z ↦ simp (write_upto, z) (sym (append-nil (filling c)), k)
  | inr z ↦ elim (Bool-cases (ltb cap (length (filling c) + length b))) [
    | inl l ↦ simp (write_upto, z, l) (sym (append-nil (filling c)), k)
    | inr l ↦
        let m : length (filling c) + length b ≤ cap = ground arith in
        simp (write_upto, z, l, filling-fill (filling c ++ b) c)
          (refl, omega (arith, m, h, length-append (filling c) b))
  ]
]

flush_passes :
    (c : Channel)
    → c.busy ≡ false
    → (length (filling c) == 0) ≡ false
    → flush c
      ≡ (filling c, record (fill [] (record c { active = not c.active })) { busy = c.by_dma }, none)
unfolding flush
flush_passes c b z = simp (flush, b, z) refl

flush_outcome :
    (c : Channel)
    → ((flush c).0 ++ filling (flush c).1 ≡ filling c)
      × (length (filling (flush c).1) ≤ length (filling c))
unfolding flush
flush_outcome c = elim (Bool-cases c.busy) [
  | inl b ↦ simp (flush, b) (refl, omega arith)
  | inr b ↦ elim (Bool-cases (length (filling c) == 0)) [
    | inl z ↦ simp (flush, b, z) (refl, omega arith)
    | inr z ↦
        subst
          (λ (r : List ℕ × Channel × Err).
            (r.0 ++ filling r.1 ≡ filling c) × (length (filling r.1) ≤ length (filling c)))
          (sym (flush_passes c b z))
          (
            ap (λ xs. filling c ++ xs) (swapped c) ∙ append-nil (filling c),
            omega (arith, ap length (swapped c)),
          )
  ]
]

append_write :
    (t : Trace) (x b : List ℕ)
    → IsFifo t
    → x ≡ filling t.channel ++ b
    → t.accepted ++ b ≡ t.passed ++ x
append_write t x b v e =
    ap (λ ys. ys ++ b) v.order
    ∙ append_assoc t.passed (filling t.channel) b
    ∙ ap (λ ys. t.passed ++ ys) (sym e)

step-IsFifo : (e : Event) (t : Trace) → IsFifo t → IsFifo (step e t)
unfolding write write_xfer complete
step-IsFifo (wrote b) t v =
    let (e, l) = write_upto_outcome 2048 1280 b t.channel (omega arith) v.fits in
    record { order = append_write t _ _ v e; fits = l }
step-IsFifo (wrote_xfer b) t v =
    let (e, l) = write_upto_outcome 2048 2048 b t.channel (omega arith) v.fits in
    record { order = append_write t _ _ v e; fits = l }
step-IsFifo flushes t v =
    let (e, l) = flush_outcome t.channel in
    record {
      order =
          v.order
          ∙ ap (λ ys. t.passed ++ ys) (sym e)
          ∙ sym (append_assoc t.passed (flush t.channel).0 (filling (flush t.channel).1));
      fits = omega (arith, l, v.fits);
    }
step-IsFifo completes t v = record { order = v.order; fits = v.fits }

-- Any interleaving of writes, transfer writes, flushes and completions preserves this: what has been
-- passed to the driver and what is still buffered are together exactly the accepted writes, in order,
-- and the buffer being filled holds at most 2048 bytes.
pub run-IsFifo : (es : List Event) (t : Trace) → IsFifo t → IsFifo (run es t)
run-IsFifo [] t v = v
run-IsFifo (e ∷ es) t v = run-IsFifo es (step e t) (step-IsFifo e t v)

flushed-write_upto :
    (cap : ℕ) (b : List ℕ) (c : Channel) → flushed (write_upto cap b c).0 ≡ flushed c
unfolding write_upto
flushed-write_upto cap b c = elim (Bool-cases (length b == 0)) [
  | inl z ↦ simp (write_upto, z) refl
  | inr z ↦ elim (Bool-cases (ltb cap (length (filling c) + length b))) [
    | inl l ↦ simp (write_upto, z, l) refl
    | inr l ↦ simp (write_upto, z, l, flushed-fill (filling c ++ b) c) refl
  ]
]

write_upto_accepts :
    (cap : ℕ) (b : List ℕ) (c : Channel)
    → 0 < length b
    → length (filling c) + length b ≤ cap
    → (write_upto cap b c).1 ≡ none
unfolding write_upto
write_upto_accepts cap b c k h =
    let z : (length b == 0) ≡ false = ground arith in
    let l : ltb cap (length (filling c) + length b) ≡ false = ground arith in
    simp (write_upto, z, l) refl

-- While a transfer to the driver is in progress, no write and no flush changes the buffer that it
-- reads, and a flush passes nothing on.
in_flight_untouched :
    (bytes : List ℕ) (c : Channel)
    → c.busy ≡ true
    → (flushed (write bytes c).0 ≡ flushed c)
      × (flushed (write_xfer bytes c).0 ≡ flushed c)
      × (flush c ≡ ([], c, error))
unfolding write write_xfer flush
in_flight_untouched bytes c b =
    (flushed-write_upto 1280 bytes c, flushed-write_upto 2048 bytes c, simp (flush, b) refl)

-- Ordinary writes leave the reserve free: after one to a buffer of at most 1280 bytes, whether it is
-- accepted or not, a transfer write of 1 to 768 bytes is accepted.
pub reserve_kept :
    (bytes frame : List ℕ) (c : Channel)
    → length (filling c) ≤ 1280
    → 0 < length frame
    → length frame ≤ 768
    → (length (filling (write bytes c).0) ≤ 1280) × ((write_xfer frame (write bytes c).0).1 ≡ none)
unfolding write write_xfer
reserve_kept bytes frame c h k l =
    let (e, m) = write_upto_outcome 1280 1280 bytes c (omega arith) h in
    (m, write_upto_accepts 2048 frame (write_upto 1280 bytes c).0 k (omega (arith, m, l)))
