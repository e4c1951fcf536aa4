-- ===== src/RxRing/Queue.antt =====
-- The receive ring of firmware/src/comm/serializer.c is a bounded first-in-first-out queue.
use vayu.Common.{
  ℕ, zero, suc, ◌+◌, ◌-◌, ◌%◌, ◌<◌, ◌≡◌, ◌≢◌, refl, sym, ap, ap₂, ◌∙◌, true, false, List, [], ◌∷◌,
  ◌++◌, length, length-set, take, drop, get_or, set, get_or-set_self, get_or-set_ne, arith,
  Bool-cases, inl, inr, ltb, ◌==◌, if◌then◌else◌,
}
use vayu.RxRing.{Ring, next, push, copy_out, drain}

-- The `n` bytes of a buffer from index `i` on, around its end.
abbrev view : ℕ → ℕ → List ℕ → List ℕ
view zero i b = []
view (suc n) i b = get_or b i 0 ∷ view n (next i) b

-- How many bytes wait, and which.
abbrev pub count : Ring → ℕ
count r = (r.head + 512 - r.tail) % 512

abbrev pub waiting : Ring → List ℕ
waiting r = view (count r) r.tail r.buf

pub record IsRing (r : Ring) : Type 0 where
  pub storage : length r.buf ≡ 512
  pub head_in : r.head < 512
  pub tail_in : r.tail < 512

length-view : (n i : ℕ) (b : List ℕ) → length (view n i b) ≡ n
length-view zero i b = refl
length-view (suc n) i b = omega (arith, length-view n (next i) b)

view-set :
    (n i h v : ℕ) (b : List ℕ)
    → ((j : ℕ) → j < n → h ≢ (i + j) % 512)
    → i < 512
    → view n i (set b h v) ≡ view n i b
view-set zero i h v b ne l = refl
view-set (suc n) i h v b ne l =
    ap₂ (λ x xs. x ∷ xs) (get_or-set_ne b v 0 (λ e. ne 0 (omega arith) (omega arith)))
      (view-set n (next i) h v b (λ j k e. ne (j + 1) (omega arith) (omega arith)) (omega arith))

-- The last byte of a view.
view-snoc :
    (n i k : ℕ) (b : List ℕ)
    → i < 512
    → k ≡ (i + n) % 512
    → view (suc n) i b ≡ view n i b ++ (get_or b k 0 ∷ [])
view-snoc zero i k b l e = ap (λ j. get_or b j 0 ∷ []) (omega arith)
view-snoc (suc n) i k b l e =
    ap (λ xs. get_or b i 0 ∷ xs) (view-snoc n (next i) k b (omega arith) (omega arith))

-- A push appends its byte, or drops it if 511 bytes wait already.
waiting-push :
    (x : ℕ) (r : Ring)
    → IsRing r
    → waiting (push x r) ≡ (if ltb (count r) 511 then waiting r ++ (x ∷ []) else waiting r)
unfolding push
waiting-push x r v = elim (Bool-cases (next r.head == r.tail)) [
  | inl f ↦
      let full : ltb (count r) 511 ≡ false = ground (arith, v.head_in, v.tail_in) in
      rw (full, push, f) refl
  | inr f ↦
      let room : ltb (count r) 511 ≡ true = ground (arith, v.head_in, v.tail_in) in
      let c : (next r.head + 512 - r.tail) % 512 ≡ suc (count r) =
        ground (arith, v.head_in, v.tail_in) in
      simp (push, f, room)
        (ap (λ n. view n r.tail (set r.buf r.head x)) c
          ∙ view-snoc (count r) r.tail r.head (set r.buf r.head x) v.tail_in
              (omega (arith, v.head_in, v.tail_in))
          ∙ ap₂ (λ xs y. xs ++ (y ∷ []))
              (view-set (count r) r.tail r.head x r.buf
                (λ j k e. omega (arith, e, k, v.head_in, v.tail_in)) v.tail_in)
              (get_or-set_self r.buf r.head x 0 (omega (arith, v.head_in, v.storage))))
]

push-IsRing : (x : ℕ) (r : Ring) → IsRing r → IsRing (push x r)
unfolding push
push-IsRing x r v = elim (Bool-cases (next r.head == r.tail)) [
  | inl f ↦ simp (push, f) v
  | inr f ↦
      simp (push, f)
        (record {
          storage = length-set r.buf r.head x ∙ v.storage;
          head_in = omega arith;
          tail_in = v.tail_in;
        })
]

-- What the copy loop takes, and where it stops.
copy_out_lem :
    (k n t : ℕ) (r : Ring)
    → t < 512
    → r.head < 512
    → n ≡ (r.head + 512 - t) % 512
    → ((copy_out k r t).0 ≡ take k (view n t r.buf))
      × ((copy_out k r t).1 < 512)
      × (view ((r.head + 512 - (copy_out k r t).1) % 512) (copy_out k r t).1 r.buf
          ≡ drop k (view n t r.buf))
unfolding copy_out
copy_out_lem zero n t r l h e = (refl, l, ap (λ m. view m t r.buf) (sym e))
copy_out_lem (suc k) zero t r l h e =
    let s : (t == r.head) ≡ true = ground arith in
    simp (copy_out, s) (refl, l, ap (λ m. view m t r.buf) (sym e))
copy_out_lem (suc k) (suc n) t r l h e =
    let s : (t == r.head) ≡ false = ground arith in
    let (a, b, c) = copy_out_lem k n (next t) r (omega arith) h (omega arith) in
    simp (copy_out, s) (ap (λ xs. get_or r.buf t 0 ∷ xs) a, b, c)

-- A drain takes the first bytes, at most `max`, and leaves the rest.
waiting-drain :
    (max : ℕ) (r : Ring)
    → IsRing r
    → ((drain max r).0 ≡ take max (waiting r))
      × (waiting (drain max r).1 ≡ drop max (waiting r))
      × IsRing (drain max r).1
unfolding drain
waiting-drain max r v =
    let (a, b, c) = copy_out_lem max (count r) r.tail r v.tail_in v.head_in refl in
    (a, c, record { storage = v.storage; head_in = v.head_in; tail_in = b })

-- What the two contexts do to the ring, in any interleaving.
pub data Op : Type 0 where
  received : ℕ → Op
  drained : ℕ → Op

-- A run on the ring, with the bytes that the drains took in order.
abbrev pub run : List Op → Ring → List ℕ → Ring × List ℕ
run [] r out = (r, out)
run (received x ∷ os) r out = run os (push x r) out
run (drained n ∷ os) r out = run os (drain n r).1 (out ++ (drain n r).0)

-- The same run on a queue that holds at most 511 bytes.
abbrev pub replay : List Op → List ℕ → List ℕ → List ℕ × List ℕ
replay [] q out = (q, out)
replay (received x ∷ os) q out = replay os (if ltb (length q) 511 then q ++ (x ∷ []) else q) out
replay (drained n ∷ os) q out = replay os (drop n q) (out ++ take n q)

-- The ring refines a bounded queue: in any interleaving of received bytes and drains the bytes taken
-- and the bytes that wait are those of a first-in-first-out queue that drops a byte exactly when 511
-- wait.
pub run_refines :
    (os : List Op) (r : Ring) (out : List ℕ)
    → IsRing r
    → (waiting (run os r out).0 ≡ (replay os (waiting r) out).0)
      × ((run os r out).1 ≡ (replay os (waiting r) out).1)
run_refines [] r out v = (refl, refl)
run_refines (received x ∷ os) r out v =
    let (a, b) = run_refines os (push x r) out (push-IsRing x r v) in
    let n : length (waiting r) ≡ count r = length-view (count r) r.tail r.buf in
    let e : waiting (push x r)
        ≡ (if ltb (length (waiting r)) 511 then waiting r ++ (x ∷ []) else waiting r) =
      waiting-push x r v
      ∙ ap (λ m. if ltb m 511 then waiting r ++ (x ∷ []) else waiting r) (sym n) in
    (a ∙ ap (λ q. (replay os q out).0) e, b ∙ ap (λ q. (replay os q out).1) e)
run_refines (drained n ∷ os) r out v =
    let (t, d, i) = waiting-drain n r v in
    let (a, b) = run_refines os (drain n r).1 (out ++ (drain n r).0) i in
    (
      a ∙ ap₂ (λ q o. (replay os q (out ++ o)).0) d t,
      b ∙ ap₂ (λ q o. (replay os q (out ++ o)).1) d t,
    )
