-- ===== src/Rc/Safety/Failsafe.antt =====
-- The throttle-failsafe detector of firmware/src/comm/rc_safety.c over a stream of samples.
use vayu.Common.{
  ℕ, ◌+◌, ◌<◌, ◌≤◌, ◌≡◌, refl, ap, ◌∙◌, Bool, true, false, List, [], ◌∷◌, ◌++◌, length, min, leb,
  arith, ◌↔◌,
}
use vayu.Rc.Safety.{Detector, failsafe_step, reset_detector}

-- The detector and what it returned last, after a stream of throttle samples.
unfoldable pub feed : Detector × Bool → List ℕ → Detector × Bool
feed r [] = r
feed (d, b) (x ∷ xs) = feed (failsafe_step d x) xs

-- No sample exceeds the one before it by 300 or more.
abbrev pub IsGradual : ℕ → List ℕ → Type 0
IsGradual prev [] = Unit
IsGradual prev (x ∷ xs) = (x < 65536) × (x < prev + 300) × IsGradual x xs

abbrev pub last_of : ℕ → List ℕ → ℕ
last_of prev [] = prev
last_of prev (x ∷ xs) = last_of x xs

abbrev pub IsHigh : List ℕ → Type 0
IsHigh [] = Unit
IsHigh (x ∷ xs) = (1900 < x) × IsHigh xs

-- The detector before any jump.
abbrev quiet : ℕ → Detector
quiet prev = record { prev_throttle = prev; high_frames = 0; latched = false }

quiet-step :
    (prev x : ℕ)
    → prev < 65536
    → x < 65536
    → x < prev + 300
    → failsafe_step (quiet prev) x ≡ (quiet x, false)
unfolding failsafe_step
quiet-step prev x p h k = ground arith

feed-quiet :
    (xs : List ℕ) (prev : ℕ)
    → prev < 65536
    → IsGradual prev xs
    → feed (quiet prev, false) xs ≡ (quiet (last_of prev xs), false)
unfolding feed
feed-quiet [] prev p g = refl
feed-quiet (x ∷ xs) prev p g =
    ap (λ r. feed r xs) (quiet-step prev x p g.0 g.1) ∙ feed-quiet xs x g.0 g.2

-- The detector `k` high frames after and with the jump.
abbrev counting : ℕ → ℕ → Detector
counting prev k = record { prev_throttle = prev; high_frames = min 4 k; latched = leb 4 k }

jump-step :
    (prev x : ℕ)
    → x < 65536
    → prev + 300 ≤ x
    → 1900 < x
    → failsafe_step (quiet prev) x ≡ (counting x 1, false)
unfolding failsafe_step
jump-step prev x h j k = ground arith

counting-step :
    (prev x k : ℕ)
    → 0 < k
    → 1900 < x
    → failsafe_step (counting prev k) x ≡ (counting x (k + 1), leb 4 (k + 1))
unfolding failsafe_step
counting-step prev x k h j = ground arith

feed-counting :
    (xs : List ℕ) (prev k : ℕ)
    → 0 < k
    → IsHigh xs
    → feed (counting prev k, leb 4 k) xs
      ≡ (counting (last_of prev xs) (k + length xs), leb 4 (k + length xs))
unfolding feed
feed-counting [] prev k h g = ap (λ n. (counting prev n, leb 4 n)) (omega arith)
feed-counting (x ∷ xs) prev k h g =
    ap (λ r. feed r xs) (counting-step prev x k h g.0)
    ∙ feed-counting xs x (k + 1) (omega arith) g.1
    ∙ ap (λ n. (counting (last_of x xs) n, leb 4 n)) (omega arith)

feed-append : (xs ys : List ℕ) (r : Detector × Bool) → feed r (xs ++ ys) ≡ feed (feed r xs) ys
unfolding feed
feed-append [] ys r = refl
feed-append (x ∷ xs) ys (d, b) = feed-append xs ys (failsafe_step d x)

-- Stick movement that never rises by 300 between two frames never trips the throttle failsafe,
-- however long the throttle is held full.
pub gradual_never_trips :
    (xs : List ℕ) → IsGradual 1000 xs → (feed (reset_detector, false) xs).1 ≡ false
gradual_never_trips xs g = ap (λ r. r.1) (feed-quiet xs 1000 (omega arith) g)

trips-run :
    (xs : List ℕ) (x : ℕ) (ys : List ℕ)
    → IsGradual 1000 xs
    → x < 65536
    → last_of 1000 xs + 300 ≤ x
    → 1900 < x
    → IsHigh ys
    → (feed (reset_detector, false) (xs ++ (x ∷ ys))).1 ≡ leb 4 (1 + length ys)
unfolding feed
trips-run xs x ys g h j k q =
    ap (λ r. r.1)
      (feed-append xs (x ∷ ys) (reset_detector, false)
        ∙ ap (λ r. feed r (x ∷ ys)) (feed-quiet xs 1000 (omega arith) g)
        ∙ ap (λ r. feed r ys) (jump-step (last_of 1000 xs) x h j k)
        ∙ feed-counting ys x 1 (omega arith) q)

-- After any gradual movement, a jump of at least 300 to above 1900 followed by frames that stay above
-- 1900 trips the failsafe exactly if at least three such frames follow.
pub trips_iff_held :
    (xs : List ℕ) (x : ℕ) (ys : List ℕ)
    → IsGradual 1000 xs
    → x < 65536
    → last_of 1000 xs + 300 ≤ x
    → 1900 < x
    → IsHigh ys
    → ((feed (reset_detector, false) (xs ++ (x ∷ ys))).1 ≡ true) ↔ (3 ≤ length ys)
trips_iff_held xs x ys g h j k q = (
  λ e. ground (arith, trips-run xs x ys g h j k q),
  λ e. ground (arith, trips-run xs x ys g h j k q),
)

-- A frame at 1900 or below clears the detector, whatever its state.
pub low_frame_clears : (d : Detector) (x : ℕ) → x ≤ 1900 → failsafe_step d x ≡ (quiet x, false)
unfolding failsafe_step
low_frame_clears d x h = ground arith
