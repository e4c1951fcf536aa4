-- ===== src/Router/ArmAnswer.antt =====
-- The answer to CMD_ARM in firmware/src/comm/navlink_router.c, which waits for the RC task.
use vayu.Common.{
  ℕ, ◌+◌, ◌≤◌, ◌<◌, ◌≡◌, refl, sym, ap, ap₂, ◌∙◌, Bool, true, false, ◌&&◌, List, [], ◌∷◌, ◌++◌, ltb,
  ltb→lt, lt→ltb, leb, leb→le, ◌==◌, if◌then◌else◌, u32, sub32, arith, Bool-cases, inl, inr,
}
use vayu.Maths.{Float}
use vayu.State.{SysState, code, armed}
use vayu.Router.{
  Result, accepted, temporarily_rejected, World, Board, on_cmd_arm, arm_ack_service,
  arm_ack_timeout_ms,
}

-- The turns of the router from a time on, each so many milliseconds later and with the system state that
-- it finds: the answers that are sent.
abbrev pub served : {F W : Type 0} → ℕ → List (ℕ × SysState) → World F W → List (ℕ × Result)
served now [] w = []
served now ((d, sys) ∷ turns) w =
    let r = arm_ack_service (u32 (now + d)) (record w { sys = sys }) in r.0 ++ served now turns r.1

-- The one answer that is due: at the first turn that finds ARMED or comes 800 ms or more after the
-- command.
abbrev pub due : ℕ → List (ℕ × SysState) → List (ℕ × Result)
due req_seq [] = []
due req_seq ((d, sys) ∷ turns) =
    let rest = due req_seq turns in
    if code sys == code armed
    then (req_seq, accepted) ∷ []
    else if leb arm_ack_timeout_ms d
    then (req_seq, temporarily_rejected) ∷ []
    else rest

-- No turn is as late as half the clock's period.
abbrev pub in_period : List (ℕ × SysState) → Bool
in_period [] = true
in_period ((d, sys) ∷ turns) = ltb d 2147483648 && in_period turns

after_lem :
    (now d : ℕ) → d < 2147483648 → 800 ≤ d → sub32 (u32 (now + d)) (u32 (now + 800)) < 2147483648
after_lem now d h k = omega (arith, h, k)

before_lem : (now d : ℕ) → d < 800 → 2147483648 ≤ sub32 (u32 (now + d)) (u32 (now + 800))
before_lem now d k = omega (arith, k)

late_lem :
    (now d : ℕ)
    → ltb d 2147483648 ≡ true
    → ltb (sub32 (u32 (now + d)) (u32 (now + arm_ack_timeout_ms))) 2147483648
      ≡ leb arm_ack_timeout_ms d
late_lem now d h = elim (Bool-cases (leb 800 d)) [
  | inl c ↦ lt→ltb _ _ (after_lem now d (ltb→lt _ _ h) (leb→le _ _ c)) ∙ sym c
  | inr c ↦ ground (arith, c, before_lem now d (ground (arith, c)))
]

module _ {F W : Type 0} where
  idle-served :
      (now : ℕ) (turns : List (ℕ × SysState)) (w : World F W)
      → w.arm_ack.pending ≡ false
      → served now turns w ≡ []
  unfolding arm_ack_service
  idle-served now [] w h = refl
  idle-served now ((d, sys) ∷ turns) w h = simp h (idle-served now turns (record w { sys = sys }) h)

  served-due :
      (now req_seq : ℕ) (turns : List (ℕ × SysState)) (w : World F W)
      → w.arm_ack
        ≡ record { pending = true; req_seq = req_seq; deadline = u32 (now + arm_ack_timeout_ms) }
      → in_period turns ≡ true
      → served now turns w ≡ due req_seq turns
  unfolding arm_ack_service
  served-due now req_seq [] w e h = refl
  served-due now req_seq ((d, sys) ∷ turns) w e h =
      let p : w.arm_ack.pending ≡ true = ap (λ a. a.pending) e in
      let k : ltb d 2147483648 ≡ true = ground (arith, h) in
      let q : in_period turns ≡ true = ground (arith, h) in
      let rq : w.arm_ack.req_seq ≡ req_seq = ap (λ a. a.req_seq) e in
      let dl = ap (λ a. a.deadline) e in
      let l = late_lem now d k in
      elim (Bool-cases (code sys == code armed)) [
        | inl b ↦ simp (p, b) (ap₂ (λ n r. (n, accepted) ∷ r) rq (idle-served now turns _ refl))
        | inr b ↦ elim (Bool-cases (leb arm_ack_timeout_ms d)) [
          | inl c ↦
              simp (p, b, dl, l, c)
                (ap₂ (λ n r. (n, temporarily_rejected) ∷ r) rq (idle-served now turns _ refl))
          | inr c ↦
              simp (p, b, dl, l, c) (served-due now req_seq turns (record w { sys = sys }) e q)
        ]
      ]

-- After CMD_ARM, whatever the system states and the times of the router's turns are, each less than
-- 2^31 ms after the command, exactly one answer is sent, with the command's sequence number: at the first
-- turn that finds ARMED, accepted, or that comes 800 ms or more after the command, temporarily rejected;
-- and none if there is no such turn, also when the clock wraps.
pub arm_answered_once :
    {F W : Type 0} (fl : Float F) (board : Board F W) (now req_seq : ℕ)
    (turns : List (ℕ × SysState)) (w : World F W)
    → in_period turns ≡ true
    → served now turns (on_cmd_arm fl board now req_seq w).1 ≡ due req_seq turns
unfolding on_cmd_arm
arm_answered_once fl board now req_seq turns w h =
    served-due now req_seq turns (on_cmd_arm fl board now req_seq w).1 refl h
