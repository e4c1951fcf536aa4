-- ===== src/Router/SetPid.antt =====
-- The tuning commands on their way from firmware/src/comm/navlink_router.c, which writes typed fields as
-- bytes, to firmware/src/control/pid_config.c, which reads them back.
use vayu.Common.{
  ℕ, zero, suc, ◌*◌, ◌≤◌, ◌<◌, ◌≡◌, refl, sym, ap, ◌∙◌, Bool, true, false, ◌&&◌, Option, none, some,
  List, [], ◌∷◌, ◌++◌, length, ltb, get_or, if◌then◌else◌, take, drop, drop-drop, pos, arith,
  Bool-cases, inl, inr,
}
use vayu.Maths.{Float}
use vayu.State.{Status, err_invalid}
use vayu.PidConfig.{PidGains, Tune, selector, ctrl_count, num_axes}
use vayu.PidConfig.Commands.{apply_command, set_slot, rounded, gains_of}
use vayu.PidConfig.Applied.{all_four_finite, retuned, set_slot-retuned}
use vayu.Router.{
  Result, accepted, failed, result_of, World, Board, build_cmd, arg_bytes, on_cmd_set_pid,
  cmd_set_pid,
}

-- A float is read back from the four bytes it was written as, and a small number survives the way
-- through a float and its rounding.
pub record IsExact {F W : Type 0} (fl : Float F) (board : Board F W) : Type 0 where
  pub four : (x : F) → length (board.write_f x) ≡ 4
  pub back : (x : F) → board.read_f (board.write_f x) ≡ x
  pub small : (n : ℕ) → n ≤ 255 → board.trunc (fl.add (board.as_float n) (fl.lit 5 1)) ≡ pos n

take_front : (xs ys : List ℕ) → length xs ≡ 4 → take 4 (xs ++ ys) ≡ xs
take_front [] ys h = absurd (omega (arith, h))
take_front (x ∷ []) ys h = absurd (omega (arith, h))
take_front (x ∷ y ∷ []) ys h = absurd (omega (arith, h))
take_front (x ∷ y ∷ z ∷ []) ys h = absurd (omega (arith, h))
take_front (x ∷ y ∷ z ∷ t ∷ []) ys h = refl
take_front (x ∷ y ∷ z ∷ t ∷ u ∷ xs) ys h = absurd (omega (arith, h))

drop_four : (xs ys : List ℕ) → length xs ≡ 4 → drop 4 (xs ++ ys) ≡ ys
drop_four [] ys h = absurd (omega (arith, h))
drop_four (x ∷ []) ys h = absurd (omega (arith, h))
drop_four (x ∷ y ∷ []) ys h = absurd (omega (arith, h))
drop_four (x ∷ y ∷ z ∷ []) ys h = absurd (omega (arith, h))
drop_four (x ∷ y ∷ z ∷ t ∷ []) ys h = refl
drop_four (x ∷ y ∷ z ∷ t ∷ u ∷ xs) ys h = absurd (omega (arith, h))

module _ {F W : Type 0} (fl : Float F) (board : Board F W) where
  -- An argument is read back from the bytes of all.
  arg_lem :
      (i : ℕ) (xs : List F) (d : F)
      → IsExact fl board
      → i < length xs
      → board.read_f (take 4 (drop (i * 4) (arg_bytes fl board xs))) ≡ get_or xs i d
  arg_lem i [] d law h = absurd (omega (arith, h))
  arg_lem zero (x ∷ xs) d law h =
      ap board.read_f (take_front (board.write_f x) _ (law.four x)) ∙ law.back x
  arg_lem (suc i) (x ∷ xs) d law h =
      let bytes = board.write_f x ++ arg_bytes fl board xs in
      ap (λ n. board.read_f (take 4 (drop n bytes))) (omega arith)
      ∙ ap (λ ys. board.read_f (take 4 ys)) (sym (drop-drop (i * 4) 4 bytes))
      ∙ ap (λ ys. board.read_f (take 4 (drop (i * 4) ys)))
          (drop_four (board.write_f x) (arg_bytes fl board xs) (law.four x))
      ∙ arg_lem i xs d law (omega arith)

  -- What a command with two selectors and some gains does.
  abbrev taken : Option ℕ → Option ℕ → PidGains F → Tune F → Status × Tune F
  taken o o' g t = elim o [
    | none ↦ (err_invalid, t)
    | some ctrl ↦ elim o' [ none ↦ (err_invalid, t) | some axis ↦ set_slot fl ctrl axis g t ]
  ]

  taken_lem :
      (c a : ℕ) (g : PidGains F) (t : Tune F) (o o' : Option ℕ)
      → o ≡ (if ltb c ctrl_count then some c else none)
      → o' ≡ (if ltb a num_axes then some a else none)
      → taken o o' g t
        ≡ (if ltb c ctrl_count && ltb a num_axes then set_slot fl c a g t else (err_invalid, t))
  taken_lem c a g t o o' e e' = picked (ltb c ctrl_count) (ltb a num_axes) e e'
    where
      picked :
          (b b' : Bool)
          → o ≡ (if b then some c else none)
          → o' ≡ (if b' then some a else none)
          → taken o o' g t ≡ (if b && b' then set_slot fl c a g t else (err_invalid, t))
      picked true true e e' = rw (e, e')
      picked true false e e' = rw (e, e')
      picked false true e e' = rw e
      picked false false e e' = rw e

  -- The answer to a command and what it leaves.
  abbrev pub answer : World F W → Status × Tune F → Option Result × World F W
  answer w r = (some (result_of fl board r.0), record w { tune = r.1 })

  -- The gains that are read back.
  gains_lem :
      (controller axis : ℕ) (g : PidGains F)
      → IsExact fl board
      → gains_of fl board.read_f board.trunc
          (build_cmd fl board cmd_set_pid
            (board.as_float controller ∷ board.as_float axis ∷ g.kp ∷ g.ki ∷ g.kd ∷ g.kff ∷ [])).0
        ≡ record g { valid = true }
  gains_lem controller axis g law =
      let xs = board.as_float controller ∷ board.as_float axis ∷ g.kp ∷ g.ki ∷ g.kd ∷ g.kff ∷ [] in
      λ i. record {
        kp = arg_lem 2 xs g.kp law (omega arith) i;
        ki = arg_lem 3 xs g.kp law (omega arith) i;
        kd = arg_lem 4 xs g.kp law (omega arith) i;
        kff = arg_lem 5 xs g.kp law (omega arith) i;
        valid = true;
      }

  answered_lem :
      (b : Bool) (r : Status × Tune F) (w : World F W)
      → answer w (if b then r else (err_invalid, w.tune))
        ≡ (if b then answer w r else (some failed, w))
  answered_lem true r w = refl
  answered_lem false r w = refl

  -- With a controller and an axis that are there, the gains are taken when they are finite.
  tested_lem :
      (c a : ℕ) (g : PidGains F) (w : World F W)
      → (if ltb c ctrl_count && ltb a num_axes
          then answer w (set_slot fl c a (record g { valid = true }) w.tune)
          else (some failed, w))
        ≡ (if (ltb c 2 && ltb a 3) && all_four_finite fl g
            then (some accepted, record w { tune = retuned fl c a g w.tune })
            else (some failed, w))
  tested_lem c a g w = elim (Bool-cases (ltb c 2 && ltb a 3)) [
    | inr b ↦ simp b
    | inl b ↦
        let e = set_slot-retuned fl c a g w.tune (ground (arith, b)) in
        simp b (
          ap (answer w) e
          ∙ elim (Bool-cases (all_four_finite fl g)) [ inl f ↦ simp f | inr f ↦ simp f ])
  ]

  -- CMD_SET_PID that names the angle loop (0) or the rate loop (1) and one of the three axes, with four
  -- finite gains, is answered as accepted: these gains are live on that axis of that loop, stand as valid
  -- in their slot of the store, and the store is handed out to be saved; nothing else changes. Any other
  -- is answered as failed and changes nothing.
  pub set_pid_applies :
      (controller axis : ℕ) (g : PidGains F) (w : World F W)
      → IsExact fl board
      → controller ≤ 255
      → axis ≤ 255
      → on_cmd_set_pid fl board controller axis g w ≡ (
          if (ltb controller 2 && ltb axis 3) && all_four_finite fl g
          then (some accepted, record w { tune = retuned fl controller axis g w.tune })
          else (some failed, w))
  unfolding on_cmd_set_pid apply_command
  set_pid_applies controller axis g w law c a =
      let xs = board.as_float controller ∷ board.as_float axis ∷ g.kp ∷ g.ki ∷ g.kd ∷ g.kff ∷ [] in
      let p = (build_cmd fl board cmd_set_pid xs).0 in
      let e0 : rounded fl board.read_f board.trunc p 0 ≡ pos controller =
        ap (λ v. board.trunc (fl.add v (fl.lit 5 1))) (arg_lem 0 xs g.kp law (omega arith))
        ∙ law.small controller c in
      let e1 : rounded fl board.read_f board.trunc p 1 ≡ pos axis =
        ap (λ v. board.trunc (fl.add v (fl.lit 5 1))) (arg_lem 1 xs g.kp law (omega arith))
        ∙ law.small axis a in
      let g' : PidGains F = record g { valid = true } in
      let read = gains_of fl board.read_f board.trunc p in
      ap
        (λ x. answer w (
          taken (selector x ctrl_count)
            (selector (rounded fl board.read_f board.trunc p 1) num_axes) read w.tune))
        e0
      ∙ ap
          (λ y.
            answer w
              (taken (selector (pos controller) ctrl_count) (selector y num_axes) read w.tune))
          e1
      ∙ ap
          (λ h.
            answer w (
              taken (selector (pos controller) ctrl_count) (selector (pos axis) num_axes) h w.tune))
          (gains_lem controller axis g law)
      ∙ ap (answer w) (taken_lem controller axis g' w.tune _ _ refl refl)
      ∙ answered_lem (ltb controller ctrl_count && ltb axis num_axes)
          (set_slot fl controller axis g' w.tune) w
      ∙ tested_lem controller axis g w
