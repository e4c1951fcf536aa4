-- ===== src/Control/Mixer/Geometry/Singular.antt =====
-- A geometry of the motors that no mixer can use, in firmware/src/control/angle_rate_controller.c.
use vayu.Common.{
  ℕ, ◌+◌, ◌*◌, ◌≤◌, ◌≡◌, refl, ap, ◌∙◌, ◌<◌, Bool, true, false, some, is_negative, if◌then◌else◌,
  ◌||◌, List, [], ◌∷◌, map, length, none, ltb, ◌==◌, get_or, ℤ, pos, negsuc, arith, Bool-cases, inl,
  inr,
}
use vayu.Maths.{Float}
use vayu.Maths.Inverse.{mat4_inv}
use vayu.PidConfig.{Tune, Store}
use vayu.PidConfig.Commands.{all_finite}
use vayu.PidConfig.Applied.{store_motor_geometry-stored}
use vayu.Control.Mixer.{Wrench, Mixer, disabled, set_airmode, set_idle_floor}
use vayu.Control.Mixer.Geometry.{
  Layout, roll_sign, pitch_sign, yaw_sign, effectiveness, gram, set_geometry, set_motor_geometry,
  apply_geometry_command, arg, spin_of, four,
}

-- One is not negative, minus one is, and minus minus one is one.
pub record IsSigned {F : Type 0} (fl : Float F) : Type 0 where
  pub one_up : fl.le (fl.lit 0 0) (fl.lit 1 0) ≡ true
  pub minus_down : fl.le (fl.lit 0 0) (fl.neg (fl.lit 1 0)) ≡ false
  pub minus_minus : fl.neg (fl.neg (fl.lit 1 0)) ≡ fl.lit 1 0

module _ {F : Type 0} (fl : Float F) where
  -- Signs of signs are the signs.
  pitch_again : (x : F) → IsSigned fl → pitch_sign fl (pitch_sign fl x) ≡ pitch_sign fl x
  pitch_again x law = elim (Bool-cases (fl.le (fl.lit 0 0) x)) [
    | inl a ↦ simp (a, law.one_up)
    | inr a ↦ simp (a, law.minus_down)
  ]

  roll_again : (y : F) → IsSigned fl → roll_sign fl (fl.neg (roll_sign fl y)) ≡ roll_sign fl y
  roll_again y law = elim (Bool-cases (fl.le (fl.lit 0 0) y)) [
    | inl a ↦ simp (a, law.minus_minus, law.one_up)
    | inr a ↦ simp (a, law.minus_down)
  ]

  yaw_again : (s : ℤ) → IsSigned fl → yaw_sign fl (spin_of fl (yaw_sign fl s)) ≡ yaw_sign fl s
  yaw_again (pos n) law = simp law.one_up
  yaw_again (negsuc n) law = simp law.minus_down

  -- The mixer's own view of the signs is the same as that of the positions.
  effectiveness_again :
      (x y : ℕ → F) (spin : ℕ → ℤ)
      → IsSigned fl
      → effectiveness fl
          (map (pitch_sign fl) (four x))
          (map fl.neg (map (roll_sign fl) (four y)))
          (map (spin_of fl) (map (yaw_sign fl) (four spin)))
        ≡ effectiveness fl (four x) (four y) (four spin)
  effectiveness_again x y spin law = λ i. record {
    roll =
        roll_again (y 0) law i
        ∷ roll_again (y 1) law i
        ∷ roll_again (y 2) law i
        ∷ roll_again (y 3) law i
        ∷ [];
    pitch =
        pitch_again (x 0) law i
        ∷ pitch_again (x 1) law i
        ∷ pitch_again (x 2) law i
        ∷ pitch_again (x 3) law i
        ∷ [];
    yaw =
        yaw_again (spin 0) law i
        ∷ yaw_again (spin 1) law i
        ∷ yaw_again (spin 2) law i
        ∷ yaw_again (spin 3) law i
        ∷ [];
    thrust = four (λ k. fl.lit 1 0);
  }

  set_geometry_singular :
      (xs ys : List F) (spins : List ℤ) (mx : Mixer F)
      → length xs ≡ 4
      → mat4_inv fl (gram fl (effectiveness fl xs ys spins)) ≡ none
      → (set_geometry fl xs ys spins mx).1 ≡ record mx {
        b = effectiveness fl xs ys spins;
        idle_floor = fl.lit 0 0;
        airmode = disabled;
      }
  unfolding set_geometry
  set_geometry_singular xs ys spins mx l h =
      let e : (length xs == 0 || ltb 8 (length xs)) ≡ false = ground (arith, l) in simp (e, h)

  -- The mixer after a geometry whose matrix has no inverse.
  pub record IsStale (b : Wrench (List F)) (old new : Mixer F) : Type 0 where
    pub told : new.b ≡ b
    pub pinv_kept : new.b_pinv ≡ old.b_pinv
    pub scale_kept : new.fwd_scale ≡ old.fwd_scale

  set_motor_geometry-IsStale :
      (x y : ℕ → F) (spin : ℕ → ℤ) (l : Layout F)
      → IsSigned fl
      → mat4_inv fl (gram fl (effectiveness fl (four x) (four y) (four spin))) ≡ none
      → IsStale
          (effectiveness fl (four x) (four y) (four spin))
          l.mixer
          (set_motor_geometry fl (four x) (four y) (four spin) l).mixer
  unfolding set_motor_geometry set_airmode set_idle_floor
  set_motor_geometry-IsStale x y spin l law h =
      let e = effectiveness_again x y spin law in
      let s =
        set_geometry_singular (map (pitch_sign fl) (four x))
          (map fl.neg (map (roll_sign fl) (four y)))
          (map (spin_of fl) (map (yaw_sign fl) (four spin))) l.mixer refl
          (ap (λ b. mat4_inv fl (gram fl b)) e ∙ h) in
      record {
        told = ap (λ m. m.b) s ∙ e;
        pinv_kept = ap (λ m. m.b_pinv) s;
        scale_kept = ap (λ m. m.fwd_scale) s;
      }

module _ {F : Type 0} (fl : Float F) (read_f : List ℕ → F) where
  -- The effectiveness matrix of the positions and the spins of a payload.
  abbrev pub told_by : List ℕ → Wrench (List F)
  told_by p =
      effectiveness fl (four (λ i. arg fl read_f p i)) (four (λ i. arg fl read_f p (4 + i)))
        (four (λ i. spin_of fl (arg fl read_f p (8 + i))))

  -- What such a payload says of the motors, in the store, with its magic number.
  abbrev pub placed : List ℕ → Store F → Store F
  placed p s = record s {
    magic = 0x50494435;
    motor_pos_x = λ i. arg fl read_f p i;
    motor_pos_y = λ i. arg fl read_f p (4 + i);
    motor_spin = λ i. if fl.le (fl.lit 0 0) (arg fl read_f p (8 + i)) then pos 1 else negsuc 0;
    motor_geom_valid = true;
  }

  spin_lem :
      (b : Bool)
      → (if is_negative (if b then pos 1 else negsuc 0) then negsuc 0 else pos 1)
        ≡ (if b then pos 1 else negsuc 0)
  spin_lem true = refl
  spin_lem false = refl

  finite_lem : (a : ℕ → F) → ((i : ℕ) → i < 4 → fl.is_finite (a i) ≡ true) → all_finite fl a ≡ true
  finite_lem a h = simp (h 0 (omega arith), h 1 (omega arith), h 2 (omega arith), h 3 (omega arith))

  -- A geometry command of the right length whose eight positions are finite and whose matrix has no
  -- inverse is accepted, and the positions and the spins are handed out to be saved as valid: meanwhile
  -- the mixer keeps the pseudo-inverse and the scale of the geometry before, by which it allocates, beside
  -- the effectiveness matrix of the new one.
  pub singular_accepted :
      (p : List ℕ) (len : ℕ) (l : Layout F) (t : Tune F)
      → IsSigned fl
      → 12 ≤ get_or p 2 0
      → get_or p 2 0 * 4 + 3 ≤ len
      → ((i : ℕ) → i < 8 → fl.is_finite (arg fl read_f p i) ≡ true)
      → mat4_inv fl (gram fl (told_by p)) ≡ none
      → let r = apply_geometry_command fl read_f p len l t in
        (r.0 ≡ true)
        × IsStale fl (told_by p) l.mixer r.1.0.mixer
        × (r.1.1.saved ≡ some (placed p t.store))
  unfolding apply_geometry_command
  singular_accepted p len l t law h k fin s =
      let x : ℕ → F = λ i. arg fl read_f p i in
      let y : ℕ → F = λ i. arg fl read_f p (4 + i) in
      let spin : ℕ → ℤ = λ i. spin_of fl (arg fl read_f p (8 + i)) in
      let a : ltb len 3 ≡ false = ground (arith, h, k) in
      let b : (ltb (get_or p 2 0) 12 || ltb len (get_or p 2 0 * 4 + 3)) ≡ false =
        ground (arith, h, k) in
      let e : all_finite fl x ≡ true = finite_lem x (λ i q. fin i (omega (arith, q))) in
      let f : all_finite fl y ≡ true = finite_lem y (λ i q. fin (4 + i) (omega (arith, q))) in
      simp (a, b)
        (
          refl,
          set_motor_geometry-IsStale fl x y spin l law s,
          store_motor_geometry-stored fl x y spin t e f
              ∙ ap some (λ j. record t.store {
                magic = 0x50494435;
                motor_pos_x = x;
                motor_pos_y = y;
                motor_spin = λ i. spin_lem (fl.le (fl.lit 0 0) (arg fl read_f p (8 + i))) j;
                motor_geom_valid = true;
              }),
        )
