-- ===== src/Router/Calibrate.antt =====
-- CMD_CALIBRATE_IMU on its way from the adapter of firmware/src/comm/navlink_router.c, which packs the
-- selectors as floats, to firmware/src/comm/comm_processor.c, which reads them as integers.
use vayu.Common.{
  ℕ, zero, suc, ◌/◌, ◌%◌, ◌≤◌, ◌<◌, ◌≡◌, ◌≢◌, ◌⊎◌, inl, inr, refl, sym, ap, true, false, some, List,
  [], ◌∷◌, ◌++◌, length, ◌==◌, arith,
}
use mathlib.Core.Path.{subst}
use vayu.Maths.{Float}
use vayu.State.{code, standby}
use vayu.Router.{
  accepted, World, Board, word, build_cmd, arg_bytes, cmd_calibrate_imu, start_calibration,
  dispatch_command, on_cmd_calibrate_imu, command_payload_valid,
}

-- A float has four bytes, whose number is 0 for the float 0 and at least that of 1.0 for 1 to 15.
pub record IsIeee {F W : Type 0} (board : Board F W) : Type 0 where
  pub four : (x : F) → length (board.write_f x) ≡ 4
  pub zero_bits : word (board.write_f (board.as_float 0)) 0 ≡ 0
  pub one_up : (n : ℕ) → 1 ≤ n → n ≤ 15 → 0x3F800000 ≤ word (board.write_f (board.as_float n)) 0

word_head :
    (a b c : ℕ) (xs ys : List ℕ) → length xs ≡ 4 → word (a ∷ b ∷ c ∷ (xs ++ ys)) 3 ≡ word xs 0
word_head a b c [] ys h = absurd (omega (arith, h))
word_head a b c (x ∷ []) ys h = absurd (omega (arith, h))
word_head a b c (x ∷ y ∷ []) ys h = absurd (omega (arith, h))
word_head a b c (x ∷ y ∷ z ∷ []) ys h = absurd (omega (arith, h))
word_head a b c (x ∷ y ∷ z ∷ t ∷ xs) ys h = refl

module _ {F W : Type 0} (fl : Float F) (board : Board F W) where
  started :
      (run : ℕ → ℕ → W → W) (p : List ℕ) (len argc : ℕ) (w : World F W)
      → board.calibrate_start ≡ some run
      → w.sys ≡ standby
      → command_payload_valid len argc 2 ≡ true
      → start_calibration fl board p len argc w
        ≡ record w { rest = run (word p 3) (word p 7) w.rest }
  unfolding start_calibration
  started run p len argc w e s v = simp (e, s, v)

  -- The selector as the IMU's driver gets it.
  seen :
      IsIeee board
      → (n : ℕ) → n ≤ 15
      → (word (board.write_f (board.as_float n)) 0 ≡ 0)
        ⊎ (4 < word (board.write_f (board.as_float n)) 0)
  seen law zero h = inl law.zero_bits
  seen law (suc n) h = inr (omega (arith, law.one_up (suc n) (omega arith) h))

  -- In STANDBY a command to calibrate is answered as accepted and handed to the IMU's driver, but
  -- whatever its selector, the driver gets an id that is 0 or above 4, so that it is none of the
  -- accelerometer (1), the gyroscope (2), the magnetometer (3) and the board (4).
  pub calibration_unknown :
      (which : ℕ) (run : ℕ → ℕ → W → W) (w : World F W)
      → IsIeee board
      → board.calibrate_start ≡ some run
      → w.sys ≡ standby
      → which ≢ 0xFF
      → (imu typ : ℕ) × (on_cmd_calibrate_imu fl board which w
          ≡ (some accepted, record w { rest = run imu typ w.rest }))
        × ((imu ≡ 0) ⊎ (4 < imu))
  unfolding on_cmd_calibrate_imu dispatch_command
  calibration_unknown which run w law e s n =
      let cmd =
        build_cmd fl board cmd_calibrate_imu
          (board.as_float (which / 16 % 16) ∷ board.as_float (which % 16) ∷ []) in
      let f : (which == 0xFF) ≡ false = ground (arith, n) in
      let c : (code w.sys == code standby) ≡ true = ap (λ t. code t == code standby) s in
      let head =
        word_head 1 0 2 (board.write_f (board.as_float (which / 16 % 16)))
          (arg_bytes fl board (board.as_float (which % 16) ∷ []))
          (law.four (board.as_float (which / 16 % 16))) in
      (
        word cmd.0 3,
        word cmd.0 7,
        simp (f, c) (ap (λ v. (some accepted, v)) (started run cmd.0 cmd.1 2 w e s refl)),
        subst (λ v. (v ≡ 0) ⊎ (4 < v)) (sym head) (seen law (which / 16 % 16) (omega arith)),
      )
