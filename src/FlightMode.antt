-- ===== src/FlightMode.antt =====
-- firmware/src/control/flight_mode.c: who decides between stabilised and acrobatic flight. The float
-- argument of the command is read by a parameter, which gives the rounded number.
mod Tests
use vayu.Common.{
  ℕ, ◌≡◌, ◌<◌, ◌≤◌, Bool, true, false, ◌||◌, List, [], ◌∷◌, ltb, get_or, drop, take, if◌then◌else◌,
  ℤ, pos, negsuc, ◌==◌, refl, Bool-cases, inl, inr, arith, ◌⊎◌,
}

-- `flight_mode_t`.
pub data Mode : Type 0 where
  angle acro : Mode

-- `flight_mode_src_t`.
pub data Source : Type 0 where
  rc gcs : Source

-- The statics of the file.
pub record Arbiter : Type 0 where
  pub override_active : Bool
  pub override_mode : Mode
  pub effective : Mode
  pub source : Source

-- `flight_mode_set_override`.
abbrev pub set_override : Mode → Arbiter → Arbiter
set_override m a = record a { override_mode = m; override_active = true }

-- `flight_mode_release`.
abbrev pub release : Arbiter → Arbiter
release a = record a { override_active = false }

abbrev is_acro : Mode → Bool
is_acro acro = true
is_acro angle = false

-- `flight_mode_resolve_acro`.
unfoldable pub resolve_acro : Bool → Arbiter → Bool × Arbiter
resolve_acro rc_acro a =
    let mode = if a.override_active then a.override_mode else if rc_acro then acro else angle in
    let src = if a.override_active then gcs else rc in
    (is_acro mode, record a { effective = mode; source = src })

-- The `switch` of `flight_mode_apply_command`.
abbrev apply_value : ℤ → Arbiter → Arbiter
apply_value (pos n) a =
    if n == 0 then set_override angle a else if n == 1 then set_override acro a else release a
apply_value (negsuc n) a = release a

-- `flight_mode_apply_command`.
unfoldable pub apply_command : (List ℕ → ℤ) → List ℕ → ℕ → Arbiter → Bool × Arbiter
apply_command rounded payload len a =
    if ltb len 7
    then (false, a)
    else if ltb (get_or payload 2 0) 1
    then (false, a)
    else (true, apply_value (rounded (take 4 (drop 3 payload))) a)

abbrev is_value : ℕ → ℤ → Bool
is_value k (pos n) = n == k
is_value k (negsuc n) = false

-- What a command with the number `n` makes of the RC switch.
abbrev pub decided : ℤ → Bool → Bool
decided n rc_acro = if is_value 0 n then false else if is_value 1 n then true else rc_acro

acro_of : (b : Bool) → is_acro (if b then acro else angle) ≡ b
acro_of true = refl
acro_of false = refl

resolved :
    (n : ℤ) (rc_acro : Bool) (a : Arbiter)
    → ((resolve_acro rc_acro (apply_value n a)).0 ≡ decided n rc_acro)
      × ((resolve_acro rc_acro (apply_value n a)).1.source
          ≡ (if is_value 0 n || is_value 1 n then gcs else rc))
unfolding resolve_acro
resolved (negsuc k) true a = (refl, refl)
resolved (negsuc k) false a = (refl, refl)
resolved (pos k) rc_acro a = elim (Bool-cases (k == 0)) [
  | inl z ↦ simp z (refl, refl)
  | inr z ↦ elim (Bool-cases (k == 1)) [
    | inl o ↦ simp (z, o) (refl, refl)
    | inr o ↦ simp (z, o) (acro_of rc_acro, refl)
  ]
]

-- A command of at least 7 bytes and one argument decides the next resolution, whatever was set before:
-- number 0 gives stabilised flight and 1 acrobatic flight whatever the RC switch says, and any other
-- number gives the choice to the switch; the source that is published says which of the two decided.
command_decides :
    (rounded : List ℕ → ℤ) (payload : List ℕ) (len : ℕ) (rc_acro : Bool) (a : Arbiter) (n : ℤ)
    → 7 ≤ len
    → 1 ≤ get_or payload 2 0
    → rounded (take 4 (drop 3 payload)) ≡ n
    → ((resolve_acro rc_acro (apply_command rounded payload len a).1).0 ≡ decided n rc_acro)
      × ((resolve_acro rc_acro (apply_command rounded payload len a).1).1.source
          ≡ (if is_value 0 n || is_value 1 n then gcs else rc))
unfolding apply_command resolve_acro
command_decides rounded payload len rc_acro a n h k e =
    let l : ltb len 7 ≡ false = ground arith in
    let m : ltb (get_or payload 2 0) 1 ≡ false = ground arith in
    simp (apply_command, resolve_acro, l, m, e) (resolved n rc_acro a)
