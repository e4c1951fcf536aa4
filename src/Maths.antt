-- ===== src/Maths.antt =====
-- firmware/src/maths/maths_interface.c, as far as the controllers use it. The machine's floating-point
-- arithmetic, its comparisons and the C library's fabsf, sqrtf, isnan and isfinite are a record of
-- operations on a type of numbers, so that what is proved holds however they round.
pub mod Fixed
pub mod Inverse
use vayu.Common.{ℕ, ◌≡◌, refl, Bool, true, false, if◌then◌else◌, Bool-cases, inl, inr}

-- `lit m e` is the constant m * 10 ^ -e; `lt a b` is a < b, and a > b is `lt b a`.
pub record Float (F : Type 0) : Type 0 where
  pub add : F → F → F
  pub sub : F → F → F
  pub mul : F → F → F
  pub div : F → F → F
  pub neg : F → F
  pub fabs : F → F
  pub sqrt : F → F
  pub lt : F → F → Bool
  pub le : F → F → Bool
  pub is_nan : F → Bool
  pub is_finite : F → Bool
  pub lit : ℕ → ℕ → F

-- No number is below itself or below one that is below it, and one that is not a number is neither below nor above any.
pub record IsOrder {F : Type 0} (fl : Float F) : Type 0 where
  pub irrefl : (a : F) → fl.lt a a ≡ false
  pub asym : (a b : F) → fl.lt a b ≡ true → fl.lt b a ≡ false
  pub nan_below : (a b : F) → fl.is_nan a ≡ true → fl.lt a b ≡ false
  pub nan_above : (a b : F) → fl.is_nan b ≡ true → fl.lt a b ≡ false

-- What is not a number spreads through sums, differences and products.
pub record IsSpreading {F : Type 0} (fl : Float F) : Type 0 where
  pub add_left : (a b : F) → fl.is_nan a ≡ true → fl.is_nan (fl.add a b) ≡ true
  pub sub_right : (a b : F) → fl.is_nan b ≡ true → fl.is_nan (fl.sub a b) ≡ true
  pub mul_right : (a b : F) → fl.is_nan b ≡ true → fl.is_nan (fl.mul a b) ≡ true

-- `x` is neither below `lo` nor above `hi`.
pub record IsWithin {F : Type 0} (fl : Float F) (lo hi x : F) : Type 0 where
  pub above : fl.lt x lo ≡ false
  pub below : fl.lt hi x ≡ false

module _ {F : Type 0} (fl : Float F) where
  -- `m_clamp`.
  abbrev pub m_clamp : F → F → F → F
  m_clamp val lo hi = if fl.lt val lo then lo else if fl.lt hi val then hi else val

  -- A clamp between bounds in the right order gives a number that is neither below nor above them.
  pub m_clamp-IsWithin :
      (v lo hi : F) → IsOrder fl → fl.lt hi lo ≡ false → IsWithin fl lo hi (m_clamp v lo hi)
  m_clamp-IsWithin v lo hi law h = elim (Bool-cases (fl.lt v lo)) [
    | inl a ↦ simp a (record { above = law.irrefl lo; below = h })
    | inr a ↦ elim (Bool-cases (fl.lt hi v)) [
      | inl b ↦ simp (a, b) (record { above = h; below = law.irrefl hi })
      | inr b ↦ simp (a, b) (record { above = a; below = b })
    ]
  ]
