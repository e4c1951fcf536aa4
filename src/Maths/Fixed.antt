-- ===== src/Maths/Fixed.antt =====
-- Fixed-point numbers, in millionths, to run the controllers on.
use vayu.Common.{
  ℕ, zero, suc, ◌+◌, ◌*◌, ◌-◌, ◌/◌, ◌^◌, ◌≡◌, refl, Bool, true, false, not, Option, none, some, ℤ,
  pos, negsuc, ltb, leb, ◌==◌, if◌then◌else◌, arith,
}
use vayu.Maths.{Float, IsOrder, IsSpreading}

abbrev pub unit : ℕ
unit = 1000000

-- The integer `a - b`.
abbrev pub minus : ℕ → ℕ → ℤ
minus a b = if leb b a then pos (a - b) else negsuc (b - a - 1)

abbrev pub opposite : ℤ → ℤ
opposite (pos zero) = pos 0
opposite (pos (suc n)) = negsuc n
opposite (negsuc n) = pos (suc n)

abbrev pub plus : ℤ → ℤ → ℤ
plus (pos a) (pos b) = pos (a + b)
plus (pos a) (negsuc b) = minus a (suc b)
plus (negsuc a) (pos b) = minus b (suc a)
plus (negsuc a) (negsuc b) = negsuc (suc (a + b))

abbrev pub size : ℤ → ℕ
size (pos a) = a
size (negsuc a) = suc a

abbrev pub below_zero : ℤ → Bool
below_zero (pos a) = false
below_zero (negsuc a) = true

-- A magnitude with the sign of a product.
abbrev pub signed : Bool → Bool → ℕ → ℤ
signed true true n = pos n
signed false false n = pos n
signed true false n = opposite (pos n)
signed false true n = opposite (pos n)

abbrev pub less : ℤ → ℤ → Bool
less (pos a) (pos b) = ltb a b
less (pos a) (negsuc b) = false
less (negsuc a) (pos b) = true
less (negsuc a) (negsuc b) = ltb b a

abbrev pub less_eq : ℤ → ℤ → Bool
less_eq (pos a) (pos b) = leb a b
less_eq (pos a) (negsuc b) = false
less_eq (negsuc a) (pos b) = true
less_eq (negsuc a) (negsuc b) = leb b a

-- A number, or `none` for what is not a number.
abbrev pub lift : (ℤ → ℤ → ℤ) → Option ℤ → Option ℤ → Option ℤ
lift f none b = none
lift f (some a) none = none
lift f (some a) (some b) = some (f a b)

abbrev pub test : (ℤ → ℤ → Bool) → Option ℤ → Option ℤ → Bool
test f none b = false
test f (some a) none = false
test f (some a) (some b) = f a b

abbrev pub lift_one : (ℤ → ℤ) → Option ℤ → Option ℤ
lift_one f none = none
lift_one f (some a) = some (f a)

abbrev pub undefined : Option ℤ → Bool
undefined none = true
undefined (some a) = false

abbrev pub quotient : ℤ → ℤ → Option ℤ
quotient a b =
    if size b == 0
    then none
    else some (signed (below_zero a) (below_zero b) (size a * unit / size b))

abbrev pub ratio : Option ℤ → Option ℤ → Option ℤ
ratio none b = none
ratio (some a) none = none
ratio (some a) (some b) = quotient a b

abbrev pub fixed : Float (Option ℤ)
fixed = record {
  add = lift plus;
  sub = lift (λ a b. plus a (opposite b));
  mul = lift (λ a b. signed (below_zero a) (below_zero b) (size a * size b / unit));
  div = ratio;
  neg = lift_one opposite;
  fabs = lift_one (λ a. pos (size a));
  sqrt = λ a. a;
  lt = test less;
  le = test less_eq;
  is_nan = undefined;
  is_finite = λ a. not (undefined a);
  lit = λ m e. some (pos (m * unit / 10 ^ e));
}

less_irrefl : (a : ℤ) → less a a ≡ false
less_irrefl (pos a) = ground arith
less_irrefl (negsuc a) = ground arith

test_irrefl : (a : Option ℤ) → test less a a ≡ false
test_irrefl none = refl
test_irrefl (some a) = less_irrefl a

less_asym : (a b : ℤ) → less a b ≡ true → less b a ≡ false
less_asym (pos a) (pos b) h = ground (arith, h)
less_asym (pos a) (negsuc b) h = absurd (ground (arith, h))
less_asym (negsuc a) (pos b) h = refl
less_asym (negsuc a) (negsuc b) h = ground (arith, h)

test_asym : (a b : Option ℤ) → test less a b ≡ true → test less b a ≡ false
test_asym none b h = absurd (ground (arith, h))
test_asym (some a) none h = absurd (ground (arith, h))
test_asym (some a) (some b) h = less_asym a b h

test_left : (a b : Option ℤ) → undefined a ≡ true → test less a b ≡ false
test_left none b h = refl
test_left (some a) b h = absurd (ground (arith, h))

test_right : (a b : Option ℤ) → undefined b ≡ true → test less a b ≡ false
test_right none b h = refl
test_right (some a) none h = refl
test_right (some a) (some b) h = absurd (ground (arith, h))

pub fixed-IsOrder : IsOrder fixed
fixed-IsOrder = record {
  irrefl = test_irrefl;
  asym = test_asym;
  nan_below = test_left;
  nan_above = test_right;
}

lift_left : (f : ℤ → ℤ → ℤ) (a b : Option ℤ) → undefined a ≡ true → undefined (lift f a b) ≡ true
lift_left f none b h = refl
lift_left f (some a) b h = absurd (ground (arith, h))

lift_right : (f : ℤ → ℤ → ℤ) (a b : Option ℤ) → undefined b ≡ true → undefined (lift f a b) ≡ true
lift_right f none b h = refl
lift_right f (some a) none h = refl
lift_right f (some a) (some b) h = absurd (ground (arith, h))

pub fixed-IsSpreading : IsSpreading fixed
fixed-IsSpreading = record {
  add_left = lift_left plus;
  sub_right = lift_right (λ a b. plus a (opposite b));
  mul_right = lift_right (λ a b. signed (below_zero a) (below_zero b) (size a * size b / unit));
}
