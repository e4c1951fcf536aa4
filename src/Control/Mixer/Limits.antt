-- ===== src/Control/Mixer/Limits.antt =====
-- The motor commands of firmware/src/control/mixer.c, whatever the arithmetic rounds to.
use vayu.Common.{
  suc, ◌≡◌, refl, ap, ap₂, ◌∙◌, false, List, [], ◌∷◌, map, length, Bool-cases, inl, inr, length-map,
}
use vayu.Maths.{Float, IsOrder, IsWithin}
use vayu.Control.Mixer.{
  Mixer, Wrench, Airmode, disabled, rp, rpy, allocate, fit, guard, one_f, zero_f, nominal,
  scale_all, desaturate, shift, scale_of, least, greatest,
}

-- A command that a motor may be given.
pub record IsCommand {F : Type 0} (fl : Float F) (lo v : F) : Type 0 where
  pub within : IsWithin fl lo (one_f fl) v
  pub number : fl.is_nan v ≡ false

-- What every member of a list satisfies.
pub data IsAll {A : Type 0} (P : A → Type 0) : List A → Type 0 where
  done : IsAll P []
  more : {x : A} {xs : List A} → P x → IsAll P xs → IsAll P (x ∷ xs)

module _ {F : Type 0} (fl : Float F) (law : IsOrder fl) where
  guard-IsCommand :
      (lo m : F)
      → fl.lt (one_f fl) lo ≡ false
      → fl.is_nan lo ≡ false
      → fl.is_nan (one_f fl) ≡ false
      → IsCommand fl lo (guard fl lo (one_f fl) m)
  unfolding guard
  guard-IsCommand lo m h a b = elim (Bool-cases (fl.is_nan m)) [
    | inl n ↦
        simp (guard, n, law.irrefl lo, h)
          (record { within = record { above = law.irrefl lo; below = h }; number = a })
    | inr n ↦ elim (Bool-cases (fl.lt m lo)) [
      | inl l ↦
          simp (guard, n, l, h)
            (record { within = record { above = law.irrefl lo; below = h }; number = a })
      | inr l ↦ elim (Bool-cases (fl.lt (one_f fl) m)) [
        | inl u ↦
            simp (guard, n, l, u)
              (record { within = record { above = h; below = law.irrefl (one_f fl) }; number = b })
        | inr u ↦
            simp (guard, n, l, u) (record { within = record { above = l; below = u }; number = n })
      ]
    ]
  ]

  map-IsAll : {P : F → Type 0} (g : F → F) (xs : List F) → ((x : F) → P (g x)) → IsAll P (map g xs)
  map-IsAll g [] h = done
  map-IsAll g (x ∷ xs) h = more (h x) (map-IsAll g xs h)

  length-shift : (k : F) (ms ds : List F) → length (shift fl k ms ds) ≡ length ms
  unfolding shift
  length-shift k [] ds = refl
  length-shift k (m ∷ ms) [] = refl
  length-shift k (m ∷ ms) (d ∷ ds) = ap suc (length-shift k ms ds)

  length-scale_all : (thr : F) (ms : List F) → length (scale_all fl thr ms) ≡ length ms
  unfolding scale_all
  length-scale_all thr [] = refl
  length-scale_all thr (m ∷ ms) =
      let s = scale_of fl thr (least fl m ms) (greatest fl m ms) in
      elim (Bool-cases (fl.lt s (one_f fl))) [
        | inl h ↦ simp (scale_all, h) (ap suc (length-map ms _))
        | inr h ↦ simp (scale_all, h) refl
      ]

  length-fit :
      (mode : Airmode) (mx : Mixer F) (w : Wrench F) (ms : List F)
      → length (fit fl mode mx w ms) ≡ length ms
  unfolding fit desaturate
  length-fit disabled mx w ms = length-scale_all w.thrust ms
  length-fit rp mx w ms = length-shift _ _ _ ∙ length-shift _ ms _
  length-fit rpy mx w ms = length-shift _ ms _

  -- Every motor gets one command, and each is a number that is neither below the idle floor nor above 1:
  -- for any geometry, airmode and wrench, also one that is not a number, and any arithmetic whose order is
  -- one, if the idle floor and 1 are numbers and the floor is not above 1.
  pub allocate_commands :
      (mx : Mixer F) (w : Wrench F)
      → fl.lt (one_f fl) mx.idle_floor ≡ false
      → fl.is_nan mx.idle_floor ≡ false
      → fl.is_nan (one_f fl) ≡ false
      → IsAll (IsCommand fl mx.idle_floor) (allocate fl mx w)
        × (length (allocate fl mx w) ≡ length mx.b_pinv)
  unfolding allocate
  allocate_commands mx w h a b = (
    map-IsAll _ _ (λ m. guard-IsCommand mx.idle_floor m h a b),
    length-map _ _ ∙ length-fit mx.airmode mx w _ ∙ length-map mx.b_pinv (nominal fl w),
  )

  least_keeps : (P : F → Type 0) (mn : F) (ms : List F) → P mn → IsAll P ms → P (least fl mn ms)
  unfolding least
  least_keeps P mn [] p done = p
  least_keeps P mn (m ∷ ms) p (more q qs) = elim (Bool-cases (fl.lt m mn)) [
    | inl h ↦ simp (least, h) (least_keeps P m ms q qs)
    | inr h ↦ simp (least, h) (least_keeps P mn ms p qs)
  ]

  greatest_keeps :
      (P : F → Type 0) (mx : F) (ms : List F) → P mx → IsAll P ms → P (greatest fl mx ms)
  unfolding greatest
  greatest_keeps P mx [] p done = p
  greatest_keeps P mx (m ∷ ms) p (more q qs) = elim (Bool-cases (fl.lt mx m)) [
    | inl h ↦ simp (greatest, h) (greatest_keeps P m ms q qs)
    | inr h ↦ simp (greatest, h) (greatest_keeps P mx ms p qs)
  ]

  weaken : {P Q : F → Type 0} {xs : List F} → ((x : F) → P x → Q x) → IsAll P xs → IsAll Q xs
  weaken g done = done
  weaken g (more p ps) = more (g _ p) (weaken g ps)

  guard_same : (lo v : F) → IsCommand fl lo v → guard fl lo (one_f fl) v ≡ v
  unfolding guard
  guard_same lo v c = simp (guard, c.number, c.within.above, c.within.below) refl

  guards_same :
      (lo : F) (vs : List F) → IsAll (IsCommand fl lo) vs → map (guard fl lo (one_f fl)) vs ≡ vs
  guards_same lo [] done = refl
  guards_same lo (v ∷ vs) (more p ps) =
      ap₂ (λ x xs. x ∷ xs) (guard_same lo v p) (guards_same lo vs ps)

  scale_of_one :
      (thr mn mx : F)
      → fl.lt mn (zero_f fl) ≡ false
      → fl.lt (one_f fl) mx ≡ false
      → scale_of fl thr mn mx ≡ one_f fl
  unfolding scale_of
  scale_of_one thr mn mx a b = simp (scale_of, a, b) refl

  scale_all_same :
      (thr : F) (ms : List F)
      → IsAll (λ v. fl.lt v (zero_f fl) ≡ false) ms
      → IsAll (λ v. fl.lt (one_f fl) v ≡ false) ms
      → scale_all fl thr ms ≡ ms
  unfolding scale_all
  scale_all_same thr [] done done = refl
  scale_all_same thr (m ∷ ms) (more p ps) (more q qs) =
      let e =
        scale_of_one thr (least fl m ms) (greatest fl m ms)
          (least_keeps (λ v. fl.lt v (zero_f fl) ≡ false) m ms p ps)
          (greatest_keeps (λ v. fl.lt (one_f fl) v ≡ false) m ms q qs) in
      simp (scale_all, e, law.irrefl (one_f fl)) refl

  -- With airmode off, a demand that fits is passed on as it is: if each motor's share of the wrench is a
  -- number, not below 0, not below the idle floor and not above 1, the commands are these shares.
  fitting_demand_unchanged :
      (mx : Mixer F) (w : Wrench F)
      → mx.airmode ≡ disabled
      → IsAll (λ v. fl.lt v (zero_f fl) ≡ false) (map (nominal fl w) mx.b_pinv)
      → IsAll (IsCommand fl mx.idle_floor) (map (nominal fl w) mx.b_pinv)
      → allocate fl mx w ≡ map (nominal fl w) mx.b_pinv
  unfolding allocate fit
  fitting_demand_unchanged mx w off p c =
      let vs = map (nominal fl w) mx.b_pinv in
      simp (allocate, off)
        (ap (map (guard fl mx.idle_floor (one_f fl)))
            (scale_all_same w.thrust vs p (weaken (λ x k. k.within.below) c))
          ∙ guards_same mx.idle_floor vs c)
