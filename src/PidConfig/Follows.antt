-- ===== src/PidConfig/Follows.antt =====
-- The live controllers follow the store of firmware/src/control/pid_config.c.
use mathlib.Core.Path.{subst}
use vayu.Common.{
  ℕ, ◌<◌, ◌≡◌, refl, sym, Bool, true, false, Option, none, some, ◌==◌, ==_iff, if◌then◌else◌,
  Bool-cases, inl, inr,
}
use vayu.Maths.{Float}
use vayu.Control.Pid.{Pid, set_gains, set_d_lpf_rc}
use vayu.PidConfig.{
  PidGains, Detection, Store, Live, put, or_zero, set_detection, notch_set_params, notch_get_params,
}

-- A controller has the gains and the filter of its slots, and the compiled ones where a slot is empty.
pub record PidFollows {F : Type 0} (fl : Float F) (g : PidGains F) (v : Bool) (rc : F)
    (p₀ p : Pid F) : Type 0 where
  pub of_kp : p.kp ≡ (if g.valid then g.kp else p₀.kp)
  pub of_ki : p.ki ≡ (if g.valid then g.ki else p₀.ki)
  pub of_kd : p.kd ≡ (if g.valid then g.kd else p₀.kd)
  pub of_kff : p.kff ≡ (if g.valid then g.kff else p₀.kff)
  pub of_d_lpf : p.d_lpf_rc ≡ (if v then or_zero fl rc else p₀.d_lpf_rc)

-- Every detection parameter is above zero.
abbrev pub IsPositive : {F : Type 0} → Float F → Option (Detection F) → Type 0
IsPositive fl none = Unit {0}
IsPositive fl (some d) =
    (fl.lt (fl.lit 0 0) d.q ≡ true)
    × (fl.lt (fl.lit 0 0) d.fmin_hz ≡ true)
    × (fl.lt (fl.lit 0 0) d.fmax_hz ≡ true)
    × (fl.lt (fl.lit 0 0) d.min_ratio ≡ true)

-- Two banks are both allocated or neither.
abbrev pub SameAlloc : {F : Type 0} → Option (Detection F) → Option (Detection F) → Type 0
SameAlloc none none = Unit {0}
SameAlloc none (some c) = ⊥
SameAlloc (some b) none = ⊥
SameAlloc (some b) (some c) = Unit {0}

-- The controllers `l` follow the store `s`, over the compiled ones `d`.
pub record Follows {F : Type 0} (fl : Float F) (s : Store F) (d l : Live F) : Type 0 where
  pub of_rate :
      (i : ℕ)
      → i < 3
      → PidFollows fl (s.gains 1 i) (s.d_lpf_valid i) (s.d_lpf i) (d.rate i) (l.rate i)
  pub of_angle :
      (i : ℕ) → i < 3 → PidFollows fl (s.gains 0 i) false (s.d_lpf i) (d.angle i) (l.angle i)
  pub of_gyro :
      (i : ℕ)
      → i < 3
      → l.gyro_rc i ≡ (if s.gyro_lpf_valid i then or_zero fl (s.gyro_lpf i) else d.gyro_rc i)
  pub of_bank : l.bank ≡ (if s.notch_valid then notch_set_params fl s.notch d.bank else d.bank)
  pub of_on : l.notch_on ≡ (if s.notch_valid then s.notch_enabled else d.notch_on)
  pub allocated : SameAlloc d.bank l.bank
  pub positive : IsPositive fl l.bank

put_self : {A : Type 0} (a : ℕ → A) (i : ℕ) (v : A) → put a i v i ≡ v
put_self a i v = let e : (i == i) ≡ true = (==_iff i i).1 refl in simp e refl

put_ne : {A : Type 0} (a : ℕ → A) (i j : ℕ) (v : A) → (i == j) ≡ false → put a i v j ≡ a j
put_ne a i j v h = simp h refl

-- A property of the entry that is written and of the others.
put_by :
    {A : Type 0} (P : ℕ → A → Type 0) (a : ℕ → A) (i : ℕ) (v : A) (j : ℕ)
    → P i v
    → ((i == j) ≡ false → P j (a j))
    → P j (put a i v j)
put_by P a i v j hit miss = elim (Bool-cases (i == j)) [
  | inl e ↦
      subst (λ k. P k (put a i v k)) ((==_iff i j).0 e) (subst (P i) (sym (put_self a i v)) hit)
  | inr e ↦ subst (P j) (sym (put_ne a i j v e)) (miss e)
]

module _ {F : Type 0} (fl : Float F) where
  set_gains-PidFollows :
      (g h : PidGains F) (v : Bool) (rc : F) (p₀ p : Pid F)
      → g.valid ≡ true
      → PidFollows fl h v rc p₀ p
      → PidFollows fl g v rc p₀ (set_gains fl g.kp g.ki g.kd g.kff p)
  unfolding set_gains
  set_gains-PidFollows g h v rc p₀ p e f = record {
    of_kp = simp e refl;
    of_ki = simp e refl;
    of_kd = simp e refl;
    of_kff = simp e refl;
    of_d_lpf = f.of_d_lpf;
  }

  set_d_lpf-PidFollows :
      (g : PidGains F) (v : Bool) (rc rc' : F) (p₀ p : Pid F)
      → PidFollows fl g v rc p₀ p
      → PidFollows fl g true rc' p₀ (set_d_lpf_rc fl rc' p)
  unfolding set_d_lpf_rc
  set_d_lpf-PidFollows g v rc rc' p₀ p f = record {
    of_kp = f.of_kp;
    of_ki = f.of_ki;
    of_kd = f.of_kd;
    of_kff = f.of_kff;
    of_d_lpf = refl;
  }

  pub rate_gains-Follows :
      (axis : ℕ) (g : PidGains F) (s : Store F) (d l : Live F)
      → g.valid ≡ true
      → axis < 3
      → Follows fl s d l
      → Follows fl
          (record s { gains = put s.gains 1 (put (s.gains 1) axis g) })
          d
          (record l { rate = put l.rate axis (set_gains fl g.kp g.ki g.kd g.kff (l.rate axis)) })
  rate_gains-Follows axis g s d l e k f = record {
    of_rate = λ i h.
        put_by
          (λ j p.
            PidFollows fl (put (s.gains 1) axis g j) (s.d_lpf_valid j) (s.d_lpf j) (d.rate j) p)
          l.rate axis (set_gains fl g.kp g.ki g.kd g.kff (l.rate axis)) i
          (subst
            (λ x.
              PidFollows fl x (s.d_lpf_valid axis) (s.d_lpf axis) (d.rate axis)
                (set_gains fl g.kp g.ki g.kd g.kff (l.rate axis)))
            (sym (put_self (s.gains 1) axis g))
            (set_gains-PidFollows g (s.gains 1 axis) _ _ _ _ e (f.of_rate axis k)))
          (λ n.
            subst (λ x. PidFollows fl x (s.d_lpf_valid i) (s.d_lpf i) (d.rate i) (l.rate i))
              (sym (put_ne (s.gains 1) axis i g n)) (f.of_rate i h));
    of_angle = f.of_angle;
    of_gyro = f.of_gyro;
    of_bank = f.of_bank;
    of_on = f.of_on;
    allocated = f.allocated;
    positive = f.positive;
  }

  pub angle_gains-Follows :
      (axis : ℕ) (g : PidGains F) (s : Store F) (d l : Live F)
      → g.valid ≡ true
      → axis < 3
      → Follows fl s d l
      → Follows fl
          (record s { gains = put s.gains 0 (put (s.gains 0) axis g) })
          d
          (record l { angle = put l.angle axis (set_gains fl g.kp g.ki g.kd g.kff (l.angle axis)) })
  angle_gains-Follows axis g s d l e k f = record {
    of_rate = f.of_rate;
    of_angle = λ i h.
        put_by (λ j p. PidFollows fl (put (s.gains 0) axis g j) false (s.d_lpf j) (d.angle j) p)
          l.angle axis (set_gains fl g.kp g.ki g.kd g.kff (l.angle axis)) i
          (subst
            (λ x.
              PidFollows fl x false (s.d_lpf axis) (d.angle axis)
                (set_gains fl g.kp g.ki g.kd g.kff (l.angle axis)))
            (sym (put_self (s.gains 0) axis g))
            (set_gains-PidFollows g (s.gains 0 axis) _ _ _ _ e (f.of_angle axis k)))
          (λ n.
            subst (λ x. PidFollows fl x false (s.d_lpf i) (d.angle i) (l.angle i))
              (sym (put_ne (s.gains 0) axis i g n)) (f.of_angle i h));
    of_gyro = f.of_gyro;
    of_bank = f.of_bank;
    of_on = f.of_on;
    allocated = f.allocated;
    positive = f.positive;
  }

  pub gyro-Follows :
      (axis : ℕ) (rc : F) (s : Store F) (d l : Live F)
      → Follows fl s d l
      → Follows fl
          (record s {
            gyro_lpf = put s.gyro_lpf axis rc;
            gyro_lpf_valid = put s.gyro_lpf_valid axis true;
          })
          d
          (record l { gyro_rc = put l.gyro_rc axis (or_zero fl rc) })
  gyro-Follows axis rc s d l f = record {
    of_rate = f.of_rate;
    of_angle = f.of_angle;
    of_gyro = λ i h. elim (Bool-cases (axis == i)) [
      | inl e ↦ simp e refl
      | inr e ↦ simp e (f.of_gyro i h)
    ];
    of_bank = f.of_bank;
    of_on = f.of_on;
    allocated = f.allocated;
    positive = f.positive;
  }

  pub d_lpf-Follows :
      (axis : ℕ) (rc : F) (s : Store F) (d l : Live F)
      → axis < 3
      → Follows fl s d l
      → Follows fl
          (record s { d_lpf = put s.d_lpf axis rc; d_lpf_valid = put s.d_lpf_valid axis true })
          d
          (record l { rate = put l.rate axis (set_d_lpf_rc fl rc (l.rate axis)) })
  d_lpf-Follows axis rc s d l k f = record {
    of_rate = λ i h. elim (Bool-cases (axis == i)) [
      | inl e ↦
          let q : axis ≡ i = (==_iff axis i).0 e in
          let m : PidFollows fl (s.gains 1 i) true rc (d.rate i)
              (set_d_lpf_rc fl rc (l.rate axis)) =
            subst
              (λ j.
                PidFollows fl (s.gains 1 j) true rc (d.rate j) (set_d_lpf_rc fl rc (l.rate axis)))
              q (set_d_lpf-PidFollows (s.gains 1 axis) _ _ rc _ _ (f.of_rate axis k)) in
          simp e m
      | inr e ↦ simp e (f.of_rate i h)
    ];
    of_angle = λ i h.
        let a = f.of_angle i h in
        record {
          of_kp = a.of_kp;
          of_ki = a.of_ki;
          of_kd = a.of_kd;
          of_kff = a.of_kff;
          of_d_lpf = a.of_d_lpf;
        };
    of_gyro = f.of_gyro;
    of_bank = f.of_bank;
    of_on = f.of_on;
    allocated = f.allocated;
    positive = f.positive;
  }

  -- A parameter that a command gives or leaves is positive, and stands on a second setting.
  kept_positive :
      (new old : F)
      → fl.lt (fl.lit 0 0) old ≡ true
      → fl.lt (fl.lit 0 0) (if fl.lt (fl.lit 0 0) new then new else old) ≡ true
  kept_positive new old h = elim (Bool-cases (fl.lt (fl.lit 0 0) new)) [
    | inl e ↦ simp e refl
    | inr e ↦ simp e h
  ]

  pub set_params-IsPositive :
      (new : Detection F) (b : Option (Detection F))
      → IsPositive fl b
      → IsPositive fl (notch_set_params fl new b)
  unfolding notch_set_params set_detection
  set_params-IsPositive new none h = tt
  set_params-IsPositive new (some b) (q, a, z, r) = (
    kept_positive new.q b.q q,
    kept_positive new.fmin_hz b.fmin_hz a,
    kept_positive new.fmax_hz b.fmax_hz z,
    kept_positive new.min_ratio b.min_ratio r,
  )

  pub set_params-SameAlloc :
      (new : Detection F) (b c : Option (Detection F))
      → SameAlloc b c
      → SameAlloc b (notch_set_params fl new c)
  unfolding notch_set_params
  set_params-SameAlloc new none none h = tt
  set_params-SameAlloc new none (some c) h = absurd h
  set_params-SameAlloc new (some b) none h = absurd h
  set_params-SameAlloc new (some b) (some c) h = tt

  -- The parameters in force, read back and set on the compiled bank, are in force again.
  in_force :
      (new : Detection F) (b c : Option (Detection F))
      → SameAlloc b c
      → IsPositive fl c
      → notch_set_params fl new c
        ≡ notch_set_params fl (notch_get_params (notch_set_params fl new c) new) b
  unfolding notch_set_params notch_get_params
  in_force new none none h p = refl
  in_force new none (some c) h p = absurd h
  in_force new (some b) none h p = absurd h
  in_force new (some b) (some c) h (q, a, z, r) =
      let e₁ = kept_positive new.q c.q q in
      let e₂ = kept_positive new.fmin_hz c.fmin_hz a in
      let e₃ = kept_positive new.fmax_hz c.fmax_hz z in
      let e₄ = kept_positive new.min_ratio c.min_ratio r in
      unfold set_detection in simp (e₁, e₂, e₃, e₄) refl

  pub notch-Follows :
      (enabled : Bool) (new : Detection F) (s : Store F) (d l : Live F)
      → Follows fl s d l
      → Follows fl
          (record s {
            notch = notch_get_params (notch_set_params fl new l.bank) new;
            notch_enabled = enabled;
            notch_valid = true;
          })
          d
          (record l { bank = notch_set_params fl new l.bank; notch_on = enabled })
  notch-Follows enabled new s d l f = record {
    of_rate = f.of_rate;
    of_angle = f.of_angle;
    of_gyro = f.of_gyro;
    of_bank = in_force new d.bank l.bank f.allocated f.positive;
    of_on = refl;
    allocated = set_params-SameAlloc new d.bank l.bank f.allocated;
    positive = set_params-IsPositive new l.bank f.positive;
  }
