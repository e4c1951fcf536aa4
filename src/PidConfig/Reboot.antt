-- ===== src/PidConfig/Reboot.antt =====
-- A tune of firmware/src/control/pid_config.c survives a reboot.
use mathlib.Core.Path.{subst}
use vayu.Common.{
  ℕ, ◌<◌, ◌≡◌, refl, sym, ◌∙◌, Bool, true, false, ◌&&◌, arith, Option, none, some, List, [], ◌∷◌,
  inl, inr, ℤ,
}
use vayu.Maths.{Float}
use vayu.Control.Pid.{Pid}
use vayu.PidConfig.{PidGains, Store, Live, Tune, restore, config_init, store_size}
use vayu.PidConfig.Restored.{restore-Follows}
use vayu.PidConfig.Follows.{PidFollows, Follows, IsPositive}
use vayu.PidConfig.Obeyed.{Command, is_stored, Sound, obey, obey-Sound}

-- What a tune sets of two controllers is the same.
pub record SamePid {F : Type 0} (p q : Pid F) : Type 0 where
  pub same_kp : p.kp ≡ q.kp
  pub same_ki : p.ki ≡ q.ki
  pub same_kd : p.kd ≡ q.kd
  pub same_kff : p.kff ≡ q.kff
  pub same_d_lpf : p.d_lpf_rc ≡ q.d_lpf_rc

-- What a tune sets of the live controllers is the same.
pub record SameTune {F : Type 0} (a b : Live F) : Type 0 where
  pub same_rate : (i : ℕ) → i < 3 → SamePid (a.rate i) (b.rate i)
  pub same_angle : (i : ℕ) → i < 3 → SamePid (a.angle i) (b.angle i)
  pub same_gyro : (i : ℕ) → i < 3 → a.gyro_rc i ≡ b.gyro_rc i
  pub same_bank : a.bank ≡ b.bank
  pub same_on : a.notch_on ≡ b.notch_on

-- What the card holds for the next boot: the last snapshot, or the file of the last one.
abbrev pub next_file : {F : Type 0} → Option (ℕ × Store F) → Option (Store F) → Option (ℕ × Store F)
next_file file none = file
next_file file (some s) = some (store_size, s)

-- Every command stores what it sets.
abbrev pub all_stored : {F : Type 0} → List (Command F) → Bool
all_stored [] = true
all_stored (c ∷ cs) = is_stored c && all_stored cs

module _ {F : Type 0} (fl : Float F) where
  pid_same :
      (g : PidGains F) (v : Bool) (rc : F) (p₀ p r : Pid F)
      → PidFollows fl g v rc p₀ p
      → PidFollows fl g v rc p₀ r
      → SamePid r p
  pid_same g v rc p₀ p r f h = record {
    same_kp = h.of_kp ∙ sym f.of_kp;
    same_ki = h.of_ki ∙ sym f.of_ki;
    same_kd = h.of_kd ∙ sym f.of_kd;
    same_kff = h.of_kff ∙ sym f.of_kff;
    same_d_lpf = h.of_d_lpf ∙ sym f.of_d_lpf;
  }

  -- A boot: the store is zero before the file is read, and the controllers are the compiled ones.
  unfoldable pub boot : Option (ℕ × Store F) → Store F → Live F → Tune F
  boot file zeroed d =
      let s = config_init file zeroed in record { store = s; live = restore fl s d; saved = none }

  same_tune : (s : Store F) (d l r : Live F) → Follows fl s d l → Follows fl s d r → SameTune r l
  same_tune s d l r f g = record {
    same_rate = λ i h. pid_same _ _ _ _ _ _ (f.of_rate i h) (g.of_rate i h);
    same_angle = λ i h. pid_same _ _ _ _ _ _ (f.of_angle i h) (g.of_angle i h);
    same_gyro = λ i h. g.of_gyro i h ∙ sym (f.of_gyro i h);
    same_bank = g.of_bank ∙ sym f.of_bank;
    same_on = g.of_on ∙ sym f.of_on;
  }

module _ {F : Type 0} (fl : Float F) (read_f : List ℕ → F) (trunc : F → ℤ) where
  -- Commands in order; what each returns is left out.
  unfoldable pub run : List (Command F) → Tune F → Tune F
  run [] t = t
  run (c ∷ cs) t = run cs (obey fl read_f trunc c t).1

  run-Sound :
      (cs : List (Command F)) (t : Tune F) (s₀ : Store F) (d : Live F)
      → all_stored cs ≡ true
      → Sound fl s₀ d t
      → Sound fl s₀ d (run cs t)
  unfolding run
  run-Sound [] t s₀ d k f = f
  run-Sound (c ∷ cs) t s₀ d k f =
      run-Sound cs (obey fl read_f trunc c t).1 s₀ d (ground (arith, k))
        (obey-Sound fl read_f trunc c t s₀ d (ground (arith, k)) f)

  reread :
      (file : Option (ℕ × Store F)) (zeroed : Store F) (d : Live F) (t : Tune F)
      → Sound fl (config_init file zeroed) d t
      → config_init (next_file file t.saved) zeroed ≡ t.store
  unfolding config_init
  reread file zeroed d t f = elim f.snapshot [
    | inl (e, q) ↦ simp e (sym q)
    | inr (e, m) ↦ simp (e, config_init, m) refl
  ]

  -- A tune survives a reboot: after any commands, with any payloads and arguments, between which no learn
  -- of the notch's band ended (which sets the live notch and stores nothing), a boot that reads the last
  -- snapshot restores the gains, the filter constants, the notch parameters and its switch to
  -- what the controllers had; without a snapshot the file of the last boot does. The compiled notch
  -- starts off, with positive parameters if it has banks, and the card returns what was saved.
  pub reboot_restores :
      (cs : List (Command F)) (file : Option (ℕ × Store F)) (zeroed : Store F) (d : Live F)
      → all_stored cs ≡ true
      → d.notch_on ≡ false
      → IsPositive fl d.bank
      → let t = run cs (boot fl file zeroed d) in
        SameTune (boot fl (next_file file t.saved) zeroed d).live t.live
  unfolding boot
  reboot_restores cs file zeroed d k n p =
      let s₀ = config_init file zeroed in
      let f = run-Sound cs (boot fl file zeroed d) s₀ d k (record {
        follows = unfold boot in restore-Follows fl s₀ d n p;
        snapshot = inl (refl, refl);
      }) in
      let t = run cs (boot fl file zeroed d) in
      subst (λ s. SameTune (restore fl s d) t.live) (sym (reread file zeroed d t f))
        (same_tune fl t.store d t.live (restore fl t.store d) f.follows
          (restore-Follows fl t.store d n p))
