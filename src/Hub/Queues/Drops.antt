-- ===== src/Hub/Queues/Drops.antt =====
-- What the counters of firmware/src/hub/hub.c say of a topic that overwrites its oldest message.
use vayu.Common.{
  ℕ, ◌+◌, ◌<◌, ◌≤◌, ◌≡◌, ◌↔◌, refl, sym, Bool, true, false, List, [], ◌∷◌, length, arith,
  Bool-cases, inl, inr, ltb,
}
use mathlib.Core.Path.{subst}
use vayu.Hub.{Topic, Bus, Stat, came}
use vayu.Hub.Queues.{stat_pub, stat_pop, push_counted, pop_counted}

-- What the bus documents of a pipe that overwrites: how many messages wait and how many were
-- overwritten, and what a publish and a read do to the two numbers.
pub record Pipe {M W : Type 0} (bus : Bus M W) (t : Topic) (size : ℕ) : Type 0 where
  pub depth : W → ℕ
  pub lost : W → ℕ
  pub room :
      (m : M) (w : W)
      → (bus.publish t m w).0 ≡ true
      → depth w < size
      → (depth (bus.publish t m w).1 ≡ depth w + 1) × (lost (bus.publish t m w).1 ≡ lost w)
  pub full :
      (m : M) (w : W)
      → (bus.publish t m w).0 ≡ true
      → size ≤ depth w
      → (depth (bus.publish t m w).1 ≡ size) × (lost (bus.publish t m w).1 ≡ lost w + 1)
  pub refused :
      (m : M) (w : W)
      → (bus.publish t m w).0 ≡ false
      → (depth (bus.publish t m w).1 ≡ depth w) × (lost (bus.publish t m w).1 ≡ lost w)
  pub read :
      (w : W)
      → came (bus.pop t w).0 ≡ true
      → (depth w ≡ depth (bus.pop t w).1 + 1) × (lost (bus.pop t w).1 ≡ lost w)
  pub unread :
      (w : W)
      → came (bus.pop t w).0 ≡ false
      → (depth (bus.pop t w).1 ≡ depth w) × (lost (bus.pop t w).1 ≡ lost w)

-- The counters beside the true numbers.
pub record IsCounted (st : Stat) (size depth lost : ℕ) : Type 0 where
  pub slots : st.capacity ≡ size
  pub within : depth ≤ size
  pub balance : st.published ≡ st.popped + depth + lost
  pub never_under : lost ≤ st.evicted
  pub none_early : lost ≡ 0 → st.evicted ≡ 0
  pub bounded : st.evicted ≤ st.published

-- A message accepted, with room and without.
pub-IsCounted_room :
    (st : Stat) (size depth lost : ℕ)
    → st.published + 1 < 4294967296
    → IsCounted st size depth lost
    → depth < size
    → IsCounted (stat_pub true st) size (depth + 1) lost
unfolding stat_pub
pub-IsCounted_room st size depth lost b c h = record {
  slots = ground (arith, c.slots, c.within, c.balance, c.never_under, c.bounded);
  within = ground (arith, c.slots, c.within, c.balance, c.never_under, c.bounded);
  balance = ground (arith, c.slots, c.within, c.balance, c.never_under, c.bounded);
  never_under = ground (arith, c.slots, c.within, c.balance, c.never_under, c.bounded);
  none_early =
      λ z. ground (arith, c.slots, c.within, c.balance, c.never_under, c.bounded, c.none_early z);
  bounded = ground (arith, c.slots, c.within, c.balance, c.never_under, c.bounded);
}

pub-IsCounted_full :
    (st : Stat) (size depth lost : ℕ)
    → st.published + 1 < 4294967296
    → IsCounted st size depth lost
    → size ≤ depth
    → IsCounted (stat_pub true st) size size (lost + 1)
unfolding stat_pub
pub-IsCounted_full st size depth lost b c h = record {
  slots = ground (arith, c.slots, c.within, c.balance, c.never_under, c.bounded);
  within = ground (arith, c.slots, c.within, c.balance, c.never_under, c.bounded);
  balance = ground (arith, c.slots, c.within, c.balance, c.never_under, c.bounded);
  never_under = ground (arith, c.slots, c.within, c.balance, c.never_under, c.bounded);
  none_early = λ z. ground (arith, c.slots, c.within, c.balance, c.never_under, c.bounded);
  bounded = ground (arith, c.slots, c.within, c.balance, c.never_under, c.bounded);
}

pop-IsCounted :
    (st : Stat) (size depth lost missed : ℕ)
    → st.published < 4294967296
    → IsCounted st size (depth + 1) lost
    → IsCounted (stat_pop true missed st) size depth lost
unfolding stat_pop
pop-IsCounted st size depth lost missed b c = record {
  slots = ground (arith, c.slots, c.within, c.balance, c.never_under, c.bounded);
  within = ground (arith, c.slots, c.within, c.balance, c.never_under, c.bounded);
  balance = ground (arith, c.slots, c.within, c.balance, c.never_under, c.bounded);
  never_under = ground (arith, c.slots, c.within, c.balance, c.never_under, c.bounded);
  none_early =
      λ z. ground (arith, c.slots, c.within, c.balance, c.never_under, c.bounded, c.none_early z);
  bounded = ground (arith, c.slots, c.within, c.balance, c.never_under, c.bounded);
}

skip-IsCounted :
    (st : Stat) (size depth lost missed : ℕ)
    → IsCounted st size depth lost
    → IsCounted (stat_pop false missed st) size depth lost
unfolding stat_pop
skip-IsCounted st size depth lost missed c = record {
  slots = c.slots;
  within = c.within;
  balance = c.balance;
  never_under = c.never_under;
  none_early = c.none_early;
  bounded = c.bounded;
}

moved :
    {st : Stat} {size d d' l l' : ℕ}
    → d' ≡ d
    → l' ≡ l
    → IsCounted st size d l
    → IsCounted st size d' l'
moved {st} {size} {d} {d'} {l} {l'} e f c =
    subst (λ x. IsCounted st size x l') (sym e) (subst (IsCounted st size d) (sym f) c)

published-pub : (b : Bool) (st : Stat) → (stat_pub b st).published ≤ st.published + 1
unfolding stat_pub
published-pub true st = ground arith
published-pub false st = omega arith

published-pop : (b : Bool) (k : ℕ) (st : Stat) → (stat_pop b k st).published ≡ st.published
unfolding stat_pop
published-pop true k st = refl
published-pop false k st = refl

-- What the two ends of a topic do.
pub data Use (M : Type 0) : Type 0 where
  push : M → Use M
  pop : Use M

module _ {M W : Type 0} (bus : Bus M W) (t : Topic) where
  pub run : List (Use M) → Stat → W → Stat × W
  run [] st w = (st, w)
  run (push m ∷ us) st w = let r = push_counted bus t m st w in run us r.1 r.2
  run (pop ∷ us) st w = let r = pop_counted bus t st w in run us r.1 r.2

  push-IsCounted :
      (size : ℕ) (p : Pipe bus t size) (m : M) (st : Stat) (w : W)
      → st.published + 1 < 4294967296
      → IsCounted st size (p.depth w) (p.lost w)
      → let r = push_counted bus t m st w in
        IsCounted r.1 size (p.depth r.2) (p.lost r.2) × (r.1.published ≤ st.published + 1)
  unfolding push_counted
  push-IsCounted size p m st w b c = elim (Bool-cases (bus.publish t m w).0) [
    | inl ok ↦ rw ok (
      elim (Bool-cases (ltb (p.depth w) size)) [
        | inl h ↦
            let (d, l) = p.room m w ok (ground (arith, h)) in
            moved d l (pub-IsCounted_room st size _ _ b c (ground (arith, h)))
        | inr h ↦
            let (d, l) = p.full m w ok (ground (arith, h)) in
            moved d l (pub-IsCounted_full st size _ _ b c (ground (arith, h)))
      ],
      published-pub true st,
    )
    | inr ne ↦
        let (d, l) = p.refused m w ne in
        rw ne (moved d l (unfold stat_pub in c), published-pub false st)
  ]

  pop_counted-IsCounted :
      (size : ℕ) (p : Pipe bus t size) (st : Stat) (w : W)
      → st.published < 4294967296
      → IsCounted st size (p.depth w) (p.lost w)
      → let r = pop_counted bus t st w in
        IsCounted r.1 size (p.depth r.2) (p.lost r.2) × (r.1.published ≡ st.published)
  unfolding pop_counted
  pop_counted-IsCounted size p st w b c = elim (Bool-cases (came (bus.pop t w).0)) [
    | inl ok ↦
        let (d, l) = p.read w ok in
        rw ok (
          pop-IsCounted st size _ _ _ b (moved (sym d) l c),
          published-pop true (bus.pop t w).0.missed st,
        )
    | inr ne ↦
        let (d, l) = p.unread w ne in
        rw ne (
          moved d l (skip-IsCounted st size _ _ (bus.pop t w).0.missed c),
          published-pop false (bus.pop t w).0.missed st,
        )
  ]

  run-IsCounted :
      (size : ℕ) (p : Pipe bus t size) (us : List (Use M)) (st : Stat) (w : W)
      → st.published + length us < 4294967296
      → IsCounted st size (p.depth w) (p.lost w)
      → let r = run us st w in IsCounted r.0 size (p.depth r.1) (p.lost r.1)
  unfolding run
  run-IsCounted size p [] st w b c = c
  run-IsCounted size p (push m ∷ us) st w b c =
      let (k, e) = push-IsCounted size p m st w (omega arith) c in
      run-IsCounted size p us _ _ (omega (arith, e)) k
  run-IsCounted size p (pop ∷ us) st w b c =
      let (k, e) = pop_counted-IsCounted size p st w (omega arith) c in
      run-IsCounted size p us _ _ (omega (arith, e)) k

  -- Before anything is published.
  abbrev pub unused : ℕ → Stat
  unused size = record {
    published = 0;
    popped = 0;
    missed = 0;
    evicted = 0;
    peak = 0;
    capacity = size;
  }

  -- Fewer than 2 ^ 32 pushes and polled pops of a counted topic, from the start and in any order: the drops
  -- that its counters report are no fewer than the messages that were overwritten, and none are reported
  -- exactly if none was. The bus keeps to what it documents of a pipe with as many slots as the
  -- counters name.
  pub drops_never_under :
      (size : ℕ) (p : Pipe bus t size) (us : List (Use M)) (w : W)
      → length us < 4294967296
      → p.depth w ≡ 0
      → p.lost w ≡ 0
      → let r = run us (unused size) w in
        (p.lost r.1 ≤ r.0.evicted) × ((r.0.evicted ≡ 0) ↔ (p.lost r.1 ≡ 0))
  drops_never_under size p us w b d l =
      let k = run-IsCounted size p us (unused size) w (omega arith) (record {
        slots = refl;
        within = omega (arith, d);
        balance = omega (arith, d, l);
        never_under = omega (arith, l);
        none_early = λ z. refl;
        bounded = omega arith;
      }) in
      (k.never_under, (λ e. omega (arith, e, k.never_under), k.none_early))
