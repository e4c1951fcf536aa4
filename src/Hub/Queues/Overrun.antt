-- ===== src/Hub/Queues/Overrun.antt =====
-- Where the eviction count of firmware/src/hub/hub.c goes wrong.
use vayu.Common.{ℕ, ◌+◌, ◌-◌, ◌<◌, ◌≤◌, ◌≡◌, refl, true, arith, ltb, if◌then◌else◌, sub32, u16}
use vayu.Hub.{Stat}
use vayu.Hub.Queues.{stat_pub, stat_pop}
use vayu.Hub.Queues.Drops.{IsCounted}

-- The counters of a push to a topic that has overwritten as many messages as it has slots.
over_pub :
    (st : Stat)
    → st.published + 1 < 4294967296
    → st.evicted + 1 < 4294967296
    → st.popped + st.capacity ≤ st.published
    → let s = stat_pub true st in
      (s.published ≡ st.published + 1)
      × (s.popped ≡ st.popped)
      × (s.evicted ≡ st.evicted + 1)
      × (s.capacity ≡ st.capacity)
      × (s.peak ≡ (
          if ltb st.peak (sub32 (st.published + 1 - st.popped) (st.evicted + 1))
          then u16 (sub32 (st.published + 1 - st.popped) (st.evicted + 1))
          else st.peak))
unfolding stat_pub
over_pub st a b c = (ground arith, ground arith, ground arith, ground arith, ground arith)

popped_pop :
    (st : Stat) (missed : ℕ)
    → st.popped + 1 < 4294967296
    → let s = stat_pop true missed st in
      (s.published ≡ st.published)
      × (s.popped ≡ st.popped + 1)
      × (s.evicted ≡ st.evicted)
      × (s.capacity ≡ st.capacity)
      × (s.peak ≡ st.peak)
unfolding stat_pop
popped_pop st missed h = (refl, omega arith, refl, refl, refl)

-- Once as many messages were overwritten as the topic has slots, a push is reported as a drop also when
-- nothing waits, and the reader has caught up for good: with exact counters and an empty topic, one
-- push, one pop and one push report two drops, where nothing is overwritten, and set the high-water
-- mark to 65535.
pub overrun_sticks :
    (st : Stat) (size lost missed : ℕ)
    → st.published + 2 < 4294967296
    → IsCounted st size 0 lost
    → st.evicted ≡ lost
    → st.peak < 65536
    → 0 < size
    → size ≤ lost
    → let st' = stat_pub true (stat_pop true missed (stat_pub true st)) in
      (st'.evicted ≡ st.evicted + 2) × (st'.peak ≡ 65535)
overrun_sticks st size lost missed b c e q z o =
    let (p₁, q₁, e₁, c₁, k₁) =
      over_pub st (omega arith) (omega (arith, c.balance)) (omega (arith, c.balance, c.slots)) in
    let s : Stat = stat_pop true missed (stat_pub true st) in
    let (p₂, q₂, e₂, c₂, k₂) =
      popped_pop (stat_pub true st) missed (omega (arith, p₁, q₁, c.balance)) in
    let (p₃, q₃, e₃, c₃, k₃) =
      over_pub s (omega (arith, p₁, p₂)) (omega (arith, e₁, e₂, c.balance))
        (omega (arith, p₁, p₂, q₁, q₂, c₁, c₂, c.balance, c.slots)) in
    (omega (arith, e₁, e₂, e₃), ground (arith, p₁, p₂, q₁, q₂, e₁, e₂, k₁, k₂, k₃, c.balance))
