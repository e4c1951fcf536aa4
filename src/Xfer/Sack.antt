-- ===== src/Xfer/Sack.antt =====
-- Selective repeat of firmware/src/comm/xfer/navlink_xfer.c: what a selective ack leaves in the repair
-- queue, and what it leaves alone.
use vayu.Common.{
  ℕ, zero, suc, ◌+◌, ◌<◌, ◌≤◌, ◌≡◌, ◌≢◌, ◌⊎◌, refl, sym, true, false, List, [], ◌∷◌, ◌++◌, length,
  length-append, ltb→lt, Option, none, some, arith, inl, inr, Bool-cases, ltb,
}
use mathlib.Core.Path.{subst}
use vayu.Xfer.{Repair, Session, is_stream, active, done_linger}
use vayu.Xfer.Comm.{max_ranges, has_repair, requeue, enqueue, rebuild, sack_slot}

-- A repair asks for at least one byte, all of them in the file and none before `low`.
abbrev pub IsRange : ℕ → ℕ → Repair → Type 0
IsRange low total r = (low ≤ r.off) × (0 < r.len) × (r.off + r.len ≤ total)

abbrev pub AllRanges : ℕ → ℕ → List Repair → Type 0
AllRanges low total [] = Unit
AllRanges low total (r ∷ rs) = IsRange low total r × AllRanges low total rs

-- No two repairs start at the same byte.
abbrev pub IsDistinct : List Repair → Type 0
IsDistinct [] = Unit
IsDistinct (r ∷ rs) = (has_repair rs r.off ≡ false) × IsDistinct rs

-- A repair queue that the code may serve.
pub record IsQueue (low total : ℕ) (q : List Repair) : Type 0 where
  pub bounded : length q ≤ 8
  pub ranges : AllRanges low total q
  pub distinct : IsDistinct q

-- The gaps that a peer can report: sixteen-bit lengths.
abbrev pub IsReport : List (ℕ × ℕ) → Type 0
IsReport [] = Unit
IsReport ((off, len) ∷ gs) = (len < 65536) × IsReport gs

requeue-IsRange :
    (s : Session) (prev : List Repair) (low : ℕ) (g : ℕ × ℕ) (e : Repair)
    → g.1 < 65536
    → requeue s prev low g ≡ some e
    → IsRange low s.total_size e
unfolding requeue
requeue-IsRange s prev low (off, len) e h p = ground arith

AllRanges-snoc :
    (low total : ℕ) (q : List Repair) (e : Repair)
    → AllRanges low total q
    → IsRange low total e
    → AllRanges low total (q ++ (e ∷ []))
AllRanges-snoc low total [] e a h = (h, tt)
AllRanges-snoc low total (r ∷ rs) e a h = (a.0, AllRanges-snoc low total rs e a.1 h)

has_repair-snoc :
    (q : List Repair) (e : Repair) (off : ℕ)
    → has_repair q off ≡ false
    → e.off ≢ off
    → has_repair (q ++ (e ∷ [])) off ≡ false
has_repair-snoc [] e off h n = ground arith
has_repair-snoc (r ∷ rs) e off h n = ground (arith, has_repair-snoc rs e off)

IsDistinct-snoc :
    (q : List Repair) (e : Repair)
    → IsDistinct q
    → has_repair q e.off ≡ false
    → IsDistinct (q ++ (e ∷ []))
IsDistinct-snoc [] e d h = (refl, tt)
IsDistinct-snoc (r ∷ rs) e d h =
    (has_repair-snoc rs e r.off d.0 (ground arith), IsDistinct-snoc rs e d.1 (ground arith))

enqueue-IsQueue :
    (low total : ℕ) (o : Option Repair) (q : List Repair)
    → ((e : Repair) → o ≡ some e → IsRange low total e)
    → IsQueue low total q
    → IsQueue low total (enqueue o q)
unfolding enqueue
enqueue-IsQueue low total none q r v = v
enqueue-IsQueue low total (some e) q r v = elim (Bool-cases (has_repair q e.off)) [
  | inl h ↦ rw h v
  | inr h ↦ elim (Bool-cases (ltb (length q) max_ranges)) [
    | inl l ↦
        rw (h, l)
          (record {
            bounded = omega (arith, length-append q (e ∷ []), ltb→lt (length q) 8 l);
            ranges = AllRanges-snoc low total q e v.ranges (r e refl);
            distinct = IsDistinct-snoc q e v.distinct h;
          })
    | inr l ↦ rw (h, l) v
  ]
]

rebuild-IsQueue :
    (k : ℕ) (s : Session) (prev : List Repair) (low : ℕ) (gaps : List (ℕ × ℕ)) (q : List Repair)
    → IsReport gaps
    → IsQueue low s.total_size q
    → IsQueue low s.total_size (rebuild k s prev low gaps q)
unfolding rebuild
rebuild-IsQueue zero s prev low gaps q h v = v
rebuild-IsQueue (suc k) s prev low [] q h v = v
rebuild-IsQueue (suc k) s prev low (g ∷ gaps) q h v =
    rebuild-IsQueue k s prev low gaps (enqueue (requeue s prev low g) q) h.1 (
      enqueue-IsQueue low s.total_size (requeue s prev low g) q
        (λ e p. requeue-IsRange s prev low g e h.0 p) v)

-- The session that a selective ack on a live file download leaves.
sack_slot_eq :
    (next_offset : ℕ) (gaps : List (ℕ × ℕ)) (s : Session)
    → s.dir ≡ 0
    → is_stream s ≡ false
    → (s.state ≡ active) ⊎ (s.state ≡ done_linger)
    → ((sack_slot next_offset gaps s).repair
        ≡ rebuild max_ranges
            (record s { rx_activity = true; info_acked = true })
            s.repair
            next_offset
            gaps
            [])
      × ((sack_slot next_offset gaps s).cursor ≡ s.cursor)
      × ((sack_slot next_offset gaps s).total_size ≡ s.total_size)
unfolding sack_slot
sack_slot_eq next_offset gaps s d f (inl a) = ground arith
sack_slot_eq next_offset gaps s d f (inr l) = ground arith

-- A selective ack on a file download leaves the cursor and the size alone, and a queue of at most eight
-- repairs, no two of them at the same offset, each of at least one byte, within the file, and not
-- below the peer's cumulative offset.
pub sack_slot-IsQueue :
    (next_offset : ℕ) (gaps : List (ℕ × ℕ)) (s : Session)
    → s.dir ≡ 0
    → is_stream s ≡ false
    → (s.state ≡ active) ⊎ (s.state ≡ done_linger)
    → IsReport gaps
    → IsQueue next_offset s.total_size (sack_slot next_offset gaps s).repair
      × ((sack_slot next_offset gaps s).cursor ≡ s.cursor)
      × ((sack_slot next_offset gaps s).total_size ≡ s.total_size)
unfolding sack_slot
sack_slot-IsQueue next_offset gaps s d f st h =
    let e = sack_slot_eq next_offset gaps s d f st in
    (
      subst (λ q. IsQueue next_offset s.total_size q) (sym e.0)
          (rebuild-IsQueue max_ranges (record s { rx_activity = true; info_acked = true }) s.repair
            next_offset gaps [] h (record { bounded = omega arith; ranges = tt; distinct = tt })),
      e.1,
      e.2,
    )
