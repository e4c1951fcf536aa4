-- ===== src/Xfer/Rounds.antt =====
-- What file downloads through firmware/src/comm/xfer/navlink_xfer.c rely on, and the emission loop of
-- `tick_download`, whatever its rounds do.
use vayu.Common.{
  ℕ, zero, suc, ◌+◌, ◌<◌, ◌≤◌, ◌≡◌, ◌⊎◌, refl, true, false, List, [], ◌++◌, length, take, drop,
  some, pos, arith, inl, inr, Bool-cases, leb, ◌==◌, u32, u8, if◌then◌else◌,
}
use vayu.Xfer.{Session, Provider, Bytes, Tx, active, done_linger, is_active}
use vayu.Xfer.Emit.{Round, emit_loop, repair_round}

-- What a provider promises of `read` on `file`: an answer is at most what was asked for, lies in the
-- file, and consists of the bytes there; and the peer sees nothing of it.
pub record IsReader {W : Type 0} (delivered : W → List ℕ) (file : List ℕ)
    (f : Session → ℕ → ℕ → W → Bytes × W) : Type 0 where
  pub reads :
      (s : Session) (off max n : ℕ) (w : W)
      → off ≤ length file
      → (f s off max w).0.n ≡ pos n
      → (n ≤ max)
        × (off + n ≤ length file)
        × (take n (f s off max w).0.buf ≡ take n (drop off file))
  pub silent : (s : Session) (off max : ℕ) (w : W) → delivered (f s off max w).1 ≡ delivered w

-- What the link promises of a chunk: one that is refused does not arrive, and one that is accepted
-- arrives, and extends what the peer has if it starts where that ends.
pub record IsLink {W : Type 0} (delivered : W → List ℕ) (tx : Tx W) : Type 0 where
  pub arrives :
      (s : Session) (flags n off : ℕ) (buf : List ℕ) (w : W)
      → (tx.chunk s flags n off buf w).0 ≡ true
      → off ≡ length (delivered w)
      → delivered (tx.chunk s flags n off buf w).1 ≡ delivered w ++ take n buf
  pub refused :
      (s : Session) (flags n off : ℕ) (buf : List ℕ) (w : W)
      → (tx.chunk s flags n off buf w).0 ≡ false
      → delivered (tx.chunk s flags n off buf w).1 ≡ delivered w

-- A file download that has sent the file up to the cursor, and lingers only when that is all of it.
pub record IsDownload {W : Type 0} (delivered : W → List ℕ) (i : ℕ) (file : List ℕ) (s : Session)
    (w : W) : Type 0 where
  pub is_on : (s.state ≡ active) ⊎ ((s.state ≡ done_linger) × (s.cursor ≡ length file))
  pub served : s.provider ≡ some i
  pub chunks : (0 < s.chunk_size) × (s.chunk_size ≤ 247)
  pub total : s.total_size ≡ length file
  pub within : s.cursor ≤ length file
  pub prefix : delivered w ≡ take s.cursor file

-- A property that every round keeps holds after the loop.
pub emit_loop-keeps :
    {W : Type 0} (P : Session → W → Type 0) (round : Session → W → Round W)
    → ((s : Session) (w : W) → P s w → P (round s w).session (round s w).world)
    → (b e : ℕ) (s : Session) (w : W) → P s w
    → P (emit_loop round b e s w).session (emit_loop round b e s w).world
unfolding emit_loop
emit_loop-keeps P round k zero e s w h = h
emit_loop-keeps P round k (suc b) e s w h = elim (Bool-cases (round s w).again) [
  | inl t ↦ rw (emit_loop, t) (emit_loop-keeps P round k b (e + 1) _ _ (k s w h))
  | inr t ↦ rw (emit_loop, t) (k s w h)
]

-- A session with no repairs sends none.
pub no_repairs :
    {W : Type 0} (ps : List (Provider W)) (tx : Tx W) (now b e : ℕ) (s : Session) (w : W)
    → s.repair ≡ []
    → emit_loop (repair_round ps tx now) b e s w
      ≡ record { budget = b; emitted = e; session = s; world = w }
unfolding emit_loop repair_round
no_repairs ps tx now zero e s w h = refl
no_repairs ps tx now (suc b) e s w h = elim (Bool-cases (is_active s.state)) [
  | inl t ↦ simp (emit_loop, repair_round, t, h) refl
  | inr t ↦ simp (emit_loop, repair_round, t) refl
]

pub plus_zero : (c : ℕ) → c + 0 ≡ c
plus_zero c = omega arith

pub byte : (n : ℕ) → n ≤ 247 → u8 n ≡ n
byte n h = omega arith

pub moved : (c n : ℕ) → c + n < 4294967296 → (if c == c then u32 (c + n) else c) ≡ c + n
moved c n h = ground arith

pub last_chunk : (m k c : ℕ) → k < 4294967296 → m ≡ k → c ≤ k → leb m (u32 c) ≡ true → c ≡ k
last_chunk m k c h t l e = ground arith

-- Whether the last chunk is sent, and the state after it.
pub after_chunk :
    (s : Session) (k : ℕ)
    → k < 4294967296
    → s.total_size ≡ k
    → (c : ℕ) → c ≤ k
    → s.state ≡ active
    → ((if leb s.total_size (u32 c) then done_linger else s.state) ≡ active)
      ⊎ (((if leb s.total_size (u32 c) then done_linger else s.state) ≡ done_linger) × (c ≡ k))
after_chunk s k h t c l a = elim (Bool-cases (leb s.total_size (u32 c))) [
  | inl e ↦ rw e (inr (refl, last_chunk s.total_size k c h t l e))
  | inr e ↦ rw e (inl a)
]
