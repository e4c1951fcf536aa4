-- ===== src/Xfer/Emit.antt =====
-- `tick_download` of firmware/src/comm/xfer/navlink_xfer.c: the repair loop and the streaming loop. The
-- comm task's handlers do not run in between; the budget is a natural number.
use vayu.Common.{
  ℕ, zero, suc, ◌+◌, ◌-◌, Bool, true, false, not, List, [], ◌∷◌, ltb, leb, ◌==◌, if◌then◌else◌,
  Option, none, some, ℤ, pos, negsuc, u8, u16, u32, set,
}
use vayu.Xfer.{done_linger, is_active, Repair, Session, Bytes, Provider, Tx, provider_of}

abbrev pub f_none : ℕ
f_none = 0

abbrev pub f_done : ℕ
f_done = 1

abbrev pub f_eof : ℕ
f_eof = 8

-- The first repair that is not in flight, and its index counted from `i`.
abbrev pub first_unsent : List Repair → ℕ → Option (ℕ × Repair)
first_unsent [] i = none
first_unsent (r ∷ rs) i = if not r.sent then some (i, r) else first_unsent rs (i + 1)

-- One round of an emission loop: whether a frame was counted, whether the loop goes on, and what it
-- leaves behind.
pub record Round (W : Type 0) : Type 0 where
  pub emitted : Bool
  pub again : Bool
  pub session : Session
  pub world : W

-- What an emission loop leaves behind: the budget, the frames counted, the session, the world.
pub record Loop (W : Type 0) : Type 0 where
  pub budget : ℕ
  pub emitted : ℕ
  pub session : Session
  pub world : W

module _ {W : Type 0} where
  abbrev pub stop : Session → W → Round W
  stop s w = record { emitted = false; again = false; session = s; world = w }

  -- A loop under the budget. A round that goes on has emitted a frame and costs one; nothing reads
  -- the budget after a round that ends the loop and emits.
  unfoldable pub emit_loop : (Session → W → Round W) → ℕ → ℕ → Session → W → Loop W
  emit_loop round zero e s w = record { budget = 0; emitted = e; session = s; world = w }
  emit_loop round (suc b) e s w =
      let r = round s w in
      elim r.again [
        | true ↦ emit_loop round b (e + 1) r.session r.world
        | false ↦ record {
          budget = suc b;
          emitted = if r.emitted then e + 1 else e;
          session = r.session;
          world = r.world;
        }
      ]

module _ {W : Type 0} (ps : List (Provider W)) (tx : Tx W) where
  -- `s->provider->read ? s->provider->read(...) : -1`.
  abbrev pub read_at : Session → ℕ → ℕ → W → Bytes × W
  read_at s off max w = elim (provider_of ps s) [
    | none ↦ (record { n = negsuc 0; buf = [] }, w)
    | some p ↦ elim p.read [
      | none ↦ (record { n = negsuc 0; buf = [] }, w)
      | some f ↦ f s off max w
    ]
  ]

  -- The emission of one repair that was read.
  unfoldable pub send_repair : ℕ → ℕ → Repair → ℕ → List ℕ → Session → W → Round W
  send_repair now i r n buf s w =
      let flags = if leb s.total_size (u32 (r.off + n)) then f_eof else f_none in
      let (accepted, w') = tx.chunk s flags (u8 n) r.off buf w in
      if accepted
      then record {
        emitted = true;
        again = true;
        session = record s {
          repair = set s.repair i (record r { sent = true; reports = 0 });
          last_emit_ms = now;
          last_rx_ms = now;
        };
        world = w';
      }
      else stop s w'

  -- One round of the repair loop of `tick_download`.
  unfoldable pub repair_round : ℕ → Session → W → Round W
  unfolding send_repair
  repair_round now s w =
      if not (is_active s.state) then stop s w else elim (first_unsent s.repair 0) [
        | none ↦ stop s w
        | some (i, r) ↦
            let (b, w') = read_at s r.off r.len w in
            elim b.n [
              | negsuc _ ↦ stop s w'
              | pos n ↦ if n == 0 then stop s w' else send_repair now i r n b.buf s w'
            ]
      ]

  -- The zero-length marker at the end of the file.
  unfoldable pub send_marker : ℕ → Session → W → Round W
  send_marker now s w =
      let (accepted, w') = tx.chunk s f_eof 0 s.cursor [] w in
      if accepted
      then record {
        emitted = true;
        again = false;
        session = record s { state = done_linger; last_emit_ms = now };
        world = w';
      }
      else stop s w'

  -- The emission of one chunk that was read at `off`. Nothing moves the cursor in between, so that
  -- `s->cursor == off` holds.
  unfoldable pub send_chunk : ℕ → ℕ → ℕ → List ℕ → Session → W → Round W
  send_chunk now off n buf s w =
      let last = leb s.total_size (u32 (off + n)) in
      let (accepted, w') = tx.chunk s (if last then f_eof else f_none) (u8 n) off buf w in
      if accepted
      then record {
        emitted = true;
        again = not last;
        session = record s {
          state = if last then done_linger else s.state;
          cursor = if s.cursor == off then u32 (off + n) else s.cursor;
          last_emit_ms = now;
          last_rx_ms = now;
        };
        world = w';
      }
      else stop s w'

  -- The bytes that a chunk asks for.
  abbrev pub want : Session → ℕ
  want s =
      if ltb (s.total_size - s.cursor) s.chunk_size
      then u16 (s.total_size - s.cursor)
      else s.chunk_size

  -- What the streaming loop does with the result of a read at the cursor.
  abbrev pub respond : ℕ → Session → W → Bytes → ℤ → Round W
  respond now s w b (negsuc _) = stop s w
  respond now s w b (pos n) = if n == 0 then stop s w else send_chunk now s.cursor n b.buf s w

  -- One round of the streaming loop of `tick_download`.
  unfoldable pub chunk_round : ℕ → Session → W → Round W
  unfolding send_marker send_chunk
  chunk_round now s w =
      if not (is_active s.state)
      then stop s w
      else if leb s.total_size s.cursor
      then send_marker now s w
      else let (b, w') = read_at s s.cursor (want s) w in respond now s w' b b.n

  -- `tick_download`.
  unfoldable pub tick_download : ℕ → ℕ → Session → W → Loop W
  unfolding emit_loop
  tick_download now budget s w =
      let l = emit_loop (repair_round now) budget 0 s w in
      emit_loop (chunk_round now) l.budget l.emitted l.session l.world
