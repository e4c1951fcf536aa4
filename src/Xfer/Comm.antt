-- ===== src/Xfer/Comm.antt =====
-- The handlers of firmware/src/comm/xfer/navlink_xfer.c that run on the comm task: open, data, ack,
-- selective ack, and close. Each acts on one session slot; the guards on `s_ready` and the slot index
-- stand in the functions at the end of the file.
use vayu.Common.{
  ℕ, zero, suc, ◌+◌, ◌-◌, Bool, true, false, not, ◌&&◌, ◌||◌, List, [], ◌∷◌, ◌++◌, ltb, leb, ◌==◌,
  if◌then◌else◌, get_elem?, length, Option, none, some, pos, negsuc, u8, u16, u32,
}
use vayu.Xfer.{
  max_sessions, chunk_max, res_accepted, res_temporarily_rejected, res_denied, res_unsupported,
  res_failed, open_deferred, flag_done, flag_nak, flag_abort, flag_eof, dir_download, dir_upload,
  mode_file, mode_stream, pending_open, active, is_free, is_pending, is_active, is_linger, Repair,
  Session, session_free, is_stream, OpenArgs, Provider, Core, slot, set_slot, find_provider,
  provider_of, close_with,
}

abbrev pub max_ranges : ℕ
max_ranges = 8

abbrev pub repeat_reports : ℕ
repeat_reports = 12

abbrev pub repeat_reports_idle : ℕ
repeat_reports_idle = 2

-- The body of the loop of `xfer_on_open` over the other sessions: does `o` block the request?
abbrev pub blocks : OpenArgs → Session → Bool
blocks a o =
    not (is_free o.state || is_linger o.state) && (o.mode == mode_file && not (o.dir == a.dir))

abbrev is_missing {ℓ} : {A : Type ℓ} → Option A → Bool
is_missing none = true
is_missing (some _) = false

-- The mark of a final chunk that is wholly received.
unfoldable pub mark_eof : ℕ → ℕ → ℕ → Session → Session
mark_eof offset len flags s =
    if flag_eof flags && leb (u32 (offset + len)) s.cursor
    then record s { total_size = s.cursor; upload_eof = true }
    else s

module _ {W : Type 0} (ps : List (Provider W)) where
  -- The capability gate: the refusal, if there is one.
  abbrev pub capability : Provider W → OpenArgs → Option ℕ
  capability p a =
      if a.dir == dir_upload && is_missing p.write
      then some res_denied
      else if a.dir == dir_download && (a.mode == mode_file && is_missing p.read)
      then some res_denied
      else if a.mode == mode_stream && is_missing p.poll
      then some res_denied
      else none

  -- The session that a valid open stashes.
  abbrev pub stash : OpenArgs → ℕ → Session → Session
  stash a i s = record (session_free s) {
    session = a.session;
    state = pending_open;
    dir = a.dir;
    mode = a.mode;
    service_id = a.service_id;
    offset_start = a.offset_start;
    cursor = a.offset_start;
    rate_hz = a.rate_hz;
    gcs_sys = a.gcs_sys;
    gcs_comp = a.gcs_comp;
    open_req_seq = a.req_seq;
    provider = some i;
    chunk_size = chunk_max;
    arg = a.arg;
  }

  -- The registry lookup and the gate, on a free slot that no other session blocks.
  unfoldable pub open_with : OpenArgs → Session → Session × ℕ
  open_with a s = elim (find_provider ps a.service_id 0) [
    | none ↦ (s, res_unsupported)
    | some i ↦ elim (get_elem? ps i) [
      | none ↦ (s, res_unsupported)
      | some p ↦ elim (capability p a) [ some r ↦ (s, r) | none ↦ (stash a i s, open_deferred) ]
    ]
  ]

  -- `xfer_on_open` on its slot `s`, beside the other slot `o`.
  unfoldable pub open_slot : OpenArgs → Session → Session → Session × ℕ
  unfolding open_with
  open_slot a o s =
      if not (is_free s.state)
      then if s.open_req_seq == a.req_seq && is_pending s.state
        then (s, open_deferred)
        else (s, res_temporarily_rejected)
      else if a.mode == mode_file && blocks a o
      then (s, res_temporarily_rejected)
      else open_with a s

  -- The write of one contiguous chunk.
  unfoldable pub write_chunk : ℕ → List ℕ → Session → W → Session × W
  write_chunk offset buf s w = elim (provider_of ps s) [
    | none ↦ (s, w)
    | some p ↦ elim p.write [
      | none ↦ (s, w)
      | some f ↦
          let (n, w') = f s offset buf w in
          elim n [
            | pos k ↦ (record s { cursor = if k == 0 then s.cursor else u32 (s.cursor + k) }, w')
            | negsuc _ ↦ (s, w')
          ]
    ]
  ]

  -- Closing with `result` and freeing the slot.
  abbrev pub teardown : ℕ → Session → W → Session × W
  teardown result s w = (session_free s, close_with ps s result w)

  -- `xfer_on_data`; `len` is the length of `buf`.
  unfoldable pub data_slot : ℕ → List ℕ → ℕ → Session → W → Session × W
  data_slot offset buf flags s w =
      if not (is_active s.state) || not (s.dir == dir_upload)
      then (s, w)
      else let t = record s { rx_activity = true } in
        let (u, w') =
          if offset == t.cursor && ltb 0 (length buf) then write_chunk offset buf t w else (t, w) in
        let v = mark_eof offset (length buf) flags u in
        if flag_abort flags then teardown res_failed v w' else (v, w')

  -- `xfer_on_ack`.
  unfoldable pub ack_slot : ℕ → ℕ → Session → W → Session × W
  ack_slot next_offset flags s w =
      if not (s.dir == dir_download) || not (is_active s.state || is_linger s.state)
      then (s, w)
      else let t = record s { rx_activity = true; info_acked = true } in
        if flag_done flags
        then teardown res_accepted t w
        else if flag_abort flags
        then teardown res_failed t w
        else if flag_nak flags
        then (
          record t {
            cursor = if is_stream t then t.cursor else next_offset;
            state = if is_linger t.state then active else t.state;
          },
          w,
        )
        else (t, w)

-- The entry of the old backlog with that offset: the first, as the inner loop finds it.
abbrev pub find_repair : List Repair → ℕ → Option Repair
find_repair [] off = none
find_repair (r ∷ rs) off = if r.off == off then some r else find_repair rs off

abbrev pub has_repair : List Repair → ℕ → Bool
has_repair [] off = false
has_repair (r ∷ rs) off = if r.off == off then true else has_repair rs off

-- The in-flight state of a gap that is reported again.
unfoldable pub carry : ℕ → Repair → Repair → Repair
carry limit old e =
    if old.sent
    then if leb limit (u8 (old.reports + 1))
      then record e { sent = false; reports = 0 }
      else record e { sent = true; reports = u8 (old.reports + 1) }
    else record e { sent = false; reports = old.reports }

-- How often a gap is reported before its repair is presumed lost.
abbrev pub repeat_limit : Session → ℕ
repeat_limit s = if leb s.total_size s.cursor then repeat_reports_idle else repeat_reports

-- The range that one reported gap queues, if any: clipped to the file, with its state carried over.
unfoldable pub requeue : Session → List Repair → ℕ → ℕ × ℕ → Option Repair
unfolding carry
requeue s prev next_offset (off, len) =
    if ltb off next_offset || len == 0
    then none
    else if leb s.total_size off
    then none
    else let want = if ltb (s.total_size - off) len then u16 (s.total_size - off) else len in
      let e : Repair = record { off = off; len = want; sent = false; reports = 0 } in
      some (elim (find_repair prev off) [ none ↦ e | some old ↦ carry (repeat_limit s) old e ])

-- `if (!dup && s->n_repair < XFER_SACK_MAX_RANGES) s->repair[s->n_repair++] = e;`
unfoldable pub enqueue : Option Repair → List Repair → List Repair
enqueue none q = q
enqueue (some e) q =
    if not (has_repair q e.off) && ltb (length q) max_ranges then q ++ (e ∷ []) else q

-- The loop over the reported gaps, at most `k` of them.
unfoldable pub rebuild : ℕ → Session → List Repair → ℕ → List (ℕ × ℕ) → List Repair → List Repair
rebuild zero s prev next_offset gaps q = q
rebuild (suc k) s prev next_offset [] q = q
rebuild (suc k) s prev next_offset (g ∷ gaps) q =
    rebuild k s prev next_offset gaps (enqueue (requeue s prev next_offset g) q)

-- Is there a repair that is owed and not in flight?
abbrev pub is_owed : List Repair → Bool
is_owed [] = false
is_owed (r ∷ rs) = if not r.sent then true else is_owed rs

-- `xfer_on_sack`.
unfoldable pub sack_slot : ℕ → List (ℕ × ℕ) → Session → Session
sack_slot next_offset gaps s =
    if not (s.dir == dir_download) || is_stream s
    then s
    else if not (is_active s.state || is_linger s.state)
    then s
    else let t = record s { rx_activity = true; info_acked = true } in
      let q = rebuild max_ranges t t.repair next_offset gaps [] in
      record t { repair = q; state = if is_owed q && is_linger t.state then active else t.state }

-- `xfer_on_close`.
unfoldable pub close_slot : ℕ → Session → Session × ℕ
close_slot req_seq s =
    if is_free s.state
    then (s, res_accepted)
    else (record s { close_pending = true; close_req_seq = req_seq }, open_deferred)

-- The other slot of two.
abbrev pub other : ℕ → ℕ
other i = if i == 0 then 1 else 0

module _ {W : Type 0} (ps : List (Provider W)) where
  -- `xfer_on_open`.
  unfoldable pub on_open : OpenArgs → Core → Core × ℕ
  on_open a c =
      if not c.ready || leb max_sessions a.session
      then (c, res_temporarily_rejected)
      else let (s, r) = open_slot ps a (slot c (other a.session)) (slot c a.session) in
        (set_slot c a.session s, r)

  -- `xfer_on_data`.
  unfoldable pub on_data : ℕ → ℕ → List ℕ → ℕ → Core → W → Core × W
  on_data i offset buf flags c w =
      if not c.ready || leb max_sessions i
      then (c, w)
      else let (s, w') = data_slot ps offset buf flags (slot c i) w in (set_slot c i s, w')

  -- `xfer_on_ack`.
  unfoldable pub on_ack : ℕ → ℕ → ℕ → Core → W → Core × W
  on_ack i next_offset flags c w =
      if not c.ready || leb max_sessions i
      then (c, w)
      else let (s, w') = ack_slot ps next_offset flags (slot c i) w in (set_slot c i s, w')

-- `xfer_on_sack`.
unfoldable pub on_sack : ℕ → ℕ → List (ℕ × ℕ) → Core → Core
on_sack i next_offset gaps c =
    if not c.ready || leb max_sessions i
    then c
    else set_slot c i (sack_slot next_offset gaps (slot c i))

-- `xfer_on_close`.
unfoldable pub on_close : ℕ → ℕ → Core → Core × ℕ
on_close i req_seq c =
    if not c.ready || leb max_sessions i
    then (c, res_temporarily_rejected)
    else let (s, r) = close_slot req_seq (slot c i) in (set_slot c i s, r)
