-- ===== src/Xfer/Tick.antt =====
-- The tick of firmware/src/comm/xfer/navlink_xfer.c, which runs on the transfer service task:
-- deferred opens, emission, periodic acks, and timeouts. The comm task's handlers do not run in
-- between; `chunk_budget` is a natural number.
use vayu.Common.{
  ℕ, ◌+◌, ◌-◌, ◌/◌, ◌%◌, false, not, ◌&&◌, List, [], leb, ◌==◌, if◌then◌else◌, none, some, ℤ, pos,
  negsuc, u8, u32, sub32,
}
use vayu.Xfer.{
  State, res_accepted, res_failed, size_stream, dir_download, mode_stream, free, pending_open,
  active, done_linger, is_pending, Session, session_free, OpenReply, Bytes, Provider, Tx, Core,
  slot, set_slot, provider_of, close_with,
}
use vayu.Xfer.Emit.{f_none, f_done, tick_download}

abbrev pub info_retry_ms : ℕ
info_retry_ms = 500

abbrev pub ack_period_ms : ℕ
ack_period_ms = 200

abbrev pub idle_ms : ℕ
idle_ms = 5000

abbrev pub done_linger_ms : ℕ
done_linger_ms = 1000

abbrev pub wire_msgid_open : ℕ
wire_msgid_open = 8201

abbrev pub wire_msgid_close : ℕ
wire_msgid_close = 8202

module _ {W : Type 0} (ps : List (Provider W)) (tx : Tx W) where
  -- The part of `tick_pending_open` after the provider's answer.
  unfoldable pub opened : ℕ → OpenReply → Session → W → Session × W
  opened now r s w = elim r.rc [
    | negsuc k ↦
        (session_free s, tx.command_ack s wire_msgid_open s.open_req_seq res_failed (negsuc k) w)
    | pos _ ↦
        let t = record s {
          user = r.user;
          total_size =
              if s.dir == dir_download
              then (if s.mode == mode_stream then size_stream else r.total)
              else size_stream;
          state = active;
          last_rx_ms = now;
          last_emit_ms = now;
          next_due_ms = now;
        } in
        let w' = tx.command_ack t wire_msgid_open t.open_req_seq res_accepted (pos 0) w in
        (t, tx.info t res_accepted t.chunk_size t.total_size 0 w')
  ]

  -- `tick_pending_open`. A missing `open` answers -1.
  unfoldable pub tick_pending_open : ℕ → Session → W → Session × W
  unfolding opened
  tick_pending_open now s w = elim (provider_of ps s) [
    | none ↦ opened now (record { rc = negsuc 0; total = 0; user = s.user }) s w
    | some p ↦ elim p.open_op [
      | none ↦ opened now (record { rc = negsuc 0; total = 0; user = s.user }) s w
      | some f ↦ let (r, w') = f s w in opened now r s w'
    ]
  ]

  -- `s->provider->poll ? s->provider->poll(...) : 0`.
  abbrev poll_of : Session → W → Bytes × W
  poll_of s w = elim (provider_of ps s) [
    | none ↦ (record { n = pos 0; buf = [] }, w)
    | some p ↦ elim p.poll [
      | none ↦ (record { n = pos 0; buf = [] }, w)
      | some f ↦ f s s.chunk_size w
    ]
  ]

  abbrev period_of : Session → ℕ
  period_of s = if 1000 / s.rate_hz == 0 then 1 else 1000 / s.rate_hz

  -- A stream's sample that is due, with room on the channel.
  unfoldable pub send_sample : ℕ → Session → W → ℕ × Session × W
  send_sample now s w =
      let (b, w') = poll_of s w in
      elim b.n [
        | negsuc _ ↦ (0, s, w')
        | pos n ↦ if n == 0 then (0, s, w') else (
          1,
          record s { cursor = u32 (s.cursor + n); last_emit_ms = now },
          (tx.chunk s f_none (u8 n) s.cursor b.buf w').1,
        )
      ]

  -- `tick_stream`: the frames emitted, `s_last_overflow`, the session, the world.
  unfoldable pub tick_stream : ℕ → ℕ → ℕ → Session → W → ℕ × ℕ × Session × W
  unfolding send_sample
  tick_stream now overflow last s w =
      if s.rate_hz == 0
      then (0, last, s, w)
      else if leb 2147483648 (sub32 now s.next_due_ms)
      then (0, last, s, w)
      else let t = record s { next_due_ms = u32 (now + period_of s) } in
        if not (overflow == last)
        then (0, overflow, t, w)
        else let (e, u, w') = send_sample now t w in (e, last, u, w')

  -- `s->provider->flush ? s->provider->flush(s) : 1`.
  abbrev pub flush_of : Session → W → ℤ × W
  flush_of s w = elim (provider_of ps s) [
    | none ↦ (pos 1, w)
    | some p ↦ elim p.flush [ none ↦ (pos 1, w) | some f ↦ f s w ]
  ]

  -- The end of an upload whose bytes are flushed, or will never be.
  abbrev pub finish_upload : ℕ → ℕ → Session → W → Session × W
  finish_upload now result s w =
      (record s { state = done_linger; last_emit_ms = now }, tx.ack s f_done result s.cursor w)

  -- The periodic cumulative ack.
  unfoldable pub progress_ack : ℕ → Session → W → Session × W
  progress_ack now s w =
      if leb ack_period_ms (sub32 now s.last_emit_ms)
      then (record s { last_emit_ms = now }, tx.ack s f_none res_accepted s.cursor w)
      else (s, w)

  -- `if (s->rx_activity) { s->last_rx_ms = now_ms; s->rx_activity = false; }`
  abbrev pub refresh : ℕ → Session → Session
  refresh now s = if s.rx_activity then record s { last_rx_ms = now; rx_activity = false } else s

  -- `tick_upload`.
  unfoldable pub tick_upload : ℕ → Session → W → Session × W
  unfolding progress_ack
  tick_upload now s w =
      let t = refresh now s in
      if not t.upload_eof
      then progress_ack now t w
      else let (fl, w') = flush_of t w in
        elim fl [
          | negsuc _ ↦ finish_upload now res_failed t w'
          | pos k ↦
              if k == 0
              then progress_ack now (record t { last_rx_ms = now }) w'
              else finish_upload now res_accepted t w'
        ]

  -- The retransmission of INFO until the peer first responds.
  unfoldable pub info_retry : ℕ → Session → W → Session × W
  info_retry now s w =
      if not s.info_acked && leb info_retry_ms (sub32 now s.last_emit_ms)
      then (record s { last_emit_ms = now }, tx.info s res_accepted s.chunk_size s.total_size 0 w)
      else (s, w)

  -- The idle timeout.
  unfoldable pub idle_reap : ℕ → Session → W → Session × W
  idle_reap now s w =
      if leb idle_ms (sub32 now s.last_rx_ms)
      then (session_free s, close_with ps s res_failed w)
      else (s, w)

  -- The case XFER_ST_ACTIVE, before the timeouts.
  unfoldable pub serve : ℕ → ℕ → ℕ → ℕ → Session → W → ℕ × ℕ × Session × W
  serve now overflow last budget s w =
      if s.dir == dir_download
      then if (refresh now s).mode == mode_stream
        then tick_stream now overflow last (refresh now s) w
        else (let l = tick_download ps tx now budget (refresh now s) w in
            (l.emitted, last, l.session, l.world))
      else (0, last, (tick_upload now s w).0, (tick_upload now s w).1)

  -- The case XFER_ST_ACTIVE.
  unfoldable pub tick_active : ℕ → ℕ → ℕ → ℕ → Session → W → ℕ × ℕ × Session × W
  tick_active now overflow last budget s w =
      let (e, last', t, w₁) = serve now overflow last budget s w in
      let (u, w₂) = info_retry now t w₁ in let (v, w₃) = idle_reap now u w₂ in (e, last', v, w₃)

  -- The case XFER_ST_DONE_LINGER.
  unfoldable pub tick_linger : ℕ → Session → W → Session × W
  tick_linger now s w =
      let t = if s.rx_activity then record s { rx_activity = false; last_emit_ms = now } else s in
      if leb done_linger_ms (sub32 now t.last_emit_ms)
      then (session_free t, close_with ps t res_accepted w)
      else (t, w)

  -- The `switch` on the state.
  abbrev dispatch : State → ℕ → ℕ → ℕ → ℕ → Session → W → ℕ × ℕ × Session × W
  dispatch active now overflow last budget s w = tick_active now overflow last budget s w
  dispatch done_linger now overflow last budget s w =
      (0, last, (tick_linger now s w).0, (tick_linger now s w).1)
  dispatch free now overflow last budget s w = (0, last, s, w)
  dispatch pending_open now overflow last budget s w = (0, last, s, w)

  -- The body of the loop of `xfer_tick`, on one slot: the frames emitted, `s_last_overflow`, the
  -- session, the world.
  unfoldable pub tick_slot : ℕ → ℕ → ℕ → ℕ → Session → W → ℕ × ℕ × Session × W
  tick_slot now overflow last budget s w =
      if s.close_pending
      then (
        0,
        last,
        session_free s,
        tx.command_ack s wire_msgid_close s.close_req_seq res_accepted (pos 0)
            (close_with ps s res_accepted w),
      )
      else let (t, w') = if is_pending s.state then tick_pending_open now s w else (s, w) in
        dispatch t.state now overflow last budget t w'

  -- One step of that loop, at slot `i`, with `e` frames emitted so far.
  unfoldable pub tick_at : ℕ → ℕ → ℕ → ℕ → ℕ → Core → W → ℕ × Core × W
  tick_at now overflow budget i e c w =
      let (n, last, s, w') = tick_slot now overflow c.last_overflow (budget - e) (slot c i) w in
      (e + n, set_slot (record c { last_overflow = last }) i s, w')

  -- `xfer_tick`: the frames emitted, the statics, the world.
  unfoldable pub tick : ℕ → ℕ → ℕ → Core → W → ℕ × Core × W
  tick now overflow budget c w =
      if not c.ready
      then (0, c, w)
      else let (e₀, c₀, w₀) = tick_at now overflow budget (c.rr % 2) 0 c w in
        let (e₁, c₁, w₁) = tick_at now overflow budget ((c.rr + 1) % 2) e₀ c₀ w₀ in
        (e₁, record c₁ { rr = (c.rr + 1) % 2 }, w₁)
