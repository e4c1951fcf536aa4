-- ===== src/Channel.antt =====
-- firmware/src/comm/channel.c, the transmit side of a serial channel: the two ping-pong buffers that
-- `write_channel`, `write_channel_xfer` and `flush_channel` share. A buffer is the list of its first
-- `buf_lens` bytes. What the critical sections guard is one step; the bytes that a flush passes to the
-- UART driver are its result.
pub mod Fifo
mod Tests
use vayu.Common.{
  ℕ, ◌+◌, ◌-◌, Bool, true, false, not, ◌||◌, List, [], ◌∷◌, ◌++◌, length, ltb, ◌==◌, if◌then◌else◌,
  u32,
}

abbrev pub tx_buf_size : ℕ
tx_buf_size = 2048

abbrev pub tx_xfer_reserve : ℕ
tx_xfer_reserve = 768

-- The results of `err_t` that occur here.
pub data Err : Type 0 where
  none error usage : Err

-- `serial_channel_handle_t` and `_tx_overflow_count`. `by_dma` says that completion comes from an
-- interrupt, as on the telemetry UART; the other links are written in a loop. `active` is 1 for true.
pub record Channel : Type 0 where
  pub buf0 : List ℕ
  pub buf1 : List ℕ
  pub active : Bool
  pub busy : Bool
  pub by_dma : Bool
  pub overflow : ℕ

-- The buffer that is filled, and the other.
abbrev pub filling : Channel → List ℕ
filling c = if c.active then c.buf1 else c.buf0

abbrev pub flushed : Channel → List ℕ
flushed c = if c.active then c.buf0 else c.buf1

-- A new content for the active buffer.
abbrev pub fill : List ℕ → Channel → Channel
fill b c = if c.active then record c { buf1 = b } else record c { buf0 = b }

-- `_write_channel` on a serial channel with a handle.
unfoldable pub write_upto : ℕ → List ℕ → Channel → Channel × Err
write_upto cap bytes c =
    if length bytes == 0
    then (c, usage)
    else if ltb cap (length (filling c) + length bytes)
    then (record c { overflow = u32 (c.overflow + 1) }, error)
    else (fill (filling c ++ bytes) c, none)

-- `write_channel`.
unfoldable pub write : List ℕ → Channel → Channel × Err
unfolding write_upto
write bytes c = write_upto (tx_buf_size - tx_xfer_reserve) bytes c

-- `write_channel_xfer`.
unfoldable pub write_xfer : List ℕ → Channel → Channel × Err
unfolding write_upto
write_xfer bytes c = write_upto tx_buf_size bytes c

-- `flush_channel`: the bytes for the driver, the channel, the result.
unfoldable pub flush : Channel → List ℕ × Channel × Err
flush c = if c.busy then ([], c, error) else if length (filling c) == 0 then ([], c, none) else (
  filling c,
  record (fill [] (record c { active = not c.active })) { busy = c.by_dma },
  none,
)

-- The completion interrupt, `_dma_complete_callback_u6`.
unfoldable pub complete : Channel → Channel
complete c = record c { busy = false }
