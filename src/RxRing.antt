-- ===== src/RxRing.antt =====
-- firmware/src/comm/serializer.c: the ring that carries received telemetry bytes from the interrupt to
-- the comm task. A push and a drain are one step each.
pub mod Queue
mod Tests
use vayu.Common.{ℕ, zero, suc, ◌+◌, ◌%◌, List, [], ◌∷◌, ◌==◌, if◌then◌else◌, set, get_or, replicate}

abbrev pub ring_size : ℕ
ring_size = 512

-- `_rx_raw_buf`, `_rx_raw_head` and `_rx_raw_tail`.
pub record Ring : Type 0 where
  pub buf : List ℕ
  pub head : ℕ
  pub tail : ℕ

-- The statics as the image initialises them.
unfoldable pub boot : Ring
boot = record { buf = replicate ring_size 0; head = 0; tail = 0 }

-- `(i + 1u) & (RX_RAW_RING_SZ - 1u)`.
abbrev pub next : ℕ → ℕ
next i = (i + 1) % ring_size

-- `rx_raw_push`, which is all that `uart2_packet_recv_callback` does with its byte.
unfoldable pub push : ℕ → Ring → Ring
push b r =
    if next r.head == r.tail then r else record r { buf = set r.buf r.head b; head = next r.head }

-- The loop of `comm_rx_raw_drain` from index `t`: the bytes copied out, and the index it stops at.
unfoldable pub copy_out : ℕ → Ring → ℕ → List ℕ × ℕ
copy_out zero r t = ([], t)
copy_out (suc k) r t =
    let rest = copy_out k r (next t) in
    if t == r.head then ([], t) else (get_or r.buf t 0 ∷ rest.0, rest.1)

-- `comm_rx_raw_drain` into a buffer of `max` bytes.
unfoldable pub drain : ℕ → Ring → List ℕ × Ring
unfolding copy_out
drain max r = ((copy_out max r r.tail).0, record r { tail = (copy_out max r r.tail).1 })
