-- ===== src/Xfer.antt =====
-- firmware/src/comm/xfer/navlink_xfer.c and firmware/include/comm/xfer/navlink_xfer.h: the bulk
-- transfer substrate. This file has its state and its housekeeping; `Comm` has the handlers that run
-- on the comm task, `Emit` and `Tick` the service task's tick, and the other children the theorems.
-- What lies behind a provider or the emitter is a type `W` of worlds that their calls pass on. An
-- operation of the emitter that is null is one that leaves the world as it is and accepts. A pointer to
-- a provider is its index in the registry.
pub mod Comm
pub mod Emit
pub mod Tick
pub mod Sack
pub mod Upload
pub mod Rounds
pub mod Download
pub mod Open
pub mod Reap
mod Tests
use vayu.Common.{
  ℕ, zero, suc, ◌+◌, ◌-◌, ◌/◌, ◌%◌, ◌≤◌, Bool, true, false, not, ◌&&◌, ◌||◌, List, [], ◌∷◌, ◌++◌,
  ltb, leb, ◌==◌, if◌then◌else◌, get_elem?, length, replicate, Option, none, some, ℤ, pos, negsuc,
}

abbrev pub max_sessions : ℕ
max_sessions = 2

abbrev pub max_providers : ℕ
max_providers = 4

abbrev pub chunk_max : ℕ
chunk_max = 247

abbrev pub arg_max : ℕ
arg_max = 32

abbrev pub size_stream : ℕ
size_stream = 0xFFFFFFFF

-- `xfer_result_t`, and the sentinel XFER_OPEN_DEFERRED beside it.
abbrev pub res_accepted : ℕ
res_accepted = 0

abbrev pub res_temporarily_rejected : ℕ
res_temporarily_rejected = 1

abbrev pub res_denied : ℕ
res_denied = 2

abbrev pub res_unsupported : ℕ
res_unsupported = 3

abbrev pub res_failed : ℕ
res_failed = 4

abbrev pub open_deferred : ℕ
open_deferred = 255

-- The bits of `xfer_flags`, tested on a byte.
abbrev pub flag_done : ℕ → Bool
flag_done f = f % 2 == 1

abbrev pub flag_nak : ℕ → Bool
flag_nak f = f / 2 % 2 == 1

abbrev pub flag_abort : ℕ → Bool
flag_abort f = f / 4 % 2 == 1

abbrev pub flag_eof : ℕ → Bool
flag_eof f = f / 8 % 2 == 1

abbrev pub dir_download : ℕ
dir_download = 0

abbrev pub dir_upload : ℕ
dir_upload = 1

abbrev pub mode_file : ℕ
mode_file = 0

abbrev pub mode_stream : ℕ
mode_stream = 1

-- `xfer_state_t`.
pub data State : Type 0 where
  free pending_open active done_linger : State

abbrev pub is_free : State → Bool
is_free free = true
is_free _ = false

abbrev pub is_pending : State → Bool
is_pending pending_open = true
is_pending _ = false

abbrev pub is_active : State → Bool
is_active active = true
is_active _ = false

abbrev pub is_linger : State → Bool
is_linger done_linger = true
is_linger _ = false

-- `xfer_repair_t`.
pub record Repair : Type 0 where
  pub off : ℕ
  pub len : ℕ
  pub sent : Bool
  pub reports : ℕ

-- `xfer_session_t`. `repair` is the first `n_repair` entries of the array; the code reads no others.
pub record Session : Type 0 where
  pub state : State
  pub session : ℕ
  pub dir : ℕ
  pub mode : ℕ
  pub gcs_sys : ℕ
  pub gcs_comp : ℕ
  pub open_req_seq : ℕ
  pub close_req_seq : ℕ
  pub close_pending : Bool
  pub info_acked : Bool
  pub rx_activity : Bool
  pub upload_eof : Bool
  pub service_id : ℕ
  pub chunk_size : ℕ
  pub total_size : ℕ
  pub cursor : ℕ
  pub repair : List Repair
  pub offset_start : ℕ
  pub rate_hz : ℕ
  pub next_due_ms : ℕ
  pub last_rx_ms : ℕ
  pub last_emit_ms : ℕ
  pub provider : Option ℕ
  pub user : ℕ
  pub arg : List ℕ

-- `session_free`: every byte zero, the slot id kept.
abbrev pub session_free : Session → Session
session_free s = record {
  state = free;
  session = s.session;
  dir = 0;
  mode = 0;
  gcs_sys = 0;
  gcs_comp = 0;
  open_req_seq = 0;
  close_req_seq = 0;
  close_pending = false;
  info_acked = false;
  rx_activity = false;
  upload_eof = false;
  service_id = 0;
  chunk_size = 0;
  total_size = 0;
  cursor = 0;
  repair = [];
  offset_start = 0;
  rate_hz = 0;
  next_due_ms = 0;
  last_rx_ms = 0;
  last_emit_ms = 0;
  provider = none;
  user = 0;
  arg = replicate arg_max 0;
}

-- `is_stream`.
abbrev pub is_stream : Session → Bool
is_stream s = s.total_size == size_stream

-- `xfer_open_args_t`.
pub record OpenArgs : Type 0 where
  pub session : ℕ
  pub dir : ℕ
  pub mode : ℕ
  pub req_seq : ℕ
  pub gcs_sys : ℕ
  pub gcs_comp : ℕ
  pub service_id : ℕ
  pub offset_start : ℕ
  pub rate_hz : ℕ
  pub arg : List ℕ

-- What a provider's `open` returns, the total that it stores, and its scratch word.
pub record OpenReply : Type 0 where
  pub rc : ℤ
  pub total : ℕ
  pub user : ℕ

-- What `read` and `poll` return, and the bytes that they put in the buffer.
pub record Bytes : Type 0 where
  pub n : ℤ
  pub buf : List ℕ

-- `xfer_provider_t`; a null entry is `none`.
pub record Provider (W : Type 0) : Type 0 where
  pub service_id : ℕ
  pub open_op : Option (Session → W → OpenReply × W)
  pub read : Option (Session → ℕ → ℕ → W → Bytes × W)
  pub write : Option (Session → ℕ → List ℕ → W → ℤ × W)
  pub poll : Option (Session → ℕ → W → Bytes × W)
  pub close : Option (Session → ℕ → W → W)
  pub flush : Option (Session → W → ℤ × W)

-- `xfer_tx_ops_t`.
pub record Tx (W : Type 0) : Type 0 where
  pub command_ack : Session → ℕ → ℕ → ℕ → ℤ → W → W
  pub info : Session → ℕ → ℕ → ℕ → ℕ → W → W
  pub chunk : Session → ℕ → ℕ → ℕ → List ℕ → W → Bool × W
  pub ack : Session → ℕ → ℕ → ℕ → W → W

-- The module's statics besides the registry and the emitter: `s_ready`, the two session slots,
-- `s_rr` of `xfer_tick`, and `s_last_overflow` of `tick_stream`.
pub record Core : Type 0 where
  pub ready : Bool
  pub slot0 : Session
  pub slot1 : Session
  pub rr : ℕ
  pub last_overflow : ℕ

-- `&s_sessions[i]`, for an index below `max_sessions`.
abbrev pub slot : Core → ℕ → Session
slot c i = if i == 0 then c.slot0 else c.slot1

abbrev pub set_slot : Core → ℕ → Session → Core
set_slot c i s = if i == 0 then record c { slot0 = s } else record c { slot1 = s }

module _ {W : Type 0} where
  -- `find_provider`: the index of the first with that id, counted from `i`.
  abbrev pub find_provider : List (Provider W) → ℕ → ℕ → Option ℕ
  find_provider [] id i = none
  find_provider (p ∷ ps) id i = if p.service_id == id then some i else find_provider ps id (i + 1)

  -- `xfer_register_provider` with a provider that is not null: the registry and the result.
  unfoldable pub register_provider : List (Provider W) → Provider W → List (Provider W) × ℤ
  register_provider ps p =
      if leb max_providers (length ps)
      then (ps, negsuc 0)
      else elim (find_provider ps p.service_id 0) [
        | some i ↦ (ps, negsuc 1)
        | none ↦ (ps ++ (p ∷ []), pos 0)
      ]

  -- `s->provider`.
  abbrev pub provider_of : List (Provider W) → Session → Option (Provider W)
  provider_of ps s = elim s.provider [ none ↦ none | some i ↦ get_elem? ps i ]

  -- `if (s->provider && s->provider->close) s->provider->close(s, result);`
  abbrev pub close_with : List (Provider W) → Session → ℕ → W → W
  close_with ps s result w = elim (provider_of ps s) [
    | none ↦ w
    | some p ↦ elim p.close [ none ↦ w | some f ↦ f s result w ]
  ]

-- `xfer_init`, when the allocation succeeds (`got`) or fails.
unfoldable pub init : Bool → Core → Core
init got c =
    if got
    then record c {
      ready = true;
      slot0 = record (session_free c.slot0) { session = 0 };
      slot1 = record (session_free c.slot1) { session = 1 };
    }
    else record c { ready = false }

-- `xfer_reset_all`.
unfoldable pub reset_all : Core → Core
reset_all c =
    if c.ready
    then record c {
      slot0 = record (session_free c.slot0) { session = 0 };
      slot1 = record (session_free c.slot1) { session = 1 };
    }
    else c

abbrev is_file_download : Session → Bool
is_file_download s = is_active s.state && (s.dir == dir_download && s.mode == mode_file)

-- `xfer_download_active`.
unfoldable pub download_active : Core → Bool
download_active c = c.ready && (is_file_download c.slot0 || is_file_download c.slot1)

-- `xfer_session_active`.
unfoldable pub session_active : Core → ℕ → Bool
session_active c i = c.ready && (ltb i max_sessions && not (is_free (slot c i).state))

-- `xfer_active`.
unfoldable pub any_active : Core → Bool
any_active c = c.ready && (not (is_free c.slot0.state) || not (is_free c.slot1.state))
