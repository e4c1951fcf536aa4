-- ===== src/Ibus.antt =====
-- firmware/src/comm/ibus.c: the byte-wise decoder of FlySky iBus frames.
-- The file's statics are the record `Parser`; `data`, which may be null, is an option.
pub mod Bounds
pub mod Frame
pub mod Accept
mod Tests
use mathlib.Core.Option
use vayu.Common.{
  ℕ, zero, suc, ◌+◌, ◌-◌, ◌*◌, ◌%◌, ◌/◌, Bool, true, false, List, [], ◌∷◌, Option, none, some, ◌==◌,
  leb, if◌then◌else◌, set, get_or, replicate, u8, sub16,
}

abbrev pub max_channels : ℕ
max_channels = 14

abbrev pub packet_size : ℕ
packet_size = 32

abbrev pub start_byte : ℕ
start_byte = 0x20

abbrev pub cmd_channels : ℕ
cmd_channels = 0x40

-- `ibus_data_t`.
pub record IbusData : Type 0 where
  pub channels : List ℕ
  pub is_failsafe : Bool

-- `ibus_state_t`.
pub data Phase : Type 0 where
  wait_start wait_cmd payload checksum_l checksum_h : Phase

pub record Parser : Type 0 where
  pub phase : Phase
  pub buffer : List ℕ
  pub idx : ℕ
  pub checksum : ℕ

-- The statics as the image initialises them.
unfoldable pub boot : Parser
boot = record { phase = wait_start; buffer = replicate packet_size 0; idx = 0; checksum = 0xFFFF }

-- `ibus_init`. `buffer` and `checksum` are left as they are.
unfoldable pub init : Parser → Option IbusData → Parser × Option IbusData
init p d = (
  record p { phase = wait_start; idx = 0 },
  Option.map (λ _. record { channels = replicate max_channels 0; is_failsafe = false }) d,
)

-- The channel loop of a valid packet: `n` channels from index `i` on. `& 0x0FFF` keeps 12 bits, and
-- the two bytes that `|` joins do not overlap.
abbrev pub read_channels : List ℕ → ℕ → ℕ → List ℕ
read_channels buf zero i = []
read_channels buf (suc n) i =
    ((get_or buf (2 + i * 2) 0 + get_or buf (3 + i * 2) 0 * 256) % 4096)
    ∷ read_channels buf n (i + 1)

-- What `ibus_parse_byte` leaves behind and returns.
pub record Parsed : Type 0 where
  pub parser : Parser
  pub out : Option IbusData
  pub complete : Bool

abbrev pub pending : Parser → Option IbusData → Parsed
pending p d = record { parser = p; out = d; complete = false }

-- The `switch` of `ibus_parse_byte`, on the phase that it reads.
abbrev dispatch : Phase → Parser → ℕ → Option IbusData → Parsed
dispatch wait_start p b d =
    if b == start_byte
    then pending
        (record p {
          phase = wait_cmd;
          buffer = set p.buffer 0 b;
          idx = 1;
          checksum = sub16 0xFFFF b;
        })
        d
    else pending p d
dispatch wait_cmd p b d =
    if b == cmd_channels
    then pending
        (record p {
          phase = payload;
          buffer = set p.buffer 1 b;
          idx = 2;
          checksum = sub16 p.checksum b;
        })
        d
    else pending (record p { phase = wait_start }) d
dispatch payload p b d =
    let idx' = u8 (p.idx + 1) in
    pending
      (record p {
        phase = if leb 30 idx' then checksum_l else payload;
        buffer = set p.buffer p.idx b;
        idx = idx';
        checksum = sub16 p.checksum b;
      })
      d
dispatch checksum_l p b d =
    if b == p.checksum % 256
    then pending (record p { phase = checksum_h }) d
    else pending (record p { phase = wait_start }) d
dispatch checksum_h p b d =
    if b == p.checksum / 256 % 256
    then record {
      parser = record p { phase = wait_start };
      out =
          Option.map
            (λ _. record { channels = read_channels p.buffer max_channels 0; is_failsafe = false })
            d;
      complete = true;
    }
    else pending (record p { phase = wait_start }) d

-- `ibus_parse_byte`.
unfoldable pub parse_byte : Parser → ℕ → Option IbusData → Parsed
parse_byte p b d = dispatch p.phase p b d

-- The bytes of a stream, fed in order to what the call before left behind.
unfoldable pub feed : Parsed → List ℕ → Parsed
feed r [] = r
feed r (b ∷ bs) = feed (parse_byte r.parser b r.out) bs
