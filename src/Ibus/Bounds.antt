-- ===== src/Ibus/Bounds.antt =====
-- The index of the decoder of firmware/src/comm/ibus.c stays inside its buffer.
use vayu.Common.{ℕ, ◌<◌, ◌≤◌, ◌≡◌, ◌⊎◌, List, [], ◌∷◌, Option, length, length-set, arith}
use vayu.Ibus.{
  IbusData, payload, checksum_l, checksum_h, Parser, boot, parse_byte, feed, Parsed, packet_size,
}

-- What holds of the statics between two bytes.
pub record IsValid (p : Parser) : Type 0 where
  pub storage : length p.buffer ≡ packet_size
  pub in_payload : p.phase ≡ payload → (2 ≤ p.idx) × (p.idx < 30)
  pub in_checksum : (p.phase ≡ checksum_l) ⊎ (p.phase ≡ checksum_h) → p.idx ≡ 30
  pub word : p.checksum < 65536

pub boot-IsValid : IsValid boot
unfolding boot
boot-IsValid = ground arith

-- Every byte keeps the invariant: the 32-byte buffer, an index from 2 to 29 wherever a payload byte
-- is written, and a checksum of 16 bits.
pub parse_byte-IsValid :
    {p : Parser} (b : ℕ) (d : Option IbusData) → IsValid p → IsValid (parse_byte p b d).parser
unfolding parse_byte
parse_byte-IsValid {p} b d v =
    ground (arith, length-set p.buffer 0 b, length-set p.buffer 1 b, length-set p.buffer p.idx b)

pub feed-IsValid : (bs : List ℕ) (r : Parsed) → IsValid r.parser → IsValid (feed r bs).parser
unfolding feed
feed-IsValid [] r v = v
feed-IsValid (b ∷ bs) r v =
    feed-IsValid bs (parse_byte r.parser b r.out) (parse_byte-IsValid b r.out v)
