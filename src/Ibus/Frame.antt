-- ===== src/Ibus/Frame.antt =====
-- An iBus frame as a transmitter builds it, and the decoder's reading of it.
use vayu.Common.{
  ℕ, ◌+◌, ◌-◌, ◌*◌, ◌%◌, ◌/◌, ◌<◌, ◌≤◌, ◌≡◌, refl, sym, ◌∙◌, ap, ap₂, List, [], ◌∷◌, ◌++◌, Option,
  leb, if◌then◌else◌, length, length-set, get_or, get_or-set_ne, get_or-set_self, set, sub16, arith,
}
use vayu.Ibus.{
  IbusData, payload, checksum_l, Parser, parse_byte, feed, read_channels, Parsed, pending,
}

-- The payload bytes of a frame: each channel, low byte first.
abbrev pub channel_bytes : List ℕ → List ℕ
channel_bytes [] = []
channel_bytes (c ∷ cs) = (c % 256) ∷ (c / 256) ∷ channel_bytes cs

pub length-channel_bytes : (cs : List ℕ) → length (channel_bytes cs) ≡ 2 * length cs
length-channel_bytes [] = omega arith
length-channel_bytes (c ∷ cs) = omega (arith, length-channel_bytes cs)

-- The checksum register after the bytes of the list.
abbrev pub subtract_all : ℕ → List ℕ → ℕ
subtract_all ck [] = ck
subtract_all ck (b ∷ bs) = subtract_all (sub16 ck b) bs

-- The buffer after the bytes of the list are written from index `i` on.
abbrev pub write_at : List ℕ → ℕ → List ℕ → List ℕ
write_at buf i [] = buf
write_at buf i (b ∷ bs) = write_at (set buf i b) (i + 1) bs

-- The decoder after a stretch of payload.
abbrev pub after : Parser → List ℕ → Parser
after p bs = record {
  phase = if leb 30 (p.idx + length bs) then checksum_l else payload;
  buffer = write_at p.buffer p.idx bs;
  idx = p.idx + length bs;
  checksum = subtract_all p.checksum bs;
}

after-nil : (p : Parser) → p.phase ≡ payload → p.idx < 30 → after p [] ≡ p
after-nil p e h = ground arith

-- One payload byte.
payload_byte :
    (p : Parser) (b : ℕ) (d : Option IbusData)
    → p.phase ≡ payload
    → p.idx < 30
    → parse_byte p b d ≡ pending (after p (b ∷ [])) d
unfolding parse_byte
payload_byte p b d e h = ground arith

after-after : (p : Parser) (b : ℕ) (bs : List ℕ) → after (after p (b ∷ [])) bs ≡ after p (b ∷ bs)
after-after p b bs =
    ap
      (λ n. record {
        phase = if leb 30 n then checksum_l else payload;
        buffer = write_at (set p.buffer p.idx b) (p.idx + 1) bs;
        idx = n;
        checksum = subtract_all (sub16 p.checksum b) bs;
      })
      (omega arith)

-- A stretch of payload that fits the frame is taken in whole.
pub feed-payload :
    (bs : List ℕ) (p : Parser) (d : Option IbusData)
    → p.phase ≡ payload
    → p.idx < 30
    → p.idx + length bs ≤ 30
    → feed (pending p d) bs ≡ pending (after p bs) d
unfolding feed
feed-payload [] p d e h k = ap (λ q. pending q d) (sym (after-nil p e h))
feed-payload (b ∷ []) p d e h k = payload_byte p b d e h
feed-payload (b ∷ c ∷ bs) p d e h k = rw (payload_byte p b d e h) (
    feed-payload (c ∷ bs) (after p (b ∷ [])) d (ground arith) (omega arith) (omega arith)
    ∙ ap (λ q. pending q d) (after-after p b (c ∷ bs)))

pub feed-append : (xs ys : List ℕ) (r : Parsed) → feed r (xs ++ ys) ≡ feed (feed r xs) ys
unfolding feed
feed-append [] ys r = refl
feed-append (x ∷ xs) ys r = feed-append xs ys (parse_byte r.parser x r.out)

-- The checksum that a transmitter sends over the first thirty bytes.
abbrev pub sum_bytes : List ℕ → ℕ
sum_bytes [] = 0
sum_bytes (b ∷ bs) = b + sum_bytes bs

abbrev pub frame_checksum : List ℕ → ℕ
frame_checksum pl = 0xFFFF - (0x20 + 0x40 + sum_bytes pl)

abbrev pub All {ℓ} : (ℕ → Type ℓ) → List ℕ → Type ℓ
All P [] = Unit
All P (x ∷ xs) = P x × All P xs

pub sum_bytes-le : (bs : List ℕ) → All (λ b. b < 256) bs → sum_bytes bs ≤ 255 * length bs
sum_bytes-le [] h = omega arith
sum_bytes-le (b ∷ bs) h = omega (arith, sum_bytes-le bs h.1)

pub subtract_all-eq :
    (bs : List ℕ) (ck : ℕ) → ck < 65536 → sum_bytes bs ≤ ck → subtract_all ck bs ≡ ck - sum_bytes bs
subtract_all-eq [] ck h k = omega arith
subtract_all-eq (b ∷ bs) ck h k =
    omega (arith, subtract_all-eq bs (sub16 ck b) (omega arith) (omega arith))

-- Writing from index `i` on leaves what stands before.
pub get_or-write_at_below :
    (bs buf : List ℕ) (i j : ℕ) → j < i → get_or (write_at buf i bs) j 0 ≡ get_or buf j 0
get_or-write_at_below [] buf i j h = refl
get_or-write_at_below (b ∷ bs) buf i j h =
    get_or-write_at_below bs (set buf i b) (i + 1) j (omega arith)
    ∙ get_or-set_ne buf b 0 (omega arith)

-- The channels of the list stand in the buffer from index `j` on.
abbrev pub Holds : List ℕ → ℕ → List ℕ → Type 0
Holds buf j [] = Unit
Holds buf j (c ∷ cs) =
    (get_or buf j 0 ≡ c % 256) × (get_or buf (j + 1) 0 ≡ c / 256) × Holds buf (j + 1 + 1) cs

pub Holds-write_at :
    (cs buf : List ℕ) (j : ℕ)
    → j + 2 * length cs ≤ length buf
    → Holds (write_at buf j (channel_bytes cs)) j cs
Holds-write_at [] buf j h = tt
Holds-write_at (c ∷ cs) buf j h = (
  get_or-write_at_below (channel_bytes cs) buf'' (j + 1 + 1) j (omega arith)
      ∙ get_or-set_ne buf' (c / 256) 0 (omega arith)
      ∙ get_or-set_self buf j (c % 256) 0 (omega arith),
  get_or-write_at_below (channel_bytes cs) buf'' (j + 1 + 1) (j + 1) (omega arith)
      ∙ get_or-set_self buf' (j + 1) (c / 256) 0 (omega (arith, length-set buf j (c % 256))),
  Holds-write_at cs buf'' (j + 1 + 1)
      (omega (arith, length-set buf j (c % 256), length-set buf' (j + 1) (c / 256))),
)
  where
    buf' : List ℕ
    buf' = set buf j (c % 256)

    buf'' : List ℕ
    buf'' = set buf' (j + 1) (c / 256)

-- A channel of twelve bits is put together from its two bytes.
channel_of_bytes :
    (c lo hi : ℕ) → c < 4096 → lo ≡ c % 256 → hi ≡ c / 256 → (lo + hi * 256) % 4096 ≡ c
channel_of_bytes c lo hi h p q = omega arith

pub read_channels-Holds :
    (cs buf : List ℕ) (i j : ℕ)
    → j ≡ 2 + i * 2
    → All (λ c. c < 4096) cs
    → Holds buf j cs
    → read_channels buf (length cs) i ≡ cs
read_channels-Holds [] buf i j e a h = refl
read_channels-Holds (c ∷ cs) buf i j e a h =
    ap₂ ◌∷◌
      (channel_of_bytes c _ _ a.0 (ap (λ k. get_or buf k 0) (sym e) ∙ h.0)
        (ap (λ k. get_or buf k 0) (let e' : 3 + i * 2 ≡ j + 1 = omega arith in e') ∙ h.1))
      (read_channels-Holds cs buf (i + 1) (j + 1 + 1) (omega arith) a.1 h.2)

-- The whole packet of a list of channels.
abbrev pub encode : List ℕ → List ℕ
encode cs =
    0x20 ∷ 0x40 ∷ channel_bytes cs
    ++ (frame_checksum (channel_bytes cs) % 256) ∷ (frame_checksum (channel_bytes cs) / 256) ∷ []

pub channel_bytes-All :
    (cs : List ℕ) → All (λ c. c < 4096) cs → All (λ b. b < 256) (channel_bytes cs)
channel_bytes-All [] h = tt
channel_bytes-All (c ∷ cs) h = (omega arith, (omega arith, channel_bytes-All cs h.1))
