-- ===== src/Ibus/Accept.antt =====
-- Which byte sequences the decoder accepts, and what it reads from them.
use mathlib.Core.Option
use mathlib.Core.Path.{subst, subst₂}
use mathlib.Core.Bool.{false≢true}
use native.Mathlib.Decide.{ℕ_discrete}
use vayu.Common.{
  length-append, ℕ, ◌+◌, ◌-◌, ◌%◌, ◌/◌, ◌<◌, ◌≤◌, ◌≡◌, refl, sym, ◌∙◌, ap, true, false, List, [],
  ◌∷◌, ◌++◌, Option, some, length, length-set, set, arith, ◌↔◌, ◌≢◌, Bool-cases, inl, inr,
}
use vayu.Ibus.{
  IbusData, wait_start, wait_cmd, payload, checksum_l, checksum_h, Parser, parse_byte, feed,
  read_channels, Parsed, pending, max_channels,
}
use vayu.Ibus.Bounds.{IsValid, parse_byte-IsValid}
use vayu.Ibus.Frame.{
  after, feed-payload, feed-append, channel_bytes, length-channel_bytes, encode, frame_checksum,
  sum_bytes-le, All, subtract_all-eq, read_channels-Holds, Holds-write_at, channel_bytes-All,
}

-- The decoder after the two header bytes.
abbrev header : Parser → Parser
header p = record {
  phase = payload;
  buffer = set (set p.buffer 0 0x20) 1 0x40;
  idx = 2;
  checksum = 0xFFFF - 0x60;
}

feed-header :
    (p : Parser) (bs : List ℕ) (d : Option IbusData)
    → p.phase ≡ wait_start
    → feed (pending p d) (0x20 ∷ 0x40 ∷ bs) ≡ feed (pending (header p) d) bs
unfolding feed parse_byte
feed-header p bs d e = ground arith

feed-body :
    (p : Parser) (pl rest : List ℕ) (d : Option IbusData)
    → p.phase ≡ wait_start
    → length pl ≡ 28
    → feed (pending p d) (0x20 ∷ 0x40 ∷ pl ++ rest) ≡ feed (pending (after (header p) pl) d) rest
feed-body p pl rest d e n =
    feed-header p (pl ++ rest) d e
    ∙ feed-append pl rest (pending (header p) d)
    ∙ ap (λ r. feed r rest) (feed-payload pl (header p) d refl (omega arith) (omega arith))

-- The packet that the decoder hands on.
abbrev packet : Parser → Option IbusData → Parsed
packet q d = record {
  parser = record q { phase = wait_start };
  out =
      Option.map
        (λ _. record { channels = read_channels q.buffer max_channels 0; is_failsafe = false }) d;
  complete = true;
}

feed-trailer :
    (q : Parser) (l h : ℕ) (d : Option IbusData)
    → q.phase ≡ checksum_l
    → l ≡ q.checksum % 256
    → h ≡ q.checksum / 256 % 256
    → feed (pending q d) (l ∷ h ∷ []) ≡ packet q d
unfolding feed parse_byte
feed-trailer q l h d e p r = ground arith

-- How many bytes of a packet the decoder has taken.
abbrev position : Parser → ℕ
position p = elim p.phase [
  | wait_start ↦ 0
  | wait_cmd ↦ 1
  | payload ↦ p.idx
  | checksum_l ↦ 30
  | checksum_h ↦ 31
]

position-parse_byte :
    (p : Parser) (b : ℕ) (d : Option IbusData)
    → IsValid p
    → position (parse_byte p b d).parser ≤ position p + 1
unfolding parse_byte
position-parse_byte p b d v = ground arith

complete-position :
    (p : Parser) (b : ℕ) (d : Option IbusData)
    → (parse_byte p b d).complete ≡ true
    → position p ≡ 31
unfolding parse_byte
complete-position p b d h = ground arith

-- Too few bytes complete no packet.
too_short :
    (bs : List ℕ) (r : Parsed)
    → IsValid r.parser
    → r.complete ≡ false
    → position r.parser + length bs < 32
    → (feed r bs).complete ≡ false
unfolding feed
too_short [] r v c h = c
too_short (b ∷ bs) r v c h =
    too_short bs (parse_byte r.parser b r.out) (parse_byte-IsValid b r.out v)
      (elim (Bool-cases (parse_byte r.parser b r.out).complete) [
        | inl e ↦ absurd (omega (arith, complete-position r.parser b r.out e))
        | inr e ↦ e
      ])
      (omega (arith, position-parse_byte r.parser b r.out v))

-- A byte other than the header's sends the decoder back to the start.
first_wrong :
    (p : Parser) (a : ℕ) (d : Option IbusData)
    → p.phase ≡ wait_start
    → a ≢ 0x20
    → parse_byte p a d ≡ pending p d
unfolding parse_byte
first_wrong p a d e n = ground arith

second_wrong :
    (p : Parser) (b : ℕ) (d : Option IbusData)
    → p.phase ≡ wait_start
    → b ≢ 0x40
    → let r = parse_byte (parse_byte p 0x20 d).parser b (parse_byte p 0x20 d).out in
      (r.complete ≡ false) × (r.parser.phase ≡ wait_start)
unfolding parse_byte
second_wrong p b d e n = ground arith

trailer_needs :
    (q : Parser) (l h : ℕ) (d : Option IbusData)
    → q.phase ≡ checksum_l
    → (feed (pending q d) (l ∷ h ∷ [])).complete ≡ true
    → (l ≡ q.checksum % 256) × (h ≡ q.checksum / 256 % 256)
unfolding feed parse_byte
trailer_needs q l h d e c = ground arith

checksum-body :
    (p : Parser) (pl : List ℕ)
    → length pl ≡ 28
    → All (λ b. b < 256) pl
    → (after (header p) pl).checksum ≡ frame_checksum pl
checksum-body p pl n a =
    subtract_all-eq pl (0xFFFF - 0x60) (omega arith) (omega (arith, sum_bytes-le pl a))
    ∙ omega arith

position-start : (p : Parser) → p.phase ≡ wait_start → position p ≡ 0
position-start p e = ground arith

needs_first :
    (p : Parser) (a : ℕ) (rest : List ℕ) (d : Option IbusData)
    → p.phase ≡ wait_start
    → IsValid p
    → length rest ≤ 31
    → (feed (pending p d) (a ∷ rest)).complete ≡ true
    → a ≡ 0x20
unfolding feed
needs_first p a rest d e v n c = elim (ℕ_discrete a 0x20) [
  | yes q ↦ q
  | no q ↦ absurd (
      false≢true (
        sym (too_short rest (pending p d) v refl (omega (arith, position-start p e)))
        ∙ ap (λ r. (feed r rest).complete) (sym (first_wrong p a d e q))
        ∙ c))
]

needs_second :
    (p : Parser) (b : ℕ) (rest : List ℕ) (d : Option IbusData)
    → p.phase ≡ wait_start
    → IsValid p
    → length rest ≤ 30
    → (feed (pending p d) (0x20 ∷ b ∷ rest)).complete ≡ true
    → b ≡ 0x40
unfolding feed
needs_second p b rest d e v n c = elim (ℕ_discrete b 0x40) [
  | yes q ↦ q
  | no q ↦ absurd (
      false≢true (
        sym (
          too_short rest r (parse_byte-IsValid b first.out (parse_byte-IsValid 0x20 d v))
            (second_wrong p b d e q).0
            (omega (arith, position-start r.parser (second_wrong p b d e q).1)))
        ∙ c))
]
  where
    first : Parsed
    first = parse_byte p 0x20 d

    r : Parsed
    r = parse_byte first.parser b first.out

needs_header :
    (p : Parser) (a b : ℕ) (rest : List ℕ) (d : Option IbusData)
    → p.phase ≡ wait_start
    → IsValid p
    → length rest ≤ 30
    → (feed (pending p d) (a ∷ b ∷ rest)).complete ≡ true
    → (a ≡ 0x20) × (b ≡ 0x40)
needs_header p a b rest d e v n c =
    let first : a ≡ 0x20 = needs_first p a (b ∷ rest) d e v (omega arith) c in
    (
      first,
      needs_second p b rest d e v n
          (subst (λ k. (feed (pending p d) (k ∷ b ∷ rest)).complete ≡ true) first c),
    )

-- From its start state the decoder completes a packet on the last of 32 bytes exactly when they
-- begin with 0x20 0x40 and end with the little-endian checksum 0xFFFF less the sum of the thirty
-- bytes before it.
pub accept_iff :
    (p : Parser) (a b l h : ℕ) (pl : List ℕ) (d : Option IbusData)
    → p.phase ≡ wait_start
    → IsValid p
    → length pl ≡ 28
    → All (λ x. x < 256) pl
    → ((feed (pending p d) (a ∷ b ∷ pl ++ (l ∷ h ∷ []))).complete ≡ true)
      ↔ ((a ≡ 0x20) × (b ≡ 0x40) × (l ≡ frame_checksum pl % 256) × (h ≡ frame_checksum pl / 256))
accept_iff p a b l h pl d e v n w = (forth, back)
  where
    q : Parser
    q = after (header p) pl

    full : q.phase ≡ checksum_l
    full = ground arith

    ck : q.checksum ≡ frame_checksum pl
    ck = checksum-body p pl n w

    forth :
        (feed (pending p d) (a ∷ b ∷ pl ++ (l ∷ h ∷ []))).complete ≡ true
        → (a ≡ 0x20) × (b ≡ 0x40) × (l ≡ frame_checksum pl % 256) × (h ≡ frame_checksum pl / 256)
    forth c =
        let hd =
          needs_header p a b (pl ++ (l ∷ h ∷ [])) d e v
            (omega (arith, length-append pl (l ∷ h ∷ []))) c in
        let c' : (feed (pending p d) (0x20 ∷ 0x40 ∷ pl ++ (l ∷ h ∷ []))).complete ≡ true =
          subst₂ (λ j k. (feed (pending p d) (j ∷ k ∷ pl ++ (l ∷ h ∷ []))).complete ≡ true) hd.0
            hd.1 c in
        let tr =
          trailer_needs q l h d full
            (ap (λ r. r.complete) (sym (feed-body p pl (l ∷ h ∷ []) d e n)) ∙ c') in
        (hd.0, hd.1, omega (arith, ck), omega (arith, ck))

    back :
        (a ≡ 0x20) × (b ≡ 0x40) × (l ≡ frame_checksum pl % 256) × (h ≡ frame_checksum pl / 256)
        → (feed (pending p d) (a ∷ b ∷ pl ++ (l ∷ h ∷ []))).complete ≡ true
    back c =
        subst₂ (λ j k. (feed (pending p d) (j ∷ k ∷ pl ++ (l ∷ h ∷ []))).complete ≡ true) (sym c.0)
          (sym c.1)
          (ap (λ r. r.complete)
            (feed-body p pl (l ∷ h ∷ []) d e n
              ∙ feed-trailer q l h d full (omega (arith, ck)) (omega (arith, ck))))

-- The decoder reads back what a transmitter encodes: fed the packet of fourteen twelve-bit channels
-- from its start state, it reports a complete packet, holds exactly those channels with the failsafe
-- flag clear, and is back in its start state.
pub decode-encode :
    (p : Parser) (cs : List ℕ) (old : IbusData)
    → p.phase ≡ wait_start
    → IsValid p
    → length cs ≡ 14
    → All (λ c. c < 4096) cs
    → let r = feed (pending p (some old)) (encode cs) in
      (r.complete ≡ true)
      × (r.out ≡ some (record { channels = cs; is_failsafe = false }))
      × (r.parser.phase ≡ wait_start)
decode-encode p cs old e v n w = (
  ap (λ r. r.complete) run,
  ap (λ r. r.out) run ∙ ap (λ ch. some (record { channels = ch; is_failsafe = false })) read,
  ap (λ r. r.parser.phase) run,
)
  where
    pl : List ℕ
    pl = channel_bytes cs

    n' : length pl ≡ 28
    n' = omega (arith, length-channel_bytes cs)

    q : Parser
    q = after (header p) pl

    ck : q.checksum ≡ frame_checksum pl
    ck = checksum-body p pl n' (channel_bytes-All cs w)

    run : feed (pending p (some old)) (encode cs) ≡ packet q (some old)
    run =
        feed-body p pl ((frame_checksum pl % 256) ∷ (frame_checksum pl / 256) ∷ []) (some old) e n'
        ∙ feed-trailer q (frame_checksum pl % 256) (frame_checksum pl / 256) (some old)
            (ground (arith, n')) (omega (arith, ck)) (omega (arith, ck))

    buf : List ℕ
    buf = set (set p.buffer 0 0x20) 1 0x40

    read : read_channels q.buffer max_channels 0 ≡ cs
    read =
        ap (λ k. read_channels q.buffer k 0) (sym n)
        ∙ read_channels-Holds cs q.buffer 0 2 refl w (
            Holds-write_at cs buf 2
              (omega (arith, length-set p.buffer 0 0x20, length-set (set p.buffer 0 0x20) 1 0x40)))
