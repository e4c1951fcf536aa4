-- ===== src/Ibus/Tests.antt =====
-- Tests and instances for the iBus decoder.
use vayu.Common.{
  ℕ, ◌%◌, ◌/◌, ◌≡◌, refl, true, false, List, [], ◌∷◌, ◌++◌, some, none, ◌↔◌, replicate, arith,
}
use vayu.Ibus.{IbusData, Parser, wait_start, parse_byte, feed, pending}
use vayu.Ibus.Bounds.{IsValid}
use vayu.Ibus.Frame.{encode, frame_checksum}
use vayu.Ibus.Accept.{accept_iff, decode-encode}

abbrev fresh : Parser
fresh = record { phase = wait_start; buffer = replicate 32 0; idx = 0; checksum = 0xFFFF }

fresh-IsValid : IsValid fresh
fresh-IsValid = record {
  storage = refl;
  in_payload = λ h. ground arith;
  in_checksum = λ h. ground arith;
  word = omega arith;
}

abbrev blank : IbusData
blank = record { channels = []; is_failsafe = true }

abbrev sticks : List ℕ
sticks =
    1500 ∷ 1500 ∷ 1000 ∷ 1500 ∷ 2000 ∷ 1000 ∷ 1500 ∷ 1500 ∷ 1500 ∷ 1500 ∷ 1500 ∷ 1500 ∷ 1500 ∷ 4095
    ∷ []

-- A stray byte, then a packet, then half of one.
resynchronises :
    (feed (pending fresh (some blank)) (7 ∷ encode sticks ++ (0x20 ∷ 0x40 ∷ 1 ∷ []))).out
    ≡ some (record { channels = sticks; is_failsafe = false })
unfolding feed parse_byte
resynchronises = refl

accept_iff_example :
    let pl : List ℕ = replicate 28 5 in
    ((feed (pending fresh none) (0x20 ∷ 0x40 ∷ pl ++ (19 ∷ 255 ∷ []))).complete ≡ true) ↔ (
      (◌≡◌ {A = ℕ} 0x20 0x20)
      × (◌≡◌ {A = ℕ} 0x40 0x40)
      × (19 ≡ frame_checksum pl % 256)
      × (255 ≡ frame_checksum pl / 256))
accept_iff_example =
    accept_iff fresh 0x20 0x40 19 255 (replicate {A = ℕ} 28 5) none refl fresh-IsValid refl
      (omega arith)

decode-encode_example :
    let r = feed (pending fresh (some blank)) (encode sticks) in
    (r.complete ≡ true)
    × (r.out ≡ some (record { channels = sticks; is_failsafe = false }))
    × (r.parser.phase ≡ wait_start)
decode-encode_example = decode-encode fresh sticks blank refl fresh-IsValid refl (omega arith)
