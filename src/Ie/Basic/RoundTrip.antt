-- ===== src/Ie/Basic/RoundTrip.antt =====
-- The generic IEs of upf/pfcp.c.
use upg_vpp_tr.Base.{
  ℕ, ◌+◌, ◌*◌, ◌/◌, ◌%◌, ◌^◌, ◌<◌, ◌≤◌, ◌≡◌, refl, ap, ◌∙◌, arith, bit_and, bit_or, has, ltb, ◌==◌,
  if◌then◌else◌, List, ◌++◌, all_below, eq_below, Bool-cases, inl, inr,
}
use upg_vpp_tr.Wire.Defs.{ok}
use upg_vpp_tr.Wire.Reads.{Gets-be, Gets-le}
use upg_vpp_tr.Wire.Steps.{
  Steps-bind, Steps-silent, Steps-Gets, Steps-need, Steps-length, Steps-end, run-Steps,
}
use upg_vpp_tr.Ie.Basic.{
  decode_u8_ie, encode_u8_ie, decode_u16_ie, encode_u16_ie, decode_u16_little_ie,
  encode_u16_little_ie, decode_u32_ie, encode_u32_ie, u8_ie, u16_ie, u32_ie, u16_little_ie,
  from_ntp, to_ntp, time_stamp_ie, decode_time_stamp_ie, encode_time_stamp_ie, Timer, timer_ie,
  decode_timer_ie, encode_timer_ie, GateStatus, gate_status, decode_gate_status, encode_gate_status,
  BitRate, bit_rate, decode_bit_rate, encode_bit_rate,
}

pub decode-encode_u8_ie :
    (v p : ℕ) (rest : List ℕ) → v < 2 ^ 8 → 1 ≤ p → decode_u8_ie (encode_u8_ie v ++ rest) p ≡ ok v
unfolding decode_u8_ie encode_u8_ie u8_ie
decode-encode_u8_ie v p rest h k =
    run-Steps rest (Steps-silent _ (Steps-need 1 p k) (Steps-Gets p (Gets-be 1 v h)))

from_ntp-to_ntp : (v : ℕ) → v < 2 ^ 32 → from_ntp (to_ntp v) ≡ v
unfolding from_ntp to_ntp
from_ntp-to_ntp v h = elim (Bool-cases (ltb v 2085978496)) [
  | inl old ↦ rw old (ground arith)
  | inr new ↦ rw new (ground arith)
]

to_ntp-lt : (v : ℕ) → v < 2 ^ 32 → to_ntp v < 2 ^ 32
unfolding to_ntp
to_ntp-lt v h = ground arith

-- Every u32 time survives the conversion to NTP seconds and back, at the declared length of four
-- octets, whatever lies behind the IE.
pub decode-encode_time_stamp_ie :
    (v : ℕ) (rest : List ℕ)
    → v < 2 ^ 32
    → decode_time_stamp_ie (encode_time_stamp_ie v ++ rest) 4 ≡ ok v
unfolding decode_time_stamp_ie encode_time_stamp_ie time_stamp_ie
decode-encode_time_stamp_ie v rest h = run-Steps rest (
    Steps-silent _ (Steps-length 4) (
      rw (from_ntp-to_ntp v h) at
        (Steps-end from_ntp (Steps-Gets 4 (Gets-be 4 (to_ntp v) (to_ntp-lt v h))))))

-- The words: `decode_u16_ie`, `decode_u16_little_ie` and `decode_u32_ie` read back what the encode
-- functions wrote of numbers that fit, at any declared length of at least four octets.
pub decode-encode_words :
    (v w p : ℕ) (rest : List ℕ)
    → v < 2 ^ 16
    → w < 2 ^ 32
    → 4 ≤ p
    → (decode_u16_ie (encode_u16_ie v ++ rest) p ≡ ok v)
      × (decode_u16_little_ie (encode_u16_little_ie v ++ rest) p ≡ ok v)
      × (decode_u32_ie (encode_u32_ie w ++ rest) p ≡ ok w)
unfolding decode_u16_ie encode_u16_ie u16_ie decode_u16_little_ie encode_u16_little_ie u16_little_ie
    decode_u32_ie encode_u32_ie u32_ie
decode-encode_words v w p rest h n k = (
  run-Steps rest (Steps-silent _ (Steps-need 2 p (omega arith)) (Steps-Gets p (Gets-be 2 v h))),
  run-Steps rest (Steps-silent _ (Steps-need 2 p (omega arith)) (Steps-Gets p (Gets-le v h))),
  run-Steps rest (Steps-silent _ (Steps-need 4 p k) (Steps-Gets p (Gets-be 4 w n))),
)

nibbles : (x : ℕ) → x < 256 → bit_or (bit_and (x / 16) 0x0f * 16) (bit_and (x % 16) 0x0f) ≡ x
unfolding all_below
nibbles = eq_below 256 _ (λ x. x) refl

low_nibble : (x : ℕ) → x < 256 → bit_and x 0x0f ≡ x % 16
unfolding all_below
low_nibble = eq_below 256 _ (λ x. x % 16) refl

pack_nibbles :
    (u w : ℕ) → u < 16 → w < 16 → bit_or (bit_and u 0x0f * 16) (bit_and w 0x0f) ≡ u * 16 + w
pack_nibbles u w h k =
    let hi : (u * 16 + w) / 16 ≡ u = omega arith in
    let lo : (u * 16 + w) % 16 ≡ w = omega arith in
    rw (hi, lo) at (nibbles (u * 16 + w) (omega arith))

timer_of : ℕ → Timer
timer_of t = record { unit = t / 16; value = bit_and t 0x0f }

timer_of-pack : (v : Timer) → v.unit < 16 → v.value < 16 → timer_of (v.unit * 16 + v.value) ≡ v
unfolding timer_of
timer_of-pack v h k = ground (arith, low_nibble (v.unit * 16 + v.value))

-- A timer whose parts fit their half octets is read back.
pub decode-encode_timer_ie :
    (v : Timer) (p : ℕ) (rest : List ℕ)
    → v.unit < 16
    → v.value < 16
    → 1 ≤ p
    → decode_timer_ie (encode_timer_ie v ++ rest) p ≡ ok v
unfolding decode_timer_ie encode_timer_ie timer_ie timer_of
decode-encode_timer_ie v p rest h k n =
    let packed = v.unit * 16 + v.value in
    rw (pack_nibbles v.unit v.value h k) (
      run-Steps rest (
        Steps-silent _ (Steps-need 1 p n) (
          rw (timer_of-pack v h k) at
            (Steps-end timer_of (Steps-Gets p (Gets-be 1 packed (omega arith)))))))

-- A gate value of 2 or 3 is taken for 1.
abbrev pub gate : ℕ → ℕ
gate x = if x == 0 then 0 else 1

gate_dl : (x : ℕ) → x < 16 → (if has x 0x03 then 1 else 0) ≡ gate (x % 4)
unfolding all_below
gate_dl = eq_below 16 _ (λ x. gate (x % 4)) refl

gate_ul : (x : ℕ) → x < 16 → (if has (x / 2 ^ 2) 0x03 then 1 else 0) ≡ gate (x / 4)
unfolding all_below
gate_ul = eq_below 16 _ (λ x. gate (x / 4)) refl

gate_octet : (x : ℕ) → x < 16 → bit_or (bit_and (x % 4) 0x03) (bit_and (x / 4) 0x03 * 2 ^ 2) ≡ x
unfolding all_below
gate_octet = eq_below 16 _ (λ x. x) refl

gates_of : ℕ → GateStatus
gates_of t = record { ul = if has (t / 2 ^ 2) 0x03 then 1 else 0; dl = if has t 0x03 then 1 else 0 }

gates_of-pack :
    (v : GateStatus)
    → v.ul < 4
    → v.dl < 4
    → gates_of (v.ul * 4 + v.dl) ≡ record { ul = gate v.ul; dl = gate v.dl }
unfolding gates_of
gates_of-pack v h k =
    let packed = v.ul * 4 + v.dl in
    let hi : packed / 4 ≡ v.ul = omega arith in
    let lo : packed % 4 ≡ v.dl = omega arith in
    let ul : (if has (packed / 2 ^ 2) 0x03 then 1 else 0) ≡ gate v.ul =
      gate_ul packed (omega arith) ∙ ap gate hi in
    let dl : (if has packed 0x03 then 1 else 0) ≡ gate v.dl =
      gate_dl packed (omega arith) ∙ ap gate lo in
    λ i. record { ul = ul i; dl = dl i }

-- A gate status of two bits for each gate, at any declared length but 0, is read back with every
-- value but 0 taken for 1.
pub decode-encode_gate_status :
    (v : GateStatus) (p : ℕ) (rest : List ℕ)
    → v.ul < 4
    → v.dl < 4
    → 1 ≤ p
    → decode_gate_status (encode_gate_status v ++ rest) p
      ≡ ok (record { ul = gate v.ul; dl = gate v.dl })
unfolding decode_gate_status encode_gate_status gate_status gates_of
decode-encode_gate_status v p rest h k n =
    let packed = v.ul * 4 + v.dl in
    let hi : packed / 4 ≡ v.ul = omega arith in
    let lo : packed % 4 ≡ v.dl = omega arith in
    let octet = rw (hi, lo) at (gate_octet packed (omega arith)) in
    rw octet (
      run-Steps rest (
        Steps-silent _ (Steps-need 1 p n) (
          rw (gates_of-pack v h k) at
            (Steps-end gates_of (Steps-Gets p (Gets-be 1 packed (omega arith)))))))

-- Both 40-bit rates are read back.
pub decode-encode_bit_rate :
    (v : BitRate) (p : ℕ) (rest : List ℕ)
    → v.ul < 2 ^ 40
    → v.dl < 2 ^ 40
    → 10 ≤ p
    → decode_bit_rate (encode_bit_rate v ++ rest) p ≡ ok v
unfolding decode_bit_rate encode_bit_rate bit_rate
decode-encode_bit_rate v p rest h k n = run-Steps rest (
    Steps-silent _ (Steps-need 10 p n) (
      Steps-bind _ (Steps-Gets p (Gets-be 5 v.ul h))
        (Steps-end (λ dl. record { ul = v.ul; dl = dl }) (Steps-Gets p (Gets-be 5 v.dl k)))))
