-- ===== src/Ie/Basic.antt =====
-- upf/pfcp.c, the generic IEs: octets, words, vectors, time stamps and timers, with the IEs that
-- are a few bits or fixed words (gate status, bit rate).
pub mod RoundTrip
use upg_vpp_tr.Base.{
  ℕ, ◌+◌, ◌-◌, ◌*◌, ◌/◌, ◌%◌, ◌^◌, bit_and, bit_or, has, ltb, ◌==◌, if◌then◌else◌, List, [], ◌∷◌,
  ◌++◌,
}
use upg_vpp_tr.Wire.Defs.{
  Outcome, Decoder, Cause, request_rejected, invalid_length, ◌>>=◌, ◌>>◌, pure, fail, need, run,
  get_length, get_u8, get_u16, get_u32, get_u40, get_masked, get_u16_little, get_vec, put_u8,
  put_u16, put_u32, put_u40, put_u16_little,
}

unfoldable pub u8_ie : Decoder ℕ
u8_ie = do need 1; get_u8

unfoldable pub decode_u8_ie : List ℕ → ℕ → Outcome ℕ
decode_u8_ie = run u8_ie

unfoldable pub encode_u8_ie : ℕ → List ℕ
encode_u8_ie v = put_u8 v

unfoldable pub u16_ie : Decoder ℕ
u16_ie = do need 2; get_u16

unfoldable pub decode_u16_ie : List ℕ → ℕ → Outcome ℕ
decode_u16_ie = run u16_ie

unfoldable pub encode_u16_ie : ℕ → List ℕ
encode_u16_ie v = put_u16 v

unfoldable pub u16_little_ie : Decoder ℕ
u16_little_ie = do need 2; get_u16_little

unfoldable pub decode_u16_little_ie : List ℕ → ℕ → Outcome ℕ
decode_u16_little_ie = run u16_little_ie

unfoldable pub encode_u16_little_ie : ℕ → List ℕ
encode_u16_little_ie v = put_u16_little v

unfoldable pub u32_ie : Decoder ℕ
u32_ie = do need 4; get_u32

unfoldable pub decode_u32_ie : List ℕ → ℕ → Outcome ℕ
decode_u32_ie = run u32_ie

unfoldable pub encode_u32_ie : ℕ → List ℕ
encode_u32_ie v = put_u32 v

unfoldable pub simple_vec_ie : Decoder (List ℕ)
simple_vec_ie = do len ← get_length; get_vec len

unfoldable pub decode_simple_vec_ie : List ℕ → ℕ → Outcome (List ℕ)
decode_simple_vec_ie = run simple_vec_ie

unfoldable pub encode_simple_vec_ie : List ℕ → List ℕ
encode_simple_vec_ie v = v

-- The conversion between NTP seconds on the wire and Unix seconds, as u32 arithmetic.
unfoldable pub from_ntp : ℕ → ℕ
from_ntp v =
    if has v 0x80000000 then (v + 2 ^ 32 - 2208988800) % 2 ^ 32 else (v + 2085978496) % 2 ^ 32

unfoldable pub to_ntp : ℕ → ℕ
to_ntp v = if ltb v 2085978496 then (v + 2208988800) % 2 ^ 32 else v - 2085978496

unfoldable pub time_stamp_ie : Decoder ℕ
unfolding from_ntp
time_stamp_ie = do
  len ← get_length
  if len == 4 then get_u32 >>= (λ v. pure (from_ntp v)) else fail invalid_length

unfoldable pub decode_time_stamp_ie : List ℕ → ℕ → Outcome ℕ
decode_time_stamp_ie = run time_stamp_ie

unfoldable pub encode_time_stamp_ie : ℕ → List ℕ
encode_time_stamp_ie v = put_u32 (to_ntp v)

pub record Timer : Type 0 where
  pub unit : ℕ
  pub value : ℕ

unfoldable pub timer_ie : Decoder Timer
timer_ie = do need 1; t ← get_u8; pure (record { unit = t / 2 ^ 4; value = bit_and t 0x0f })

unfoldable pub decode_timer_ie : List ℕ → ℕ → Outcome Timer
decode_timer_ie = run timer_ie

unfoldable pub encode_timer_ie : Timer → List ℕ
encode_timer_ie v = put_u8 (bit_or (bit_and v.unit 0x0f * 2 ^ 4) (bit_and v.value 0x0f))

unfoldable pub source_interface : Decoder ℕ
source_interface = do need 1; v ← get_masked 0x0f; if ltb v 4 then pure v else fail request_rejected

unfoldable pub decode_source_interface : List ℕ → ℕ → Outcome ℕ
decode_source_interface = run source_interface

unfoldable pub encode_source_interface : ℕ → List ℕ
encode_source_interface v = put_u8 (bit_and v 0x0f)

abbrev pub dst_intf_num : ℕ
dst_intf_num = 6

unfoldable pub destination_interface : Decoder ℕ
destination_interface = do
  need 1
  v ← get_masked 0x0f
  if ltb v dst_intf_num then pure v else fail request_rejected

unfoldable pub decode_destination_interface : List ℕ → ℕ → Outcome ℕ
decode_destination_interface = run destination_interface

unfoldable pub encode_destination_interface : ℕ → List ℕ
encode_destination_interface v = put_u8 v

pub record GateStatus : Type 0 where
  pub ul : ℕ
  pub dl : ℕ

unfoldable pub gate_status : Decoder GateStatus
gate_status = do
  need 1
  status ← get_u8
  pure (record {
    ul = if has (status / 2 ^ 2) 0x03 then 1 else 0;
    dl = if has status 0x03 then 1 else 0;
  })

unfoldable pub decode_gate_status : List ℕ → ℕ → Outcome GateStatus
decode_gate_status = run gate_status

unfoldable pub encode_gate_status : GateStatus → List ℕ
encode_gate_status v = put_u8 (bit_or (bit_and v.dl 0x03) (bit_and v.ul 0x03 * 2 ^ 2))

pub record BitRate : Type 0 where
  pub ul : ℕ
  pub dl : ℕ

unfoldable pub bit_rate : Decoder BitRate
bit_rate = do need 10; ul ← get_u40; dl ← get_u40; pure (record { ul = ul; dl = dl })

unfoldable pub decode_bit_rate : List ℕ → ℕ → Outcome BitRate
decode_bit_rate = run bit_rate

unfoldable pub encode_bit_rate : BitRate → List ℕ
encode_bit_rate v = put_u40 v.ul ++ put_u40 v.dl

-- The packet count takes one octet below 256 and two from there on.
unfoldable pub dl_buffering_suggested_packet_count : Decoder ℕ
dl_buffering_suggested_packet_count = do
  len ← get_length
  if len == 1 then get_u8 else if len == 2 then get_u16 else fail invalid_length

unfoldable pub decode_dl_buffering_suggested_packet_count : List ℕ → ℕ → Outcome ℕ
decode_dl_buffering_suggested_packet_count = run dl_buffering_suggested_packet_count

unfoldable pub encode_dl_buffering_suggested_packet_count : ℕ → List ℕ
encode_dl_buffering_suggested_packet_count v = if ltb v 256 then put_u8 v else put_u16 v
