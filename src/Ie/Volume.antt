-- ===== src/Ie/Volume.antt =====
-- The volume IEs: `pfcp_volume_ie_t` and `pfcp_volume_measurement_t` of upf/pfcp.c.
use upg_vpp_tr.Base.{
  ℕ, ◌+◌, ◌*◌, ◌/◌, ◌%◌, ◌^◌, ◌<◌, ◌≤◌, ◌≡◌, ◌≢◌, refl, bit_and, bit_or, has, List, ◌++◌, [],
  length, if◌then◌else◌, arith,
}
use upg_vpp_tr.Wire.Defs.{
  Outcome, ok, fault, Decoder, ◌>>=◌, ◌>>◌, pure, need, when, run, get_u64, get_masked, put_u8,
  put_u64,
}
pub mod Laws

abbrev pub tovol : ℕ
tovol = 2 ^ 0

abbrev pub ulvol : ℕ
ulvol = 2 ^ 1

abbrev pub dlvol : ℕ
dlvol = 2 ^ 2

abbrev pub tonop : ℕ
tonop = 2 ^ 3

abbrev pub ulnop : ℕ
ulnop = 2 ^ 4

abbrev pub dlnop : ℕ
dlnop = 2 ^ 5

-- `PFCP_VOLUME_VOLUME`
abbrev pub volume_mask : ℕ
volume_mask = bit_or (bit_or tovol ulvol) dlvol

-- `__builtin_popcount` on an octet.
unfoldable pub popcount : ℕ → ℕ
popcount x =
    x % 2 + x / 2 % 2 + x / 4 % 2 + x / 8 % 2 + x / 16 % 2 + x / 32 % 2 + x / 64 % 2 + x / 128 % 2

pub record Volume : Type 0 where
  pub fields : ℕ
  pub total : ℕ
  pub ul : ℕ
  pub dl : ℕ

unfoldable pub volume_ie : Volume → Decoder Volume
volume_ie v = do
  need 1
  fields ← get_masked volume_mask
  need (1 + popcount fields * 8)
  total ← when (has fields tovol) v.total get_u64
  ul ← when (has fields ulvol) v.ul get_u64
  dl ← when (has fields dlvol) v.dl get_u64
  pure (record { fields = fields; total = total; ul = ul; dl = dl })

unfoldable pub decode_volume_ie : Volume → List ℕ → ℕ → Outcome Volume
decode_volume_ie v = run (volume_ie v)

unfoldable pub encode_volume_ie : Volume → List ℕ
encode_volume_ie v =
    put_u8 v.fields
    ++ ((if has v.fields tovol then put_u64 v.total else [])
        ++ ((if has v.fields ulvol then put_u64 v.ul else [])
            ++ (if has v.fields dlvol then put_u64 v.dl else [])))

pub record Counters : Type 0 where
  pub total : ℕ
  pub ul : ℕ
  pub dl : ℕ

pub record VolumeMeasurement : Type 0 where
  pub fields : ℕ
  pub volume : Counters
  pub packets : Counters

unfoldable pub volume_measurement : VolumeMeasurement → Decoder VolumeMeasurement
volume_measurement v = do
  need 1
  fields ← get_masked 0x07
  need (1 + popcount fields * 8)
  total ← when (has fields tovol) v.volume.total get_u64
  ul ← when (has fields ulvol) v.volume.ul get_u64
  dl ← when (has fields dlvol) v.volume.dl get_u64
  packets_total ← when (has fields tonop) v.packets.total get_u64
  packets_ul ← when (has fields ulnop) v.packets.ul get_u64
  packets_dl ← when (has fields dlnop) v.packets.dl get_u64
  pure (record {
    fields = fields;
    volume = record { total = total; ul = ul; dl = dl };
    packets = record { total = packets_total; ul = packets_ul; dl = packets_dl };
  })

unfoldable pub decode_volume_measurement :
    VolumeMeasurement → List ℕ → ℕ → Outcome VolumeMeasurement
decode_volume_measurement v = run (volume_measurement v)

unfoldable pub encode_volume_measurement : VolumeMeasurement → List ℕ
encode_volume_measurement v =
    put_u8 v.fields
    ++ ((if has v.fields tovol then put_u64 v.volume.total else [])
        ++ ((if has v.fields ulvol then put_u64 v.volume.ul else [])
            ++ ((if has v.fields dlvol then put_u64 v.volume.dl else [])
                ++ ((if has v.fields tonop then put_u64 v.packets.total else [])
                    ++ ((if has v.fields ulnop then put_u64 v.packets.ul else [])
                        ++ (if has v.fields dlnop then put_u64 v.packets.dl else []))))))
