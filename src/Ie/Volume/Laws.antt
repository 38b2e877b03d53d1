-- ===== src/Ie/Volume/Laws.antt =====
-- Volumes: `*_volume_ie` and `*_volume_measurement` of upf/pfcp.c.
use upg_vpp_tr.Base.{
  ℕ, ◌+◌, ◌*◌, ◌^◌, ◌<◌, ◌≤◌, ◌≡◌, refl, has, Bool, true, false, List, ◌++◌, [], length,
  length-append, if◌then◌else◌, arith, all_below, eq_below, has_clear,
}
use upg_vpp_tr.Wire.Defs.{ok, Decoder, ◌>>=◌, pure, when, get_u64, put_u64}
use upg_vpp_tr.Wire.Reads.{Gets-be, Gets-masked, Gets-when, length-octets}
use upg_vpp_tr.Wire.Safe.{Exact, Exact-masked, Exact-be, Exact-pure, Exact-bind}
use upg_vpp_tr.Wire.Guarded.{Guarded, Guarded-need-Yields, Guarded-last}
use upg_vpp_tr.Wire.Steps.{Steps-bind, Steps-silent, Steps-end, Steps-Gets, Steps-need, run-Steps}
use upg_vpp_tr.Wire.Masks.{mask_seven}
use upg_vpp_tr.Wire.Yields.{
  Yields, Yields-step, Yields-bind, Yields-masked, Yields-when_not, Yields-pure, run-Yields,
}
use upg_vpp_tr.Ie.Volume.{
  tovol, ulvol, dlvol, tonop, ulnop, dlnop, volume_mask, popcount, Volume, volume_ie,
  decode_volume_ie, encode_volume_ie, VolumeMeasurement, volume_measurement,
  decode_volume_measurement,
}

abbrev eight : Bool → ℕ
eight b = if b then 8 else 0

count_octets :
    (x : ℕ)
    → x < 8
    → popcount x * 8 ≡ eight (has x tovol) + (eight (has x ulvol) + eight (has x dlvol))
unfolding all_below popcount
count_octets = eq_below 8 _ _ refl

length-option_u64 : (b : Bool) (x : ℕ) → length (if b then put_u64 x else []) ≡ eight b
length-option_u64 true x = length-octets 8 x
length-option_u64 false x = refl

pub record IsVolume (v : Volume) : Type 0 where
  pub fields_ok : v.fields < 8
  pub total_ok : v.total < 2 ^ 64
  pub ul_ok : v.ul < 2 ^ 64
  pub dl_ok : v.dl < 2 ^ 64

-- Volumes without their flag keep what the structure held.
abbrev pub volume_received : Volume → Volume → Volume
volume_received v old = record {
  fields = v.fields;
  total = if has v.fields tovol then v.total else old.total;
  ul = if has v.fields ulvol then v.ul else old.ul;
  dl = if has v.fields dlvol then v.dl else old.dl;
}

volume_size : (v : Volume) → v.fields < 8 → length (encode_volume_ie v) ≡ 1 + popcount v.fields * 8
unfolding encode_volume_ie
volume_size v h =
    rw
      (
        length-append, length-append, length-append, length-octets, length-option_u64,
        length-option_u64, length-option_u64,
      )
      (omega (arith, count_octets v.fields h))

-- A volume IE with three bits of flags and volumes that fit (`IsVolume`) that `encode_volume_ie`
-- wrote is read back, whatever lies behind it; a volume whose flag is not set keeps what the
-- structure held.
pub decode-encode_volume_ie :
    (v old : Volume) (rest : List ℕ)
    → IsVolume v
    → decode_volume_ie old (encode_volume_ie v ++ rest) (length (encode_volume_ie v))
      ≡ ok (volume_received v old)
unfolding decode_volume_ie volume_ie
decode-encode_volume_ie v old rest w = rw (volume_size v w.fields_ok) (
    unfold encode_volume_ie in
    (run-Steps rest (
      Steps-silent _ (Steps-need 1 _ (omega arith)) (
        Steps-bind _
          (Steps-Gets _ (Gets-masked volume_mask v.fields (omega arith) (mask_seven _ w.fields_ok)))
          (Steps-silent _ (Steps-need _ _ (omega arith)) (
            Steps-bind _
              (Steps-Gets _ (Gets-when (has v.fields tovol) old.total (Gets-be 8 _ w.total_ok)))
              (Steps-bind _
                (Steps-Gets _ (Gets-when (has v.fields ulvol) old.ul (Gets-be 8 _ w.ul_ok)))
                (Steps-end _ (
                  Steps-Gets _
                    (Gets-when (has v.fields dlvol) old.dl (Gets-be 8 _ w.dl_ok)))))))))))

record IsSilent (x : ℕ) : Type 0 where
  no_total : has x tonop ≡ false
  no_ul : has x ulnop ≡ false
  no_dl : has x dlnop ≡ false

silent : (x : ℕ) → x ≤ 7 → IsSilent x
unfolding all_below
silent x h = record {
  no_total = has_clear 8 tonop refl x (omega arith);
  no_ul = has_clear 8 ulnop refl x (omega arith);
  no_dl = has_clear 8 dlnop refl x (omega arith);
}

KeepsPackets : VolumeMeasurement → VolumeMeasurement → Type 0
KeepsPackets old v = v.packets ≡ old.packets

measurement-Yields : (old : VolumeMeasurement) → Yields (KeepsPackets old) (volume_measurement old)
unfolding volume_measurement KeepsPackets
measurement-Yields old = Yields-step _ _ _ λ _.
    Yields-bind (λ x. x ≤ 7) _ _ (Yields-masked 0x07)
      λ fields small.
        let s = silent fields small in
        Yields-step _ _ _ λ _. Yields-step _ _ _ λ total. Yields-step _ _ _ λ ul.
          Yields-step _ _ _ λ dl.
            Yields-bind (λ x. x ≡ old.packets.total) _ _ (Yields-when_not _ _ _ s.no_total refl)
              λ pt et.
                Yields-bind (λ x. x ≡ old.packets.ul) _ _ (Yields-when_not _ _ _ s.no_ul refl)
                  λ pu eu.
                    Yields-bind (λ x. x ≡ old.packets.dl) _ _ (Yields-when_not _ _ _ s.no_dl refl)
                      λ pd ed. Yields-pure _ (λ i. record { total = et i; ul = eu i; dl = ed i })

-- Packet counts are never decoded: whenever `decode_volume_measurement` succeeds, on any octets,
-- the packet counts are what the structure held.
pub decode_volume_measurement-packets :
    (old v : VolumeMeasurement) (bytes : List ℕ) (l : ℕ)
    → decode_volume_measurement old bytes l ≡ ok v
    → v.packets ≡ old.packets
unfolding decode_volume_measurement KeepsPackets
decode_volume_measurement-packets old v bytes l e =
    run-Yields (KeepsPackets old) bytes l (measurement-Yields old) e

flagged-Exact : (b : Bool) (old : ℕ) → Exact (eight b) (when b old get_u64)
unfolding when
flagged-Exact true old = Exact-be 8
flagged-Exact false old = Exact-pure old

abbrev volume_body : Volume → ℕ → Decoder Volume
volume_body v fields = do
  total ← when (has fields tovol) v.total get_u64
  ul ← when (has fields ulvol) v.ul get_u64
  dl ← when (has fields dlvol) v.dl get_u64
  pure (record { fields = fields; total = total; ul = ul; dl = dl })

volume_body-Exact : (v : Volume) (x : ℕ) → x ≤ 7 → Exact (popcount x * 8) (volume_body v x)
volume_body-Exact v x h =
    Exact-bind _ (flagged-Exact (has x tovol) v.total)
      (λ total.
        Exact-bind _ (flagged-Exact (has x ulvol) v.ul)
          (λ ul. Exact-bind _ (flagged-Exact (has x dlvol) v.dl) (λ dl. Exact-pure _) refl) refl)
      (omega (arith, count_octets x (omega arith)))

pub volume_ie-Guarded : (v : Volume) → Guarded 0 (volume_ie v)
unfolding volume_ie
volume_ie-Guarded v =
    Guarded-need-Yields (λ x. x ≤ 7) 1 1 0 _ (omega arith) (Exact-masked 0x07) (Yields-masked 0x07)
      λ x h.
        Guarded-last (1 + popcount x * 8) (popcount x * 8) 1 (omega arith) (volume_body-Exact v x h)

abbrev measurement_body : VolumeMeasurement → ℕ → Decoder VolumeMeasurement
measurement_body v fields = do
  total ← when (has fields tovol) v.volume.total get_u64
  ul ← when (has fields ulvol) v.volume.ul get_u64
  dl ← when (has fields dlvol) v.volume.dl get_u64
  packets_total ← when (has fields tonop) v.packets.total get_u64
  packets_ul ← when (has fields ulnop) v.packets.ul get_u64
  packets_dl ← when (has fields dlnop) v.packets.dl get_u64
  pure (record {
    fields = fields;
    volume = record { total = total; ul = ul; dl = dl };
    packets = record { total = packets_total; ul = packets_ul; dl = packets_dl };
  })

skipped-Exact : (b : Bool) (old : ℕ) → b ≡ false → Exact 0 (when b old get_u64)
unfolding when
skipped-Exact b old e = rw e (Exact-pure old)

measurement_body-Exact :
    (v : VolumeMeasurement) (x : ℕ) → x ≤ 7 → Exact (popcount x * 8) (measurement_body v x)
measurement_body-Exact v x h =
    let s = silent x h in
    Exact-bind _ (flagged-Exact (has x tovol) _)
      (λ _.
        Exact-bind _ (flagged-Exact (has x ulvol) _)
          (λ _.
            Exact-bind _ (flagged-Exact (has x dlvol) _)
              (λ _.
                Exact-bind _ (skipped-Exact _ _ s.no_total)
                  (λ _.
                    Exact-bind _ (skipped-Exact _ _ s.no_ul)
                      (λ _. Exact-bind _ (skipped-Exact _ _ s.no_dl) (λ _. Exact-pure _) refl) refl)
                  refl)
              refl)
          refl)
      (omega (arith, count_octets x (omega arith)))

pub volume_measurement-Guarded : (v : VolumeMeasurement) → Guarded 0 (volume_measurement v)
unfolding volume_measurement
volume_measurement-Guarded v =
    Guarded-need-Yields (λ x. x ≤ 7) 1 1 0 _ (omega arith) (Exact-masked 0x07) (Yields-masked 0x07)
      λ x h.
        Guarded-last (1 + popcount x * 8) (popcount x * 8) 1 (omega arith)
          (measurement_body-Exact v x h)
