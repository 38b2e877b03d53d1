-- ===== src/Ie/Marking/Threshold.antt =====
-- The Dropped DL Traffic Threshold IE of upf/pfcp.c.
use upg_vpp_tr.Base.{
  ℕ, ◌+◌, ◌^◌, ◌<◌, ◌≤◌, ◌≡◌, refl, ap, arith, has, Bool, true, false, List, ◌++◌, [], append-nil,
  length, length-append, if◌then◌else◌, ◌||◌,
}
use upg_vpp_tr.Wire.Defs.{ok, put_u8, put_u64}
use upg_vpp_tr.Wire.Reads.{Gets-be, Reads-bind, Reads-end, Reads-be, Reads-when, length-octets}
use upg_vpp_tr.Wire.Safe.{Safe, Safe-taken, Safe-bind, safe, Exact-be}
use upg_vpp_tr.Wire.Steps.{Steps-bind, Steps-taken, Steps-rest, run-Steps}
use upg_vpp_tr.Ie.Marking.{
  DroppedDlTrafficThreshold, ddtt_dlpa, ddtt_dlby, dropped_dl_traffic_threshold,
  decode_dropped_dl_traffic_threshold, encode_dropped_dl_traffic_threshold,
}

-- Both parts that `encode_dropped_dl_traffic_threshold` writes are the packet count.
swap_parts :
    (b c : Bool) (xs : List ℕ)
    → (if b then xs else []) ++ (if c then xs else [])
      ≡ (if c then xs else []) ++ (if b then xs else [])
swap_parts true true xs = refl
swap_parts true false xs = append-nil xs
swap_parts false true xs = rw append-nil
swap_parts false false xs = refl

pub dropped_dl_traffic_threshold-Safe :
    (v : DroppedDlTrafficThreshold) → Safe (dropped_dl_traffic_threshold v)
unfolding dropped_dl_traffic_threshold
dropped_dl_traffic_threshold-Safe v =
    Safe-bind _ (Safe-taken 2 1 (omega arith) (Exact-be 1)) (λ flags. search safe depth 20)

-- The octets behind the flags, the packet count first.
abbrev parts : DroppedDlTrafficThreshold → List ℕ
parts v =
    (if has v.flags ddtt_dlpa then put_u64 v.downlink_packets else [])
    ++ (if has v.flags ddtt_dlby then put_u64 v.downlink_packets else [])

-- The volume that is read back is the packet count that was sent.
abbrev pub threshold_received :
    DroppedDlTrafficThreshold → DroppedDlTrafficThreshold → DroppedDlTrafficThreshold
threshold_received v old = record {
  flags = v.flags;
  downlink_packets = if has v.flags ddtt_dlpa then v.downlink_packets else old.downlink_packets;
  downlink_volume = if has v.flags ddtt_dlby then v.downlink_packets else old.downlink_volume;
}

encode-parts :
    (v : DroppedDlTrafficThreshold)
    → encode_dropped_dl_traffic_threshold v ≡ put_u8 v.flags ++ parts v
unfolding encode_dropped_dl_traffic_threshold
encode-parts v =
    ap (◌++◌ (put_u8 v.flags))
      (swap_parts (has v.flags ddtt_dlby) (has v.flags ddtt_dlpa) (put_u64 v.downlink_packets))

length-u64 : (b : Bool) (x : ℕ) → length (if b then put_u64 x else []) ≡ (if b then 8 else 0)
length-u64 true x = length-octets 8 x
length-u64 false x = refl

sizes :
    (v : DroppedDlTrafficThreshold)
    → (has v.flags ddtt_dlpa || has v.flags ddtt_dlby) ≡ true
    → (1 ≤ length (parts v)) × (length (parts v) ≤ 16)
sizes v some =
    rw (length-append, length-u64 (has v.flags ddtt_dlpa), length-u64 (has v.flags ddtt_dlby))
      (ground arith)

-- With either flag set, and flags and a packet count that fit, what
-- `encode_dropped_dl_traffic_threshold` wrote is read back with the packet count where its flag
-- is set, and with the packet count as the volume where that flag is set.
pub decode-encode_dropped_dl_traffic_threshold :
    (v old : DroppedDlTrafficThreshold) (rest : List ℕ)
    → v.flags < 2 ^ 8
    → v.downlink_packets < 2 ^ 64
    → (has v.flags ddtt_dlpa || has v.flags ddtt_dlby) ≡ true
    → let xs = encode_dropped_dl_traffic_threshold v in
      decode_dropped_dl_traffic_threshold old (xs ++ rest) (length xs)
      ≡ ok (threshold_received v old)
unfolding decode_dropped_dl_traffic_threshold dropped_dl_traffic_threshold
decode-encode_dropped_dl_traffic_threshold v old rest h k some =
    let size : length (put_u8 v.flags ++ parts v) ≡ length (parts v) + 1 =
      omega (arith, length-append (put_u8 v.flags) (parts v), length-octets 1 v.flags) in
    let (lo, hi) = sizes v some in
    rw (encode-parts v, size)
      (run-Steps rest (
        Steps-bind _
          (Steps-taken 2 1 _ (Gets-be 1 v.flags h) (omega arith) (omega arith) (omega arith))
          (Steps-rest _
            (Reads-bind _ (Reads-when (has v.flags ddtt_dlpa) old.downlink_packets (Reads-be 8 _ k))
              (Reads-end _
                (Reads-when (has v.flags ddtt_dlby) old.downlink_volume (Reads-be 8 _ k))))
            (omega arith) (omega arith))))
