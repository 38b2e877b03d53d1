-- ===== src/Ie/FSeid.antt =====
-- The F-SEID IE: `pfcp_f_seid_t`, `decode_f_seid` and `encode_f_seid` of upf/pfcp.c.
use upg_vpp_tr.Base.{
  ℕ, ◌+◌, ◌%◌, ◌^◌, ◌<◌, ◌≡◌, arith, true, false, bit_and, has, ◌==◌, List, [], ◌++◌, length,
  length-append, length-option, if◌then◌else◌,
}
use upg_vpp_tr.Wire.Defs.{
  Outcome, ok, fault, failure, Decoder, ◌>>=◌, ◌>>◌, pure, fail, need, checked, when, run, get_u64,
  get_ip4, get_ip6, get_masked, put_u8, put_u64, primitives, octets,
}
use upg_vpp_tr.Wire.Reads.{Reads-vec, Reads-when, Gets-be, Gets-masked, Gets-vec_of, length-octets}
use upg_vpp_tr.Wire.Steps.{
  Steps-bind, Steps-silent, Steps-end, Steps-Gets, Steps-Reads, Steps-when, Steps-else, Steps-need,
  run-Steps,
}
use upg_vpp_tr.Wire.Masks.{mask_three}
use native.Mathlib.Nat.{zero-add}

pub record FSeid : Type 0 where
  pub flags : ℕ
  pub seid : ℕ
  pub ip4 : List ℕ
  pub ip6 : List ℕ

abbrev pub f_seid_v4 : ℕ
f_seid_v4 = 2 ^ 1

abbrev pub f_seid_v6 : ℕ
f_seid_v6 = 2 ^ 0

-- `length` is not reduced for the flags and the SEID.
unfoldable pub f_seid : FSeid → Decoder FSeid
f_seid v = do
  need 9
  flags ← get_masked 0x03
  if flags == 0 then fail failure else (do
    seid ← get_u64
    ip4 ← when (has flags f_seid_v4) v.ip4 (checked 4 get_ip4)
    ip6 ← when (has flags f_seid_v6) v.ip6 (need 16 >> get_ip6)
    pure (record { flags = flags; seid = seid; ip4 = ip4; ip6 = ip6 }))

unfoldable pub decode_f_seid : FSeid → List ℕ → ℕ → Outcome FSeid
decode_f_seid v = run (f_seid v)

unfoldable pub encode_f_seid : FSeid → List ℕ
encode_f_seid v =
    put_u8 v.flags
    ++ (put_u64 v.seid
        ++ ((if has v.flags f_seid_v4 then v.ip4 else [])
            ++ (if has v.flags f_seid_v6 then v.ip6 else [])))

pub record IsFSeid (v : FSeid) : Type 0 where
  pub flags_ok : v.flags < 4
  pub some_flag : (v.flags == 0) ≡ false
  pub seid_ok : v.seid < 2 ^ 64
  pub ip4_ok : length v.ip4 ≡ 4
  pub ip6_ok : length v.ip6 ≡ 16

-- Addresses without their flag keep what the structure held.
abbrev pub f_seid_received : FSeid → FSeid → FSeid
f_seid_received v old = record {
  flags = v.flags;
  seid = v.seid;
  ip4 = if has v.flags f_seid_v4 then v.ip4 else old.ip4;
  ip6 = if has v.flags f_seid_v6 then v.ip6 else old.ip6;
}

abbrev v4_part : FSeid → List ℕ
v4_part v = if has v.flags f_seid_v4 then v.ip4 else []

abbrev v6_part : FSeid → List ℕ
v6_part v = if has v.flags f_seid_v6 then v.ip6 else []

f_seid_size : (v : FSeid) → length (encode_f_seid v) ≡ length (v4_part v) + (length (v6_part v) + 9)
unfolding encode_f_seid
f_seid_size v = omega (
  arith,
  length-append (put_u8 v.flags) (put_u64 v.seid ++ (v4_part v ++ v6_part v)),
  length-append (put_u64 v.seid) (v4_part v ++ v6_part v),
  length-append (v4_part v) (v6_part v),
  length-octets 1 v.flags,
  length-octets 8 v.seid,
)

-- An F-SEID with a flag set and fields that fit (`IsFSeid`) that `encode_f_seid` wrote is read
-- back, whatever lies behind the IE; an address whose flag is not set keeps what the structure
-- held.
pub decode-encode_f_seid :
    (v old : FSeid) (rest : List ℕ)
    → IsFSeid v
    → decode_f_seid old (encode_f_seid v ++ rest) (length (encode_f_seid v))
      ≡ ok (f_seid_received v old)
unfolding decode_f_seid f_seid encode_f_seid
decode-encode_f_seid v old rest w = rw (f_seid_size v) (
    run-Steps rest (
      Steps-silent _ (Steps-need 9 _ (omega arith)) (
        Steps-bind _
          (Steps-Gets _ (Gets-masked 0x03 v.flags (omega arith) (mask_three _ w.flags_ok)))
          (Steps-else (v.flags == 0) _ w.some_flag (
            Steps-bind _ (Steps-Gets _ (Gets-be 8 v.seid w.seid_ok)) (
              Steps-bind _
                (Steps-Reads (length (v6_part v) + 9)
                  (Reads-when (has v.flags f_seid_v4) old.ip4 (Reads-vec 4 v.ip4 w.ip4_ok))
                  (omega (
                    arith,
                    length-option (has v.flags f_seid_v4) v.ip4,
                    length-option (has v.flags f_seid_v6) v.ip6,
                  )))
                (Steps-end _ (
                  Steps-when (has v.flags f_seid_v6) old.ip6 λ e.
                    Steps-silent _ (Steps-need 16 _ (rw e (omega arith)))
                      (Steps-Gets _ (Gets-vec_of 16 v.ip6 w.ip6_ok))))))))))

-- `decode_f_seid` on the nine octets of an IE with the V4 flag and no address, with no memory
-- behind them, passes its length tests and reads past the end.
pub decode_f_seid_over_read :
    (old : FSeid) (flags seid : ℕ)
    → has (bit_and (flags % 256) 0x03) f_seid_v4 ≡ true
    → (bit_and (flags % 256) 0x03 == 0) ≡ false
    → decode_f_seid old (put_u8 flags ++ put_u64 seid) 9 ≡ fault
unfolding decode_f_seid f_seid primitives octets
decode_f_seid_over_read old flags seid h k = rw (zero-add, k, h)
