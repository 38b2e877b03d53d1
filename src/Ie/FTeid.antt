-- ===== src/Ie/FTeid.antt =====
-- The F-TEID IE: `pfcp_f_teid_t`, `decode_f_teid` and `encode_f_teid` of upf/pfcp.c.
use upg_vpp_tr.Base.{
  ℕ, ◌+◌, ◌^◌, ◌<◌, ◌≤◌, ◌≡◌, arith, true, false, not, ◌&&◌, bit_and, bit_or, has, List, [], ◌∷◌,
  ◌++◌, append-nil, length, length-append, length-option, if◌then◌else◌,
}
use upg_vpp_tr.Wire.Defs.{
  Outcome, ok, fault, failure, Decoder, ◌>>=◌, ◌>>◌, pure, fail, need, checked, when, run, get_u8,
  get_u32, get_ip4, get_ip6, get_masked, primitives, put_u8, put_u32,
}
use upg_vpp_tr.Wire.Reads.{
  Reads, Reads-bind, Reads-end, Reads-be, Reads-vec, Reads-when, Gets-masked, length-octets,
}
use upg_vpp_tr.Wire.Steps.{
  Steps-bind, Steps-silent, Steps-Gets, Steps-Reads, Steps-if, Steps-need, run-Steps,
}
use upg_vpp_tr.Wire.Masks.{mask_fifteen}
use native.Mathlib.Nat.{zero-add}

pub record FTeid : Type 0 where
  pub flags : ℕ
  pub teid : ℕ
  pub ip4 : List ℕ
  pub ip6 : List ℕ
  pub choose_id : ℕ

abbrev pub f_teid_v4 : ℕ
f_teid_v4 = 2 ^ 0

abbrev pub f_teid_v6 : ℕ
f_teid_v6 = 2 ^ 1

abbrev pub f_teid_ch : ℕ
f_teid_ch = 2 ^ 2

abbrev pub f_teid_chid : ℕ
f_teid_chid = 2 ^ 3

-- The branch without the CH flag: a TEID with its addresses.
unfoldable pub assigned_f_teid : FTeid → ℕ → Decoder FTeid
assigned_f_teid v flags = do
  teid ← checked 4 get_u32
  if has flags f_teid_chid
      then fail failure
      else if not (has flags (bit_or f_teid_v4 f_teid_v6))
      then fail failure
      else (do
        ip4 ← when (has flags f_teid_v4) v.ip4 (checked 4 get_ip4)
        ip6 ← when (has flags f_teid_v6) v.ip6 (checked 16 get_ip6)
        pure (record { flags = flags; teid = teid; ip4 = ip4; ip6 = ip6; choose_id = v.choose_id }))

-- The branch with the CH flag: the user plane is to choose.
unfoldable pub chosen_f_teid : FTeid → ℕ → Decoder FTeid
chosen_f_teid v flags = do
  need 1
  if not (has flags f_teid_v6) && not (has flags f_teid_v4)
      then fail failure
      else get_u8 >>= (λ id. pure (record v { flags = flags; choose_id = id }))

-- `length` is not reduced for the octet of flags.
unfoldable pub f_teid : FTeid → Decoder FTeid
unfolding assigned_f_teid chosen_f_teid
f_teid v = do
  need 1
  flags ← get_masked 0x0f
  if not (has flags f_teid_ch) then assigned_f_teid v flags else chosen_f_teid v flags

unfoldable pub decode_f_teid : FTeid → List ℕ → ℕ → Outcome FTeid
decode_f_teid v = run (f_teid v)

unfoldable pub encode_f_teid : FTeid → List ℕ
encode_f_teid v =
    put_u8 v.flags
    ++ (put_u32 v.teid
        ++ ((if has v.flags f_teid_v4 then v.ip4 else [])
            ++ ((if has v.flags f_teid_v6 then v.ip6 else [])
                ++ (if has v.flags f_teid_chid then put_u8 v.choose_id else []))))

-- What a control plane may send of a chosen tunnel: flags within the four bits, CH and CHID unset,
-- an address flag set, and fields that fit.
pub record IsAssigned (v : FTeid) : Type 0 where
  pub flags_ok : v.flags < 16
  pub no_ch : has v.flags f_teid_ch ≡ false
  pub no_chid : has v.flags f_teid_chid ≡ false
  pub some_address : has v.flags (bit_or f_teid_v4 f_teid_v6) ≡ true
  pub teid_ok : v.teid < 2 ^ 32
  pub ip4_ok : length v.ip4 ≡ 4
  pub ip6_ok : length v.ip6 ≡ 16

-- The structure after decoding: fields without their flag keep the value they had.
abbrev pub f_teid_received : FTeid → FTeid → FTeid
f_teid_received v old = record {
  flags = v.flags;
  teid = v.teid;
  ip4 = if has v.flags f_teid_v4 then v.ip4 else old.ip4;
  ip6 = if has v.flags f_teid_v6 then v.ip6 else old.ip6;
  choose_id = old.choose_id;
}

-- The octets behind the flags.
abbrev f_teid_body : FTeid → List ℕ
f_teid_body v =
    put_u32 v.teid
    ++ ((if has v.flags f_teid_v4 then v.ip4 else [])
        ++ (if has v.flags f_teid_v6 then v.ip6 else []))

assigned-Reads :
    (v old : FTeid)
    → IsAssigned v
    → Reads (assigned_f_teid old v.flags) (f_teid_body v) (f_teid_received v old)
unfolding assigned_f_teid
assigned-Reads v old w =
    rw (w.no_chid, w.some_address)
      (Reads-bind _ (Reads-be 4 v.teid w.teid_ok) (
        Reads-bind _ (Reads-when _ _ (Reads-vec 4 v.ip4 w.ip4_ok))
          (Reads-end _ (Reads-when _ _ (Reads-vec 16 v.ip6 w.ip6_ok)))))

encode-body : (v : FTeid) → IsAssigned v → encode_f_teid v ≡ put_u8 v.flags ++ f_teid_body v
unfolding encode_f_teid
encode-body v w = rw (w.no_chid, append-nil)

body_short : (v : FTeid) → IsAssigned v → length (f_teid_body v) ≤ 24
body_short v w =
    rw (length-append, length-append, length-octets)
      (omega (
        arith,
        length-option (has v.flags f_teid_v4) v.ip4,
        length-option (has v.flags f_teid_v6) v.ip6,
      ))

-- An F-TEID as `IsAssigned` asks (four bits of flags, an address flag, neither CH nor CHID,
-- fields that fit) that `encode_f_teid` wrote is read back, whatever lies behind the IE; the
-- fields whose flag is not set keep what the structure held.
pub decode-encode_f_teid :
    (v old : FTeid) (rest : List ℕ)
    → IsAssigned v
    → decode_f_teid old (encode_f_teid v ++ rest) (length (encode_f_teid v))
      ≡ ok (f_teid_received v old)
unfolding decode_f_teid f_teid
decode-encode_f_teid v old rest w =
    let size : length (put_u8 v.flags ++ f_teid_body v) ≡ length (f_teid_body v) + 1 =
      omega (arith, length-append (put_u8 v.flags) (f_teid_body v), length-octets 1 v.flags) in
    rw (encode-body v w, size)
      (run-Steps rest (
        Steps-silent _ (Steps-need 1 _ (omega arith)) (
          Steps-bind _
            (Steps-Gets _ (Gets-masked 0x0f v.flags (omega arith) (mask_fifteen _ w.flags_ok)))
            (Steps-if (not (has v.flags f_teid_ch)) _ (rw w.no_ch)
              (Steps-Reads 1 (assigned-Reads v old w) (omega (arith, body_short v w)))))))

-- `decode_f_teid` on the four octets of an IE without the CH flag, with no memory behind them,
-- passes its length test and reads past the end.
pub decode_f_teid_over_read :
    (old : FTeid) (flags a b c : ℕ)
    → has (bit_and flags 0x0f) f_teid_ch ≡ false
    → decode_f_teid old (flags ∷ a ∷ b ∷ c ∷ []) 4 ≡ fault
unfolding decode_f_teid f_teid primitives
decode_f_teid_over_read old flags a b c h = rw (zero-add, h)
