-- ===== src/Ie/SdfFilter.antt =====
-- The SDF Filter IE: `pfcp_sdf_filter_t` and its functions in upf/pfcp.c.
use upg_vpp_tr.Base.{
  ℕ, ◌^◌, ◌<◌, ◌≤◌, ◌≡◌, refl, arith, bit_and, has, List, [], ◌∷◌, ◌++◌, length, if◌then◌else◌,
  false, has_clear, all_below,
}
use upg_vpp_tr.Wire.Defs.{
  Outcome, ok, Decoder, ◌>>=◌, ◌>>◌, pure, get_vec, checked, counted_vec, when, run, get_u8,
  get_u16, get_u24, get_u32, put_u8, put_u16, put_u24, put_u32, octets,
}
use upg_vpp_tr.Wire.Reads.{
  Reads, Reads-bind, Reads-checked, Reads-when, Gets-vec, Gets-be, Gets-bind, Gets-pure, Reads-be,
  Reads-counted, Reads-end,
}
use upg_vpp_tr.Wire.Safe.{Safe, Exact, Exact-be, Exact-bind, Exact-vec, Exact-pure, safe}
use upg_vpp_tr.Base.Bits.{bit_and-le}
use upg_vpp_tr.Wire.Masks.{mask_fifteen}
use upg_vpp_tr.Wire.Yields.{
  Yields, Yields-step, Yields-bind, Yields-checked, Yields-when_not, Yields-pure, run-Yields,
}

pub record SdfFilter : Type 0 where
  pub flags : ℕ
  pub flow : List ℕ
  pub tos_traffic_class : ℕ
  pub spi : ℕ
  pub flow_label : ℕ
  pub sdf_filter_id : ℕ

abbrev pub f_sdf_fd : ℕ
f_sdf_fd = 2 ^ 0

abbrev pub f_sdf_ttc : ℕ
f_sdf_ttc = 2 ^ 1

abbrev pub f_sdf_spi : ℕ
f_sdf_spi = 2 ^ 2

abbrev pub f_sdf_fl : ℕ
f_sdf_fl = 2 ^ 3

abbrev pub f_sdf_bid : ℕ
f_sdf_bid = 2 ^ 4

-- `v->flags = get_u8 (data) & 0x0f; data++;`
unfoldable pub flags_spare : Decoder ℕ
flags_spare = do flags ← get_u8; get_vec 1; pure (bit_and flags 0x0f)

unfoldable pub sdf_filter : SdfFilter → Decoder SdfFilter
sdf_filter v = do
  flags ← checked 2 flags_spare
  flow ← when (has flags f_sdf_fd) v.flow (counted_vec 2)
  tos ← when (has flags f_sdf_ttc) v.tos_traffic_class (checked 2 get_u16)
  spi ← when (has flags f_sdf_spi) v.spi (checked 4 get_u32)
  label ← when (has flags f_sdf_fl) v.flow_label (checked 3 get_u24)
  id ← when (has flags f_sdf_bid) v.sdf_filter_id (checked 4 get_u32)
  pure (record {
    flags = flags;
    flow = flow;
    tos_traffic_class = tos;
    spi = spi;
    flow_label = label;
    sdf_filter_id = id;
  })

unfoldable pub decode_sdf_filter : SdfFilter → List ℕ → ℕ → Outcome SdfFilter
decode_sdf_filter v = run (sdf_filter v)

unfoldable pub encode_sdf_filter : SdfFilter → List ℕ
encode_sdf_filter v =
    (put_u8 (bit_and v.flags 0x0f) ++ (put_u8 0 ++ []))
    ++ ((if has v.flags f_sdf_fd then put_u16 (length v.flow) ++ v.flow else [])
        ++ ((if has v.flags f_sdf_ttc then put_u16 v.tos_traffic_class else [])
            ++ ((if has v.flags f_sdf_spi then put_u32 v.spi else [])
                ++ ((if has v.flags f_sdf_fl then put_u24 v.flow_label else [])
                    ++ (if has v.flags f_sdf_bid then put_u32 v.sdf_filter_id else [])))))

flags_spare-Exact : Exact 2 flags_spare
unfolding flags_spare
flags_spare-Exact =
    Exact-bind _ (Exact-be 1) (λ b. Exact-bind _ (Exact-vec 1) (λ _. Exact-pure _) refl) refl

pub sdf_filter-Safe : (v : SdfFilter) → Safe (sdf_filter v)
unfolding sdf_filter
sdf_filter-Safe v = search (safe, flags_spare-Exact) depth 12

-- What the decoder leaves of a filter: a part without its flag keeps what the structure held.
abbrev pub sdf_received : SdfFilter → SdfFilter → SdfFilter
sdf_received v old = record {
  flags = v.flags;
  flow = if has v.flags f_sdf_fd then v.flow else old.flow;
  tos_traffic_class = if has v.flags f_sdf_ttc then v.tos_traffic_class else old.tos_traffic_class;
  spi = if has v.flags f_sdf_spi then v.spi else old.spi;
  flow_label = if has v.flags f_sdf_fl then v.flow_label else old.flow_label;
  sdf_filter_id = if has v.flags f_sdf_bid then v.sdf_filter_id else old.sdf_filter_id;
}

pub record IsSdfFilter (v : SdfFilter) : Type 0 where
  pub flags_ok : v.flags < 16
  pub flow_ok : length v.flow < 2 ^ 16
  pub tos_ok : v.tos_traffic_class < 2 ^ 16
  pub spi_ok : v.spi < 2 ^ 32
  pub label_ok : v.flow_label < 2 ^ 24
  pub id_ok : v.sdf_filter_id < 2 ^ 32

flags_spare-Reads :
    (x : ℕ) → x < 16 → Reads (checked 2 flags_spare) (put_u8 (bit_and x 0x0f) ++ (put_u8 0 ++ [])) x
unfolding octets flags_spare
flags_spare-Reads x h = rw (mask_fifteen x h) (
    Reads-checked 2
      (Gets-bind _ (Gets-be 1 x (omega arith)) (
        Gets-bind (λ _. pure (bit_and x 0x0f)) (Gets-vec (0 ∷ []))
          (rw (mask_fifteen x h) (Gets-pure x))))
      refl)

pub sdf_filter-Reads :
    (v old : SdfFilter)
    → IsSdfFilter v
    → Reads (sdf_filter old) (encode_sdf_filter v) (sdf_received v old)
unfolding sdf_filter encode_sdf_filter
sdf_filter-Reads v old w = Reads-bind _ (flags_spare-Reads v.flags w.flags_ok) (
    Reads-bind _ (Reads-when _ _ (Reads-counted 2 _ w.flow_ok)) (
      Reads-bind _ (Reads-when _ _ (Reads-be 2 _ w.tos_ok)) (
        Reads-bind _ (Reads-when _ _ (Reads-be 4 _ w.spi_ok)) (
          Reads-bind _ (Reads-when _ _ (Reads-be 3 _ w.label_ok))
            (Reads-end _ (Reads-when _ _ (Reads-be 4 _ w.id_ok)))))))

KeepsId : SdfFilter → SdfFilter → Type 0
KeepsId old v = v.sdf_filter_id ≡ old.sdf_filter_id

sdf_filter-Yields : (old : SdfFilter) → Yields (KeepsId old) (sdf_filter old)
unfolding sdf_filter KeepsId flags_spare
sdf_filter-Yields old =
    Yields-bind (λ x. x ≤ 15) _ _
      (Yields-checked _ 2
        (Yields-step _ _ _ λ b. Yields-step _ _ _ λ _. Yields-pure _ (bit_and-le b 0x0f)))
      λ flags small.
        let none : has flags f_sdf_bid ≡ false =
          unfold all_below in has_clear 16 f_sdf_bid refl flags (omega arith) in
        Yields-step _ _ _ λ flow. Yields-step _ _ _ λ tos. Yields-step _ _ _ λ spi.
          Yields-step _ _ _ λ label.
            Yields-bind (λ x. x ≡ old.sdf_filter_id) _ _ (Yields-when_not _ _ _ none refl)
              λ id e. Yields-pure _ e

-- The SDF filter id is never decoded: whenever `decode_sdf_filter` succeeds, on any octets, the
-- id is what the structure held.
pub decode_sdf_filter-id :
    (old v : SdfFilter) (bytes : List ℕ) (l : ℕ)
    → decode_sdf_filter old bytes l ≡ ok v
    → v.sdf_filter_id ≡ old.sdf_filter_id
unfolding decode_sdf_filter KeepsId
decode_sdf_filter-id old v bytes l e = run-Yields (KeepsId old) bytes l (sdf_filter-Yields old) e
