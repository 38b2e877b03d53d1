-- ===== src/Ie/UserId.antt =====
-- The User ID IE: `pfcp_user_id_t`, `decode_user_id` and `encode_user_id` of upf/pfcp.c. The arrays
-- of eight octets with their lengths are lists of at most eight octets.
use upg_vpp_tr.Base.{
  ℕ, ◌^◌, ◌<◌, ◌≤◌, ◌≡◌, refl, arith, bit_or, has, ltb, Bool, false, List, ◌∷◌, ◌++◌, [], length,
  if◌then◌else◌,
}
use upg_vpp_tr.Wire.Defs.{
  Outcome, Decoder, invalid_length, ◌>>=◌, pure, fail, checked, counted_vec, when, run, get_vec,
  get_u8, put_u8, octets,
}
use upg_vpp_tr.Wire.Reads.{
  Reads, Reads-bind, Reads-end, Reads-be, Reads-when, Reads-vec, Reads-counted,
}
use upg_vpp_tr.Wire.Safe.{Safe, safe}
use mathlib.Core.Path.{subst}

pub record UserId : Type 0 where
  pub imei : List ℕ
  pub imsi : List ℕ
  pub msisdn : List ℕ
  pub nai : List ℕ

abbrev pub user_id_imei : ℕ
user_id_imei = 2 ^ 0

abbrev pub user_id_imsi : ℕ
user_id_imsi = 2 ^ 1

abbrev pub user_id_msisdn : ℕ
user_id_msisdn = 2 ^ 2

abbrev pub user_id_nai : ℕ
user_id_nai = 2 ^ 4

-- An octet of length, at most 8, and as many octets.
unfoldable pub short_vec : Decoder (List ℕ)
short_vec = do
  len ← checked 1 get_u8
  if ltb 8 len then fail invalid_length else checked len (get_vec len)

-- The structure is cleared first.
unfoldable pub user_id : Decoder UserId
user_id = do
  flags ← checked 1 get_u8
  imei ← when (has flags user_id_imei) [] short_vec
  imsi ← when (has flags user_id_imsi) [] short_vec
  msisdn ← when (has flags user_id_msisdn) [] short_vec
  nai ← when (has flags user_id_nai) [] (counted_vec 1)
  pure (record { imei = imei; imsi = imsi; msisdn = msisdn; nai = nai })

unfoldable pub decode_user_id : List ℕ → ℕ → Outcome UserId
decode_user_id = run user_id

abbrev filled : List ℕ → Bool
filled v = ltb 0 (length v)

unfoldable pub user_id_flags : (imei imsi msisdn nai : Bool) → ℕ
user_id_flags imei imsi msisdn nai =
    bit_or
      (bit_or (bit_or (if imei then user_id_imei else 0) (if imsi then user_id_imsi else 0))
        (if msisdn then user_id_msisdn else 0))
      (if nai then user_id_nai else 0)

unfoldable pub encode_user_id : UserId → List ℕ
encode_user_id v =
    put_u8 (user_id_flags (filled v.imei) (filled v.imsi) (filled v.msisdn) (filled v.nai))
    ++ ((if filled v.imei then put_u8 (length v.imei) ++ v.imei else [])
        ++ ((if filled v.imsi then put_u8 (length v.imsi) ++ v.imsi else [])
            ++ ((if filled v.msisdn then put_u8 (length v.msisdn) ++ v.msisdn else [])
                ++ (if filled v.nai then put_u8 (length v.nai) ++ v.nai else []))))

record Tells (n : ℕ) (imei imsi msisdn nai : Bool) : Type 0 where
  octet : n < 256
  imei_ok : has n user_id_imei ≡ imei
  imsi_ok : has n user_id_imsi ≡ imsi
  msisdn_ok : has n user_id_msisdn ≡ msisdn
  nai_ok : has n user_id_nai ≡ nai

user_id_flags-Tells : (a b c d : Bool) → Tells (user_id_flags a b c d) a b c d
unfolding user_id_flags
user_id_flags-Tells a b c d = ground arith

-- The identities fit their arrays, and the NAI its octet of length.
pub record IsUserId (v : UserId) : Type 0 where
  pub imei_ok : length v.imei ≤ 8
  pub imsi_ok : length v.imsi ≤ 8
  pub msisdn_ok : length v.msisdn ≤ 8
  pub nai_ok : length v.nai < 2 ^ 8

Reads-short : (xs : List ℕ) → length xs ≤ 8 → Reads short_vec (octets 1 (length xs) ++ xs) xs
unfolding short_vec
Reads-short xs h =
    let fits : ltb 8 (length xs) ≡ false = ground arith in
    Reads-bind _ (Reads-be 1 (length xs) (omega arith)) (rw fits (Reads-vec (length xs) xs refl))

-- A part that is empty has no flag, and is empty after decoding.
empty_or : (xs : List ℕ) → (if filled xs then xs else []) ≡ xs
empty_or [] = refl
empty_or (x ∷ xs) = ground arith

pub user_id-Reads : (v : UserId) → IsUserId v → Reads user_id (encode_user_id v) v
unfolding user_id encode_user_id
user_id-Reads v w =
    let t = user_id_flags-Tells (filled v.imei) (filled v.imsi) (filled v.msisdn) (filled v.nai) in
    subst (Reads user_id (encode_user_id v))
      (λ i. record {
        imei = empty_or v.imei i;
        imsi = empty_or v.imsi i;
        msisdn = empty_or v.msisdn i;
        nai = empty_or v.nai i;
      })
      (Reads-bind _ (Reads-be 1 _ t.octet) (
        rw (t.imei_ok, t.imsi_ok, t.msisdn_ok, t.nai_ok)
          (Reads-bind _ (Reads-when (filled v.imei) [] (Reads-short _ w.imei_ok)) (
            Reads-bind _ (Reads-when (filled v.imsi) [] (Reads-short _ w.imsi_ok)) (
              Reads-bind _ (Reads-when (filled v.msisdn) [] (Reads-short _ w.msisdn_ok))
                (Reads-end _ (Reads-when (filled v.nai) [] (Reads-counted 1 _ w.nai_ok))))))))

short_vec-Safe : Safe short_vec
unfolding short_vec
short_vec-Safe = search safe depth 20

pub user_id-Safe : Safe user_id
unfolding user_id
user_id-Safe = search (safe, short_vec-Safe) depth 20
