-- ===== src/Ie/PfdContents.antt =====
-- The PFD Contents IE: `pfcp_pfd_contents_t` and its functions in upf/pfcp.c.
use upg_vpp_tr.Base.{
  ℕ, ◌^◌, ◌<◌, ◌≡◌, refl, bit_and, bit_or, has, ltb, List, ◌++◌, ◌∷◌, [], append_assoc, length,
  if◌then◌else◌, arith, Bool,
}
use upg_vpp_tr.Wire.Defs.{
  Outcome, Decoder, ◌>>=◌, ◌>>◌, pure, checked, counted_vec, when, run, get_u8, get_vec, put_u8,
  put_u16, octets,
}
use upg_vpp_tr.Wire.Reads.{
  Reads, Reads-bind, Reads-end, Reads-when, Reads-counted, Reads-checked, Gets-be, Gets-vec,
  Gets-bind, Gets-pure,
}
use upg_vpp_tr.Wire.Safe.{Safe, Exact, Exact-bind, Exact-be, Exact-vec, Exact-pure, safe}

pub record PfdContents : Type 0 where
  pub flow_description : List ℕ
  pub url : List ℕ
  pub domain : List ℕ
  pub custom : List ℕ
  pub dnp : List ℕ

abbrev pub f_pfd_c_fd : ℕ
f_pfd_c_fd = 2 ^ 0

abbrev pub f_pfd_c_url : ℕ
f_pfd_c_url = 2 ^ 1

abbrev pub f_pfd_c_dn : ℕ
f_pfd_c_dn = 2 ^ 2

abbrev pub f_pfd_c_cp : ℕ
f_pfd_c_cp = 2 ^ 3

abbrev pub f_pfd_c_dnp : ℕ
f_pfd_c_dnp = 2 ^ 4

abbrev pub f_pfd_c_mask : ℕ
f_pfd_c_mask = 0x1f

-- `flags = get_u8 (data) & F_PFD_C_MASK; data++;`
unfoldable pub flags_and_spare : Decoder ℕ
flags_and_spare = do flags ← get_u8; get_vec 1; pure (bit_and flags f_pfd_c_mask)

unfoldable pub pfd_contents : PfdContents → Decoder PfdContents
pfd_contents v = do
  flags ← checked 2 flags_and_spare
  flow ← when (has flags f_pfd_c_fd) v.flow_description (counted_vec 2)
  url ← when (has flags f_pfd_c_url) v.url (counted_vec 2)
  domain ← when (has flags f_pfd_c_dn) v.domain (counted_vec 2)
  custom ← when (has flags f_pfd_c_cp) v.custom (counted_vec 2)
  dnp ← when (has flags f_pfd_c_dnp) v.dnp (counted_vec 2)
  pure (record { flow_description = flow; url = url; domain = domain; custom = custom; dnp = dnp })

unfoldable pub decode_pfd_contents : PfdContents → List ℕ → ℕ → Outcome PfdContents
decode_pfd_contents v = run (pfd_contents v)

-- `vec_len (v) > 0`
abbrev pub filled : List ℕ → Bool
filled v = ltb 0 (length v)

-- The flags, one for each part that is there.
unfoldable pub flags_of : Bool → Bool → Bool → Bool → Bool → ℕ
flags_of flow url domain custom dnp =
    bit_or
      (bit_or
        (bit_or (bit_or (if flow then f_pfd_c_fd else 0) (if url then f_pfd_c_url else 0))
          (if domain then f_pfd_c_dn else 0))
        (if custom then f_pfd_c_cp else 0))
      (if dnp then f_pfd_c_dnp else 0)

unfoldable pub pfd_flags : PfdContents → ℕ
unfolding flags_of
pfd_flags v =
    flags_of (filled v.flow_description) (filled v.url) (filled v.domain) (filled v.custom)
      (filled v.dnp)

unfoldable pub encode_pfd_contents : PfdContents → List ℕ
encode_pfd_contents v =
    put_u8 (pfd_flags v)
    ++ (put_u8 0
        ++ ((if filled v.flow_description
              then put_u16 (length v.flow_description) ++ v.flow_description
              else [])
            ++ ((if filled v.url then put_u16 (length v.url) ++ v.url else [])
                ++ ((if filled v.domain then put_u16 (length v.domain) ++ v.domain else [])
                    ++ ((if filled v.custom then put_u16 (length v.custom) ++ v.custom else [])
                        ++ (if filled v.dnp then put_u16 (length v.dnp) ++ v.dnp else []))))))

record Tells (n : ℕ) (flow url domain custom dnp : Bool) : Type 0 where
  octet : n < 256
  masked : bit_and n f_pfd_c_mask ≡ n
  flow_ok : has n f_pfd_c_fd ≡ flow
  url_ok : has n f_pfd_c_url ≡ url
  domain_ok : has n f_pfd_c_dn ≡ domain
  custom_ok : has n f_pfd_c_cp ≡ custom
  dnp_ok : has n f_pfd_c_dnp ≡ dnp

flags_of-Tells : (a b c d e : Bool) → Tells (flags_of a b c d e) a b c d e
unfolding flags_of
flags_of-Tells a b c d e = ground arith

pub record IsPfdContents (v : PfdContents) : Type 0 where
  pub flow_ok : length v.flow_description < 2 ^ 16
  pub url_ok : length v.url < 2 ^ 16
  pub domain_ok : length v.domain < 2 ^ 16
  pub custom_ok : length v.custom < 2 ^ 16
  pub dnp_ok : length v.dnp < 2 ^ 16

abbrev pub pfd_contents_received : PfdContents → PfdContents → PfdContents
pfd_contents_received v old = record {
  flow_description = if filled v.flow_description then v.flow_description else old.flow_description;
  url = if filled v.url then v.url else old.url;
  domain = if filled v.domain then v.domain else old.domain;
  custom = if filled v.custom then v.custom else old.custom;
  dnp = if filled v.dnp then v.dnp else old.dnp;
}

flags_and_spare-Reads :
    (n : ℕ)
    → n < 256
    → bit_and n f_pfd_c_mask ≡ n
    → Reads (checked 2 flags_and_spare) (put_u8 n ++ put_u8 0) n
unfolding flags_and_spare octets
flags_and_spare-Reads n h e =
    Reads-checked 2
      (Gets-bind _ (Gets-be 1 n h)
        (Gets-bind (λ _. pure (bit_and n f_pfd_c_mask)) (Gets-vec (0 ∷ [])) (rw e (Gets-pure n))))
      refl

pub pfd_contents-Reads :
    (v old : PfdContents)
    → IsPfdContents v
    → Reads (pfd_contents old) (encode_pfd_contents v) (pfd_contents_received v old)
unfolding pfd_contents encode_pfd_contents pfd_flags
pfd_contents-Reads v old w =
    let t =
      flags_of-Tells (filled v.flow_description) (filled v.url) (filled v.domain) (filled v.custom)
        (filled v.dnp) in
    rw (← append_assoc (put_u8 (pfd_flags v)) (put_u8 0) _) (
      Reads-bind _ (flags_and_spare-Reads (pfd_flags v) t.octet t.masked) (
        rw (t.flow_ok, t.url_ok, t.domain_ok, t.custom_ok, t.dnp_ok)
          (Reads-bind _ (Reads-when (filled v.flow_description) _ (Reads-counted 2 _ w.flow_ok)) (
            Reads-bind _ (Reads-when (filled v.url) _ (Reads-counted 2 _ w.url_ok)) (
              Reads-bind _ (Reads-when (filled v.domain) _ (Reads-counted 2 _ w.domain_ok)) (
                Reads-bind _ (Reads-when (filled v.custom) _ (Reads-counted 2 _ w.custom_ok))
                  (Reads-end _ (Reads-when (filled v.dnp) _ (Reads-counted 2 _ w.dnp_ok)))))))))

flags_and_spare-Exact : Exact 2 flags_and_spare
unfolding flags_and_spare
flags_and_spare-Exact =
    Exact-bind _ (Exact-be 1) (λ b. Exact-bind _ (Exact-vec 1) (λ _. Exact-pure _) refl) refl

pub pfd_contents-Safe : (v : PfdContents) → Safe (pfd_contents v)
unfolding pfd_contents
pfd_contents-Safe v = search (safe, flags_and_spare-Exact) depth 20
