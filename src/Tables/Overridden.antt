-- ===== src/Tables/Overridden.antt =====
-- The entry of `tgpp_specs` of upf/pfcp.c that another one for the same type overrides.
use upg_vpp_tr.Base.{
  ℕ, ◌≡◌, refl, ap, arith, Bool, true, false, not, ◌&&◌, ◌||◌, ◌==◌, List, [], ◌∷◌, Option, none,
  some, ==_iff, Bool-cases, inl, inr, if◌then◌else◌,
}
use upg_vpp_tr.Group.{Leaf, leaf}
use upg_vpp_tr.Message.{pfcp_decode_msg}
use upg_vpp_tr.Tables.Codec.{Codec, Shape, simple, members, quota_validity_time}
use upg_vpp_tr.Tables.SpecsVendor.{vendor_tp_specs, vendor_bbf_specs}
use upg_vpp_tr.Tables.Upf.{tgpp_specs, later, lookup, ie_def, upf_specs, upf_messages, is_there}

unfoldable pub is_quota_validity_time : Codec → Bool
is_quota_validity_time quota_validity_time = true
is_quota_validity_time c = false

unfoldable reads_quota : Option Shape → Bool
unfolding is_quota_validity_time
reads_quota none = false
reads_quota (some (simple c)) = is_quota_validity_time c
reads_quota (some (members mandatory items)) = false

-- Every entry with the functions of Quota Validity Time has one for the same type behind it.
unfoldable overridden : List (ℕ × Shape) → Bool
unfolding reads_quota is_there lookup
overridden [] = true
overridden ((n, a) ∷ es) = (not (reads_quota (some a)) || is_there (lookup es n)) && overridden es

later_reads :
    (n k : ℕ) (a : Shape) (o : Option Shape)
    → (not (reads_quota (some a)) || ((n == k) && is_there o) || not (n == k)) ≡ true
    → reads_quota o ≡ false
    → reads_quota (later (if n == k then some a else none) o) ≡ false
unfolding later is_there
later_reads n k a (some b) fit e = e
later_reads n k a none fit e = elim (Bool-cases (n == k)) [
  | inl same ↦ rw same (ground (arith, fit, same))
  | inr other ↦ rw other (unfold reads_quota in refl)
]

lookup_reads :
    (es : List (ℕ × Shape)) (k : ℕ) → overridden es ≡ true → reads_quota (lookup es k) ≡ false
unfolding overridden lookup
lookup_reads [] k fit = unfold reads_quota in refl
lookup_reads ((n, a) ∷ es) k fit =
    let rest = lookup_reads es k (ground arith) in
    elim (Bool-cases (n == k)) [
      | inl same ↦
          let there : is_there (lookup es n) ≡ is_there (lookup es k) =
            ap (λ x. is_there (lookup es x)) ((==_iff n k).0 same) in
          later_reads n k a (lookup es k) (ground (arith, fit, there, same)) rest
      | inr other ↦ later_reads n k a (lookup es k) (ground (arith, other)) rest
    ]

tgpp_overridden : overridden tgpp_specs ≡ true
unfolding overridden reads_quota is_there lookup is_quota_validity_time later
tgpp_overridden = refl

tp_overridden : overridden vendor_tp_specs ≡ true
unfolding overridden reads_quota is_there lookup is_quota_validity_time later
tp_overridden = refl

bbf_overridden : overridden vendor_bbf_specs ≡ true
unfolding overridden reads_quota is_there lookup is_quota_validity_time later
bbf_overridden = refl

module _ {V : Type 0} (leafs leafs' : Codec → Leaf V)
    (agree : (c : Codec) → is_quota_validity_time c ≡ false → leafs c ≡ leafs' c) where
  same_def : (o : Option Shape) → reads_quota o ≡ false → ie_def leafs o ≡ ie_def leafs' o
  unfolding reads_quota
  same_def none e = refl
  same_def (some (simple c)) e = ap (λ x. some (leaf x)) (agree c e)
  same_def (some (members mandatory items)) e = refl

  same_specs : upf_specs leafs ≡ upf_specs leafs'
  unfolding upf_specs
  same_specs = λ i. record {
    tgpp = λ k. same_def (lookup tgpp_specs k) (lookup_reads tgpp_specs k tgpp_overridden) i;
    bbf = λ k.
        same_def (lookup vendor_bbf_specs k) (lookup_reads vendor_bbf_specs k bbf_overridden) i;
    tp = λ k. same_def (lookup vendor_tp_specs k) (lookup_reads vendor_tp_specs k tp_overridden) i;
  }

  -- What is decoded of a message does not depend on the functions of Quota Validity Time: with others in
  -- their place, and all other functions the same, the result is the same, for any octets and any length.
  pub decode_msg-quota_validity_time :
      (mem : List ℕ) (len : ℕ)
      → pfcp_decode_msg (upf_specs leafs) upf_messages mem len
        ≡ pfcp_decode_msg (upf_specs leafs') upf_messages mem len
  decode_msg-quota_validity_time mem len =
      ap (λ x. pfcp_decode_msg x upf_messages mem len) same_specs
