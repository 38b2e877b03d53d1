-- ===== src/Ie/Text/Laws.antt =====
-- The counted texts and the Failed Rule ID of upf/pfcp.c.
use upg_vpp_tr.Base.{
  ℕ, ◌+◌, ◌^◌, ◌<◌, ◌≤◌, ◌≡◌, refl, arith, ◌==◌, Bool, true, false, List, ◌++◌, append_assoc,
  length, length-append, if◌then◌else◌,
}
use upg_vpp_tr.Wire.Defs.{ok, ◌>>◌, need, octets, get_be}
use upg_vpp_tr.Wire.Reads.{
  Reads, Gets-masked, Gets-be, Gets-bind, Gets-end, Gets-vec, Reads-bind, Reads-end, Reads-vec,
  Reads-masked, Reads-checked, Reads-counted, length-octets,
}
use upg_vpp_tr.Wire.Safe.{
  Safe, Safe-checked, Safe-need, Exact, Exact-bind, Exact-be, Exact-masked, Exact-pure, safe,
}
use upg_vpp_tr.Wire.Steps.{
  Steps, Steps-bind, Steps-silent, Steps-end, Steps-need, Steps-Gets, Steps-length, Steps-checked,
  run-Steps,
}
use upg_vpp_tr.Wire.Guarded.{Guarded, Guarded-bind, Guarded-last, Guarded-end, Guarded-rest}
use upg_vpp_tr.Wire.Masks.{mask_fifteen}
use upg_vpp_tr.Ie.Text.{
  HeaderEnrichment, header_enrichment, encode_header_enrichment, FlowInformation,
  direction_and_length, flow_information, encode_flow_information, forwarding_policy,
  decode_forwarding_policy, FailedRuleId, rule_id, put_rule_id, failed_rule_id,
  decode_failed_rule_id, encode_failed_rule_id, failed_rule_type_pdr, failed_rule_type_far,
  failed_rule_type_qer, failed_rule_type_urr, failed_rule_type_bar,
}

pub record IsHeaderEnrichment (v : HeaderEnrichment) : Type 0 where
  pub kind_ok : v.kind < 16
  pub name_ok : length v.name < 2 ^ 16
  pub value_ok : length v.value < 2 ^ 16

pub header_enrichment-Reads :
    (v : HeaderEnrichment)
    → IsHeaderEnrichment v
    → Reads header_enrichment (encode_header_enrichment v) v
unfolding header_enrichment encode_header_enrichment
header_enrichment-Reads v w =
    Reads-bind _ (Reads-masked 0x0f _ (omega arith) (mask_fifteen _ w.kind_ok))
      (Reads-bind _ (Reads-counted 2 _ w.name_ok) (Reads-end _ (Reads-counted 2 _ w.value_ok)))

pub header_enrichment-Safe : Safe header_enrichment
unfolding header_enrichment
header_enrichment-Safe = search safe depth 20

pub record IsFlowInformation (v : FlowInformation) : Type 0 where
  pub direction_ok : v.direction < 16
  pub flow_ok : length v.flow_description < 2 ^ 16

pub flow_information-Reads :
    (v : FlowInformation)
    → IsFlowInformation v
    → Reads flow_information (encode_flow_information v) v
unfolding flow_information encode_flow_information direction_and_length
flow_information-Reads v w =
    let n = length v.flow_description in
    Reads-bind _ {a = (v.direction, n)}
      (Reads-checked 3
        (Gets-bind _ (Gets-masked 0x0f v.direction (omega arith) (mask_fifteen _ w.direction_ok))
          (Gets-end (λ len. (v.direction, len)) (Gets-be 2 n w.flow_ok)))
        (rw (length-append, length-octets 1, length-octets 2)))
      (Reads-end _ (Reads-vec n v.flow_description refl))

direction_and_length-Exact : Exact 3 direction_and_length
unfolding direction_and_length
direction_and_length-Exact =
    Exact-bind _ (Exact-masked 0x0f) (λ u. Exact-bind _ (Exact-be 2) (λ m. Exact-pure _) refl) refl

pub flow_information-Safe : Safe flow_information
unfolding flow_information
flow_information-Safe = search (safe, direction_and_length-Exact) depth 20

-- The forwarding policy identifier is all of the IE behind the length octet, so long as there are
-- at least as many octets as that octet says and the IE's length fits 16 bits: octets behind the
-- identifier become part of it.
pub decode_forwarding_policy_lem :
    (fpi_len : ℕ) (identifier rest : List ℕ)
    → fpi_len ≤ length identifier
    → fpi_len < 2 ^ 8
    → length identifier + 1 < 2 ^ 16
    → decode_forwarding_policy (octets 1 fpi_len ++ (identifier ++ rest)) (length identifier + 1)
      ≡ ok identifier
unfolding decode_forwarding_policy forwarding_policy
decode_forwarding_policy_lem fpi_len identifier rest h o b =
    rw (← append_assoc (octets 1 fpi_len) identifier rest) (
      run-Steps rest (
        Steps-bind _ (Steps-checked 1 _ _ (Gets-be 1 fpi_len o) refl b) (
          Steps-silent _ (Steps-need fpi_len (length identifier) h) (
            Steps-silent _ (Steps-length (length identifier))
              (Steps-Gets _ (Gets-vec identifier))))))

pub forwarding_policy-Guarded : Guarded 0 forwarding_policy
unfolding forwarding_policy
forwarding_policy-Guarded =
    Guarded-bind _ (Safe-checked 1 (Exact-be 1))
      (λ n. Guarded-bind _ (Safe-need n) (λ _. Guarded-rest))

-- The octets of an id, by the kind of rule.
abbrev pub id_octets : ℕ → ℕ
id_octets kind =
    if kind == failed_rule_type_pdr
    then 2
    else if kind == failed_rule_type_far
    then 4
    else if kind == failed_rule_type_qer
    then 4
    else if kind == failed_rule_type_urr
    then 4
    else if kind == failed_rule_type_bar
    then 1
    else 4

word : (k id p : ℕ) → id < 256 ^ k → k ≤ p → Steps (need k >> get_be k) p (octets k id) id p
word k id p h e = Steps-silent _ (Steps-need k p e) (Steps-Gets p (Gets-be k id h))

-- The tests of the `switch`, as five truth values.
abbrev choose {ℓ} : {A : Type ℓ} → (b c d e f : Bool) → (ℕ → A) → A
choose b c d e f g =
    if b
    then g 2
    else if c
    then g 4
    else if d
    then g 4
    else if e
    then g 4
    else if f
    then g 1
    else g 4

choose-Steps :
    (b c d e f : Bool) (id p : ℕ)
    → id < 256 ^ choose b c d e f (λ k. k)
    → choose b c d e f (λ k. k) ≤ p
    → Steps
        (choose b c d e f (λ k. need k >> get_be k))
        p
        (choose b c d e f (λ k. octets k id))
        id
        p
choose-Steps true c d e f id p = word 2 id p
choose-Steps false true d e f id p = word 4 id p
choose-Steps false false true e f id p = word 4 id p
choose-Steps false false false true f id p = word 4 id p
choose-Steps false false false false true id p = word 1 id p
choose-Steps false false false false false id p = word 4 id p

rule_id-Steps :
    (kind id p : ℕ)
    → id < 256 ^ id_octets kind
    → id_octets kind ≤ p
    → Steps (rule_id kind) p (put_rule_id kind id) id p
unfolding rule_id put_rule_id
rule_id-Steps kind id p h k =
    choose-Steps (kind == failed_rule_type_pdr) (kind == failed_rule_type_far)
      (kind == failed_rule_type_qer) (kind == failed_rule_type_urr) (kind == failed_rule_type_bar)
      id p h k

-- A failed rule id whose kind fits an octet and whose id fits the width of its kind is read back
-- at the length of its kind, whatever lies behind the IE.
pub decode-encode_failed_rule_id :
    (v : FailedRuleId) (rest : List ℕ) (p : ℕ)
    → v.kind < 2 ^ 8
    → v.id < 256 ^ id_octets v.kind
    → p ≡ id_octets v.kind + 1
    → p < 2 ^ 16
    → decode_failed_rule_id (encode_failed_rule_id v ++ rest) p ≡ ok v
unfolding decode_failed_rule_id failed_rule_id encode_failed_rule_id
decode-encode_failed_rule_id v rest p h k e b = run-Steps rest (
    Steps-bind _ (Steps-checked 1 p (id_octets v.kind) (Gets-be 1 v.kind h) e b)
      (Steps-end _ (rule_id-Steps v.kind v.id (id_octets v.kind) k (omega arith))))

one_word : (k : ℕ) → Guarded 0 (need k >> get_be k)
one_word k = Guarded-last k k 0 (omega arith) (Exact-be k)

choose-Guarded : (b c d e f : Bool) → Guarded 0 (choose b c d e f (λ k. need k >> get_be k))
choose-Guarded true c d e f = one_word 2
choose-Guarded false true d e f = one_word 4
choose-Guarded false false true e f = one_word 4
choose-Guarded false false false true f = one_word 4
choose-Guarded false false false false true = one_word 1
choose-Guarded false false false false false = one_word 4

pub failed_rule_id-Guarded : Guarded 0 failed_rule_id
unfolding failed_rule_id rule_id
failed_rule_id-Guarded = Guarded-bind _ (Safe-checked 1 (Exact-be 1)) (λ kind. Guarded-end 0 _ (
    choose-Guarded (kind == failed_rule_type_pdr) (kind == failed_rule_type_far)
      (kind == failed_rule_type_qer) (kind == failed_rule_type_urr) (kind == failed_rule_type_bar)))
