-- ===== src/Ie/Text.antt =====
-- upf/pfcp.c: the IEs that carry counted texts (Header Enrichment, Flow Information, Forwarding
-- Policy), and the Failed Rule ID.
pub mod Laws
use upg_vpp_tr.Base.{ℕ, ◌+◌, ◌==◌, List, ◌++◌, [], length, if◌then◌else◌}
use upg_vpp_tr.Wire.Defs.{
  Outcome, Decoder, ◌>>=◌, ◌>>◌, pure, need, checked, counted_vec, run, get_length, get_vec, get_u8,
  get_u16, get_u32, get_masked, put_u8, put_u16, put_u32,
}

pub record HeaderEnrichment : Type 0 where
  pub kind : ℕ
  pub name : List ℕ
  pub value : List ℕ

unfoldable pub header_enrichment : Decoder HeaderEnrichment
header_enrichment = do
  kind ← checked 1 (get_masked 0x0f)
  name ← counted_vec 2
  value ← counted_vec 2
  pure (record { kind = kind; name = name; value = value })

unfoldable pub decode_header_enrichment : List ℕ → ℕ → Outcome HeaderEnrichment
decode_header_enrichment = run header_enrichment

unfoldable pub encode_header_enrichment : HeaderEnrichment → List ℕ
encode_header_enrichment v =
    put_u8 v.kind ++ ((put_u16 (length v.name) ++ v.name) ++ (put_u16 (length v.value) ++ v.value))

pub record FlowInformation : Type 0 where
  pub direction : ℕ
  pub flow_description : List ℕ

-- `v->direction = get_u8 (data) & 0x0f; len = get_u16 (data);`
unfoldable pub direction_and_length : Decoder (ℕ × ℕ)
direction_and_length = do direction ← get_masked 0x0f; len ← get_u16; pure (direction, len)

unfoldable pub flow_information : Decoder FlowInformation
flow_information = do
  head ← checked 3 direction_and_length
  text ← checked head.1 (get_vec head.1)
  pure (record { direction = head.0; flow_description = text })

unfoldable pub decode_flow_information : List ℕ → ℕ → Outcome FlowInformation
decode_flow_information = run flow_information

unfoldable pub encode_flow_information : FlowInformation → List ℕ
encode_flow_information v =
    (put_u8 v.direction ++ put_u16 (length v.flow_description)) ++ v.flow_description

-- The length octet is tested, and then all the rest of the IE is taken.
unfoldable pub forwarding_policy : Decoder (List ℕ)
forwarding_policy = do fpi_len ← checked 1 get_u8; need fpi_len; len ← get_length; get_vec len

unfoldable pub decode_forwarding_policy : List ℕ → ℕ → Outcome (List ℕ)
decode_forwarding_policy = run forwarding_policy

unfoldable pub encode_forwarding_policy : List ℕ → List ℕ
encode_forwarding_policy identifier = put_u8 (length identifier) ++ identifier

pub record FailedRuleId : Type 0 where
  pub kind : ℕ
  pub id : ℕ

abbrev pub failed_rule_type_pdr : ℕ
failed_rule_type_pdr = 0

abbrev pub failed_rule_type_far : ℕ
failed_rule_type_far = 1

abbrev pub failed_rule_type_qer : ℕ
failed_rule_type_qer = 2

abbrev pub failed_rule_type_urr : ℕ
failed_rule_type_urr = 3

abbrev pub failed_rule_type_bar : ℕ
failed_rule_type_bar = 4

-- The `switch` of `decode_failed_rule_id`.
unfoldable pub rule_id : ℕ → Decoder ℕ
rule_id kind =
    if kind == failed_rule_type_pdr
    then need 2 >> get_u16
    else if kind == failed_rule_type_far
    then need 4 >> get_u32
    else if kind == failed_rule_type_qer
    then need 4 >> get_u32
    else if kind == failed_rule_type_urr
    then need 4 >> get_u32
    else if kind == failed_rule_type_bar
    then need 1 >> get_u8
    else need 4 >> get_u32

unfoldable pub failed_rule_id : Decoder FailedRuleId
failed_rule_id = do
  kind ← checked 1 get_u8
  id ← rule_id kind
  pure (record { kind = kind; id = id })

unfoldable pub decode_failed_rule_id : List ℕ → ℕ → Outcome FailedRuleId
decode_failed_rule_id = run failed_rule_id

-- The `switch` of `encode_failed_rule_id`.
unfoldable pub put_rule_id : ℕ → ℕ → List ℕ
put_rule_id kind id =
    if kind == failed_rule_type_pdr
    then put_u16 id
    else if kind == failed_rule_type_far
    then put_u32 id
    else if kind == failed_rule_type_qer
    then put_u32 id
    else if kind == failed_rule_type_urr
    then put_u32 id
    else if kind == failed_rule_type_bar
    then put_u8 id
    else put_u32 id

unfoldable pub encode_failed_rule_id : FailedRuleId → List ℕ
encode_failed_rule_id v = put_u8 v.kind ++ put_rule_id v.kind v.id
