-- ===== src/Runs/Texts.antt =====
-- The theorems on the counted IEs of upf/pfcp.c at concrete octets.
use upg_vpp_tr.Base.{arith, ◌∷◌, []}
use upg_vpp_tr.Ie.Text.{HeaderEnrichment, FlowInformation, FailedRuleId}
use upg_vpp_tr.Ie.Text.Laws.{IsHeaderEnrichment, IsFlowInformation}
use upg_vpp_tr.Ie.UserId.{UserId, IsUserId}
use upg_vpp_tr.Runs.Filters.{text}

abbrev header : HeaderEnrichment
header = record { kind = 0; name = text; value = text }

header-IsHeaderEnrichment : IsHeaderEnrichment header
header-IsHeaderEnrichment = record {
  kind_ok = omega arith;
  name_ok = omega arith;
  value_ok = omega arith;
}

abbrev flow : FlowInformation
flow = record { direction = 2; flow_description = text }

flow-IsFlowInformation : IsFlowInformation flow
flow-IsFlowInformation = record { direction_ok = omega arith; flow_ok = omega arith }

abbrev rule : FailedRuleId
rule = record { kind = 1; id = 70000 }

abbrev user : UserId
user = record { imei = 1 ∷ 2 ∷ []; imsi = []; msisdn = 3 ∷ []; nai = text }

user-IsUserId : IsUserId user
user-IsUserId = record {
  imei_ok = omega arith;
  imsi_ok = omega arith;
  msisdn_ok = omega arith;
  nai_ok = omega arith;
}
