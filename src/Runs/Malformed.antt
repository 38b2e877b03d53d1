-- ===== src/Runs/Malformed.antt =====
-- The theorems on octets that upf/pfcp.c does not write, at concrete octets.
use upg_vpp_tr.Base.{
  false, if◌then◌else◌, ◌++◌, inr, ℕ, ◌≡◌, ◌≢◌, inl, refl, arith, List, ◌∷◌, [], none, some,
}
use upg_vpp_tr.Wire.Defs.{ok, err, primitives, request_rejected, mandatory_ie_missing}
use upg_vpp_tr.Ie.Basic.{decode_u8_ie, u8_ie}
use upg_vpp_tr.Group.{specs_of, add}
use upg_vpp_tr.Group.Read.{answer, check_mandatory, keep_ie, empty_group, frame, decode_group}
use upg_vpp_tr.Group.Malformed.{decode_group-hidden}
use upg_vpp_tr.Message.{DecodedMsg, reply, pfcp_decode_msg, pfcp_msg_type}
use upg_vpp_tr.Message.Start.{Start, session_start, start_octets}
use upg_vpp_tr.Message.Errors.{decode_msg-refused}
use upg_vpp_tr.Group.{GroupDef, Leaf}
use upg_vpp_tr.Tables.MessagesB.{session_report_request_group}
use upg_vpp_tr.Tables.Upf.{upf_specs, upf_messages}
use upg_vpp_tr.Tables.Conflicts.{NeedsNodeId-refused}
use upg_vpp_tr.Tables.Overridden.{is_quota_validity_time, decode_msg-quota_validity_time}
use upg_vpp_tr.Tables.Codec.{Codec}
use upg_vpp_tr.Runs.Messages.{u8_leaf, specs, request, report_octets, report_group, message}

unknown_vendor : specs_of specs (some 9) ≡ none
unfolding specs_of
unknown_vendor = refl

decode_group-hidden_example :
    decode_group specs request (128 ∷ 1 ∷ 0 ∷ 1 ∷ 0 ∷ 9 ∷ report_octets) 30
    ≡ some (check_mandatory request (keep_ie empty_group 0) (ok (keep_ie empty_group 0)) [])
decode_group-hidden_example =
    decode_group-hidden specs request 128 1 1 0 9 report_octets 30 (omega arith) (omega arith)
      unknown_vendor (omega arith) (omega arith)

abbrev report_request : GroupDef
report_request = record { mandatory = 1; items = session_report_request_group }

-- A Session Report Request of SEID 258 and sequence number 5, with the flag of a node message.
abbrev misflagged : Start
misflagged = session_start 32 56 0 12 0 0 0 0 0 0 1 2 0 0 5 0

known_report : upf_messages 56 ≡ some report_request
unfolding upf_messages
known_report = refl

decode_msg-refused_example :
    pfcp_decode_msg specs upf_messages (start_octets misflagged ++ []) 16
    ≡ some (reply (record { kind = 56; seid = 258; seq_no = 5 }) (err request_rejected))
decode_msg-refused_example =
    decode_msg-refused specs upf_messages misflagged [] 16 request_rejected report_request
      (omega arith, omega arith) known_report (omega arith) (omega arith)
      (inr (omega arith, refl, refl))

abbrev release_response : List ℕ
release_response = 32 ∷ 10 ∷ 0 ∷ 9 ∷ 0 ∷ 0 ∷ 5 ∷ 0 ∷ 0 ∷ 19 ∷ 0 ∷ 1 ∷ 1 ∷ []

abbrev release_answer : DecodedMsg ℕ
release_answer = record {
  prefix = record { kind = 10; seid = 0; seq_no = 5 };
  answer = answer (err mandatory_ie_missing) (0 ∷ []);
}

release_response_lem : pfcp_decode_msg specs upf_messages release_response 13 ≡ some release_answer
unfolding pfcp_decode_msg upf_messages upf_specs primitives decode_u8_ie u8_ie frame add
release_response_lem = refl

NeedsNodeId-refused_example : release_answer.answer.result ≢ ok report_group
unfolding pfcp_msg_type
NeedsNodeId-refused_example =
    NeedsNodeId-refused (λ c. u8_leaf) release_response 13 release_answer report_group (inl refl)
      release_response_lem

-- Functions of which only those of Quota Validity Time are others.
abbrev other_leafs : Codec → Leaf ℕ
other_leafs c =
    if is_quota_validity_time c then record u8_leaf { decode = λ mem len. ok 99 } else u8_leaf

other_leafs-agree :
    (c : Codec) → is_quota_validity_time c ≡ false → ◌≡◌ {A = Leaf ℕ} u8_leaf (other_leafs c)
other_leafs-agree c e = rw e refl

decode_msg-quota_validity_time_example :
    pfcp_decode_msg (upf_specs (λ c. u8_leaf)) upf_messages message 32
    ≡ pfcp_decode_msg (upf_specs other_leafs) upf_messages message 32
decode_msg-quota_validity_time_example =
    decode_msg-quota_validity_time (λ c. u8_leaf) other_leafs other_leafs-agree message 32
