-- ===== src/Tables/SpecsMessage.antt =====
-- `msg_specs` of upf/pfcp.c and the message types of upf/pfcp.h.
use upg_vpp_tr.Base.{ℕ, ◌+◌, ◌^◌, List, [], ◌∷◌}
use upg_vpp_tr.Group.{GroupDef}
use upg_vpp_tr.Tables.MessagesA.{
  association_release_request_group, association_setup_request_group,
  association_setup_response_group, association_update_request_group,
  association_update_response_group, heartbeat_request_group, node_report_request_group,
  pfd_management_request_group, session_establishment_request_group,
  session_establishment_response_group, session_set_deletion_request_group, simple_response_group,
}
use upg_vpp_tr.Tables.MessagesB.{
  session_deletion_response_group, session_modification_request_group,
  session_modification_response_group, session_report_request_group, session_report_response_group,
}

abbrev pub pfcp_heartbeat_request : ℕ
pfcp_heartbeat_request = 1

abbrev pub pfcp_heartbeat_response : ℕ
pfcp_heartbeat_response = 2

abbrev pub pfcp_pfd_management_request : ℕ
pfcp_pfd_management_request = 3

abbrev pub pfcp_association_setup_request : ℕ
pfcp_association_setup_request = 5

abbrev pub pfcp_association_setup_response : ℕ
pfcp_association_setup_response = 6

abbrev pub pfcp_association_update_request : ℕ
pfcp_association_update_request = 7

abbrev pub pfcp_association_update_response : ℕ
pfcp_association_update_response = 8

abbrev pub pfcp_association_release_request : ℕ
pfcp_association_release_request = 9

abbrev pub pfcp_association_release_response : ℕ
pfcp_association_release_response = 10

abbrev pub pfcp_node_report_request : ℕ
pfcp_node_report_request = 12

abbrev pub pfcp_node_report_response : ℕ
pfcp_node_report_response = 13

abbrev pub pfcp_session_set_deletion_request : ℕ
pfcp_session_set_deletion_request = 14

abbrev pub pfcp_session_set_deletion_response : ℕ
pfcp_session_set_deletion_response = 15

abbrev pub pfcp_session_establishment_request : ℕ
pfcp_session_establishment_request = 50

abbrev pub pfcp_session_establishment_response : ℕ
pfcp_session_establishment_response = 51

abbrev pub pfcp_session_modification_request : ℕ
pfcp_session_modification_request = 52

abbrev pub pfcp_session_modification_response : ℕ
pfcp_session_modification_response = 53

abbrev pub pfcp_session_deletion_request : ℕ
pfcp_session_deletion_request = 54

abbrev pub pfcp_session_deletion_response : ℕ
pfcp_session_deletion_response = 55

abbrev pub pfcp_session_report_request : ℕ
pfcp_session_report_request = 56

abbrev pub pfcp_session_report_response : ℕ
pfcp_session_report_response = 57

abbrev pub msg_specs : List (ℕ × GroupDef)
msg_specs =
    (pfcp_heartbeat_request, record { mandatory = (2 ^ 0); items = heartbeat_request_group })
    ∷ (pfcp_heartbeat_response, record { mandatory = (2 ^ 3); items = simple_response_group })
    ∷ (pfcp_pfd_management_request, record { mandatory = 0; items = pfd_management_request_group })
    ∷ (
      pfcp_association_setup_request,
      record { mandatory = (2 ^ 0 + 2 ^ 1); items = association_setup_request_group },
    )
    ∷ (
      pfcp_association_setup_response,
      record { mandatory = (2 ^ 0 + 2 ^ 1 + 2 ^ 2); items = association_setup_response_group },
    )
    ∷ (
      pfcp_association_update_request,
      record { mandatory = (2 ^ 0); items = association_update_request_group },
    )
    ∷ (
      pfcp_association_update_response,
      record { mandatory = (2 ^ 0 + 2 ^ 1); items = association_update_response_group },
    )
    ∷ (
      pfcp_association_release_request,
      record { mandatory = (2 ^ 0); items = association_release_request_group },
    )
    ∷ (
      pfcp_association_release_response,
      record { mandatory = (2 ^ 0 + 2 ^ 1); items = simple_response_group },
    )
    ∷ (
      pfcp_node_report_request,
      record { mandatory = (2 ^ 0 + 2 ^ 1); items = node_report_request_group },
    )
    ∷ (
      pfcp_node_report_response,
      record { mandatory = (2 ^ 0 + 2 ^ 1); items = simple_response_group },
    )
    ∷ (
      pfcp_session_set_deletion_request,
      record { mandatory = (2 ^ 0); items = session_set_deletion_request_group },
    )
    ∷ (
      pfcp_session_set_deletion_response,
      record { mandatory = (2 ^ 0 + 2 ^ 1); items = simple_response_group },
    )
    ∷ (
      pfcp_session_establishment_request,
      record {
        mandatory = (2 ^ 0 + 2 ^ 1 + 2 ^ 2 + 2 ^ 3);
        items = session_establishment_request_group;
      },
    )
    ∷ (
      pfcp_session_establishment_response,
      record { mandatory = (2 ^ 0 + 2 ^ 1 + 2 ^ 4); items = session_establishment_response_group },
    )
    ∷ (
      pfcp_session_modification_request,
      record { mandatory = 0; items = session_modification_request_group },
    )
    ∷ (
      pfcp_session_modification_response,
      record { mandatory = (2 ^ 1); items = session_modification_response_group },
    )
    ∷ (pfcp_session_deletion_request, record { mandatory = 0; items = [] })
    ∷ (
      pfcp_session_deletion_response,
      record { mandatory = (2 ^ 1); items = session_deletion_response_group },
    )
    ∷ (
      pfcp_session_report_request,
      record { mandatory = (2 ^ 0); items = session_report_request_group },
    )
    ∷ (
      pfcp_session_report_response,
      record { mandatory = (2 ^ 1); items = session_report_response_group },
    )
    ∷ []
