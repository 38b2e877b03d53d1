-- ===== src/Tables/GroupsE.antt =====
-- Tables of the groups of IEs in upf/pfcp.c, `pfcp_tp_error_report_group` to `pfcp_tp_created_binding_group`.
use upg_vpp_tr.Base.{List, [], ◌∷◌}
use upg_vpp_tr.Group.{Item, vendor_bbf, vendor_travelping}
use upg_vpp_tr.Tables.Items.{one_of}
use upg_vpp_tr.Tables.TypesVendor.{
  pfcp_ie_bbf_nat_external_port_range, pfcp_ie_bbf_nat_outside_address, pfcp_ie_bbf_nat_port_block,
  pfcp_ie_tp_error_message, pfcp_ie_tp_file_name, pfcp_ie_tp_line_number,
}

abbrev pub tp_error_report_group : List Item
tp_error_report_group =
    one_of vendor_travelping pfcp_ie_tp_error_message
    ∷ one_of vendor_travelping pfcp_ie_tp_file_name
    ∷ one_of vendor_travelping pfcp_ie_tp_line_number
    ∷ []

abbrev pub tp_created_binding_group : List Item
tp_created_binding_group =
    one_of vendor_bbf pfcp_ie_bbf_nat_port_block
    ∷ one_of vendor_bbf pfcp_ie_bbf_nat_outside_address
    ∷ one_of vendor_bbf pfcp_ie_bbf_nat_external_port_range
    ∷ []
