-- ===== src/Tables/Tests.antt =====
-- The theorems on USBPcapDriver/USBPcapTables.c with a list as the system's table.
use usbpcap_ai.Base.{◌≡◌, true, none, some, ◌==◌, if◌then◌else◌}
use usbpcap_ai.Tables.Generic.{GenericTable}
use usbpcap_ai.Tables.Assoc.{list_table}
use usbpcap_ai.Tables.Endpoint.{
  EndpointInfo, PipeInformation, add_endpoint_info, endpoint_key, endpoint_of,
  retrieve-add_endpoint_info, retrieve_endpoint_info,
}
use usbpcap_ai.Tables.UrbIrp.{UrbIrpInfo, urb_irp_key}

abbrev endpoints : GenericTable EndpointInfo endpoint_key
endpoints = list_table endpoint_key

abbrev urbs : GenericTable UrbIrpInfo urb_irp_key
urbs = list_table urb_irp_key

abbrev pipe : PipeInformation
pipe = record { pipe_handle = 48879; type = 3; address = 129 }

abbrev one_endpoint : endpoints.Table
one_endpoint = add_endpoint_info endpoints true endpoints.empty pipe 4

abbrev entry : UrbIrpInfo
entry = record {
  irp = 57005;
  timestamp = 1;
  status = 0;
  function = 9;
  info = 0;
  bus = 1;
  device = 5;
}

-- The pipe is added again, for another device.
retrieve-add_endpoint_info_example :
    retrieve_endpoint_info endpoints (add_endpoint_info endpoints true one_endpoint pipe 5) 48879
    ≡ (if 48879 == 48879
        then (elim (retrieve_endpoint_info endpoints one_endpoint 48879) [
          | none ↦ if true then some (endpoint_of pipe 5) else none
          | some old ↦ some (endpoint_of pipe 5)
        ])
        else retrieve_endpoint_info endpoints one_endpoint 48879)
retrieve-add_endpoint_info_example =
    retrieve-add_endpoint_info endpoints true one_endpoint pipe 5 48879
