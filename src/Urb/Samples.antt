-- ===== src/Urb/Samples.antt =====
-- A device and a transfer for trying the definitions of USBPcapDriver/USBPcapURB.c.
use usbpcap_ai.Base.{ℕ, true, none, some, Option, List, [], ◌∷◌}
use usbpcap_ai.Filter.{zero_filter}
use usbpcap_ai.Tables.Assoc.{list_table}
use usbpcap_ai.Tables.Generic.{GenericTable}
use usbpcap_ai.Tables.Endpoint.{EndpointInfo, endpoint_key}
use usbpcap_ai.Tables.UrbIrp.{UrbIrpInfo, urb_irp_key}
use usbpcap_ai.Urb.{BulkTransfer}
use usbpcap_ai.Urb.Analyze.{Device, Resources, Sizes, Urb, UrbBody}

abbrev pub endpoints : GenericTable EndpointInfo endpoint_key
endpoints = list_table endpoint_key

abbrev pub urbs : GenericTable UrbIrpInfo urb_irp_key
urbs = list_table urb_irp_key

abbrev pub sizes : Sizes
sizes = record {
  layout = record { interface_size = 48; pipes_offset = 24; pipe_size = 24 };
  configuration_offset = 40;
  interface_offset = 32;
}

abbrev pub find_none : List ℕ → ℕ → ℕ → Option (ℕ × ℕ)
find_none stored number setting = none

abbrev pub resources : Resources
resources = record {
  now = 133000000000000000;
  pipe_room = λ o. true;
  descriptor_room = true;
  urb_room = true;
  header_room = true;
  entries_room = true;
  garbage = [];
}

-- A bulk transfer of two bytes to endpoint 1.
abbrev pub bulk_transfer : BulkTransfer
bulk_transfer = record {
  pipe_handle = 77;
  transfer = record { buffer_length = 2; buffer = some (7 ∷ 8 ∷ []); mdl = none };
}

abbrev pub bulk : Urb
bulk = record {
  length = 0;
  function = 9;
  status = 0;
  body = UrbBody.bulk_or_interrupt bulk_transfer;
}

-- A device of which all packets are logged, or only those of its address by the masks, which are
-- clear.
abbrev pub device : ℕ → Device endpoints urbs sizes find_none
device filter_all = record {
  filter = record zero_filter { filter_all = filter_all };
  bus_id = 1;
  device_address = 5;
  endpoints =
      endpoints.insert true endpoints.empty
        (record { handle = 77; pipe_type = 2; endpoint_address = 1; device_address = 5 });
  urbs = urbs.empty;
  descriptor = none;
}
