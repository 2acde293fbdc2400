-- ===== src/Urb/Analyze.antt =====
-- USBPcapDriver/USBPcapURB.c: `USBPcapAnalyzeURB`, up to the calls that it makes of the buffer.
-- The generic tables, the sizes of the system's structures (`Sizes`) and
-- USBD_ParseConfigurationDescriptorEx (`find_interface`) are parameters.
pub mod Complete
pub mod Records
pub mod Pipes
pub mod Unknown
use usbpcap_ai.Base.{
  ℕ, ◌-◌, Bool, true, false, Option, none, some, List, [], ◌∷◌, ◌++◌, take, ltb, if◌then◌else◌,
}
use usbpcap_ai.Format.{PacketHeader, packet_header_size, transfer_unknown}
use usbpcap_ai.Filter.{AddressFilter, is_device_filtered, pos}
use usbpcap_ai.Buffer.Irp.Stream.{Call, logs}
use usbpcap_ai.Tables.Generic.{GenericTable}
use usbpcap_ai.Tables.Endpoint.{
  EndpointInfo, add_endpoint_info, endpoint_key, retrieve_endpoint_info,
}
use usbpcap_ai.Tables.UrbIrp.{UrbIrpInfo, add_urb_irp_info, obtain_urb_irp_info, urb_irp_key}
use usbpcap_ai.Urb.{
  BulkTransfer, Context, ControlTransfer, DescriptorFunction, DescriptorRequest, IsochTransfer,
  Recipient, RequestKind, StatusRequest, VendorClassRequest,
}
use usbpcap_ai.Urb.Setup.{
  wrap_descriptor, wrap_select_configuration, wrap_select_interface, wrap_status, wrap_vendor_class,
}
use usbpcap_ai.Urb.Packets.{
  Packet, bulk_packet, control_packet, frame_packet, one_entry, pipe_packet, unknown_packet,
}
use usbpcap_ai.Urb.Packets.Isoch.{isoch_packet}
use usbpcap_ai.Urb.Interfaces.{Layout, Memory, parse_interface_information}

-- The configuration descriptor of a request: wTotalLength, bConfigurationValue and the memory.
pub record ConfigurationDescriptor : Type 0 where
  pub total_length : ℕ
  pub configuration_value : ℕ
  pub bytes : List ℕ

-- The structures of the URB functions that the source tells apart; `other` is any other function.
pub data UrbBody : Type 0 where
  select_configuration : Memory → Option ConfigurationDescriptor → UrbBody
  select_interface : Memory → UrbBody
  control_transfer : ControlTransfer → UrbBody
  descriptor_request : DescriptorFunction → DescriptorRequest → UrbBody
  status_request : Recipient → StatusRequest → UrbBody
  vendor_class_request : RequestKind → Recipient → VendorClassRequest → UrbBody
  bulk_or_interrupt : BulkTransfer → UrbBody
  isoch_transfer : IsochTransfer → UrbBody
  pipe_request : ℕ → UrbBody
  get_current_frame_number : ℕ → UrbBody
  other : UrbBody

-- A URB: the fields of `struct _URB_HEADER`, and the rest by the function.
pub record Urb : Type 0 where
  pub length : ℕ
  pub function : ℕ
  pub status : ℕ
  pub body : UrbBody

-- The layout of the interface information, and its offset in `struct _URB_SELECT_CONFIGURATION`
-- and in `struct _URB_SELECT_INTERFACE`.
pub record Sizes : Type 0 where
  pub layout : Layout
  pub configuration_offset : ℕ
  pub interface_offset : ℕ

-- What the system gives to one analysis: the time, whether each allocation succeeds (that of the
-- element for the pipe at an offset, of the descriptor, of an element for a URB, of the
-- isochronous header and of its entries), and what is in `frameNum` before it is set.
pub record Resources : Type 0 where
  pub now : ℕ
  pub pipe_room : ℕ → Bool
  pub descriptor_room : Bool
  pub urb_room : Bool
  pub header_room : Bool
  pub entries_room : Bool
  pub garbage : List ℕ

-- `interfaces_len`; no interface information where the URB ends before it.
abbrev pub interfaces_of : Urb → ℕ → Option ℕ
interfaces_of urb offset = if ltb offset urb.length then some (urb.length - offset) else none

-- The packet for a URB of an unknown function that was recorded on its way to the bus driver.
abbrev pub submit_header : UrbIrpInfo → ℕ → PacketHeader
submit_header i irp = record {
  header_len = packet_header_size;
  irp_id = irp;
  status = i.status;
  function = i.function;
  info = i.info;
  bus = i.bus;
  device = i.device;
  endpoint = 0;
  transfer = transfer_unknown;
  data_length = 0;
  rest = [];
}

-- The calls for a recorded URB and for a packet.
abbrev pub submit_calls : Option UrbIrpInfo → ℕ → List Call
submit_calls none irp = []
submit_calls (some i) irp = logs i.timestamp (submit_header i irp) (one_entry 0 none) ∷ []

abbrev pub packet_calls : ℕ → Option Packet → List Call
packet_calls now none = []
packet_calls now (some p) = logs now p.header p.payload ∷ []

-- The transfer for an interface descriptor that was found, and the packet for a transfer.
abbrev pub interface_transfer : Option (ℕ × ℕ) → Option ControlTransfer
interface_transfer none = none
interface_transfer (some (setting, number)) = some (wrap_select_interface setting number)

abbrev pub control_of : Context → Bool → Option ControlTransfer → Option Packet
control_of c post none = none
control_of c post (some t) = some (control_packet c t post)

module _ (E : GenericTable EndpointInfo endpoint_key) (U : GenericTable UrbIrpInfo urb_irp_key)
    (sizes : Sizes) (find_interface : List ℕ → ℕ → ℕ → Option (ℕ × ℕ)) where
  -- `USBPCAP_DEVICE_DATA`, with the bus number and filter of its root hub.
  pub record Device : Type 0 where
    pub filter : AddressFilter
    pub bus_id : ℕ
    pub device_address : ℕ
    pub endpoints : E.Table
    pub urbs : U.Table
    pub descriptor : Option (List ℕ)

  -- The pipes of the interface information, added to the endpoint table in order.
  unfoldable pub add_pipes : (ℕ → Bool) → Memory → ℕ → E.Table → List ℕ → E.Table
  add_pipes room m device_address t [] = t
  add_pipes room m device_address t (o ∷ os) =
      add_pipes room m device_address (add_endpoint_info E (room o) t (m.pipe_at o) device_address)
        os

  -- `USBPcapParseInterfaceInformation`, if there is interface information.
  abbrev pub parse_interfaces : Resources → Device → Memory → Option ℕ → Device
  parse_interfaces r d m none = d
  parse_interfaces r d m (some interfaces_len) = record d {
    endpoints =
        add_pipes r.pipe_room m d.device_address d.endpoints
          (parse_interface_information sizes.layout m interfaces_len);
  }

  -- The new descriptor; `none` where the allocation fails, and the copy goes to NULL.
  abbrev pub store_descriptor :
      Resources → Option ConfigurationDescriptor → Option (Option (List ℕ))
  store_descriptor r none = some none
  store_descriptor r (some d) =
      if r.descriptor_room then some (some (take d.total_length d.bytes)) else none

  -- The first switch: what is analyzed of all devices. `none` is the write to NULL.
  unfoldable pub analyze_always : Resources → Device → Urb → Bool → Option Device
  analyze_always r d urb false = some d
  analyze_always r d urb true = elim urb.body [
    | select_configuration m descriptor ↦
        let parsed = parse_interfaces r d m (interfaces_of urb sizes.configuration_offset) in
        elim (store_descriptor r descriptor) [
          | none ↦ none
          | some stored ↦ some (record parsed { descriptor = stored })
        ]
    | select_interface m ↦ some (parse_interfaces r d m (interfaces_of urb sizes.interface_offset))
    | _ ↦ some d
  ]

  abbrev pub context : Device → ℕ → Urb → Context
  context d irp urb = record {
    bus_id = d.bus_id;
    device_address = d.device_address;
    irp_id = irp;
    status = urb.status;
    function = urb.function;
    retrieve = retrieve_endpoint_info E d.endpoints;
  }

  -- The transfer for a selected interface, if its descriptor is found.
  abbrev pub selected_interface : Option (List ℕ) → Memory → Option ControlTransfer
  selected_interface none m = none
  selected_interface (some stored) m =
      let i = m.interface_at 0 in
      interface_transfer (find_interface stored i.interface_number i.alternate_setting)

  -- The packet that the second switch logs, if any.
  unfoldable pub packet_of : Resources → Device → ℕ → Urb → Bool → Option Packet
  packet_of r d irp urb post =
      let c = context d irp urb in
      elim urb.body [
        | select_configuration m descriptor ↦ some (
            control_packet c
              (wrap_select_configuration
                (elim descriptor [ none ↦ none | some stored ↦ some stored.configuration_value ]))
              post)
        | select_interface m ↦ control_of c post (selected_interface d.descriptor m)
        | control_transfer t ↦ some (control_packet c t post)
        | descriptor_request function t ↦ some (control_packet c (wrap_descriptor function t) post)
        | status_request recipient t ↦ some (control_packet c (wrap_status recipient t) post)
        | vendor_class_request kind recipient t ↦
            some (control_packet c (wrap_vendor_class kind recipient t) post)
        | bulk_or_interrupt t ↦ some (bulk_packet c t post)
        | isoch_transfer t ↦ isoch_packet r.header_room r.entries_room c t post
        | pipe_request handle ↦ some (pipe_packet c handle post)
        | get_current_frame_number n ↦ some (frame_packet c n r.garbage post)
        | other ↦ if post then some (unknown_packet c) else none
      ]

  -- A URB of an unknown function is recorded on its way to the bus driver.
  unfoldable pub record_unknown : Resources → Device → ℕ → Urb → Bool → Device
  record_unknown r d irp urb true = d
  record_unknown r d irp urb false = elim urb.body [
    | other ↦ record d {
      urbs = add_urb_irp_info U r.urb_room d.urbs (record {
        irp = irp;
        timestamp = r.now;
        status = urb.status;
        function = urb.function;
        info = 0;
        bus = d.bus_id;
        device = d.device_address;
      });
    }
    | _ ↦ d
  ]

  -- What is found of a URB that comes back, and the device without it.
  unfoldable pub obtain : Device → ℕ → Bool → Option UrbIrpInfo × Device
  obtain d irp false = (none, d)
  obtain d irp true =
      let (found, urbs) = obtain_urb_irp_info U d.urbs irp in (found, record d { urbs = urbs })

  -- `USBPcapAnalyzeURB`: the logging calls that it makes, in order, and the device after; `none`
  -- is a write to NULL.
  unfoldable pub analyze_urb : Resources → Device → ℕ → Urb → Bool → Option (List Call × Device)
  analyze_urb r d irp urb post =
      let (found, obtained) = obtain d irp post in
      elim (analyze_always r obtained urb post) [
        | none ↦ none
        | some d' ↦
            if is_device_filtered d'.filter (pos d'.device_address)
            then some (
              submit_calls found irp ++ packet_calls r.now (packet_of r d' irp urb post),
              record_unknown r d' irp urb post,
            )
            else some ([], d')
      ]
