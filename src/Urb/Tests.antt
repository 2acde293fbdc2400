-- ===== src/Urb/Tests.antt =====
-- The theorems on USBPcapDriver/USBPcapURB.c at concrete URBs.
use usbpcap_ai.Base.{
  ◌+◌, ◌≡◌, refl, true, false, none, some, IfSome, List, [], ◌∷◌, ◌++◌, has_bit, le32,
  if◌then◌else◌, arith,
}
use usbpcap_ai.Filter.{get_address_range_and_index, is_device_filtered, pos}
use usbpcap_ai.Buffer.{RingData, memory}
use usbpcap_ai.Buffer.Packet.Store.{payload_bytes}
use usbpcap_ai.Buffer.Irp.Stream.{Call, logs}
use usbpcap_ai.Control.{DeviceMagic}
use usbpcap_ai.Tables.Assoc.{list_insert, list_lookup, list_table}
use usbpcap_ai.Tables.Endpoint.{retrieve_endpoint_info}
use usbpcap_ai.Urb.{
  BulkTransfer, Context, ControlTransfer, IsoPacket, IsochTransfer, Transfer, VendorClassRequest,
  get_buffer_pointer, is_direction_in,
}
use usbpcap_ai.Urb.Packets.{Packet, bulk_packet, control_packet, one_entry}
use usbpcap_ai.Urb.Packets.Complete.{IsControl, IsTransfer, data_of}
use usbpcap_ai.Urb.Packets.Data.{bulk_packet-payload_bytes, control_packet-payload_bytes}
use usbpcap_ai.Urb.Packets.Isoch.{isoch_packet, packet_table}
use usbpcap_ai.Urb.Packets.Isoch.Compact.{IsIsoch, concatenated, slices}
use usbpcap_ai.Urb.Packets.Isoch.Gathered.{isoch_packet-slices}
use usbpcap_ai.Urb.Interfaces.{
  is_sane, pipe_offsets, Memory, parse_interface_information, parse_rounds,
}
use usbpcap_ai.Urb.Interfaces.Bounds.{IsMemory, WithinAll, parse-WithinAll}
use usbpcap_ai.Urb.Analyze.{
  Device, Urb, UrbBody, analyze_always, analyze_urb, context, submit_header,
}
use usbpcap_ai.Urb.Analyze.Complete.{AreCompleteCalls, analyze_urb-AreCompleteCalls}
use usbpcap_ai.Urb.Analyze.Pipes.{known_or, last_pipe, retrieve-analyze_always}
use usbpcap_ai.Urb.Analyze.Unknown.{analyze_urb-unfiltered, analyze_urb-unknown}
use usbpcap_ai.Urb.Dispatch.{Extension, InternalRequest, in_dev_ctl}
use usbpcap_ai.Urb.Dispatch.Locks.{in_dev_ctl-held, kept}
use usbpcap_ai.Urb.Samples.{
  bulk, bulk_transfer, device, endpoints, find_none, resources, sizes, urbs,
}

abbrev transfer : Transfer
transfer = bulk_transfer.transfer

transfer-IsTransfer : IsTransfer transfer
transfer-IsTransfer = record { fits = omega arith; small = omega arith }

abbrev sample_context : Context
sample_context = context endpoints urbs sizes find_none (device 1) 4096 bulk

-- A control transfer of two bytes from the device.
abbrev control : ControlTransfer
control = record {
  pipe_handle = 0;
  transfer_flags = 1;
  transfer = transfer;
  setup_packet = 128 ∷ 6 ∷ 0 ∷ 1 ∷ 0 ∷ 0 ∷ 2 ∷ 0 ∷ [];
}

control-IsControl : IsControl control
control-IsControl = record { valid = transfer-IsTransfer; eight = refl }

-- Two packets of three and two bytes, the five bytes received, in memory of eight, with gaps.
abbrev isoch : IsochTransfer
isoch = record {
  pipe_handle = 77;
  transfer_flags = 1;
  transfer = record {
    buffer_length = 5;
    buffer = some (1 ∷ 2 ∷ 3 ∷ 0 ∷ 4 ∷ 5 ∷ 0 ∷ 0 ∷ []);
    mdl = none;
  };
  start_frame = 9;
  error_count = 0;
  packets =
      record { offset = 0; length = 3; status = 0 }
      ∷ record { offset = 4; length = 2; status = 0 }
      ∷ [];
}

isoch-IsIsoch : IsIsoch isoch
isoch-IsIsoch = record {
  valid = record { fits = omega arith; small = omega arith };
  inside = (omega arith, (omega arith, tt));
  no_wrap = omega arith;
}

control_packet-payload_bytes_example :
    (payload_bytes (control_packet sample_context control false).payload
      ≡ control.setup_packet ++ (if is_direction_in 1 then [] else data_of transfer))
    × (payload_bytes (control_packet sample_context control true).payload
        ≡ (if is_direction_in 1 then data_of transfer else []))
control_packet-payload_bytes_example =
    control_packet-payload_bytes sample_context control control-IsControl

bulk_packet-payload_bytes_example :
    (payload_bytes (bulk_packet sample_context bulk_transfer false).payload ≡ (
      if has_bit (bulk_packet sample_context bulk_transfer false).header.endpoint 7
      then []
      else data_of transfer))
    × (payload_bytes (bulk_packet sample_context bulk_transfer true).payload ≡ (
        if has_bit (bulk_packet sample_context bulk_transfer true).header.endpoint 7
        then data_of transfer
        else []))
bulk_packet-payload_bytes_example =
    bulk_packet-payload_bytes sample_context bulk_transfer transfer-IsTransfer

isoch_inbound : is_direction_in 1 ≡ true
unfolding has_bit
isoch_inbound = refl

isoch_packet-slices_example :
    (p : Packet) × (table : List IsoPacket) × (isoch_packet true true sample_context isoch true
      ≡ some p)
    × (payload_bytes p.payload
        ≡ concatenated (slices (memory (get_buffer_pointer isoch.transfer)) isoch.packets))
    × (p.header.rest ≡ le32 9 ++ (le32 2 ++ (le32 0 ++ packet_table table)))
    × (slices (payload_bytes p.payload) table
        ≡ slices (memory (get_buffer_pointer isoch.transfer)) isoch.packets)
isoch_packet-slices_example =
    isoch_packet-slices sample_context isoch isoch-IsIsoch isoch_inbound (omega arith) (omega arith)
      (omega arith)

analyze_urb-AreCompleteCalls_example :
    IfSome
      (λ x. AreCompleteCalls x.0)
      (analyze_urb endpoints urbs sizes find_none resources (device 1) 4096 bulk false)
analyze_urb-AreCompleteCalls_example =
    analyze_urb-AreCompleteCalls endpoints urbs sizes find_none resources (device 1) 4096 bulk false
      transfer-IsTransfer

unfiltered : is_device_filtered (device 0).filter (pos 5) ≡ false
unfolding is_device_filtered has_bit get_address_range_and_index
unfiltered = refl

filtered : is_device_filtered (device 1).filter (pos 5) ≡ true
unfolding is_device_filtered
filtered = refl

analyze_urb-unfiltered_example :
    IfSome
      (λ y. y.0 ≡ [])
      (analyze_urb endpoints urbs sizes find_none resources (device 0) 4096 bulk true)
analyze_urb-unfiltered_example =
    analyze_urb-unfiltered endpoints urbs sizes find_none resources (device 0) 4096 bulk true
      unfiltered

-- A URB of an unknown function.
abbrev unknown : Urb
unknown = record { length = 0; function = 50; status = 0; body = UrbBody.other }

analyze_urb-unknown_example :
    (d' : Device endpoints urbs sizes find_none) × (analyze_urb endpoints urbs sizes find_none
        resources
        (device 1)
        8192
        unknown
        false
      ≡ some ([], d'))
    × IfSome
        (λ y.
          (others : List Call) × (y.0
            ≡ logs resources.now
                (submit_header
                  (record {
                    irp = 8192;
                    timestamp = resources.now;
                    status = 0;
                    function = 50;
                    info = 0;
                    bus = 1;
                    device = 5;
                  })
                  8192)
                (one_entry 0 none)
              ∷ others))
        (analyze_urb endpoints urbs sizes find_none resources d' 8192 bulk true)
analyze_urb-unknown_example =
    analyze_urb-unknown endpoints urbs sizes find_none resources resources (device 1) 8192 unknown
      bulk refl refl (urbs.lookup-empty 8192) filtered

-- One interface with two pipes.
abbrev interfaces : Memory
interfaces = record {
  interface_at =
      λ o. record { length = 72; interface_number = 0; alternate_setting = 0; number_of_pipes = 2 };
  pipe_at = λ o. record { pipe_handle = 1000 + o; type = 2; address = 129 };
}

interfaces-IsMemory : IsMemory sizes.layout interfaces
interfaces-IsMemory = record { covers = omega arith; no_wrap = λ o. omega arith }

parse-WithinAll_example :
    WithinAll sizes.layout 72 (parse_interface_information sizes.layout interfaces 72)
parse-WithinAll_example = parse-WithinAll sizes.layout interfaces 72 interfaces-IsMemory

abbrev selects : Urb
selects = record {
  length = 112;
  function = 0;
  status = 0;
  body = UrbBody.select_configuration interfaces none;
}

retrieve-analyze_always_example :
    IfSome
      (λ d'.
        retrieve_endpoint_info endpoints d'.endpoints 1024
        ≡ known_or
            (retrieve_endpoint_info endpoints (device 1).endpoints 1024)
            5
            (last_pipe interfaces 1024 (parse_interface_information sizes.layout interfaces 72)))
      (analyze_always endpoints urbs sizes find_none resources (device 1) selects true)
retrieve-analyze_always_example =
    retrieve-analyze_always endpoints urbs sizes find_none resources (device 1) selects interfaces
      none 1024 72 (λ o. refl) refl refl

-- The pipe at the first offset is found.
first_pipe :
    last_pipe interfaces 1024 (parse_interface_information sizes.layout interfaces 72)
    ≡ some (record { pipe_handle = 1024; type = 2; address = 129 })
unfolding parse_interface_information parse_rounds is_sane pipe_offsets
first_pipe = refl

abbrev extension : Extension endpoints urbs sizes find_none
extension = record {
  magic = DeviceMagic.device;
  has_next = true;
  held = 3;
  data_of_device = device 1;
}

abbrev request : InternalRequest
request = record {
  irp = 4096;
  is_submit = true;
  urb = some bulk;
  first_lock = true;
  second_lock = true;
}

in_dev_ctl-held_example :
    IfSome
      (λ y. y.2.held ≡ 3 + kept y.0)
      (in_dev_ctl endpoints urbs sizes find_none resources extension request)
in_dev_ctl-held_example = in_dev_ctl-held endpoints urbs sizes find_none resources extension request

abbrev vendor : VendorClassRequest
vendor = record { transfer_flags = 1; transfer = transfer; request = 7; value = 300; index = 2 }

-- A transfer of a hundred bytes whose MDL cannot be mapped.
abbrev unmapped : BulkTransfer
unmapped = record {
  pipe_handle = 77;
  transfer = record { buffer_length = 100; buffer = none; mdl = some none };
}

abbrev ring : RingData
ring = record {
  buffer = some [];
  buffer_size = 0;
  read_offset = 0;
  write_offset = 0;
  snaplen = 65535;
}

outgoing : has_bit (bulk_packet sample_context unmapped false).header.endpoint 7 ≡ false
unfolding bulk_packet has_bit retrieve_endpoint_info list_table list_lookup list_insert
outgoing = refl
