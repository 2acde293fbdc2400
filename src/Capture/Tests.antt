-- ===== src/Capture/Tests.antt =====
-- The theorems on a capture at a bulk transfer of two bytes to a device, its completion and a read.
use usbpcap_ai.Base.{
  ℕ, zero, suc, ◌≡◌, refl, true, false, some, IfSome, List, [], ◌∷◌, ◌++◌, append-nil, length,
  has_bit, arith,
}
use usbpcap_ai.Format.{packet_header_bytes, pcap_hdr_size, pcaprec_hdr_bytes}
use usbpcap_ai.Control.{DeviceMagic}
use usbpcap_ai.Queue.{Irp, csq_insert_irp, csq_peek_next_irp, csq_remove_next_irp}
use usbpcap_ai.Filter.{is_device_filtered}
use usbpcap_ai.Buffer.{
  get_buffer_free, get_buffer_allocated, buffer_write_unsafe, buffer_copy_out, buffer_read,
}
use usbpcap_ai.Buffer.Inv.{IsRing}
use usbpcap_ai.Buffer.Fifo.{between, contents}
use usbpcap_ai.Buffer.Irp.{
  Hub, buffer_handle_read_irp, complete_pended_read_irp, fill_pended_irp, write_timestamped_payload,
}
use usbpcap_ai.Buffer.Packet.{
  write_record, write_payload, store_packet, initialize_pcap_header, missing_payload,
}
use usbpcap_ai.Buffer.Irp.Stream.{Call, Delivers, logs, reads, run, step}
use usbpcap_ai.Tables.Assoc.{list_insert, list_lookup, list_table}
use usbpcap_ai.Tables.Endpoint.{retrieve_endpoint_info}
use usbpcap_ai.Tables.UrbIrp.{obtain_urb_irp_info}
use usbpcap_ai.Client.Parser.{
  Options, Outside, Parser, StoreMode, WriteResult, fresh_parser, process_all,
}
use usbpcap_ai.Client.Parser.Reads.{concat}
use usbpcap_ai.Client.Parser.Records.{AreRecords, CaptureRecord, stream}
use usbpcap_ai.Client.Parser.Records.Output.{output_bytes}
use usbpcap_ai.Client.Parser.Works.{Works}
use usbpcap_ai.Urb.Samples.{
  bulk, bulk_transfer, device, endpoints, find_none, resources, sizes, urbs,
}
use usbpcap_ai.Urb.Packets.{bulk_packet}
use usbpcap_ai.Urb.Analyze.{analyze_always, analyze_urb, context, obtain, packet_of, record_unknown}
use usbpcap_ai.Urb.Analyze.Records.{IsRecords}
use usbpcap_ai.Urb.Dispatch.{
  Extension, InternalRequest, analyze_some, in_dev_ctl, tgt_in_dev_ctl, tgt_in_dev_ctl_completion,
}
use usbpcap_ai.Capture.{Event, handle_event, handle_events}
use usbpcap_ai.Capture.Traffic.{AreEvents, handle_events-IsRecords}
use usbpcap_ai.Capture.File.{capture-process_all}

abbrev extension : Extension endpoints urbs sizes find_none
extension = record {
  magic = DeviceMagic.device;
  has_next = true;
  held = 0;
  data_of_device = device 1;
}

abbrev request : InternalRequest
request = record {
  irp = 4096;
  is_submit = true;
  urb = some bulk;
  first_lock = true;
  second_lock = true;
}

abbrev irp : Irp
irp = record { irp = 1; file_object = 4; mdl = some 4096 }

abbrev events : List Event
events =
    Event.sends resources request
    ∷ Event.is_read irp 4096
    ∷ Event.comes_back resources 4096 (some bulk)
    ∷ Event.is_read irp 4096
    ∷ []

events-AreEvents : AreEvents events
events-AreEvents = (
  record { fits = omega arith; small = omega arith },
  (record { fits = omega arith; small = omega arith }, tt),
)

abbrev zeros : ℕ → List ℕ
zeros zero = []
zeros (suc n) = 0 ∷ zeros n

-- A buffer of which 24 bytes wait.
abbrev hub : Hub
hub = record {
  ring = record {
    buffer = some (zeros 256);
    buffer_size = 256;
    read_offset = 0;
    write_offset = 24;
    snaplen = 65535;
  };
  pend_irps = [];
}

hub-IsRing : IsRing hub.ring
hub-IsRing = record {
  sized = refl;
  small = omega arith;
  read_in = omega arith;
  write_in = omega arith;
  present = refl;
}

handle_events-IsRecords_example :
    IfSome
      (λ y.
        let (added, out, h') = run hub y.0 in
        IsRecords added × Delivers (contents hub.ring ++ added) out h'.ring)
      (handle_events endpoints urbs sizes find_none extension events)
handle_events-IsRecords_example =
    handle_events-IsRecords endpoints urbs sizes find_none extension events hub events-AreEvents
      hub-IsRing

-- The calls: the packet with the data, a read, the packet without data, a read.
abbrev calls : List Call
calls =
    let context = context endpoints urbs sizes find_none extension.data_of_device 4096 bulk in
    let before = bulk_packet context bulk_transfer false in
    let after = bulk_packet context bulk_transfer true in
    logs resources.now before.header before.payload
    ∷ reads irp 4096
    ∷ logs resources.now after.header after.payload
    ∷ reads irp 4096
    ∷ []

events-calls :
    handle_events endpoints urbs sizes find_none extension events ≡ some (calls, extension)
unfolding handle_events handle_event in_dev_ctl tgt_in_dev_ctl tgt_in_dev_ctl_completion
    analyze_some analyze_urb analyze_always packet_of record_unknown obtain obtain_urb_irp_info
    is_device_filtered list_table list_lookup list_insert
events-calls = refl

outcome_length : length (run hub calls).1 ≡ 112
unfolding run step buffer_handle_read_irp complete_pended_read_irp fill_pended_irp
    write_timestamped_payload write_record write_payload store_packet initialize_pcap_header
    missing_payload bulk_packet has_bit retrieve_endpoint_info list_table list_insert list_lookup
    get_buffer_free get_buffer_allocated buffer_write_unsafe buffer_copy_out buffer_read
    csq_insert_irp csq_remove_next_irp packet_header_bytes pcaprec_hdr_bytes csq_peek_next_irp
outcome_length = refl

all_read : contents (run hub calls).2.ring ≡ []
unfolding run step buffer_handle_read_irp complete_pended_read_irp fill_pended_irp
    write_timestamped_payload write_record write_payload store_packet initialize_pcap_header
    missing_payload bulk_packet has_bit retrieve_endpoint_info list_table list_insert list_lookup
    get_buffer_free get_buffer_allocated buffer_write_unsafe buffer_copy_out buffer_read
    csq_insert_irp csq_remove_next_irp packet_header_bytes pcaprec_hdr_bytes csq_peek_next_irp
    contents between
all_read = refl

abbrev outside : Outside
outside = record {
  open_output = true;
  write_file = λ file bytes. WriteResult.at_once;
  room = λ size. true;
}

outside-Works : Works outside
outside-Works = record { opens = refl; writes = λ file bytes. refl; has_room = λ size. refl }

-- Endpoint 1 is stored.
abbrev options : Options
options = record {
  app_filter = record {
    enabled = true;
    has_vendor_id = false;
    has_product_id = false;
    has_endpoint = true;
    has_transfer_type = false;
    vendor_id = 0;
    product_id = 0;
    endpoint = 1;
    transfer_type = 0;
  };
  device_metadata = [];
  store_mode = StoreMode.on_match;
  descriptors = [];
}

opened : length (contents hub.ring) ≡ pcap_hdr_size
unfolding contents between
opened = refl

one_piece : (bytes : List ℕ) → bytes ++ concat [] ≡ bytes
unfolding concat
one_piece bytes = append-nil bytes

capture-process_all_example :
    (rs : List CaptureRecord) × (q : Parser) × AreRecords rs
    × ((run hub calls).1 ≡ contents hub.ring ++ stream rs [])
    × (process_all outside options 200 fresh_parser ((run hub calls).1 ∷ []) ≡ some q)
    × (q.session.written ≡ output_bytes options (contents hub.ring) rs)
    × (q.session.pending ≡ [])
capture-process_all_example =
    capture-process_all endpoints urbs sizes find_none outside options outside-Works extension
      extension events hub calls 200 (run hub calls).1 [] events-AreEvents hub-IsRing opened
      events-calls all_read (one_piece (run hub calls).1) (omega (arith, outcome_length))
      (omega (arith, outcome_length)) refl
