-- ===== src/Urb/Packets.antt =====
-- USBPcapDriver/USBPcapURB.c: the packets that transfers become, each a header with the entries of
-- its payload. `post` is false on the way to the bus driver (FDO to PDO), true on the way back.
pub mod Isoch
pub mod Complete
pub mod Data
use usbpcap_ai.Base.{
  ℕ, zero, suc, ◌+◌, ◌*◌, ◌%◌, Bool, true, false, not, ◌&&◌, ◌||◌, Option, none, some, List, [],
  ◌∷◌, length, ◌==◌, if◌then◌else◌, add32, le32, has_bit, set_bit,
}
use usbpcap_ai.Format.{
  PacketHeader, control_stage_complete, control_stage_setup, info_pdo_to_fdo, packet_header_size,
  control_header_size, transfer_bulk, transfer_control, transfer_interrupt, transfer_irp_info,
  transfer_unknown,
}
use usbpcap_ai.Buffer.Packet.{PayloadEntry}
use usbpcap_ai.Urb.{BulkTransfer, Context, ControlTransfer, get_buffer_pointer, is_direction_in}

-- A packet to log.
pub record Packet : Type 0 where
  pub header : PacketHeader
  pub payload : List PayloadEntry

abbrev pub no_entry : PayloadEntry
no_entry = record { size = 0; buffer = none }

-- The entries that `USBPcapBufferWritePacket` makes for a buffer.
abbrev pub one_entry : ℕ → Option (List ℕ) → List PayloadEntry
one_entry data_length buffer = record { size = data_length; buffer = buffer } ∷ no_entry ∷ []

abbrev pub info_of : Bool → ℕ
info_of post = if post then info_pdo_to_fdo else 0

-- The fields that all packets fill in the same way.
abbrev pub urb_header : Context → Bool → ℕ → ℕ → ℕ → ℕ → ℕ → List ℕ → PacketHeader
urb_header c post header_len device endpoint transfer data_length rest = record {
  header_len = header_len;
  irp_id = c.irp_id;
  status = c.status;
  function = c.function;
  info = info_of post;
  bus = c.bus_id;
  device = device;
  endpoint = endpoint;
  transfer = transfer;
  data_length = data_length;
  rest = rest;
}

-- The endpoint that `USBPcapAnalyzeControlTransfer` reports.
unfoldable pub control_endpoint : Context → ControlTransfer → ℕ
control_endpoint c t =
    let found : ℕ = elim (c.retrieve t.pipe_handle) [
      | none ↦ 0
      | some info ↦ info.endpoint_address
    ] in
    let endpoint = if has_bit t.transfer_flags 3 || t.pipe_handle == 0 then 0 else found in
    if is_direction_in t.transfer_flags then set_bit endpoint 7 else endpoint

abbrev pub control_header : Context → ControlTransfer → Bool → ℕ → ℕ → PacketHeader
control_header c t post data_length stage =
    urb_header c post control_header_size c.device_address (control_endpoint c t) transfer_control
      data_length (stage ∷ [])

-- `USBPcapAnalyzeControlTransfer`: the setup stage, with data to the device, or the complete
-- stage, with data from the device.
unfoldable pub control_packet : Context → ControlTransfer → Bool → Packet
control_packet c t post =
    let address = get_buffer_pointer t.transfer in
    let data_length = t.transfer.buffer_length in
    let from_device = is_direction_in t.transfer_flags in
    let setup : PayloadEntry = record { size = 8; buffer = some t.setup_packet } in
    let data_entry : PayloadEntry = record { size = data_length; buffer = address } in
    if post
    then (if from_device
        then record {
          header = control_header c t post data_length control_stage_complete;
          payload = data_entry ∷ no_entry ∷ [];
        }
        else record {
          header = control_header c t post 0 control_stage_complete;
          payload = no_entry ∷ no_entry ∷ [];
        })
    else if from_device
    then record {
      header = control_header c t post 8 control_stage_setup;
      payload = setup ∷ no_entry ∷ no_entry ∷ [];
    }
    else record {
      header = control_header c t post (add32 8 data_length) control_stage_setup;
      payload = setup ∷ data_entry ∷ no_entry ∷ [];
    }

-- The device, endpoint and transfer type of a bulk or interrupt transfer. UsbdPipeTypeInterrupt
-- is 3; any other type is taken for bulk.
abbrev pub bulk_device : Context → ℕ → ℕ
bulk_device c handle = elim (c.retrieve handle) [
  | none ↦ c.device_address
  | some info ↦ info.device_address
]

abbrev pub bulk_endpoint : Context → ℕ → ℕ
bulk_endpoint c handle = elim (c.retrieve handle) [
  | none ↦ 0xFF
  | some info ↦ info.endpoint_address
]

abbrev pub bulk_type : Context → ℕ → ℕ
bulk_type c handle = elim (c.retrieve handle) [
  | none ↦ transfer_bulk
  | some info ↦ if info.pipe_type == 3 then transfer_interrupt else transfer_bulk
]

-- The case URB_FUNCTION_BULK_OR_INTERRUPT_TRANSFER: data of an IN endpoint are logged on the way
-- back, those of an OUT endpoint on the way to the bus driver.
unfoldable pub bulk_packet : Context → BulkTransfer → Bool → Packet
bulk_packet c t post =
    let endpoint = bulk_endpoint c t.pipe_handle in
    let with_data = (has_bit endpoint 7 && post) || (not (has_bit endpoint 7) && not post) in
    let data_length = if with_data then t.transfer.buffer_length else 0 in
    let address = if with_data then get_buffer_pointer t.transfer else none in
    record {
      header =
          urb_header c post packet_header_size (bulk_device c t.pipe_handle) endpoint
            (bulk_type c t.pipe_handle) data_length [];
      payload = one_entry data_length address;
    }

-- The cases of a pipe request: reset, clear stall, abort, close streams.
unfoldable pub pipe_packet : Context → ℕ → Bool → Packet
pipe_packet c handle post = record {
  header =
      urb_header c post packet_header_size (bulk_device c handle) (bulk_endpoint c handle)
        (elim (c.retrieve handle) [ none ↦ transfer_unknown | some info ↦ transfer_irp_info ]) 0 [];
  payload = one_entry 0 none;
}

-- The case URB_FUNCTION_GET_CURRENT_FRAME_NUMBER. On the way to the bus driver `frameNum` is not
-- set; its four bytes are then `garbage`.
unfoldable pub frame_packet : Context → ℕ → List ℕ → Bool → Packet
frame_packet c frame_number garbage post =
    let data_length = if post then 4 else 0 in
    record {
      header =
          urb_header c post packet_header_size c.device_address 0x80 transfer_irp_info data_length
            [];
      payload = one_entry data_length (some (if post then le32 frame_number else garbage));
    }

-- The packet for a URB of an unknown function that comes back.
unfoldable pub unknown_packet : Context → Packet
unknown_packet c = record {
  header = urb_header c true packet_header_size c.device_address 0 transfer_unknown 0 [];
  payload = one_entry 0 none;
}
