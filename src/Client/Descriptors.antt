-- ===== src/Client/Descriptors.antt =====
-- USBPcapCMD/descriptors.c: the control transfers that the client writes in front of a capture, as
-- if the devices that are connected were asked for their descriptors. What the devices and the
-- system answer is a parameter (`DeviceSystem`); allocations, which the source does not check, are
-- taken to succeed, but for the one that it checks. The linked list is the list of its data.
pub mod Records
pub mod File
mod Tests
use usbpcap_ai.Base.{
  ℕ, zero, suc, ◌+◌, ◌-◌, ◌*◌, ◌/◌, ◌%◌, Bool, true, false, Option, none, some, List, [], ◌∷◌, ◌++◌,
  length, drop, take, get_or, ltb, leb, ◌==◌, ◌&&◌, if◌then◌else◌, u16_mod, u32_mod, of_le16,
}
use usbpcap_ai.Format.{
  PacketHeader, PcaprecHdr, control_header_size, control_stage_complete, control_stage_setup,
  packet_header_bytes, pcaprec_hdr_bytes, transfer_control,
}
use usbpcap_ai.Filter.{AddressFilter, is_device_filtered, is_digit, pos}

-- `USB_DEVICE_DESCRIPTOR`
pub record DeviceDescriptor : Type 0 where
  pub length : ℕ
  pub descriptor_type : ℕ
  pub usb : ℕ
  pub device_class : ℕ
  pub device_sub_class : ℕ
  pub device_protocol : ℕ
  pub max_packet_size : ℕ
  pub vendor : ℕ
  pub product : ℕ
  pub release : ℕ
  pub manufacturer : ℕ
  pub product_string : ℕ
  pub serial_number : ℕ
  pub configurations : ℕ

-- `USB_DESCRIPTOR_REQUEST`, whose size without the data is 12.
pub record DescriptorRequest : Type 0 where
  pub connection_index : ℕ
  pub request_type : ℕ
  pub request : ℕ
  pub value : ℕ
  pub index : ℕ
  pub size : ℕ
  pub payload : List ℕ

-- A device that the enumeration calls back for: its port, its address and its descriptor.
pub record ConnectedDevice : Type 0 where
  pub port : ℕ
  pub device_address : ℕ
  pub descriptor : DeviceDescriptor

-- DeviceIoControl(…, IOCTL_USB_GET_DESCRIPTOR_FROM_NODE_CONNECTION, …) for a request of so many
-- bytes: whether it succeeds, the bytes returned, and the data behind the request; whether malloc
-- succeeds; the time of each call of GetSystemTimeAsFileTime; and atoi, cut to 16 bits.
pub record DeviceSystem : Type 0 where
  pub get_descriptor : ℕ → DescriptorRequest → Option (ℕ × List ℕ)
  pub room : ℕ → Bool
  pub time : ℕ → ℕ
  pub atoi_word : List ℕ → ℕ

abbrev pub configuration_request : ℕ → ℕ → ℕ → DescriptorRequest
configuration_request port index n = record {
  connection_index = port;
  request_type = 0x80;
  request = 6;
  value = 2 * 256 + index;
  index = 0;
  size = (n - 12) % u16_mod;
  payload = [];
}

-- wTotalLength
abbrev pub total_length : List ℕ → ℕ
total_length descriptor = of_le16 (get_or descriptor 2 0) (get_or descriptor 3 0)

-- A query of `n` bytes that returns as many.
abbrev pub queried : DeviceSystem → ℕ → DescriptorRequest → Option DescriptorRequest
queried o n q = elim (o.get_descriptor n q) [
  | none ↦ none
  | some (returned, answer) ↦ if n == returned then some (record q { payload = answer }) else none
]

-- The check that wTotalLength did not change between the queries.
abbrev pub unchanged : ℕ → Option DescriptorRequest → Option DescriptorRequest
unchanged n none = none
unchanged n (some whole) = if total_length whole.payload == n - 12 then some whole else none

-- The second query, for the whole descriptor.
abbrev pub query_whole : DeviceSystem → ℕ → ℕ → Option DescriptorRequest → Option DescriptorRequest
query_whole o port index none = none
query_whole o port index (some common) =
    let n = 12 + total_length common.payload in
    if ltb (total_length common.payload) 9
    then none
    else if o.room n
    then unchanged n (queried o n (configuration_request port index n))
    else none

-- `get_config_descriptor`
unfoldable pub get_config_descriptor : DeviceSystem → ℕ → ℕ → Option DescriptorRequest
get_config_descriptor o port index =
    query_whole o port index (queried o 21 (configuration_request port index 21))

-- `descriptor_callback_context`
pub record DescriptorContext : Type 0 where
  pub roothub : ℕ
  pub addresses : AddressFilter
  pub entries : List (List ℕ)

-- `initialize_control_header`
unfoldable pub initialize_control_header : ℕ → ℕ → ℕ → ℕ → ℕ → Bool → Bool → PacketHeader
initialize_control_header bus device_address data_length stage function from_pdo out = record {
  header_len = control_header_size;
  irp_id = 0;
  status = 0;
  function = function;
  info = if from_pdo then 1 else 0;
  bus = bus;
  device = device_address;
  endpoint = if out then 0 else 0x80;
  transfer = transfer_control;
  data_length = data_length;
  rest = stage ∷ [];
}

-- `add_to_list`
unfoldable pub add_to_list : DescriptorContext → List ℕ → DescriptorContext
add_to_list ctx packet = record ctx { entries = ctx.entries ++ (packet ∷ []) }

-- A 16-bit field as its bytes.
abbrev pub bytes_of : ℕ → List ℕ
bytes_of x = x % 256 ∷ x / 256 % 256 ∷ []

-- `write_setup_packet`
unfoldable pub write_setup_packet :
    DescriptorContext → ℕ → ℕ → ℕ → ℕ → ℕ → ℕ → ℕ → Bool → DescriptorContext
write_setup_packet ctx function device_address request_type request value index size out =
    add_to_list ctx (
      packet_header_bytes (
        initialize_control_header ctx.roothub device_address 8 control_stage_setup function false
          out)
      ++ (request_type ∷ request ∷ (bytes_of value ++ (bytes_of index ++ bytes_of size))))

-- `write_complete_packet`, with the length of the payload.
unfoldable pub write_complete_packet :
    DescriptorContext → ℕ → ℕ → List ℕ → ℕ → Bool → DescriptorContext
write_complete_packet ctx function device_address payload payload_length out = add_to_list ctx (
    packet_header_bytes (
      initialize_control_header ctx.roothub device_address payload_length control_stage_complete
        function true out)
    ++ take payload_length payload)

-- The payload that `write_device_descriptor_complete` copies field by field.
abbrev pub device_descriptor_bytes : DeviceDescriptor → List ℕ
device_descriptor_bytes d =
    (d.length ∷ d.descriptor_type ∷ bytes_of d.usb)
    ++ ((d.device_class ∷ d.device_sub_class ∷ d.device_protocol ∷ d.max_packet_size ∷ [])
        ++ (bytes_of d.vendor
            ++ (bytes_of d.product
                ++ (bytes_of d.release
                    ++ (d.manufacturer ∷ d.product_string ∷ d.serial_number ∷ d.configurations
                        ∷ [])))))

-- `write_device_descriptor_complete`
unfoldable pub write_device_descriptor_complete :
    DescriptorContext → ℕ → DeviceDescriptor → DescriptorContext
write_device_descriptor_complete ctx device_address d = add_to_list ctx (
    packet_header_bytes (
      initialize_control_header ctx.roothub device_address 18 control_stage_complete 0x0008 true
        false)
    ++ device_descriptor_bytes d)

-- The packets for a configuration descriptor that was read; bConfigurationValue is its sixth byte.
unfoldable pub write_configuration : DescriptorContext → ℕ → DescriptorRequest → DescriptorContext
write_configuration ctx device_address q =
    let asked =
      write_setup_packet ctx 0x000B device_address q.request_type q.request q.value q.index q.size
        false in
    let answered = write_complete_packet asked 0x0008 device_address q.payload q.size false in
    let sets = write_setup_packet answered 0 device_address 0 9 (get_or q.payload 5 0) 0 0 true in
    write_complete_packet sets 0 device_address [] 0 true

-- `descriptor_callback`
unfoldable pub descriptor_callback :
    DeviceSystem → DescriptorContext → ConnectedDevice → DescriptorContext
descriptor_callback o ctx d =
    let asked = write_setup_packet ctx 0x000B d.device_address 0x80 6 256 0 18 false in
    let answered = write_device_descriptor_complete asked d.device_address d.descriptor in
    if is_device_filtered ctx.addresses (pos d.device_address)
    then (elim (get_config_descriptor o d.port 0) [
      | none ↦ answered
      | some q ↦ write_configuration answered d.device_address q
    ])
    else ctx

-- The record header of an entry; the time is a count of 100 ns.
abbrev pub entry_header : ℕ → List ℕ → PcaprecHdr
entry_header timestamp packet = record {
  ts_sec = (timestamp / 10000000 + 3 * u32_mod - 11644473600) % u32_mod;
  ts_usec = timestamp % 10000000 / 10 % u32_mod;
  incl_len = length packet;
  orig_len = length packet;
}

-- The second loop of `generate_pcap_packets`, from the entry with a number on.
unfoldable pub generate_pcap_packets : DeviceSystem → ℕ → List (List ℕ) → List ℕ
generate_pcap_packets o i [] = []
generate_pcap_packets o i (packet ∷ entries) =
    (pcaprec_hdr_bytes (entry_header (o.time i) packet) ++ packet)
    ++ generate_pcap_packets o (i + 1) entries

-- The callbacks of the enumeration, in order.
unfoldable pub enumerated :
    DeviceSystem → DescriptorContext → List ConnectedDevice → DescriptorContext
enumerated o ctx [] = ctx
enumerated o ctx (d ∷ ds) = enumerated o (descriptor_callback o ctx d) ds

-- The loop that looks for the number at the end of the name of a filter, from a place on.
unfoldable pub number_place : List ℕ → ℕ → ℕ
number_place name zero = 0
number_place name (suc i) =
    let earlier = number_place name i in
    if is_digit (get_or name (suc i) 0) then earlier else suc (suc i)

-- `descriptors_generate_pcap`, with the devices that are enumerated; `none` where the name is
-- empty, and the memory in front of it is read.
unfoldable pub descriptors_generate_pcap :
    DeviceSystem → List ℕ → AddressFilter → List ConnectedDevice → Option (List ℕ)
descriptors_generate_pcap o [] addresses devices = none
descriptors_generate_pcap o (c ∷ name) addresses devices =
    let ctx : DescriptorContext = record {
      roothub = o.atoi_word (drop (number_place (c ∷ name) (length name)) (c ∷ name));
      addresses = addresses;
      entries = [];
    } in
    some (generate_pcap_packets o 0 (enumerated o ctx devices).entries)
