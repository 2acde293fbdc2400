-- ===== src/Client/Descriptors/Records.antt =====
-- What USBPcapCMD/descriptors.c makes is a sequence of records, and the file stays one.
use usbpcap_ai.Base.{
  ℕ, ◌+◌, ◌-◌, ◌%◌, ◌≡◌, ◌≤◌, ◌<◌, refl, sym, ap, Bool, true, false, Option, none, some, List, [],
  ◌∷◌, ◌++◌, Option-cases, Bool-cases, IfSome, IfSome-some, inl, inr, length, take, length-append,
  length-take, get_or, ltb, ◌==◌, u16_mod, arith,
}
use usbpcap_ai.Format.{PacketHeader, control_header_size, packet_header_bytes}
use usbpcap_ai.Format.Codec.{length-packet_header_bytes}
use usbpcap_ai.Filter.{AddressFilter, is_device_filtered, pos}
use usbpcap_ai.Client.Parser.Records.{AreRecords, CaptureRecord, record_bytes, stream}
use usbpcap_ai.Client.Descriptors.{
  ConnectedDevice, DescriptorContext, DescriptorRequest, DeviceDescriptor, DeviceSystem,
  add_to_list, descriptor_callback, device_descriptor_bytes, configuration_request,
  descriptors_generate_pcap, entry_header, query_whole, unchanged, enumerated,
  generate_pcap_packets, get_config_descriptor, initialize_control_header, queried, total_length,
  write_complete_packet, write_configuration, write_device_descriptor_complete, write_setup_packet,
}

-- A packet of a control transfer: the header of 28 bytes, and as many bytes as it states.
pub record IsControlPacket (packet : List ℕ) : Type 0 where
  pub header : PacketHeader
  pub payload : List ℕ
  pub made_of : packet ≡ packet_header_bytes header ++ payload
  pub header_size : header.header_len ≡ control_header_size
  pub header_length : length (packet_header_bytes header) ≡ control_header_size
  pub data_size : header.data_length ≡ length payload
  pub small : length payload < u16_mod

abbrev pub AreControlPackets : List (List ℕ) → Type 0
AreControlPackets [] = Unit {0}
AreControlPackets (p ∷ ps) = IsControlPacket p × AreControlPackets ps

AreControlPackets-append :
    (ps : List (List ℕ)) (p : List ℕ)
    → AreControlPackets ps
    → IsControlPacket p
    → AreControlPackets (ps ++ (p ∷ []))
AreControlPackets-append [] p v w = (w, tt)
AreControlPackets-append (q ∷ ps) p v w = (v.0, AreControlPackets-append ps p v.1 w)

module _ (ctx : DescriptorContext) (v : AreControlPackets ctx.entries) where
  add-control :
      (device n stage function : ℕ) (from_pdo out : Bool) (payload : List ℕ)
      → length payload ≡ n
      → n < u16_mod
      → AreControlPackets
          (add_to_list ctx (
            packet_header_bytes
              (initialize_control_header ctx.roothub device n stage function from_pdo out)
            ++ payload)).entries
  unfolding add_to_list initialize_control_header
  add-control device n stage function from_pdo out payload same small =
      let header = initialize_control_header ctx.roothub device n stage function from_pdo out in
      AreControlPackets-append ctx.entries _ v (record {
        header = header;
        payload = payload;
        made_of = refl;
        header_size = refl;
        header_length = length-packet_header_bytes header;
        data_size = sym same;
        small = omega (arith, same, small);
      })

  setup-control :
      (function device request_type request value index size : ℕ) (out : Bool)
      → AreControlPackets
          (write_setup_packet ctx function device request_type request value index size out).entries
  unfolding write_setup_packet
  setup-control function device request_type request value index size out =
      add-control device 8 _ function false out _ refl (omega arith)

  complete-control :
      (function device n : ℕ) (payload : List ℕ) (out : Bool)
      → n ≤ length payload
      → n < u16_mod
      → AreControlPackets (write_complete_packet ctx function device payload n out).entries
  unfolding write_complete_packet
  complete-control function device n payload out fits small =
      add-control device n _ function true out (take n payload)
        (omega (arith, fits, length-take n payload)) small

  device-control :
      (device : ℕ) (d : DeviceDescriptor)
      → AreControlPackets (write_device_descriptor_complete ctx device d).entries
  unfolding write_device_descriptor_complete
  device-control device d =
      add-control device 18 _ 0x0008 true false (device_descriptor_bytes d) refl (omega arith)

-- The system writes the whole buffer behind the request, or the request stays as it is.
pub record IsSystem (o : DeviceSystem) : Type 0 where
  pub fills :
      (n : ℕ) (q : DescriptorRequest) (a : ℕ × List ℕ)
      → o.get_descriptor n q ≡ some a
      → length a.1 ≡ n - 12

module _ (o : DeviceSystem) (system : IsSystem o) where
  queried-length :
      (n : ℕ) (q : DescriptorRequest)
      → IfSome (λ r. (r.size ≡ q.size) × (length r.payload ≡ n - 12)) (queried o n q)
  queried-length n q = elim (Option-cases (o.get_descriptor n q)) [
    | inl e ↦ rw (e, queried) tt
    | inr (a, e) ↦ elim (Bool-cases (n == a.0)) [
      | inl whole ↦ rw (e, whole, queried) (refl, system.fills n q a e)
      | inr short ↦ rw (e, short, queried) tt
    ]
  ]

  unchanged-length :
      (n size : ℕ) (w : Option DescriptorRequest)
      → size ≡ (n - 12) % u16_mod
      → IfSome (λ r. (r.size ≡ size) × (length r.payload ≡ n - 12)) w
      → IfSome (λ q. (q.size ≤ length q.payload) × (q.size < u16_mod)) (unchanged n w)
  unchanged-length n size none same v = tt
  unchanged-length n size (some whole) same v =
      elim (Bool-cases (total_length whole.payload == n - 12)) [
        | inl e ↦ rw e (omega (arith, same, v.0, v.1), omega (arith, same, v.0))
        | inr e ↦ rw e tt
      ]

  query_whole-length :
      (port index : ℕ) (common : Option DescriptorRequest)
      → IfSome
          (λ q. (q.size ≤ length q.payload) × (q.size < u16_mod))
          (query_whole o port index common)
  query_whole-length port index none = tt
  query_whole-length port index (some common) =
      let n = 12 + total_length common.payload in
      elim (Bool-cases (ltb (total_length common.payload) 9)) [
        | inl few ↦ rw few tt
        | inr many ↦ elim (Bool-cases (o.room n)) [
          | inr full ↦ rw (many, full) tt
          | inl room ↦
              rw (many, room)
                (unchanged-length n _ (queried o n (configuration_request port index n)) refl
                  (queried-length n (configuration_request port index n)))
        ]
      ]

  -- A configuration descriptor that was read is as long as the request says.
  get_config_descriptor-length :
      (port index : ℕ)
      → IfSome
          (λ q. (q.size ≤ length q.payload) × (q.size < u16_mod))
          (get_config_descriptor o port index)
  unfolding get_config_descriptor
  get_config_descriptor-length port index =
      query_whole-length port index (queried o 21 (configuration_request port index 21))

  write_configuration-control :
      (ctx : DescriptorContext) (device : ℕ) (q : DescriptorRequest)
      → AreControlPackets ctx.entries
      → q.size ≤ length q.payload
      → q.size < u16_mod
      → AreControlPackets (write_configuration ctx device q).entries
  unfolding write_configuration
  write_configuration-control ctx device q v fits small =
      let asked =
        setup-control ctx v 0x000B device q.request_type q.request q.value q.index q.size false in
      let answered = complete-control _ asked 0x0008 device q.size q.payload false fits small in
      let sets = setup-control _ answered 0 device 0 9 (get_or q.payload 5 0) 0 0 true in
      complete-control _ sets 0 device 0 [] true (omega arith) (omega arith)

  descriptor_callback-control :
      (ctx : DescriptorContext) (d : ConnectedDevice)
      → AreControlPackets ctx.entries
      → AreControlPackets (descriptor_callback o ctx d).entries
  unfolding descriptor_callback
  descriptor_callback-control ctx d v =
      let asked = setup-control ctx v 0x000B d.device_address 0x80 6 256 0 18 false in
      let answered = device-control _ asked d.device_address d.descriptor in
      elim (Bool-cases (is_device_filtered ctx.addresses (pos d.device_address))) [
        | inr off ↦ rw (off, descriptor_callback) v
        | inl on ↦ elim (Option-cases (get_config_descriptor o d.port 0)) [
          | inl e ↦ rw (on, e, descriptor_callback) answered
          | inr (q, e) ↦
              let (fits, small) = IfSome-some _ _ q (get_config_descriptor-length d.port 0) e in
              rw (on, e, descriptor_callback)
                (write_configuration-control _ d.device_address q answered fits small)
        ]
      ]

  enumerated-control :
      (ctx : DescriptorContext) (ds : List ConnectedDevice)
      → AreControlPackets ctx.entries
      → AreControlPackets (enumerated o ctx ds).entries
  unfolding enumerated
  enumerated-control ctx [] v = v
  enumerated-control ctx (d ∷ ds) v =
      enumerated-control (descriptor_callback o ctx d) ds (descriptor_callback-control ctx d v)

abbrev pub packets_of : List CaptureRecord → List (List ℕ)
packets_of [] = []
packets_of (r ∷ rs) = r.packet ∷ packets_of rs

-- A sequence of whole records whose packets are control transfers.
pub record IsDescriptors (bytes : List ℕ) : Type 0 where
  pub records : List CaptureRecord
  pub valid : AreRecords records
  pub packets : AreControlPackets (packets_of records)
  pub bytes_stream : bytes ≡ stream records []

generate-IsDescriptors :
    (o : DeviceSystem) (i : ℕ) (entries : List (List ℕ))
    → AreControlPackets entries
    → IsDescriptors (generate_pcap_packets o i entries)
unfolding generate_pcap_packets stream record_bytes
generate-IsDescriptors o i [] v = record {
  records = [];
  valid = tt;
  packets = tt;
  bytes_stream = refl;
}
generate-IsDescriptors o i (packet ∷ entries) v =
    let others = generate-IsDescriptors o (i + 1) entries v.1 in
    let size : length packet < 70000 = omega (
      arith,
      v.0.small,
      v.0.header_length,
      ap length v.0.made_of,
      length-append (packet_header_bytes v.0.header) v.0.payload,
    ) in
    record {
      records =
          record { header = entry_header (o.time i) packet; packet = packet } ∷ others.records;
      valid = (
        record {
          header_valid = record {
            ts_sec_lt = omega arith;
            ts_usec_lt = omega arith;
            incl_len_lt = omega (arith, size);
            orig_len_lt = omega (arith, size);
          };
          incl = refl;
          small = omega (arith, size);
        },
        others.valid,
      );
      packets = (v.0, others.packets);
      bytes_stream =
          ap
            (λ t.
              record_bytes (record { header = entry_header (o.time i) packet; packet = packet })
              ++ t)
            others.bytes_stream;
    }

-- What is generated for a filter with a name, whatever devices are connected and whatever
-- descriptors they have, is a sequence of whole records, and each of their packets has a header
-- that states its own length and the length of the data behind it.
pub descriptors_generate_pcap-IsDescriptors :
    (o : DeviceSystem) (name : List ℕ) (addresses : AddressFilter) (devices : List ConnectedDevice)
    → IsSystem o
    → IfSome IsDescriptors (descriptors_generate_pcap o name addresses devices)
unfolding descriptors_generate_pcap
descriptors_generate_pcap-IsDescriptors o [] addresses devices system = tt
descriptors_generate_pcap-IsDescriptors o (c ∷ name) addresses devices system =
    generate-IsDescriptors o 0 _ (enumerated-control o system _ devices tt)
