-- ===== src/Buffer/Tests.antt =====
-- The theorems on USBPcapDriver/USBPcapBuffer.c at concrete inputs: a buffer of 128 bytes whose
-- offsets stand near the end, so that a write goes round it.
use usbpcap_ai.Base.{
  ℕ, zero, suc, ◌+◌, ◌<◌, ◌≡◌, ◌≢◌, refl, none, some, List, [], ◌∷◌, ◌++◌, ◌⊎◌, length,
  length-append, ltb, if◌then◌else◌, arith, inl, inr, min,
}
use usbpcap_ai.Format.{PacketHeader, pcaprec_hdr_bytes, packet_header_bytes, pcaprec_hdr_size}
use usbpcap_ai.Format.Codec.{length-pcaprec_hdr_bytes}
use usbpcap_ai.Queue.{Irp}
use usbpcap_ai.Buffer.{RingData, NtStatus, buffer_read}
use usbpcap_ai.Buffer.Inv.{IsRing}
use usbpcap_ai.Buffer.Fifo.{contents, between, buffer_read_lem}
use usbpcap_ai.Buffer.Appends.{Appends}
use usbpcap_ai.Buffer.Packet.{PayloadEntry, initialize_pcap_header, store_packet}
use usbpcap_ai.Buffer.Packet.Store.{
  IsPacket, packet_bytes, payload_bytes, record_header, store_packet-Appends, store_packet_status,
}
use usbpcap_ai.Buffer.Setup.{set_up_buffer}
use usbpcap_ai.Buffer.Setup.Resize.{resize_status, set_up_buffer_resize}
use usbpcap_ai.Buffer.Irp.{Hub, write_timestamped_payload}
use usbpcap_ai.Buffer.Irp.Stream.{Call, Delivers, logged, logs, reads, run, run-Delivers}
use usbpcap_ai.Buffer.Irp.Pending.{IsAwake, second_read_waits, write_timestamped_payload-IsAwake}

abbrev zeros : ℕ → List ℕ
zeros zero = []
zeros (suc n) = 0 ∷ zeros n

abbrev ring : RingData
ring = record {
  buffer = some (zeros 128);
  buffer_size = 128;
  read_offset = 118;
  write_offset = 120;
  snaplen = 65535;
}

ring-IsRing : IsRing ring
ring-IsRing = record {
  sized = refl;
  small = omega arith;
  read_in = omega arith;
  write_in = omega arith;
  present = refl;
}

abbrev no_ring : RingData
no_ring = record {
  buffer = none;
  buffer_size = 0;
  read_offset = 0;
  write_offset = 0;
  snaplen = 65535;
}

-- A bulk transfer of two bytes, and one that announces five of which two are there.
abbrev header : ℕ → PacketHeader
header data_length = record {
  header_len = 27;
  irp_id = 81985529216486895;
  status = 0;
  function = 9;
  info = 0;
  bus = 1;
  device = 5;
  endpoint = 129;
  transfer = 3;
  data_length = data_length;
  rest = [];
}

abbrev payload : List PayloadEntry
payload = record { size = 2; buffer = some (7 ∷ 8 ∷ []) } ∷ record { size = 0; buffer = none } ∷ []

sample-IsPacket : (n : ℕ) → IsPacket (header n) payload
unfolding packet_header_bytes
sample-IsPacket n = record { header_size = refl; payload = (inr (omega arith), (inl refl, tt)) }

payload_two : length (payload_bytes payload) ≡ 2
unfolding payload_bytes
payload_two = refl

abbrev irp : ℕ → Irp
irp address = record { irp = address; file_object = 4; mdl = some 10 }

abbrev hub : List Irp → Hub
hub pended = record { ring = ring; pend_irps = pended }

abbrev timestamp : ℕ
timestamp = 133000000000000000

waiting_two : length (contents ring) ≡ 2
unfolding contents between
waiting_two = refl

buffer_read_example :
    ((buffer_read ring 1).0 ++ contents (buffer_read ring 1).1 ≡ contents ring)
    × (length (buffer_read ring 1).0 ≡ min 1 (length (contents ring)))
buffer_read_example = buffer_read_lem ring 1 ring-IsRing

incl_29 : (record_header ring timestamp (header 2)).incl_len ≡ 29
unfolding initialize_pcap_header
incl_29 = refl

stored : (store_packet ring timestamp (header 2) payload).0 ≡ NtStatus.success
stored = ground (
  arith,
  store_packet_status ring timestamp (header 2) payload ring-IsRing (sample-IsPacket 2)
      (omega arith) (omega (arith, payload_two)),
  waiting_two,
  incl_29,
)

store_packet-Appends_example :
    Appends ring
      (pcaprec_hdr_bytes (record_header ring timestamp (header 2))
        ++ packet_bytes ring timestamp (header 2) payload)
      (store_packet ring timestamp (header 2) payload).1
store_packet-Appends_example =
    store_packet-Appends ring timestamp (header 2) payload ring-IsRing (sample-IsPacket 2) stored

store_packet_status_example : (store_packet ring timestamp (header 2) payload).0 ≡ (
    if ltb
      (pcaprec_hdr_size
        + (record_header ring timestamp (header 2)).incl_len
        + length (contents ring))
      128
    then NtStatus.success
    else NtStatus.insufficient_resources)
store_packet_status_example =
    store_packet_status ring timestamp (header 2) payload ring-IsRing (sample-IsPacket 2)
      (omega arith) (omega (arith, payload_two))

set_up_buffer_resize_example :
    let (status, t) = set_up_buffer ring 4096 (some (zeros 4096)) in
    (status ≡ resize_status (length (contents ring)) 4096 (some (zeros 4096)))
    × (contents t ≡ contents ring)
    × IsRing t
    × (((status ≡ NtStatus.success) × (t.buffer_size ≡ 4096))
        ⊎ ((status ≢ NtStatus.success) × (t ≡ ring)))
set_up_buffer_resize_example = set_up_buffer_resize ring 4096 (some (zeros 4096)) ring-IsRing refl

abbrev history : List Call
history =
    reads (irp 1) 10 ∷ reads (irp 2) 10 ∷ logs timestamp (header 2) payload ∷ reads (irp 3) 10 ∷ []

run-Delivers_example :
    let (added, out, h') = run (hub []) history in Delivers (contents ring ++ added) out h'.ring
run-Delivers_example =
    run-Delivers (hub []) history ring-IsRing (tt, (tt, (sample-IsPacket 2, (tt, tt))))

write_timestamped_payload-IsAwake_example :
    IsAwake (write_timestamped_payload (hub []) timestamp (header 2) payload).2
write_timestamped_payload-IsAwake_example =
    write_timestamped_payload-IsAwake (hub []) timestamp (header 2) payload (omega arith) (inl refl)

more_waits :
    10 < length (contents ring ++ logged (hub (irp 1 ∷ irp 2 ∷ [])) timestamp (header 2) payload)
unfolding logged
more_waits = ground (
  arith,
  stored,
  length-append (contents ring) (logged (hub (irp 1 ∷ irp 2 ∷ [])) timestamp (header 2) payload),
  length-append (pcaprec_hdr_bytes (record_header ring timestamp (header 2)))
      (packet_bytes ring timestamp (header 2) payload),
  length-pcaprec_hdr_bytes (record_header ring timestamp (header 2)),
)

second_read_waits_example :
    ¬ IsAwake (write_timestamped_payload (hub (irp 1 ∷ irp 2 ∷ [])) timestamp (header 2) payload).2
second_read_waits_example =
    second_read_waits (hub (irp 1 ∷ irp 2 ∷ [])) (irp 1) (irp 2) [] 10 timestamp (header 2) payload
      refl refl ring-IsRing (sample-IsPacket 2) stored more_waits
