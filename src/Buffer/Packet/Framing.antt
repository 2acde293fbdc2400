-- ===== src/Buffer/Packet/Framing.antt =====
-- Whether the records that USBPcapDriver/USBPcapBuffer.c writes have the length that they state.
use usbpcap_ai.Base.{
  ℕ, ◌+◌, ◌-◌, ◌≤◌, ◌<◌, ◌≡◌, ◌++◌, List, arith, length, length-append, length-take, u32_mod,
}
use usbpcap_ai.Format.{PacketHeader, packet_header_bytes, pcaprec_hdr_size}
use usbpcap_ai.Buffer.{RingData, NtStatus}
use usbpcap_ai.Buffer.Inv.{IsRing, get_buffer_free-used}
use usbpcap_ai.Buffer.Fifo.{contents, length-contents}
use usbpcap_ai.Buffer.Packet.{PayloadEntry, initialize_pcap_header, store_packet}
use usbpcap_ai.Buffer.Packet.Store.{
  payload_bytes, IsPacket, record_header, packet_bytes, missing_payload_lem,
}

-- A packet whose payload is all there is followed by exactly as many bytes as its record header
-- announces, at most the snapshot length; `orig_len` is the packet's whole length.
pub record_framing :
    (s : RingData) (timestamp : ℕ) (header : PacketHeader) (es : List PayloadEntry)
    → IsPacket header es
    → header.header_len + header.data_length < u32_mod
    → header.data_length ≤ length (payload_bytes es)
    → let rec = record_header s timestamp header in
      (length (packet_bytes s timestamp header es) ≡ rec.incl_len)
      × (rec.incl_len ≤ s.snaplen)
      × (rec.orig_len ≡ header.header_len + header.data_length)
unfolding initialize_pcap_header
record_framing s timestamp header es p small complete = ground (
  arith,
  length-append (packet_header_bytes header) (payload_bytes es),
  length-take (record_header s timestamp header).incl_len
      (packet_header_bytes header ++ payload_bytes es),
  p.header_size,
)

-- The sanity check lets a packet through whose payload lacks up to 16 bytes of what its header
-- announces: if the packet is within the snapshot length and its record fits, it is stored with
-- success, and fewer bytes follow the record header than `incl_len` says.
pub record_short :
    (s : RingData) (timestamp : ℕ) (header : PacketHeader) (es : List PayloadEntry)
    → IsRing s
    → IsPacket header es
    → header.header_len + header.data_length ≤ s.snaplen
    → s.snaplen < u32_mod
    → length (payload_bytes es) < header.data_length
    → header.data_length ≤ length (payload_bytes es) + pcaprec_hdr_size
    → pcaprec_hdr_size + header.header_len + header.data_length + length (contents s)
      < s.buffer_size
    → ((store_packet s timestamp header es).0 ≡ NtStatus.success)
      × (length (packet_bytes s timestamp header es) < (record_header s timestamp header).incl_len)
unfolding store_packet initialize_pcap_header
record_short s timestamp header es v p snap snap_lt lacks few room = ground (
  arith,
  missing_payload_lem
      ((record_header s timestamp header).incl_len - (pcaprec_hdr_size + header.header_len)) es
      p.payload,
  get_buffer_free-used s v,
  length-contents s v,
  length-append (packet_header_bytes header) (payload_bytes es),
  length-take (record_header s timestamp header).incl_len
      (packet_header_bytes header ++ payload_bytes es),
  p.header_size,
)
