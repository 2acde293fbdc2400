-- ===== src/Buffer/Packet.antt =====
-- USBPcapDriver/USBPcapBuffer.c: a captured packet goes into the buffer as a pcap record.
pub mod Store
pub mod Framing
use usbpcap_ai.Base.{
  ℕ, ◌+◌, ◌-◌, ◌*◌, ◌/◌, ◌%◌, min, List, [], ◌∷◌, ◌++◌, Option, take, ltb, ◌==◌, if◌then◌else◌,
  ◌||◌, add32, u32_mod, false,
}
use usbpcap_ai.Format.{
  PcaprecHdr, PacketHeader, pcaprec_hdr_bytes, packet_header_bytes, pcaprec_hdr_size,
}
use usbpcap_ai.Buffer.{RingData, NtStatus, memory, is_null, get_buffer_free, buffer_write_unsafe}

-- `USBPCAP_PAYLOAD_ENTRY`: the bytes that can be read at `buffer`, or NULL.
pub record PayloadEntry : Type 0 where
  pub size : ℕ
  pub buffer : Option (List ℕ)

-- `USBPcapInitializePcapHeader`. The timestamp is a count of 100 ns, not negative; its seconds
-- less the offset of the epochs are cut to 32 bits, also if that difference is negative.
unfoldable pub initialize_pcap_header : RingData → ℕ → ℕ → PcaprecHdr
initialize_pcap_header s timestamp bytes = record {
  ts_sec = (timestamp / 10000000 + 3 * u32_mod - 11644473600) % u32_mod;
  ts_usec = timestamp % 10000000 / 10 % u32_mod;
  incl_len = if ltb s.snaplen bytes then s.snaplen else bytes;
  orig_len = bytes;
}

-- The loop of the sanity check: the bytes that the entries up to the first NULL leave missing.
-- The list is the array up to where the loop may read; it ends there as at a NULL entry.
unfoldable pub missing_payload : ℕ → List PayloadEntry → ℕ
missing_payload n [] = n
missing_payload n (e ∷ es) =
    if n == 0 || is_null e.buffer then n else missing_payload (n - min e.size n) es

-- The loop that writes the payload entries.
unfoldable pub write_payload : RingData → ℕ → List PayloadEntry → RingData
write_payload s n [] = s
write_payload s n (e ∷ es) =
    let tmp = min n e.size in
    let t = if ltb 0 tmp then buffer_write_unsafe s (take tmp (memory e.buffer)) else s in
    if n == 0 || is_null e.buffer then s else write_payload t (n - tmp) es

-- The writes of `USBPcapBufferStorePacket`, behind its checks.
unfoldable pub write_record : RingData → PcaprecHdr → PacketHeader → List PayloadEntry → RingData
write_record s rec header payload =
    let tmp = min rec.incl_len header.header_len in
    let t = buffer_write_unsafe s (pcaprec_hdr_bytes rec) in
    let u =
      if ltb 0 tmp then buffer_write_unsafe t (take tmp (packet_header_bytes header)) else t in
    write_payload u (rec.incl_len - tmp) payload

-- `USBPcapBufferStorePacket`
unfoldable pub store_packet : RingData → ℕ → PacketHeader → List PayloadEntry → NtStatus × RingData
store_packet s timestamp header payload =
    let rec = initialize_pcap_header s timestamp (add32 header.header_len header.data_length) in
    let bytes = rec.incl_len in
    let bytes_free = get_buffer_free s in
    let expected = pcaprec_hdr_size + header.header_len in
    if (if ltb expected bytes then ltb 0 (missing_payload (bytes - expected) payload) else false)
    then (NtStatus.invalid_parameter, s)
    else if is_null s.buffer
        || ltb bytes_free pcaprec_hdr_size
        || ltb (bytes_free - pcaprec_hdr_size) bytes
    then (NtStatus.insufficient_resources, s)
    else (NtStatus.success, write_record s rec header payload)
