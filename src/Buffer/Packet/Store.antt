-- ===== src/Buffer/Packet/Store.antt =====
-- What `USBPcapBufferStorePacket` of USBPcapDriver/USBPcapBuffer.c leaves in the buffer.
use usbpcap_ai.Base.{
  ℕ, ◌+◌, ◌-◌, ◌≤◌, ◌<◌, ◌≡◌, sym, ap, ◌∙◌, min, List, [], ◌∷◌, ◌++◌, true, false, take-take, ◌⊎◌,
  ◌≢◌, take, ltb, ◌==◌, if◌then◌else◌, ◌||◌, add32, u32_mod, length, Bool-cases, inl, inr, arith,
  length-append, length-take, take-append_ge, take-append_le, append-nil, take_all,
}
use usbpcap_ai.Format.{
  PcaprecHdr, PacketHeader, pcaprec_hdr_bytes, packet_header_bytes, pcaprec_hdr_size,
}
use usbpcap_ai.Format.Codec.{length-pcaprec_hdr_bytes}
use usbpcap_ai.Buffer.{RingData, NtStatus, nt_success, memory, is_null, buffer_write_unsafe}
use usbpcap_ai.Buffer.Inv.{IsRing, used, get_buffer_free-used}
use usbpcap_ai.Buffer.Fifo.{contents, length-contents}
use usbpcap_ai.Buffer.Appends.{Appends, Appends-nothing, Appends-write, Appends-trans, Appends-used}
use usbpcap_ai.Buffer.Packet.{
  PayloadEntry, initialize_pcap_header, missing_payload, write_payload, write_record, store_packet,
}

-- The bytes of the entries up to the first NULL.
unfoldable pub payload_bytes : List PayloadEntry → List ℕ
payload_bytes [] = []
payload_bytes (e ∷ es) =
    if is_null e.buffer then [] else take e.size (memory e.buffer) ++ payload_bytes es

-- An entry's address is NULL, or as many bytes as the entry says stand there.
abbrev pub IsPayload : List PayloadEntry → Type 0
IsPayload [] = Unit {0}
IsPayload (e ∷ es) =
    ((is_null e.buffer ≡ true) ⊎ (e.size ≤ length (memory e.buffer))) × IsPayload es

-- A copy of `n` bytes, left out for `n` zero, appends the first `n` bytes of the block.
copy-Appends :
    (s : RingData) (n : ℕ) (block : List ℕ)
    → IsRing s
    → n ≤ length block
    → n + used s < s.buffer_size
    → Appends s (take n block) (if ltb 0 n then buffer_write_unsafe s (take n block) else s)
copy-Appends s n block v fits h = elim (Bool-cases (ltb 0 n)) [
  | inl some_bytes ↦
      rw some_bytes (Appends-write s (take n block) v (omega (arith, length-take n block)))
  | inr nothing ↦ rw nothing (empty (ground arith))
]
  where
    empty : n ≡ 0 → Appends s (take n block) s
    empty e = rw e (Appends-nothing v)

-- The first `n` bytes of an entry and what follows it.
take_entry :
    (n size : ℕ) (block more : List ℕ)
    → size ≤ length block
    → take n (take size block ++ more) ≡ take (min n size) block ++ take (n - min n size) more
take_entry n size block more h = elim (Bool-cases (ltb n size)) [
  | inl inside ↦ ground (
    arith,
    take-append_le n (take size block) more,
    length-take size block,
    take-take n size block,
    append-nil (take n block),
  )
  | inr beyond ↦
      ground (arith, take-append_ge n (n - size) (take size block) more, length-take size block)
]

take_whole :
    (n size : ℕ) (block more : List ℕ)
    → length block ≡ size
    → take n (block ++ more) ≡ take (min n size) block ++ take (n - min n size) more
take_whole n size block more h =
    ap (λ t. take n (t ++ more)) (sym (take_all size block (omega arith)))
    ∙ take_entry n size block more (omega arith)

-- One entry written, and the entries behind it.
entry-Appends :
    {s t u : RingData} (n size : ℕ) (block more : List ℕ)
    → size ≤ length block
    → Appends s (take (min n size) block) t
    → Appends t (take (n - min n size) more) u
    → Appends s (take n (take size block ++ more)) u
entry-Appends n size block more h p q =
    rw (take_entry n size block more h)
      (Appends-trans (take (min n size) block) (take (n - min n size) more) p q)

-- The loop over the payload appends its first `n` bytes.
write_payload-Appends :
    (s : RingData) (n : ℕ) (es : List PayloadEntry)
    → IsRing s
    → IsPayload es
    → n + used s < s.buffer_size
    → Appends s (take n (payload_bytes es)) (write_payload s n es)
unfolding write_payload payload_bytes
write_payload-Appends s n [] v p h = rw (take_all {A = ℕ} n [] (omega arith)) (Appends-nothing v)
write_payload-Appends s n (e ∷ es) v p h =
    let block : List ℕ = memory e.buffer in
    let tmp : ℕ = min n e.size in
    let t : RingData = if ltb 0 tmp then buffer_write_unsafe s (take tmp block) else s in
    elim (Bool-cases (n == 0 || is_null e.buffer)) [
      | inl stop ↦ rw stop (rw (nothing stop) (Appends-nothing v))
      | inr go ↦
          let fits : e.size ≤ length block = ground (arith, not_null go) in
          let written : Appends s (take tmp block) t =
            copy-Appends s tmp block v (omega arith) (omega arith) in
          let room : n - tmp + used t < t.buffer_size = omega (
            arith,
            Appends-used (take tmp block) v written,
            written.same_size,
            length-take tmp block,
          ) in
          rw (go, not_null go)
            (entry-Appends n e.size block (payload_bytes es) fits written
              (write_payload-Appends t (n - tmp) es written.ring p.1 room))
    ]
  where
    nothing :
        (n == 0 || is_null e.buffer) ≡ true
        → take n
            (if is_null e.buffer then [] else take e.size (memory e.buffer) ++ payload_bytes es)
          ≡ []
    nothing stop = ground (arith, take_all {A = ℕ} n [])

    not_null : (n == 0 || is_null e.buffer) ≡ false → is_null e.buffer ≡ false
    not_null go = ground arith

-- The record header, the packet's header and its payload, cut to `incl_len`.
write_record-Appends :
    (s : RingData) (rec : PcaprecHdr) (header : PacketHeader) (es : List PayloadEntry)
    → IsRing s
    → length (packet_header_bytes header) ≡ header.header_len
    → IsPayload es
    → pcaprec_hdr_size + rec.incl_len + used s < s.buffer_size
    → Appends s
        (pcaprec_hdr_bytes rec
          ++ take rec.incl_len (packet_header_bytes header ++ payload_bytes es))
        (write_record s rec header es)
unfolding write_record
write_record-Appends s rec header es v len p h =
    let bytes : ℕ = rec.incl_len in
    let block : List ℕ = packet_header_bytes header in
    let tmp : ℕ = min bytes header.header_len in
    let t : RingData = buffer_write_unsafe s (pcaprec_hdr_bytes rec) in
    let first : Appends s (pcaprec_hdr_bytes rec) t =
      Appends-write s (pcaprec_hdr_bytes rec) v (omega (arith, length-pcaprec_hdr_bytes rec)) in
    let used_t : used t ≡ used s + pcaprec_hdr_size =
      omega (arith, Appends-used (pcaprec_hdr_bytes rec) v first, length-pcaprec_hdr_bytes rec) in
    let u : RingData = if ltb 0 tmp then buffer_write_unsafe t (take tmp block) else t in
    let second : Appends t (take tmp block) u =
      copy-Appends t tmp block first.ring (omega arith) (omega (arith, first.same_size)) in
    let room : bytes - tmp + used u < u.buffer_size = omega (
      arith,
      Appends-used (take tmp block) first.ring second,
      second.same_size,
      first.same_size,
      length-take tmp block,
    ) in
    let third : Appends u (take (bytes - tmp) (payload_bytes es))
        (write_payload u (bytes - tmp) es) =
      write_payload-Appends u (bytes - tmp) es second.ring p room in
    Appends-trans (pcaprec_hdr_bytes rec) (take bytes (block ++ payload_bytes es)) first (
      rw (take_whole bytes header.header_len block (payload_bytes es) len)
        (Appends-trans (take tmp block) (take (bytes - tmp) (payload_bytes es)) second third))

-- The sanity check's loop finds what the payload lacks of `n` bytes.
pub missing_payload_lem :
    (n : ℕ) (es : List PayloadEntry)
    → IsPayload es
    → missing_payload n es ≡ n - length (payload_bytes es)
unfolding missing_payload payload_bytes
missing_payload_lem n [] p = omega arith
missing_payload_lem n (e ∷ es) p = ground (
  arith,
  missing_payload_lem (n - min e.size n) es p.1,
  length-append (take e.size (memory e.buffer)) (payload_bytes es),
  length-take e.size (memory e.buffer),
)

-- What a packet becomes in the stream: the record header, and the packet cut to `incl_len`.
abbrev pub record_header : RingData → ℕ → PacketHeader → PcaprecHdr
record_header s timestamp header =
    initialize_pcap_header s timestamp (add32 header.header_len header.data_length)

abbrev pub packet_bytes : RingData → ℕ → PacketHeader → List PayloadEntry → List ℕ
packet_bytes s timestamp header es =
    take (record_header s timestamp header).incl_len
      (packet_header_bytes header ++ payload_bytes es)

-- The header structure has the length that it states, and the memory of the payload is there.
pub record IsPacket (header : PacketHeader) (es : List PayloadEntry) : Type 0 where
  pub header_size : length (packet_header_bytes header) ≡ header.header_len
  pub payload : IsPayload es

store_packet_success :
    (s : RingData) (timestamp : ℕ) (header : PacketHeader) (es : List PayloadEntry)
    → IsRing s
    → (store_packet s timestamp header es).0 ≡ NtStatus.success
    → ((store_packet s timestamp header es).1
        ≡ write_record s (record_header s timestamp header) header es)
      × (pcaprec_hdr_size + (record_header s timestamp header).incl_len + used s < s.buffer_size)
unfolding store_packet
store_packet_success s timestamp header es v ok = ground (arith, get_buffer_free-used s v)

-- When `USBPcapBufferStorePacket` reports success, the buffer holds what it held and, behind it,
-- the record header and the packet's header and payload cut to `incl_len`.
pub store_packet-Appends :
    (s : RingData) (timestamp : ℕ) (header : PacketHeader) (es : List PayloadEntry)
    → IsRing s
    → IsPacket header es
    → (store_packet s timestamp header es).0 ≡ NtStatus.success
    → Appends s
        (pcaprec_hdr_bytes (record_header s timestamp header) ++ packet_bytes s timestamp header es)
        (store_packet s timestamp header es).1
store_packet-Appends s timestamp header es v p ok =
    let (same, room) = store_packet_success s timestamp header es v ok in
    rw same (
      write_record-Appends s (record_header s timestamp header) header es v p.header_size p.payload
        room)

-- When it reports anything else, the buffer is as it was.
pub store_packet_refused :
    (s : RingData) (timestamp : ℕ) (header : PacketHeader) (es : List PayloadEntry)
    → (store_packet s timestamp header es).0 ≢ NtStatus.success
    → (store_packet s timestamp header es).1 ≡ s
unfolding store_packet
store_packet_refused s timestamp header es no_success = ground arith

pub store_packet-nt_success :
    (s : RingData) (timestamp : ℕ) (header : PacketHeader) (es : List PayloadEntry)
    → nt_success (store_packet s timestamp header es).0 ≡ true
    → (store_packet s timestamp header es).0 ≡ NtStatus.success
unfolding store_packet
store_packet-nt_success s timestamp header es ok = ground arith

-- A packet whose payload is all there is stored exactly when its record fits beside what waits to
-- be read with one byte to spare; otherwise the status is STATUS_INSUFFICIENT_RESOURCES.
pub store_packet_status :
    (s : RingData) (timestamp : ℕ) (header : PacketHeader) (es : List PayloadEntry)
    → IsRing s
    → IsPacket header es
    → header.header_len + header.data_length < u32_mod
    → header.data_length ≤ length (payload_bytes es)
    → (store_packet s timestamp header es).0 ≡ (
        if ltb
          (pcaprec_hdr_size + (record_header s timestamp header).incl_len + length (contents s))
          s.buffer_size
        then NtStatus.success
        else NtStatus.insufficient_resources)
unfolding store_packet initialize_pcap_header
store_packet_status s timestamp header es v p small complete = ground (
  arith,
  missing_payload_lem
      ((record_header s timestamp header).incl_len - (pcaprec_hdr_size + header.header_len)) es
      p.payload,
  get_buffer_free-used s v,
  length-contents s v,
)
