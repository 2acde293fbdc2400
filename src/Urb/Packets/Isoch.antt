-- ===== src/Urb/Packets/Isoch.antt =====
-- USBPcapDriver/USBPcapURB.c: the case URB_FUNCTION_ISOCH_TRANSFER.
pub mod Compact
pub mod Gathered
use usbpcap_ai.Base.{
  ℕ, zero, suc, ◌+◌, ◌*◌, ◌%◌, Bool, true, false, not, ◌&&◌, ◌||◌, Option, none, some, List, [],
  ◌∷◌, ◌++◌, drop, length, ltb, ◌==◌, if◌then◌else◌, add32, sub32, u16_mod, le32,
}
use usbpcap_ai.Format.{PacketHeader, transfer_isochronous}
use usbpcap_ai.Buffer.Packet.{PayloadEntry}
use usbpcap_ai.Urb.{Context, IsoPacket, IsochTransfer, get_buffer_pointer, is_direction_in}
use usbpcap_ai.Urb.Packets.{Packet, bulk_device, bulk_endpoint, no_entry, one_entry, urb_header}

-- sizeof(USBPCAP_BUFFER_ISOCH_HEADER) and sizeof(USBPCAP_BUFFER_ISO_PACKET) are 51 and 12; the sum
-- is a USHORT.
abbrev pub isoch_header_len : ℕ → ℕ
isoch_header_len packets = (51 + 12 * sub32 packets 1 % u16_mod) % u16_mod

-- The packet descriptors as they are in the header.
abbrev pub packet_table : List IsoPacket → List ℕ
packet_table [] = []
packet_table (p ∷ ps) = le32 p.offset ++ (le32 p.length ++ (le32 p.status ++ packet_table ps))

-- The sum of the lengths, a ULONG.
abbrev pub compacted_length : ℕ → List IsoPacket → ℕ
compacted_length sum [] = sum
compacted_length sum (p ∷ ps) = compacted_length (add32 sum p.length) ps

-- The descriptors with the offsets of the compacted data.
abbrev pub compacted_packets : ℕ → List IsoPacket → List IsoPacket
compacted_packets offset [] = []
compacted_packets offset (p ∷ ps) =
    record p { offset = offset } ∷ compacted_packets (add32 offset p.length) ps

-- `&transferBuffer[offset]`: an address behind NULL has no memory.
abbrev pub address_at : Option (List ℕ) → ℕ → Option (List ℕ)
address_at none offset = if offset == 0 then none else some []
address_at (some memory) offset = some (drop offset memory)

-- `compactedPayloadEntries`, with the terminating entry.
abbrev pub compacted_entries : Option (List ℕ) → List IsoPacket → List PayloadEntry
compacted_entries base [] = no_entry ∷ []
compacted_entries base (p ∷ ps) =
    record { size = p.length; buffer = address_at base p.offset } ∷ compacted_entries base ps

-- The packet with a table of descriptors.
abbrev pub isoch_with :
    Context → IsochTransfer → Bool → ℕ → List IsoPacket → List PayloadEntry → Packet
isoch_with c t post data_length table entries = record {
  header =
      urb_header c post (isoch_header_len (length t.packets)) (bulk_device c t.pipe_handle)
        (bulk_endpoint c t.pipe_handle) transfer_isochronous data_length
        (le32 t.start_frame
          ++ (le32 (length t.packets) ++ (le32 t.error_count ++ packet_table table)));
  payload = entries;
}

-- The packet, or none where the case is left without logging. The flags are whether the two
-- allocations, of the header and of the entries, succeed.
unfoldable pub isoch_packet : Bool → Bool → Context → IsochTransfer → Bool → Option Packet
isoch_packet header_room entries_room c t post =
    let base = get_buffer_pointer t.transfer in
    let from_device = is_direction_in t.transfer_flags in
    let compacted = compacted_length 0 t.packets in
    let plain = isoch_with c t post 0 t.packets (one_entry 0 none) in
    if ltb 1024 (length t.packets) || not header_room
    then none
    else if t.transfer.buffer_length == 0
    then some plain
    else if from_device && post
    then (if ltb t.transfer.buffer_length compacted || not entries_room
        then none
        else some (
            isoch_with c t post compacted (compacted_packets 0 t.packets)
              (compacted_entries base t.packets)))
    else if not from_device && not post
    then some (
        isoch_with c t post t.transfer.buffer_length t.packets
          (one_entry t.transfer.buffer_length base))
    else some plain
