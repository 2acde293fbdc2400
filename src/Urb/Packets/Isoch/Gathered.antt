-- ===== src/Urb/Packets/Isoch/Gathered.antt =====
-- The packet of an isochronous transfer (USBPcapDriver/USBPcapURB.c), with compacted data or not.
use usbpcap_ai.Base.{
  ℕ, ◌+◌, ◌≤◌, ◌<◌, ◌≡◌, refl, sym, ◌∙◌, ap, Bool, true, false, List, [], ◌++◌, Option, none, some,
  IfSome, length, u32_mod, le32, ltb, ◌==◌, not, ◌&&◌, ◌||◌, if◌then◌else◌, arith, length-take,
}
use mathlib.Core.Path.{subst}
use usbpcap_ai.Format.Codec.{length-packet_header_bytes}
use usbpcap_ai.Buffer.{memory}
use usbpcap_ai.Buffer.Packet.{PayloadEntry}
use usbpcap_ai.Buffer.Packet.Store.{IsPayload, payload_bytes}
use usbpcap_ai.Urb.{Context, IsoPacket, IsochTransfer, get_buffer_pointer, is_direction_in}
use usbpcap_ai.Urb.Packets.{Packet, one_entry}
use usbpcap_ai.Urb.Packets.Complete.{IsComplete, IsTransfer, one_entry-bytes, one_entry-IsPayload}
use usbpcap_ai.Urb.Packets.Isoch.{
  compacted_entries, compacted_length, compacted_packets, isoch_packet, isoch_with, packet_table,
}
use usbpcap_ai.Urb.Packets.Isoch.Compact.{
  IsIsoch, compacted-slices, compacted_entries-IsPayload, compacted_entries-bytes,
  compacted_length-total, concatenated, isoch_header_len-plain, length-compacted_packets,
  length-concatenated, length-packet_table, slices, total,
}

isoch_with-IsComplete :
    (c : Context) (t : IsochTransfer) (post : Bool) (n : ℕ) (table : List IsoPacket)
    (entries : List PayloadEntry)
    → length t.packets ≤ 1024
    → length table ≡ length t.packets
    → IsPayload entries
    → n ≡ length (payload_bytes entries)
    → n + 65536 < u32_mod
    → IsComplete
        (isoch_with c t post n table entries).header
        (isoch_with c t post n table entries).payload
isoch_with-IsComplete c t post n table entries few same valid complete small =
    let h = (isoch_with c t post n table entries).header in
    let size = isoch_header_len-plain (length t.packets) few in
    record {
      packet = record {
        header_size =
            omega (arith, same, size, length-packet_header_bytes h, length-packet_table table);
        payload = valid;
      };
      bounded = omega (arith, small, few, size);
      complete = complete;
    }

-- The memory of a transfer that is not empty.
memory-some :
    (n : ℕ) (address : Option (List ℕ))
    → 0 < n
    → n ≤ length (memory address)
    → address ≡ some (memory address)
memory-some n none h k = absurd (omega arith)
memory-some n (some bytes) h k = refl

-- The packet with compacted data, as `isoch_packet` makes it.
abbrev compacted_packet : Context → IsochTransfer → Bool → Packet
compacted_packet c t post =
    isoch_with c t post (compacted_length 0 t.packets) (compacted_packets 0 t.packets)
      (compacted_entries (get_buffer_pointer t.transfer) t.packets)

compacted_packet-IsComplete :
    (c : Context) (t : IsochTransfer) (post : Bool)
    → IsIsoch t
    → length t.packets ≤ 1024
    → 0 < t.transfer.buffer_length
    → total t.packets ≤ t.transfer.buffer_length
    → IsComplete (compacted_packet c t post).header (compacted_packet c t post).payload
compacted_packet-IsComplete c t post v few some_data room =
    let bytes = memory (get_buffer_pointer t.transfer) in
    let there =
      memory-some t.transfer.buffer_length (get_buffer_pointer t.transfer) some_data v.valid.fits in
    let sum = compacted_length-total 0 t.packets (omega (arith, v.no_wrap)) in
    isoch_with-IsComplete c t post _ _ _ few (length-compacted_packets 0 t.packets)
      (subst (λ a. IsPayload (compacted_entries a t.packets)) (sym there)
        (compacted_entries-IsPayload bytes t.packets v.inside))
      (omega (
        arith,
        sum,
        ap (λ a. length (payload_bytes (compacted_entries a t.packets))) there,
        ap length (compacted_entries-bytes bytes t.packets),
        length-concatenated bytes t.packets v.inside,
      ))
      (omega (arith, sum, room, v.valid.small))

-- The header and the payload of a packet are complete.
abbrev pub IsWhole : Packet → Type 0
IsWhole p = IsComplete p.header p.payload

plain-IsComplete :
    (c : Context) (t : IsochTransfer) (post : Bool)
    → length t.packets ≤ 1024
    → IsWhole (isoch_with c t post 0 t.packets (one_entry 0 none))
unfolding payload_bytes
plain-IsComplete c t post few =
    isoch_with-IsComplete c t post _ _ _ few refl (one_entry-IsPayload 0 none (omega arith)) refl
      (omega arith)

outbound-IsComplete :
    (c : Context) (t : IsochTransfer) (post : Bool)
    → length t.packets ≤ 1024
    → IsTransfer t.transfer
    → IsWhole (
        isoch_with c t post t.transfer.buffer_length t.packets
          (one_entry t.transfer.buffer_length (get_buffer_pointer t.transfer)))
outbound-IsComplete c t post few v =
    let bytes = memory (get_buffer_pointer t.transfer) in
    isoch_with-IsComplete c t post _ _ _ few refl (one_entry-IsPayload _ _ v.fits)
      (omega (
        arith,
        v.fits,
        ap length (one_entry-bytes t.transfer.buffer_length (get_buffer_pointer t.transfer) v.fits),
        length-take t.transfer.buffer_length bytes,
      ))
      v.small

-- The ways that the case is left: without a packet, or with one of three.
isoch_ways :
    (many is_empty inbound refused outbound : Bool) (plain compacted outgoing : Packet)
    → (many ≡ false → IsWhole plain)
    → (many ≡ false → is_empty ≡ false → refused ≡ false → IsWhole compacted)
    → (many ≡ false → IsWhole outgoing)
    → IfSome IsWhole (
        if many
        then none
        else if is_empty
        then some plain
        else if inbound
        then (if refused then none else some compacted)
        else if outbound
        then some outgoing
        else some plain)
isoch_ways true is_empty inbound refused outbound plain compacted outgoing f g h = tt
isoch_ways false true inbound refused outbound plain compacted outgoing f g h = f refl
isoch_ways false false true true outbound plain compacted outgoing f g h = tt
isoch_ways false false true false outbound plain compacted outgoing f g h = g refl refl refl
isoch_ways false false false refused true plain compacted outgoing f g h = h refl
isoch_ways false false false refused false plain compacted outgoing f g h = f refl

-- Every packet of an isochronous transfer that is logged is complete.
pub isoch_packet-IsComplete :
    (header_room entries_room : Bool) (c : Context) (t : IsochTransfer) (post : Bool)
    → IsIsoch t
    → IfSome IsWhole (isoch_packet header_room entries_room c t post)
unfolding isoch_packet
isoch_packet-IsComplete header_room entries_room c t post v =
    let sum = compacted_length-total 0 t.packets (omega (arith, v.no_wrap)) in
    isoch_ways (ltb 1024 (length t.packets) || not header_room) (t.transfer.buffer_length == 0)
      (is_direction_in t.transfer_flags && post)
      (ltb t.transfer.buffer_length (compacted_length 0 t.packets) || not entries_room)
      (not (is_direction_in t.transfer_flags) && not post) _ (compacted_packet c t post) _
      (λ few. plain-IsComplete c t post (ground (arith, few)))
      (λ few some_data room.
        compacted_packet-IsComplete c t post v (ground (arith, few)) (ground (arith, some_data))
          (ground (arith, room, sum)))
      (λ few. outbound-IsComplete c t post (ground (arith, few)) v.valid)

-- An isochronous transfer from the device with at most 1024 packets, whose packets lie in memory that
-- is there, with at least one byte received and lengths that sum to at most the bytes received, is
-- logged on the way back when both allocations succeed: with the packets' data, one behind the
-- other without the gaps, and a table in the header that names for each packet its own data. The
-- bytes received stay below 2^32 - 65536.
pub isoch_packet-slices :
    (c : Context) (t : IsochTransfer)
    → IsIsoch t
    → is_direction_in t.transfer_flags ≡ true
    → length t.packets ≤ 1024
    → 0 < t.transfer.buffer_length
    → total t.packets ≤ t.transfer.buffer_length
    → let bytes = memory (get_buffer_pointer t.transfer) in
      (p : Packet) × (table : List IsoPacket) × (isoch_packet true true c t true ≡ some p)
      × (payload_bytes p.payload ≡ concatenated (slices bytes t.packets))
      × (p.header.rest
          ≡ le32 t.start_frame
            ++ (le32 (length t.packets) ++ (le32 t.error_count ++ packet_table table)))
      × (slices (payload_bytes p.payload) table ≡ slices bytes t.packets)
unfolding isoch_packet
isoch_packet-slices c t v inbound few some_data room =
    let bytes = memory (get_buffer_pointer t.transfer) in
    let there =
      memory-some t.transfer.buffer_length (get_buffer_pointer t.transfer) some_data v.valid.fits in
    let sum = compacted_length-total 0 t.packets (omega (arith, v.no_wrap)) in
    let data_bytes =
      ap (λ a. payload_bytes (compacted_entries a t.packets)) there
      ∙ compacted_entries-bytes bytes t.packets in
    (
      compacted_packet c t true,
      compacted_packets 0 t.packets,
      ground (arith, inbound, few, some_data, room, sum),
      data_bytes,
      refl,
      ap (λ b. slices b (compacted_packets 0 t.packets)) data_bytes
          ∙ compacted-slices bytes [] t.packets v.inside (omega (arith, v.no_wrap)),
    )
