-- ===== src/Urb/Packets/Data.antt =====
-- Which data the two packets of a transfer carry (USBPcapDriver/USBPcapURB.c).
use usbpcap_ai.Base.{
  ℕ, ◌+◌, ◌≤◌, ◌<◌, u32_mod, ◌∙◌, ◌≡◌, refl, Bool, true, false, [], ◌++◌, Bool-cases, inl, inr,
  has_bit, if◌then◌else◌, ap, take_all, arith, none, take,
}
use usbpcap_ai.Format.{packet_header_size}
use usbpcap_ai.Buffer.{NtStatus, RingData}
use usbpcap_ai.Buffer.Packet.{initialize_pcap_header, missing_payload, store_packet}
use usbpcap_ai.Buffer.Packet.Store.{payload_bytes}
use usbpcap_ai.Urb.{BulkTransfer, Context, ControlTransfer, get_buffer_pointer, is_direction_in}
use usbpcap_ai.Urb.Packets.{bulk_endpoint, bulk_packet, control_packet}
use usbpcap_ai.Urb.Packets.Complete.{IsControl, IsTransfer, data_of, one_entry-bytes}

-- A control transfer is logged with its setup packet on the way to the bus driver, and with its
-- data in one of the two packets: on the way back if they come from the device, and behind the
-- setup packet if they go to it.
pub control_packet-payload_bytes :
    (c : Context) (t : ControlTransfer)
    → IsControl t
    → (payload_bytes (control_packet c t false).payload
        ≡ t.setup_packet ++ (if is_direction_in t.transfer_flags then [] else data_of t.transfer))
      × (payload_bytes (control_packet c t true).payload
          ≡ (if is_direction_in t.transfer_flags then data_of t.transfer else []))
unfolding control_packet payload_bytes
control_packet-payload_bytes c t v = elim (Bool-cases (has_bit t.transfer_flags 0)) [
  | inl e ↦ rw (e, control_packet) (ap (λ s. s ++ []) setup, one_entry-bytes _ _ v.valid.fits)
  | inr e ↦
      rw (e, control_packet)
        (
          ap (λ s. take 8 t.setup_packet ++ s) (one_entry-bytes _ _ v.valid.fits)
              ∙ ap (λ s. s ++ data_of t.transfer) setup,
          refl,
        )
]
  where
    setup : take 8 t.setup_packet ≡ t.setup_packet
    setup = take_all 8 t.setup_packet (omega (arith, v.eight))

-- The data of a bulk or interrupt transfer are logged once: on the way back for an IN endpoint,
-- on the way to the bus driver for any other.
pub bulk_packet-payload_bytes :
    (c : Context) (t : BulkTransfer)
    → IsTransfer t.transfer
    → (payload_bytes (bulk_packet c t false).payload
        ≡ (if has_bit (bulk_packet c t false).header.endpoint 7 then [] else data_of t.transfer))
      × (payload_bytes (bulk_packet c t true).payload
          ≡ (if has_bit (bulk_packet c t true).header.endpoint 7 then data_of t.transfer else []))
unfolding bulk_packet payload_bytes
bulk_packet-payload_bytes c t v = elim (Bool-cases (has_bit (bulk_endpoint c t.pipe_handle) 7)) [
  | inl e ↦ rw (e, bulk_packet) (refl, one_entry-bytes _ _ v.fits)
  | inr e ↦ rw (e, bulk_packet) (one_entry-bytes _ _ v.fits, refl)
]

-- When the memory of a bulk or interrupt transfer cannot be mapped and more than 16 bytes of its
-- data are due, the packet is refused with STATUS_INVALID_PARAMETER and the buffer stays as it was;
-- it is within the snapshot length.
pub bulk_packet-unmapped :
    (c : Context) (t : BulkTransfer) (post : Bool) (s : RingData) (timestamp : ℕ)
    → get_buffer_pointer t.transfer ≡ none
    → 16 < t.transfer.buffer_length
    → packet_header_size + t.transfer.buffer_length ≤ s.snaplen
    → s.snaplen < u32_mod
    → has_bit (bulk_packet c t post).header.endpoint 7 ≡ post
    → store_packet s timestamp (bulk_packet c t post).header (bulk_packet c t post).payload
      ≡ (NtStatus.invalid_parameter, s)
unfolding bulk_packet store_packet initialize_pcap_header missing_payload
bulk_packet-unmapped c t true s timestamp unmapped many snap small due =
    rw (due, unmapped, bulk_packet) (ground (arith, many, snap, small))
bulk_packet-unmapped c t false s timestamp unmapped many snap small due =
    rw (due, unmapped, bulk_packet) (ground (arith, many, snap, small))
