-- ===== src/Urb/Packets/Complete.antt =====
-- The packets of USBPcapDriver/USBPcapURB.c have the header and the data that they state.
use usbpcap_ai.Base.{
  ℕ, ◌+◌, ◌≤◌, ◌<◌, ◌≡◌, refl, Bool, true, false, List, ◌∷◌, Option, none, some, Bool-cases, inl,
  inr, length, take, u32_mod, has_bit, not, ◌&&◌, ◌||◌, length-take, length-append, append-nil,
  arith,
}
use usbpcap_ai.Format.{PacketHeader, pcaprec_hdr_size, packet_header_bytes}
use usbpcap_ai.Format.Codec.{length-packet_header_bytes}
use usbpcap_ai.Buffer.{memory}
use usbpcap_ai.Buffer.Packet.{PayloadEntry}
use usbpcap_ai.Buffer.Packet.Store.{IsPacket, IsPayload, payload_bytes}
use usbpcap_ai.Urb.{BulkTransfer, Context, ControlTransfer, Transfer, get_buffer_pointer}
use usbpcap_ai.Urb.Packets.{
  bulk_endpoint, bulk_packet, control_packet, frame_packet, one_entry, pipe_packet, unknown_packet,
}

-- The memory of a transfer is there, and its length leaves room for a header in 32 bits.
pub record IsTransfer (t : Transfer) : Type 0 where
  pub fits : t.buffer_length ≤ length (memory (get_buffer_pointer t))
  pub small : t.buffer_length + 65536 < u32_mod

-- A packet whose header has the length that it states and whose payload is exactly as long as it
-- states, so that its record fits 32 bits.
pub record IsComplete (header : PacketHeader) (payload : List PayloadEntry) : Type 0 where
  pub packet : IsPacket header payload
  pub bounded : header.header_len + header.data_length + pcaprec_hdr_size < u32_mod
  pub complete : header.data_length ≡ length (payload_bytes payload)

-- The data of a transfer.
abbrev pub data_of : Transfer → List ℕ
data_of t = take t.buffer_length (memory (get_buffer_pointer t))

pub one_entry-bytes :
    (n : ℕ) (address : Option (List ℕ))
    → n ≤ length (memory address)
    → payload_bytes (one_entry n address) ≡ take n (memory address)
unfolding payload_bytes
one_entry-bytes n none h = ground arith
one_entry-bytes n (some bytes) h = append-nil (take n bytes)

pub one_entry-IsPayload :
    (n : ℕ) (address : Option (List ℕ))
    → n ≤ length (memory address)
    → IsPayload (one_entry n address)
one_entry-IsPayload n address h = (inr h, (inl refl, tt))

-- A packet of one entry is complete when the entry is there.
pub one_entry-IsComplete :
    (h : PacketHeader) (n : ℕ) (address : Option (List ℕ))
    → length (packet_header_bytes h) ≡ h.header_len
    → h.data_length ≡ n
    → n ≤ length (memory address)
    → h.header_len + n + pcaprec_hdr_size < u32_mod
    → IsComplete h (one_entry n address)
one_entry-IsComplete h n address size same fits small = record {
  packet = record { header_size = size; payload = one_entry-IsPayload n address fits };
  bounded = omega (arith, same, small);
  complete =
      ground (arith, same, fits, one_entry-bytes n address fits, length-take n (memory address));
}

-- A setup packet and, behind it, the data of a transfer or none.
setup_entry-IsComplete :
    (h : PacketHeader) (setup : List ℕ) (n : ℕ) (address : Option (List ℕ))
    → length (packet_header_bytes h) ≡ h.header_len
    → length setup ≡ 8
    → h.data_length ≡ 8 + n
    → n ≤ length (memory address)
    → h.header_len + (8 + n) + pcaprec_hdr_size < u32_mod
    → IsComplete h (record { size = 8; buffer = some setup } ∷ one_entry n address)
unfolding payload_bytes
setup_entry-IsComplete h setup n address size eight same fits small = record {
  packet = record {
    header_size = size;
    payload = (inr (omega (arith, eight)), one_entry-IsPayload n address fits);
  };
  bounded = omega (arith, same, small);
  complete = ground (
    arith,
    same,
    fits,
    eight,
    one_entry-bytes n address fits,
    length-take n (memory address),
    length-take 8 setup,
    length-append (take 8 setup) (payload_bytes (one_entry n address)),
  );
}

-- The packets without data of the device.
pub pipe_packet-IsComplete :
    (c : Context) (handle : ℕ) (post : Bool)
    → IsComplete (pipe_packet c handle post).header (pipe_packet c handle post).payload
unfolding pipe_packet
pipe_packet-IsComplete c handle post =
    let h = (pipe_packet c handle post).header in
    one_entry-IsComplete h 0 none (length-packet_header_bytes h) refl (omega arith) (omega arith)

pub unknown_packet-IsComplete :
    (c : Context) → IsComplete (unknown_packet c).header (unknown_packet c).payload
unfolding unknown_packet
unknown_packet-IsComplete c =
    let h = (unknown_packet c).header in
    one_entry-IsComplete h 0 none (length-packet_header_bytes h) refl (omega arith) (omega arith)

pub frame_packet-IsComplete :
    (c : Context) (n : ℕ) (garbage : List ℕ) (post : Bool)
    → IsComplete (frame_packet c n garbage post).header (frame_packet c n garbage post).payload
unfolding frame_packet
frame_packet-IsComplete c n garbage true =
    let h = (frame_packet c n garbage true).header in
    one_entry-IsComplete h 4 _ (length-packet_header_bytes h) refl (omega arith) (omega arith)
frame_packet-IsComplete c n garbage false =
    let h = (frame_packet c n garbage false).header in
    one_entry-IsComplete h 0 _ (length-packet_header_bytes h) refl (omega arith) (omega arith)

pub bulk_packet-IsComplete :
    (c : Context) (t : BulkTransfer) (post : Bool)
    → IsTransfer t.transfer
    → IsComplete (bulk_packet c t post).header (bulk_packet c t post).payload
unfolding bulk_packet
bulk_packet-IsComplete c t post v = elim (Bool-cases with_data) [
  | inl e ↦
      rw (e, bulk_packet)
        (one_entry-IsComplete _ t.transfer.buffer_length (get_buffer_pointer t.transfer)
          (length-packet_header_bytes _) refl v.fits (omega (arith, v.small)))
  | inr e ↦
      rw (e, bulk_packet)
        (one_entry-IsComplete _ 0 none (length-packet_header_bytes _) refl (omega arith)
          (omega arith))
]
  where
    with_data : Bool
    with_data =
        let endpoint = bulk_endpoint c t.pipe_handle in
        (has_bit endpoint 7 && post) || (not (has_bit endpoint 7) && not post)

-- A control transfer with a setup packet of eight bytes.
pub record IsControl (t : ControlTransfer) : Type 0 where
  pub valid : IsTransfer t.transfer
  pub eight : length t.setup_packet ≡ 8

from_device-IsComplete :
    (c : Context) (t : ControlTransfer) (post : Bool)
    → has_bit t.transfer_flags 0 ≡ true
    → IsControl t
    → IsComplete (control_packet c t post).header (control_packet c t post).payload
unfolding control_packet
from_device-IsComplete c t true e v =
    rw (e, control_packet)
      (one_entry-IsComplete _ _ _ (length-packet_header_bytes _) refl v.valid.fits
        (omega (arith, v.valid.small)))
from_device-IsComplete c t false e v =
    rw (e, control_packet)
      (setup_entry-IsComplete _ _ 0 none (length-packet_header_bytes _) v.eight refl (omega arith)
        (omega arith))

to_device-IsComplete :
    (c : Context) (t : ControlTransfer) (post : Bool)
    → has_bit t.transfer_flags 0 ≡ false
    → IsControl t
    → IsComplete (control_packet c t post).header (control_packet c t post).payload
unfolding control_packet
to_device-IsComplete c t true e v =
    rw (e, control_packet)
      (one_entry-IsComplete _ 0 none (length-packet_header_bytes _) refl (omega arith)
        (omega arith))
to_device-IsComplete c t false e v =
    rw (e, control_packet)
      (setup_entry-IsComplete _ _ _ _ (length-packet_header_bytes _) v.eight
        (omega (arith, v.valid.small)) v.valid.fits (omega (arith, v.valid.small)))

pub control_packet-IsComplete :
    (c : Context) (t : ControlTransfer) (post : Bool)
    → IsControl t
    → IsComplete (control_packet c t post).header (control_packet c t post).payload
control_packet-IsComplete c t post v = elim (Bool-cases (has_bit t.transfer_flags 0)) [
  | inl e ↦ from_device-IsComplete c t post e v
  | inr e ↦ to_device-IsComplete c t post e v
]
