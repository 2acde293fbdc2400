-- ===== src/Buffer/Setup/Reset.antt =====
-- What emptying the buffer of USBPcapDriver/USBPcapBuffer.c leaves.
use usbpcap_ai.Base.{◌<◌, ◌≡◌, refl, ap, ◌∙◌, false, [], ◌++◌, arith}
use usbpcap_ai.Format.{pcap_hdr_bytes, pcap_hdr_size}
use usbpcap_ai.Buffer.{RingData, is_null}
use usbpcap_ai.Buffer.Inv.{IsRing}
use usbpcap_ai.Buffer.Fifo.{contents}
use usbpcap_ai.Buffer.Appends.{Appends}
use usbpcap_ai.Buffer.Setup.{global_header, initialize_buffer, write_global_header}
use usbpcap_ai.Buffer.Setup.Resize.{contents_empty, write_global_header-Appends}

-- `USBPcapBufferInitializeBuffer` on a hub with a valid buffer that is larger than the global
-- header leaves a valid buffer that holds exactly that header, whatever waited before.
pub initialize_buffer_lem :
    (s : RingData)
    → IsRing s
    → pcap_hdr_size < s.buffer_size
    → IsRing (initialize_buffer s)
      × (contents (initialize_buffer s) ≡ pcap_hdr_bytes (global_header s))
unfolding initialize_buffer global_header
initialize_buffer_lem s v room =
    let is_ring : is_null s.buffer ≡ false = ground (arith, v.present) in
    rw is_ring
      (added.ring, added.appended ∙ ap (λ c. c ++ pcap_hdr_bytes (global_header fresh)) nothing)
  where
    fresh : RingData
    fresh = record s { read_offset = 0; write_offset = 0 }

    valid : IsRing fresh
    valid = ground (arith, v)

    nothing : contents fresh ≡ []
    nothing = contents_empty fresh refl refl

    added : Appends fresh (pcap_hdr_bytes (global_header fresh)) (write_global_header fresh)
    added = write_global_header-Appends fresh valid nothing room
