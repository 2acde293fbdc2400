-- ===== src/Capture/File.antt =====
-- From the URBs at USBPcapDriver to the file that USBPcapCMD writes.
use usbpcap_ai.Base.{
  ℕ, ◌≡◌, ◌≤◌, ◌<◌, sym, ◌∙◌, ap, false, not, ◌&&◌, Option, some, List, [], ◌∷◌, ◌++◌, append-nil,
  IfSome-some, length, length-append, arith,
}
use usbpcap_ai.Format.{pcap_hdr_size, pcaprec_hdr_bytes, read_pcaprec_hdr}
use usbpcap_ai.Format.Codec.{length-pcaprec_hdr_bytes}
use usbpcap_ai.Buffer.Inv.{IsRing}
use usbpcap_ai.Buffer.Fifo.{contents}
use usbpcap_ai.Buffer.Irp.{Hub}
use usbpcap_ai.Buffer.Irp.Stream.{Call, run}
use usbpcap_ai.Tables.Generic.{GenericTable}
use usbpcap_ai.Tables.Endpoint.{EndpointInfo, endpoint_key}
use usbpcap_ai.Tables.UrbIrp.{UrbIrpInfo, urb_irp_key}
use usbpcap_ai.Client.Parser.{Options, Outside, Parser, fresh_parser, is_immediate, process_all}
use usbpcap_ai.Client.Parser.Capacity.{max_pending}
use usbpcap_ai.Client.Parser.Reads.{concat}
use usbpcap_ai.Client.Parser.Records.{AreRecords, CaptureRecord, record_bytes, stream}
use usbpcap_ai.Client.Parser.Records.Output.{output_bytes, process_all-stream}
use usbpcap_ai.Client.Parser.Works.{Works}
use usbpcap_ai.Urb.Analyze.{Sizes}
use usbpcap_ai.Urb.Dispatch.{Extension}
use usbpcap_ai.Capture.{Event, handle_events}
use usbpcap_ai.Capture.Traffic.{AreEvents, handle_events-IsRecords}

-- A stream has at least as many bytes as records.
length-stream : (rs : List CaptureRecord) → length rs ≤ length (stream rs [])
unfolding stream record_bytes
length-stream [] = omega arith
length-stream (r ∷ rs) = omega (
  arith,
  length-stream rs,
  length-append (pcaprec_hdr_bytes r.header ++ r.packet) (stream rs []),
  length-append (pcaprec_hdr_bytes r.header) r.packet,
  length-pcaprec_hdr_bytes r.header,
)

module _ (E : GenericTable EndpointInfo endpoint_key) (U : GenericTable UrbIrpInfo urb_irp_key)
    (sizes : Sizes) (find_interface : List ℕ → ℕ → ℕ → Option (ℕ × ℕ)) (o : Outside) (c : Options)
    (works : Works o) where
  -- A capture starts with a valid buffer that holds the global header; the driver handles any
  -- history of events without a fault, with the URBs' memory at hand, their lengths below
  -- 2^32 - 65536 and isochronous packets in the memory; and the readers get all bytes, at most 2 GiB. Then those bytes are the header and whole records, and the client, which gets
  -- them in pieces cut anywhere and whose calls of the system succeed, ends at every piece and leaves
  -- nothing over: its file has the header, the descriptors and the records that match, in order, or
  -- nothing if the mode is on-match and none matches. That is with the application's filter on or
  -- the store mode on-match, and with fuel for more rounds than there are bytes.
  pub capture-process_all :
      (x y : Extension E U sizes find_interface) (es : List Event) (h : Hub) (calls : List Call)
      (n : ℕ) (bytes : List ℕ) (chunks : List (List ℕ))
      → AreEvents es
      → IsRing h.ring
      → length (contents h.ring) ≡ pcap_hdr_size
      → handle_events E U sizes find_interface x es ≡ some (calls, y)
      → contents (run h calls).2.ring ≡ []
      → bytes ++ concat chunks ≡ (run h calls).1
      → length (run h calls).1 ≤ max_pending
      → length (run h calls).1 < n
      → (not c.app_filter.enabled && is_immediate c.store_mode) ≡ false
      → (rs : List CaptureRecord) × (q : Parser) × AreRecords rs
        × ((run h calls).1 ≡ contents h.ring ++ stream rs [])
        × (process_all o c n fresh_parser (bytes ∷ chunks) ≡ some q)
        × (q.session.written ≡ output_bytes c (contents h.ring) rs)
        × (q.session.pending ≡ [])
  unfolding read_pcaprec_hdr
  capture-process_all x y es h calls n bytes chunks v ring opened ends all_read cut small fuel
        parses =
      let header = contents h.ring in
      let (whole, delivers) =
        IfSome-some _ _ _ (handle_events-IsRecords E U sizes find_interface x es h v ring) ends in
      let rs = whole.records in
      let got : (run h calls).1 ≡ header ++ stream rs [] =
        sym (append-nil (run h calls).1)
        ∙ ap (λ t. (run h calls).1 ++ t) (sym all_read)
        ∙ delivers.conserved
        ∙ ap (λ t. header ++ t) whole.bytes_stream in
      let (q, done, written, pending, dropped) =
        process_all-stream c works header rs [] n bytes chunks parses opened whole.valid tt
          (omega
            (arith, fuel, length-stream rs, ap length got, length-append header (stream rs [])))
          (cut ∙ got) (omega (arith, small, ap length got)) in
      (rs, q, whole.valid, got, done, written, pending)
