-- ===== src/Client/Parser/Tests.antt =====
-- The theorems on USBPcapCMD/thread.c at a concrete stream: two records, of which the second one
-- matches, and the beginning of a third, read in two pieces.
use usbpcap_ai.Base.{ℕ, ◌≡◌, refl, true, false, none, some, List, [], ◌∷◌, ◌++◌, drop}
use usbpcap_ai.Format.{PcaprecHdr, pcaprec_hdr_bytes, read_pcaprec_hdr}
use usbpcap_ai.Client.Parser.{
  Options, Outside, Parser, Session, StoreMode, WriteResult, app_packet_matches, drain,
  fresh_session,
}
use usbpcap_ai.Client.Parser.Works.{Works}
use usbpcap_ai.Client.Parser.Endless.{drain_endless}
use usbpcap_ai.Client.Parser.Records.{CaptureRecord, stream}

abbrev outside : Outside
outside = record {
  open_output = true;
  write_file = λ file bytes. WriteResult.at_once;
  room = λ size. true;
}

-- Only endpoint 0x81 is stored, from the first packet of it on.
abbrev options : Options
options = record {
  app_filter = record {
    enabled = true;
    has_vendor_id = false;
    has_product_id = false;
    has_endpoint = true;
    has_transfer_type = false;
    vendor_id = 0;
    product_id = 0;
    endpoint = 129;
    transfer_type = 0;
  };
  device_metadata = [];
  store_mode = StoreMode.on_match;
  descriptors = 1 ∷ 2 ∷ 3 ∷ [];
}

abbrev header : List ℕ
header =
    212 ∷ 195 ∷ 178 ∷ 161 ∷ 2 ∷ 0 ∷ 4 ∷ 0 ∷ 0 ∷ 0 ∷ 0 ∷ 0 ∷ 0 ∷ 0 ∷ 0 ∷ 0 ∷ 255 ∷ 255 ∷ 0 ∷ 0 ∷ 249
    ∷ 0 ∷ 0 ∷ 0 ∷ []

abbrev record_header : PcaprecHdr
record_header = record { ts_sec = 1; ts_usec = 2; incl_len = 27; orig_len = 27 }

abbrev packet : ℕ → List ℕ
packet endpoint =
    27 ∷ 0 ∷ 0 ∷ 0 ∷ 0 ∷ 0 ∷ 0 ∷ 0 ∷ 0 ∷ 0 ∷ 0 ∷ 0 ∷ 0 ∷ 0 ∷ 9 ∷ 0 ∷ 0 ∷ 1 ∷ 0 ∷ 5 ∷ 0 ∷ endpoint
    ∷ 3 ∷ 0 ∷ 0 ∷ 0 ∷ 0 ∷ []

abbrev records : List CaptureRecord
records =
    record { header = record_header; packet = packet 2 }
    ∷ record { header = record_header; packet = packet 129 }
    ∷ []

abbrev tail : List ℕ
tail = 9 ∷ 9 ∷ []

abbrev all_bytes : List ℕ
all_bytes = header ++ stream records tail

-- A record header with the length that wraps, and a packet of another endpoint.
abbrev wrapping : PcaprecHdr
wrapping = record { ts_sec = 1; ts_usec = 2; incl_len = 4294967280; orig_len = 0 }

abbrev stuck : Session
stuck = record fresh_session {
  have_pcap_header = true;
  pending = pcaprec_hdr_bytes wrapping ++ packet 2;
}

read_wrapping : read_pcaprec_hdr stuck.pending ≡ some wrapping
unfolding read_pcaprec_hdr pcaprec_hdr_bytes
read_wrapping = refl

misses : app_packet_matches options (drop 16 stuck.pending) 4294967280 ≡ false
unfolding app_packet_matches pcaprec_hdr_bytes
misses = refl

drain_endless_example : drain outside options 1000 stuck ≡ none
drain_endless_example =
    drain_endless outside options 1000 stuck wrapping refl refl read_wrapping refl misses
