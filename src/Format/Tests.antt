-- ===== src/Format/Tests.antt =====
-- The theorems on USBPcapDriver/include/USBPcap.h at concrete headers.
use usbpcap_ai.Base.{◌≡◌, ◌++◌, some, [], ◌∷◌, arith}
use usbpcap_ai.Format.{PcaprecHdr, pcaprec_hdr_bytes, read_pcaprec_hdr}
use usbpcap_ai.Format.Codec.{read-pcaprec_hdr_bytes}

abbrev packet : PcaprecHdr
packet = record { ts_sec = 1700000000; ts_usec = 999999; incl_len = 29; orig_len = 29 }

read-pcaprec_hdr_bytes_example :
    read_pcaprec_hdr (pcaprec_hdr_bytes packet ++ (1 ∷ [])) ≡ some packet
read-pcaprec_hdr_bytes_example = read-pcaprec_hdr_bytes packet (1 ∷ []) (record {
  ts_sec_lt = omega arith;
  ts_usec_lt = omega arith;
  incl_len_lt = omega arith;
  orig_len_lt = omega arith;
})
