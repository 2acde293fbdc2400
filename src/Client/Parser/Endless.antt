-- ===== src/Client/Parser/Endless.antt =====
-- A record header that `process_data` (USBPcapCMD/thread.c) does not get past.
use usbpcap_ai.Base.{ℕ, zero, suc, ◌+◌, ◌≡◌, refl, true, false, none, some, drop, add32, arith}
use usbpcap_ai.Format.{PcaprecHdr, pcaprec_hdr_size, read_pcaprec_hdr}
use usbpcap_ai.Client.Parser.{
  Options, Outside, Session, next, app_packet_matches, drain, round, take_pcap_header, take_record,
}

-- A record header that does not match and whose `incl_len` is 2^32 - 16 makes `totalLength` 0: the
-- loop drops the same record for ever, and no fuel is enough.
pub drain_endless :
    (o : Outside) (c : Options) (n : ℕ) (s : Session) (h : PcaprecHdr)
    → s.process ≡ true
    → s.have_pcap_header ≡ true
    → read_pcaprec_hdr s.pending ≡ some h
    → h.incl_len + pcaprec_hdr_size ≡ 4294967296
    → app_packet_matches c (drop pcaprec_hdr_size s.pending) h.incl_len ≡ false
    → drain o c n s ≡ none
unfolding drain round take_pcap_header take_record
drain_endless o c zero s h p g r e m = refl
drain_endless o c (suc n) s h p g r e m =
    ground (arith, again, drain_endless o c n dropped h p g r e m)
  where
    dropped : Session
    dropped = record s { dropped_packets = add32 s.dropped_packets 1 }

    again : round o c s ≡ next dropped
    again = ground (arith, p, g, r, e, m)
