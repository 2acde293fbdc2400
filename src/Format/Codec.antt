-- ===== src/Format/Codec.antt =====
-- USBPcapDriver/include/USBPcap.h: the bytes of a header read back give the header.
use usbpcap_ai.Base.{
  ℕ, ◌+◌, ◌<◌, ◌≡◌, refl, List, ◌++◌, some, ap, arith, length, u16_mod, u32_mod, of_le16-le16,
  of_le32-le32,
}
use usbpcap_ai.Format.{
  PcapHdr, PcaprecHdr, PacketHeader, pcap_hdr_bytes, pcaprec_hdr_bytes, packet_header_bytes,
  read_pcap_hdr, read_pcaprec_hdr, pcap_hdr_size, pcaprec_hdr_size, packet_header_size,
}

-- The fields fit their types.
pub record IsPcapHdr (h : PcapHdr) : Type 0 where
  pub magic_number_lt : h.magic_number < u32_mod
  pub version_major_lt : h.version_major < u16_mod
  pub version_minor_lt : h.version_minor < u16_mod
  pub thiszone_lt : h.thiszone < u32_mod
  pub sigfigs_lt : h.sigfigs < u32_mod
  pub snaplen_lt : h.snaplen < u32_mod
  pub network_lt : h.network < u32_mod

pub record IsPcaprecHdr (h : PcaprecHdr) : Type 0 where
  pub ts_sec_lt : h.ts_sec < u32_mod
  pub ts_usec_lt : h.ts_usec < u32_mod
  pub incl_len_lt : h.incl_len < u32_mod
  pub orig_len_lt : h.orig_len < u32_mod

pub length-pcap_hdr_bytes : (h : PcapHdr) → length (pcap_hdr_bytes h) ≡ pcap_hdr_size
unfolding pcap_hdr_bytes
length-pcap_hdr_bytes h = refl

pub length-pcaprec_hdr_bytes : (h : PcaprecHdr) → length (pcaprec_hdr_bytes h) ≡ pcaprec_hdr_size
unfolding pcaprec_hdr_bytes
length-pcaprec_hdr_bytes h = refl

pub length-packet_header_bytes :
    (h : PacketHeader) → length (packet_header_bytes h) ≡ packet_header_size + length h.rest
unfolding packet_header_bytes
length-packet_header_bytes h = omega arith

-- The global header read from its bytes is the header, whatever follows.
pub read-pcap_hdr_bytes :
    (h : PcapHdr) (rest : List ℕ) → IsPcapHdr h → read_pcap_hdr (pcap_hdr_bytes h ++ rest) ≡ some h
unfolding read_pcap_hdr pcap_hdr_bytes
read-pcap_hdr_bytes h rest v = ap some λ i. record {
  magic_number = of_le32-le32 h.magic_number v.magic_number_lt i;
  version_major = of_le16-le16 h.version_major v.version_major_lt i;
  version_minor = of_le16-le16 h.version_minor v.version_minor_lt i;
  thiszone = of_le32-le32 h.thiszone v.thiszone_lt i;
  sigfigs = of_le32-le32 h.sigfigs v.sigfigs_lt i;
  snaplen = of_le32-le32 h.snaplen v.snaplen_lt i;
  network = of_le32-le32 h.network v.network_lt i;
}

-- A record header read from its bytes is the header, whatever follows.
pub read-pcaprec_hdr_bytes :
    (h : PcaprecHdr) (rest : List ℕ)
    → IsPcaprecHdr h
    → read_pcaprec_hdr (pcaprec_hdr_bytes h ++ rest) ≡ some h
unfolding read_pcaprec_hdr pcaprec_hdr_bytes
read-pcaprec_hdr_bytes h rest v = ap some λ i. record {
  ts_sec = of_le32-le32 h.ts_sec v.ts_sec_lt i;
  ts_usec = of_le32-le32 h.ts_usec v.ts_usec_lt i;
  incl_len = of_le32-le32 h.incl_len v.incl_len_lt i;
  orig_len = of_le32-le32 h.orig_len v.orig_len_lt i;
}
