-- ===== src/Format.antt =====
-- USBPcapDriver/include/USBPcap.h: the records of a capture file and the headers of captured
-- packets, as their packed little-endian bytes.
pub mod Codec
mod Tests
use usbpcap_ai.Base.{
  ℕ, ◌%◌, List, ◌∷◌, ◌++◌, Option, none, some, le16, le32, le64, of_le16, of_le32,
}

abbrev pub dlt_usbpcap : ℕ
dlt_usbpcap = 249

abbrev pub pcap_magic : ℕ
pcap_magic = 0xA1B2C3D4

-- sizeof(pcap_hdr_t), sizeof(pcaprec_hdr_t) and sizeof(USBPCAP_BUFFER_PACKET_HEADER).
abbrev pub pcap_hdr_size : ℕ
pcap_hdr_size = 24

abbrev pub pcaprec_hdr_size : ℕ
pcaprec_hdr_size = 16

abbrev pub packet_header_size : ℕ
packet_header_size = 27

-- sizeof(USBPCAP_BUFFER_CONTROL_HEADER)
abbrev pub control_header_size : ℕ
control_header_size = 28

abbrev pub transfer_isochronous : ℕ
transfer_isochronous = 0

abbrev pub transfer_interrupt : ℕ
transfer_interrupt = 1

abbrev pub transfer_control : ℕ
transfer_control = 2

abbrev pub transfer_bulk : ℕ
transfer_bulk = 3

abbrev pub transfer_irp_info : ℕ
transfer_irp_info = 0xFE

abbrev pub transfer_unknown : ℕ
transfer_unknown = 0xFF

abbrev pub info_pdo_to_fdo : ℕ
info_pdo_to_fdo = 1

abbrev pub control_stage_setup : ℕ
control_stage_setup = 0

abbrev pub control_stage_complete : ℕ
control_stage_complete = 3

-- `pcap_hdr_t`; `thiszone` is an INT32 and only ever 0, kept as its bit pattern.
pub record PcapHdr : Type 0 where
  pub magic_number : ℕ
  pub version_major : ℕ
  pub version_minor : ℕ
  pub thiszone : ℕ
  pub sigfigs : ℕ
  pub snaplen : ℕ
  pub network : ℕ

-- `pcaprec_hdr_t`
pub record PcaprecHdr : Type 0 where
  pub ts_sec : ℕ
  pub ts_usec : ℕ
  pub incl_len : ℕ
  pub orig_len : ℕ

-- `USBPCAP_BUFFER_PACKET_HEADER`, with what follows it in the larger headers: the stage byte of
-- `USBPCAP_BUFFER_CONTROL_HEADER`, or the frame fields and packets of
-- `USBPCAP_BUFFER_ISOCH_HEADER`.
pub record PacketHeader : Type 0 where
  pub header_len : ℕ
  pub irp_id : ℕ
  pub status : ℕ
  pub function : ℕ
  pub info : ℕ
  pub bus : ℕ
  pub device : ℕ
  pub endpoint : ℕ
  pub transfer : ℕ
  pub data_length : ℕ
  pub rest : List ℕ

-- The bytes of each structure in memory.
unfoldable pub pcap_hdr_bytes : PcapHdr → List ℕ
pcap_hdr_bytes h =
    le32 h.magic_number
    ++ (le16 h.version_major
        ++ (le16 h.version_minor
            ++ (le32 h.thiszone ++ (le32 h.sigfigs ++ (le32 h.snaplen ++ le32 h.network)))))

unfoldable pub pcaprec_hdr_bytes : PcaprecHdr → List ℕ
pcaprec_hdr_bytes h = le32 h.ts_sec ++ (le32 h.ts_usec ++ (le32 h.incl_len ++ le32 h.orig_len))

unfoldable pub packet_header_bytes : PacketHeader → List ℕ
packet_header_bytes h =
    le16 h.header_len
    ++ (le64 h.irp_id
        ++ (le32 h.status
            ++ (le16 h.function
                ++ (h.info % 256
                    ∷ (le16 h.bus
                        ++ (le16 h.device
                            ++ (h.endpoint % 256
                                ∷ h.transfer % 256
                                ∷ (le32 h.data_length ++ h.rest))))))))

-- A structure read back by a cast or a memcpy; `none` where the memory is shorter.
unfoldable pub read_pcap_hdr : List ℕ → Option PcapHdr
read_pcap_hdr
      (a ∷ b ∷ c ∷ d ∷ e ∷ f ∷ g ∷ h ∷ i ∷ j ∷ k ∷ l ∷ m ∷ n ∷ o ∷ p ∷ q ∷ r ∷ s ∷ t ∷ u ∷ v ∷ w ∷ x
        ∷ _) =
    some (record {
      magic_number = of_le32 a b c d;
      version_major = of_le16 e f;
      version_minor = of_le16 g h;
      thiszone = of_le32 i j k l;
      sigfigs = of_le32 m n o p;
      snaplen = of_le32 q r s t;
      network = of_le32 u v w x;
    })
read_pcap_hdr _ = none

unfoldable pub read_pcaprec_hdr : List ℕ → Option PcaprecHdr
read_pcaprec_hdr (a ∷ b ∷ c ∷ d ∷ e ∷ f ∷ g ∷ h ∷ i ∷ j ∷ k ∷ l ∷ m ∷ n ∷ o ∷ p ∷ _) =
    some (record {
      ts_sec = of_le32 a b c d;
      ts_usec = of_le32 e f g h;
      incl_len = of_le32 i j k l;
      orig_len = of_le32 m n o p;
    })
read_pcaprec_hdr _ = none
