-- ===== src/Client/Descriptors/Tests.antt =====
-- The theorems on USBPcapCMD/descriptors.c with one device that has a configuration of nine bytes.
use usbpcap_ai.Base.{
  ap, sym, ◌∙◌, ℕ, zero, suc, ◌-◌, ◌≡◌, refl, true, false, Option, none, some, IfSome, List, [],
  ◌∷◌, ◌++◌, append-nil, drop, length, take, take-append-drop, ◌||◌, if◌then◌else◌, arith,
}
use usbpcap_ai.Filter.{AddressFilter, zero_filter}
use usbpcap_ai.Format.{pcaprec_hdr_bytes, read_pcaprec_hdr}
use usbpcap_ai.Client.Parser.{
  Options, Outside, Parser, StoreMode, WriteResult, fresh_parser, is_immediate, process_all,
}
use usbpcap_ai.Client.Parser.Works.{Works}
use usbpcap_ai.Client.Parser.Reads.{concat}
use usbpcap_ai.Client.Parser.Records.{AreRecords, CaptureRecord, IsPartial, record_bytes, stream}
use usbpcap_ai.Client.Parser.Records.Output.{has_match}
use usbpcap_ai.Client.Descriptors.{ConnectedDevice, DeviceSystem, descriptors_generate_pcap}
use usbpcap_ai.Client.Descriptors.Records.{
  IsDescriptors, IsSystem, descriptors_generate_pcap-IsDescriptors,
}
use usbpcap_ai.Client.Descriptors.File.{file_records, process_all-descriptors_generate_pcap}

-- A list cut or padded to a length.
abbrev fit : ℕ → List ℕ → List ℕ
fit zero xs = []
fit (suc n) [] = 0 ∷ fit n []
fit (suc n) (x ∷ xs) = x ∷ fit n xs

length-fit : (n : ℕ) (xs : List ℕ) → length (fit n xs) ≡ n
length-fit zero xs = refl
length-fit (suc n) [] = omega (arith, length-fit n [])
length-fit (suc n) (x ∷ xs) = omega (arith, length-fit n xs)

abbrev system : DeviceSystem
system = record {
  get_descriptor = λ n q. some (n, fit (n - 12) (9 ∷ 2 ∷ 9 ∷ 0 ∷ 0 ∷ 1 ∷ 0 ∷ 128 ∷ 50 ∷ []));
  room = λ n. true;
  time = λ i. 133000000000000000;
  atoi_word = λ text. 1;
}

abbrev bytes_or : List ℕ → Option (ℕ × List ℕ) → List ℕ
bytes_or xs none = xs
bytes_or xs (some a) = a.1

system-IsSystem : IsSystem system
system-IsSystem = record {
  fills = λ n q a e.
      ap (λ x. length (bytes_or [] x)) (sym e)
      ∙ length-fit (n - 12) (9 ∷ 2 ∷ 9 ∷ 0 ∷ 0 ∷ 1 ∷ 0 ∷ 128 ∷ 50 ∷ []);
}

abbrev devices : List ConnectedDevice
devices =
    record {
      port = 1;
      device_address = 5;
      descriptor = record {
        length = 18;
        descriptor_type = 1;
        usb = 512;
        device_class = 0;
        device_sub_class = 0;
        device_protocol = 0;
        max_packet_size = 64;
        vendor = 1133;
        product = 49271;
        release = 256;
        manufacturer = 1;
        product_string = 2;
        serial_number = 0;
        configurations = 1;
      };
    }
    ∷ []

abbrev addresses : AddressFilter
addresses = record zero_filter { filter_all = 1 }

abbrev name : List ℕ
name = 85 ∷ 49 ∷ []

descriptors_generate_pcap-IsDescriptors_example :
    IfSome IsDescriptors (descriptors_generate_pcap system name addresses devices)
descriptors_generate_pcap-IsDescriptors_example =
    descriptors_generate_pcap-IsDescriptors system name addresses devices system-IsSystem

abbrev generated : List ℕ
generated = elim (descriptors_generate_pcap system name addresses devices) [
  | none ↦ []
  | some bytes ↦ bytes
]

descriptors_generate_pcap-generated :
    descriptors_generate_pcap system name addresses devices ≡ some generated
unfolding descriptors_generate_pcap
descriptors_generate_pcap-generated = refl

abbrev options : Options
options = record {
  app_filter = record {
    enabled = false;
    has_vendor_id = false;
    has_product_id = false;
    has_endpoint = false;
    has_transfer_type = false;
    vendor_id = 0;
    product_id = 0;
    endpoint = 0;
    transfer_type = 0;
  };
  device_metadata = [];
  store_mode = StoreMode.on_match;
  descriptors = generated;
}

abbrev header : List ℕ
header =
    212 ∷ 195 ∷ 178 ∷ 161 ∷ 2 ∷ 0 ∷ 4 ∷ 0 ∷ 0 ∷ 0 ∷ 0 ∷ 0 ∷ 0 ∷ 0 ∷ 0 ∷ 0 ∷ 255 ∷ 255 ∷ 0 ∷ 0 ∷ 249
    ∷ 0 ∷ 0 ∷ 0 ∷ []

abbrev one_record : List CaptureRecord
one_record =
    record {
      header = record { ts_sec = 1; ts_usec = 2; incl_len = 2; orig_len = 2 };
      packet = 7 ∷ 8 ∷ [];
    }
    ∷ []

one_record-AreRecords : AreRecords one_record
one_record-AreRecords = (
  record {
    header_valid = record {
      ts_sec_lt = omega arith;
      ts_usec_lt = omega arith;
      incl_len_lt = omega arith;
      orig_len_lt = omega arith;
    };
    incl = refl;
    small = omega arith;
  },
  tt,
)

abbrev file_bytes : List ℕ
file_bytes = header ++ stream one_record []

file_length : length file_bytes ≡ 42
unfolding stream record_bytes pcaprec_hdr_bytes
file_length = refl

no_tail-IsPartial : IsPartial []
unfolding read_pcaprec_hdr
no_tail-IsPartial = tt

cut : take 30 file_bytes ++ concat (drop 30 file_bytes ∷ []) ≡ file_bytes
unfolding concat
cut =
    ap (λ t. take 30 file_bytes ++ t) (append-nil (drop 30 file_bytes))
    ∙ take-append-drop 30 file_bytes

abbrev outside : Outside
outside = record {
  open_output = true;
  write_file = λ file written. WriteResult.at_once;
  room = λ size. true;
}

outside-Works : Works outside
outside-Works = record { opens = refl; writes = λ file written. refl; has_room = λ size. refl }

process_all-descriptors_generate_pcap_example :
    (q : Parser) × (ds : List CaptureRecord) × (process_all outside options 2 fresh_parser
        (take 30 file_bytes ∷ drop 30 file_bytes ∷ [])
      ≡ some q)
    × AreRecords (file_records options header ds one_record)
    × (generated ≡ stream ds [])
    × (q.session.written ≡ (
        if is_immediate StoreMode.on_match || has_match options one_record
        then header ++ stream (file_records options header ds one_record) []
        else []))
process_all-descriptors_generate_pcap_example =
    process_all-descriptors_generate_pcap options outside-Works system name addresses devices header
      one_record [] 2 (take 30 file_bytes) (drop 30 file_bytes ∷ []) system-IsSystem
      descriptors_generate_pcap-generated refl refl one_record-AreRecords no_tail-IsPartial
      (omega arith) cut (omega (arith, file_length))
