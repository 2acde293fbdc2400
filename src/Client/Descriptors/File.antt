-- ===== src/Client/Descriptors/File.antt =====
-- The file of USBPcapCMD with the descriptors of the connected devices in front.
use usbpcap_ai.Base.{
  ℕ, ◌≤◌, ◌<◌, ◌≡◌, refl, sym, ◌∙◌, ap, ap₂, false, some, List, [], ◌∷◌, ◌++◌, append_assoc,
  IfSome-some, Bool-cases, inl, inr, ltb, length, not, ◌&&◌, ◌||◌, if◌then◌else◌, arith,
}
use usbpcap_ai.Filter.{AddressFilter}
use usbpcap_ai.Format.{pcap_hdr_size}
use usbpcap_ai.Client.Parser.{
  Options, Outside, Parser, fresh_parser, is_immediate, is_usbpcap_header, process_all,
}
use usbpcap_ai.Client.Parser.Capacity.{max_pending}
use usbpcap_ai.Client.Parser.Reads.{concat}
use usbpcap_ai.Client.Parser.Records.{
  AreRecords, AreRecords-append, stream-append, CaptureRecord, IsPartial, is_match, record_bytes,
  stream,
}
use usbpcap_ai.Client.Parser.Records.Output.{has_match, matching, output_bytes, process_all-stream}
use usbpcap_ai.Buffer.Irp.Stream.{length_zero}
use usbpcap_ai.Client.Parser.Works.{Works, start_bytes}
use usbpcap_ai.Client.Descriptors.{ConnectedDevice, DeviceSystem, descriptors_generate_pcap}
use usbpcap_ai.Client.Descriptors.Records.{IsSystem, descriptors_generate_pcap-IsDescriptors}

-- The records that match.
abbrev pub matches : Options → List CaptureRecord → List CaptureRecord
matches c [] = []
matches c (r ∷ rs) = if is_match c r then r ∷ matches c rs else matches c rs

matching-stream : (c : Options) (rs : List CaptureRecord) → matching c rs ≡ stream (matches c rs) []
unfolding matching stream
matching-stream c [] = refl
matching-stream c (r ∷ rs) = elim (Bool-cases (is_match c r)) [
  | inl e ↦ rw (e, matching) (ap (λ t. record_bytes r ++ t) (matching-stream c rs))
  | inr e ↦ rw (e, matching) (matching-stream c rs)
]

matches-AreRecords :
    (c : Options) (rs : List CaptureRecord) → AreRecords rs → AreRecords (matches c rs)
matches-AreRecords c [] v = tt
matches-AreRecords c (r ∷ rs) v = elim (Bool-cases (is_match c r)) [
  | inl e ↦ rw e (v.0, matches-AreRecords c rs v.1)
  | inr e ↦ rw e (matches-AreRecords c rs v.1)
]

-- The records of the file: the descriptors, if the header is one of USBPcap, and those that match.
abbrev pub file_records :
    Options → List ℕ → List CaptureRecord → List CaptureRecord → List CaptureRecord
file_records c header ds rs = if is_usbpcap_header header then ds ++ matches c rs else matches c rs

with_descriptors :
    (c : Options) (header : List ℕ) (ds rs : List CaptureRecord)
    → c.descriptors ≡ stream ds []
    → start_bytes c header ++ matching c rs ≡ header ++ stream (file_records c header ds rs) []
unfolding start_bytes
with_descriptors c header ds rs same = elim (Bool-cases (is_usbpcap_header header)) [
  | inr e ↦
      rw (e, start_bytes)
        (append_assoc header [] (matching c rs) ∙ ap (λ t. header ++ t) (matching-stream c rs))
  | inl e ↦ elim (Bool-cases (ltb 0 (length c.descriptors))) [
    | inl some_bytes ↦
        rw (e, some_bytes, start_bytes)
          (append_assoc header c.descriptors (matching c rs)
            ∙ ap (λ t. header ++ t)
                (ap₂ (λ s t. s ++ t) same (matching-stream c rs)
                  ∙ sym (stream-append ds (matches c rs))))
    | inr no_bytes ↦
        rw (e, no_bytes, start_bytes)
          (append_assoc header [] (matching c rs)
            ∙ ap (λ t. header ++ t)
                (ap₂ (λ s t. s ++ t)
                    (sym (length_zero c.descriptors (ground (arith, no_bytes))) ∙ same)
                    (matching-stream c rs)
                  ∙ sym (stream-append ds (matches c rs))))
  ]
]

output_bytes-file_records :
    (c : Options) (header : List ℕ) (ds rs : List CaptureRecord)
    → c.descriptors ≡ stream ds []
    → output_bytes c header rs ≡ (
        if is_immediate c.store_mode || has_match c rs
        then header ++ stream (file_records c header ds rs) []
        else [])
unfolding output_bytes
output_bytes-file_records c header ds rs same =
    ap (λ t. if is_immediate c.store_mode || has_match c rs then t else [])
      (with_descriptors c header ds rs same)

file_records-AreRecords :
    (c : Options) (header : List ℕ) (ds rs : List CaptureRecord)
    → AreRecords ds
    → AreRecords rs
    → AreRecords (file_records c header ds rs)
file_records-AreRecords c header ds rs w v = elim (Bool-cases (is_usbpcap_header header)) [
  | inl e ↦ rw e (AreRecords-append ds (matches c rs) w (matches-AreRecords c rs v))
  | inr e ↦ rw e (matches-AreRecords c rs v)
]

module _ {o : Outside} (c : Options) (works : Works o) where
  -- The client, whose descriptors are those that were generated for the devices, reads a stream of a
  -- global header, whole records and the beginning of one more, at most 2 GiB, in pieces cut anywhere,
  -- with the filter on or in mode on-match, and every call of the system succeeds. With fuel for more
  -- rounds than there are records it comes to an end, and what it has written is nothing, in mode
  -- on-match without a match, or the global header and whole records: those of the descriptors, if
  -- the header is one of USBPcap, and then those that match.
  pub process_all-descriptors_generate_pcap :
      (s : DeviceSystem) (name : List ℕ) (addresses : AddressFilter)
      (devices : List ConnectedDevice) (header : List ℕ) (rs : List CaptureRecord) (tail : List ℕ)
      (n : ℕ) (bytes : List ℕ) (chunks : List (List ℕ))
      → IsSystem s
      → descriptors_generate_pcap s name addresses devices ≡ some c.descriptors
      → (not c.app_filter.enabled && is_immediate c.store_mode) ≡ false
      → length header ≡ pcap_hdr_size
      → AreRecords rs
      → IsPartial tail
      → length rs < n
      → bytes ++ concat chunks ≡ header ++ stream rs tail
      → length (header ++ stream rs tail) ≤ max_pending
      → (q : Parser) × (ds : List CaptureRecord) × (process_all o c n fresh_parser (bytes ∷ chunks)
          ≡ some q)
        × AreRecords (file_records c header ds rs)
        × (c.descriptors ≡ stream ds [])
        × (q.session.written ≡ (
            if is_immediate c.store_mode || has_match c rs
            then header ++ stream (file_records c header ds rs) []
            else []))
  process_all-descriptors_generate_pcap s name addresses devices header rs tail n bytes chunks
        system made parses len v partial fuel cut small =
      let made_of =
        IfSome-some _ _ c.descriptors
          (descriptors_generate_pcap-IsDescriptors s name addresses devices system) made in
      let (q, done, written, left, dropped) =
        process_all-stream c works header rs tail n bytes chunks parses len v partial fuel cut
          small in
      (
        q,
        made_of.records,
        done,
        file_records-AreRecords c header made_of.records rs made_of.valid v,
        made_of.bytes_stream,
        written ∙ output_bytes-file_records c header made_of.records rs made_of.bytes_stream,
      )
