-- ===== src/Client/Parser/Works.antt =====
-- The loop of `process_data` (USBPcapCMD/thread.c) where the system's calls succeed.
use usbpcap_ai.Base.{
  ℕ, ◌≡◌, refl, true, not, ◌&&◌, ◌||◌, Bool-cases, List, [], ◌++◌, append-nil, append_assoc, length,
  take, drop, ltb, leb, if◌then◌else◌, arith, inl, inr,
}
use usbpcap_ai.Format.{pcap_hdr_size}
use usbpcap_ai.Client.Parser.{
  Options, Outside, Session, WriteResult, begin_output_stream, is_immediate, is_usbpcap_header,
  store_match, take_pcap_header, write_data, write_start,
}

-- The output file opens, memory is there, and every write is done at once.
pub record Works (o : Outside) : Type 0 where
  pub opens : o.open_output ≡ true
  pub writes : (file bytes : List ℕ) → o.write_file file bytes ≡ WriteResult.at_once
  pub has_room : (size : ℕ) → o.room size ≡ true

-- What the output file begins with.
unfoldable pub start_bytes : Options → List ℕ → List ℕ
start_bytes c header =
    header
    ++ (if is_usbpcap_header header && ltb 0 (length c.descriptors) then c.descriptors else [])

-- The session with its output begun, and with a matching record stored.
unfoldable pub begun : Options → Session → Session
begun c s = if s.wrote_pcap_header then s else record s {
  output_open = true;
  written = s.written ++ start_bytes c s.pcap_header;
  wrote_pcap_header = true;
  triggered = true;
}

unfoldable pub stored : Options → Session → List ℕ → Session
stored c s bytes =
    let s' = if not (is_immediate c.store_mode) && s.triggered then s else begun c s in
    if is_immediate c.store_mode || s'.triggered
    then record s' { written = s'.written ++ bytes }
    else s'

module _ {o : Outside} (c : Options) (works : Works o) where
  write_data-works :
      (s : Session) (bytes : List ℕ)
      → write_data o s bytes ≡ record s { written = s.written ++ bytes }
  unfolding write_data
  write_data-works s bytes = ground (arith, works.writes s.written bytes)

  write_start-works :
      (s : Session) (header : List ℕ)
      → write_start o c s header ≡ record s { written = s.written ++ start_bytes c header }
  unfolding write_start start_bytes
  write_start-works s header = ground (
    arith,
    write_data-works s header,
    write_data-works (record s { written = s.written ++ header }) c.descriptors,
    append_assoc s.written header c.descriptors,
    append-nil header,
  )

  pub begin-works :
      (s : Session) → s.have_pcap_header ≡ true → begin_output_stream o c s ≡ (true, begun c s)
  unfolding begin_output_stream begun
  begin-works s h =
      ground
        (arith, h, works.opens, write_start-works (record s { output_open = true }) s.pcap_header)

  pub store_match-works :
      (s : Session) (total : ℕ)
      → s.have_pcap_header ≡ true
      → store_match o c s total ≡ (true, stored c s (take total s.pending))
  unfolding store_match stored begun
  store_match-works s total h = elim (Bool-cases (is_immediate c.store_mode)) [
    | inl now ↦
        rw (now, store_match)
          (ground (
            arith,
            now,
            begin-works s h,
            write_data-works s (take total s.pending),
            write_data-works (begun c s) (take total s.pending),
          ))
    | inr later ↦
        rw (later, store_match)
          (ground (
            arith,
            later,
            begin-works s h,
            write_data-works s (take total s.pending),
            write_data-works (begun c s) (take total s.pending),
          ))
  ]

  pub take_pcap_header-works :
      (s : Session)
      → take_pcap_header o c s ≡ (
        true,
        if not s.have_pcap_header && leb pcap_hdr_size (length s.pending)
            then (let taken = record s {
              pcap_header = take pcap_hdr_size s.pending;
              pending = drop pcap_hdr_size s.pending;
              have_pcap_header = true;
            } in
                if is_immediate c.store_mode then begun c taken else taken)
            else s,
      )
  unfolding take_pcap_header
  take_pcap_header-works s = ground (arith, begin-works taken refl)
    where
      taken : Session
      taken = record s {
        pcap_header = take pcap_hdr_size s.pending;
        pending = drop pcap_hdr_size s.pending;
        have_pcap_header = true;
      }
