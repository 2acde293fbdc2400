-- ===== src/Client/Parser/More.antt =====
-- Bytes that wait behind a record do not matter to a round of the loop of `process_data`
-- (USBPcapCMD/thread.c).
use usbpcap_ai.Base.{
  ℕ, zero, suc, ◌+◌, ◌≤◌, ◌<◌, ◌≡◌, refl, ap, ◌∙◌, true, ◌&&◌, ◌||◌, Bool-cases, none, some, List,
  [], ◌∷◌, ◌++◌, length, length-append, length-drop, take, drop, get_or, take-append_le,
  drop-append_le, ltb, leb, add32, u32_mod, arith, inl, inr,
}
use usbpcap_ai.Format.{
  pcap_hdr_size, packet_header_size, pcaprec_hdr_size, read_pcaprec_hdr, PcaprecHdr,
}
use usbpcap_ai.Client.Parser.{
  Options, Outside, Round, Session, next, return, app_packet_matches, begin_output_stream,
  is_immediate, is_usbpcap_header, store_match, take_pcap_header, take_record, write_data,
  write_start,
}

-- The session with more bytes behind those that wait.
abbrev pub more : Session → List ℕ → Session
more s bytes = record s { pending = s.pending ++ bytes }

module _ (o : Outside) (c : Options) (b : List ℕ) where
  pub write_data-more :
      (s : Session) (bytes : List ℕ) → write_data o (more s b) bytes ≡ more (write_data o s bytes) b
  unfolding write_data
  write_data-more s bytes = ground arith

  write_start-more :
      (s : Session) (h : List ℕ) → write_start o c (more s b) h ≡ more (write_start o c s h) b
  unfolding write_start
  write_start-more s h = elim (Bool-cases (is_usbpcap_header h && ltb 0 (length c.descriptors))) [
    | inl descr ↦
        rw (descr, write_start)
          (ap (λ t. write_data o t c.descriptors) (write_data-more s h)
            ∙ write_data-more (write_data o s h) c.descriptors)
    | inr plain ↦ rw (plain, write_start) (write_data-more s h)
  ]

  pub begin-more :
      (s : Session)
      → begin_output_stream o c (more s b)
        ≡ ((begin_output_stream o c s).0, more (begin_output_stream o c s).1 b)
  unfolding begin_output_stream
  begin-more s = ground (arith, write_start-more (record s { output_open = true }) s.pcap_header)

  write_data-pending : (s : Session) (bytes : List ℕ) → (write_data o s bytes).pending ≡ s.pending
  unfolding write_data
  write_data-pending s bytes = ground arith

  write_start-pending : (s : Session) (h : List ℕ) → (write_start o c s h).pending ≡ s.pending
  unfolding write_start
  write_start-pending s h =
      ground (arith, write_data-pending s h, write_data-pending (write_data o s h) c.descriptors)

  pub begin-pending : (s : Session) → (begin_output_stream o c s).1.pending ≡ s.pending
  unfolding begin_output_stream
  begin-pending s =
      ground (arith, write_start-pending (record s { output_open = true }) s.pcap_header)

  pub store_match-pending :
      (s : Session) (total : ℕ) → (store_match o c s total).1.pending ≡ s.pending
  unfolding store_match
  store_match-pending s total = elim (Bool-cases (is_immediate c.store_mode)) [
    | inl now ↦
        rw (now, store_match)
          (ground (
            arith,
            begin-pending s,
            write_data-pending s (take total s.pending),
            write_data-pending begun (take total begun.pending),
          ))
    | inr later ↦
        rw (later, store_match)
          (ground (
            arith,
            begin-pending s,
            write_data-pending s (take total s.pending),
            write_data-pending begun (take total begun.pending),
          ))
  ]
    where
      begun : Session
      begun = (begin_output_stream o c s).1

  store_match-more :
      (s : Session) (total : ℕ)
      → total ≤ length s.pending
      → store_match o c (more s b) total
        ≡ ((store_match o c s total).0, more (store_match o c s total).1 b)
  unfolding store_match
  store_match-more s total h = elim (Bool-cases (is_immediate c.store_mode)) [
    | inl now ↦
        rw (now, store_match)
          (ground (
            arith,
            begin-pending s,
            begin-more s,
            write_data-more s (take total s.pending),
            write_data-more begun (take total begun.pending),
            take-append_le total s.pending b h,
            front,
          ))
    | inr later ↦
        rw (later, store_match)
          (ground (
            arith,
            begin-pending s,
            begin-more s,
            write_data-more s (take total s.pending),
            write_data-more begun (take total begun.pending),
            take-append_le total s.pending b h,
            front,
          ))
  ]
    where
      begun : Session
      begun = (begin_output_stream o c s).1

      front : take total (begun.pending ++ b) ≡ take total begun.pending
      front = take-append_le total begun.pending b (omega (arith, h, ap length (begin-pending s)))

pub read_append :
    (xs b : List ℕ) (h : PcaprecHdr)
    → read_pcaprec_hdr xs ≡ some h
    → read_pcaprec_hdr (xs ++ b) ≡ some h
unfolding read_pcaprec_hdr
read_append (_ ∷ _ ∷ _ ∷ _ ∷ _ ∷ _ ∷ _ ∷ _ ∷ _ ∷ _ ∷ _ ∷ _ ∷ _ ∷ _ ∷ _ ∷ _ ∷ _) b h e = e
read_append _ b h e = absurd (ground arith)

get_or-append : (xs ys : List ℕ) (i d : ℕ) → i < length xs → get_or (xs ++ ys) i d ≡ get_or xs i d
get_or-append [] ys i d h = absurd (omega arith)
get_or-append (x ∷ xs) ys zero d h = refl
get_or-append (x ∷ xs) ys (suc i) d h = get_or-append xs ys i d (omega arith)

-- The bytes behind a record do not matter to whether it matches.
pub matches-append :
    (c : Options) (packet b : List ℕ) (bytes : ℕ)
    → bytes ≤ length packet
    → app_packet_matches c (packet ++ b) bytes ≡ app_packet_matches c packet bytes
unfolding app_packet_matches
matches-append c packet b bytes h = elim (Bool-cases (ltb bytes packet_header_size)) [
  | inl short ↦ rw (short, app_packet_matches) refl
  | inr long ↦
      rw
        (
          at 19 (ground arith),
          at 20 (ground arith),
          at 21 (ground arith),
          at 22 (ground arith),
          app_packet_matches,
        )
        refl
]
  where
    at : (i : ℕ) → i < length packet → get_or (packet ++ b) i 0 ≡ get_or packet i 0
    at i k = get_or-append packet b i 0 k

-- The header of the record at the front leaves its length within 32 bits.
abbrev pub Fits : List ℕ → Type 0
Fits bytes = elim (read_pcaprec_hdr bytes) [
  | none ↦ Unit {0}
  | some h ↦ h.incl_len + pcaprec_hdr_size < u32_mod
]

abbrev pub more_round : List ℕ → Round → Round
more_round b (return t) = return (more t b)
more_round b (next t) = next (more t b)

module _ (o : Outside) (c : Options) (b : List ℕ) where
  pub take_record-more :
      (s : Session) (incl_len : ℕ)
      → incl_len + pcaprec_hdr_size < u32_mod
      → incl_len + pcaprec_hdr_size ≤ length s.pending
      → take_record o c (more s b) incl_len ≡ more_round b (take_record o c s incl_len)
  unfolding take_record
  take_record-more s incl_len small whole = ground (
    arith,
    same,
    length-append s.pending b,
    store_match-more o c b s total whole',
    store_match-pending o c b s total,
    drop-append_le total s.pending b whole',
    drop-append_le total after.pending b
        (omega (arith, whole', ap length (store_match-pending o c b s total))),
  )
    where
      total : ℕ
      total = add32 pcaprec_hdr_size incl_len

      whole' : total ≤ length s.pending
      whole' = omega arith

      after : Session
      after = (store_match o c s total).1

      same :
          app_packet_matches c (drop pcaprec_hdr_size (s.pending ++ b)) incl_len
          ≡ app_packet_matches c (drop pcaprec_hdr_size s.pending) incl_len
      same =
          ap (λ t. app_packet_matches c t incl_len)
            (drop-append_le pcaprec_hdr_size s.pending b (omega arith))
          ∙ matches-append c (drop pcaprec_hdr_size s.pending) b incl_len
              (omega (arith, length-drop pcaprec_hdr_size s.pending))

  -- Where a round returns for lack of bytes, it has only taken the global header, if that.
  pub take_record-short :
      (s : Session) (incl_len : ℕ)
      → incl_len + pcaprec_hdr_size < u32_mod
      → length s.pending < incl_len + pcaprec_hdr_size
      → take_record o c s incl_len ≡ return s
  unfolding take_record
  take_record-short s incl_len small short = ground arith

  -- The global header is there, or was taken before.
  pub take_pcap_header-more :
      (s : Session)
      → (s.have_pcap_header || leb pcap_hdr_size (length s.pending)) ≡ true
      → take_pcap_header o c (more s b)
        ≡ ((take_pcap_header o c s).0, more (take_pcap_header o c s).1 b)
  unfolding take_pcap_header
  take_pcap_header-more s h =
      ground (arith, length-append s.pending b, begin-more o c b taken, fronts)
    where
      taken : Session
      taken = record s {
        pcap_header = take pcap_hdr_size s.pending;
        pending = drop pcap_hdr_size s.pending;
        have_pcap_header = true;
      }

      fronts :
          pcap_hdr_size ≤ length s.pending
          → (take pcap_hdr_size (s.pending ++ b) ≡ take pcap_hdr_size s.pending)
            × (drop pcap_hdr_size (s.pending ++ b) ≡ drop pcap_hdr_size s.pending ++ b)
      fronts k =
          (take-append_le pcap_hdr_size s.pending b k, drop-append_le pcap_hdr_size s.pending b k)
