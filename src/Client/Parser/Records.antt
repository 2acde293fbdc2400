-- ===== src/Client/Parser/Records.antt =====
-- What `process_data` (USBPcapCMD/thread.c) makes of a stream: the reference is a list of records.
pub mod Output
use usbpcap_ai.Base.{
  ℕ, zero, suc, ◌+◌, ◌%◌, ◌≤◌, ◌<◌, ◌≡◌, refl, sym, ap, ◌∙◌, Bool, true, false, not, ◌&&◌, ◌||◌,
  Bool-cases, Option-cases, Option, none, some, List, [], ◌∷◌, ◌++◌, append-nil, append_assoc,
  length, length-append, take, drop, take-append_ge, drop-append_ge, take_all, ltb, leb,
  if◌then◌else◌, add32, u32_mod, arith, inl, inr,
}
use mathlib.Core.Path.{subst}
use usbpcap_ai.Format.{PcaprecHdr, pcaprec_hdr_bytes, pcaprec_hdr_size, read_pcaprec_hdr}
use usbpcap_ai.Format.Codec.{IsPcaprecHdr, length-pcaprec_hdr_bytes, read-pcaprec_hdr_bytes}
use usbpcap_ai.Client.Parser.{
  Options, Outside, Round, Session, next, return, app_packet_matches, drain, round, store_match,
  take_pcap_header, take_record,
}
use usbpcap_ai.Client.Parser.More.{Fits, matches-append}
use usbpcap_ai.Client.Parser.Works.{Works, begun, stored, store_match-works}
use usbpcap_ai.Client.Parser.Chunks.{AtNext, FitsAll, FitsNow}

-- A record of a capture: its header, and the packet's header and data.
pub record CaptureRecord : Type 0 where
  pub header : PcaprecHdr
  pub packet : List ℕ

-- The header has the packet's length, and the record's fits 32 bits.
pub record IsRecord (r : CaptureRecord) : Type 0 where
  pub header_valid : IsPcaprecHdr r.header
  pub incl : r.header.incl_len ≡ length r.packet
  pub small : length r.packet + pcaprec_hdr_size < u32_mod

abbrev pub AreRecords : List CaptureRecord → Type 0
AreRecords [] = Unit {0}
AreRecords (r ∷ rs) = IsRecord r × AreRecords rs

unfoldable pub record_bytes : CaptureRecord → List ℕ
record_bytes r = pcaprec_hdr_bytes r.header ++ r.packet

unfoldable pub stream : List CaptureRecord → List ℕ → List ℕ
stream [] tail = tail
stream (r ∷ rs) tail = record_bytes r ++ stream rs tail

pub stream-append :
    (rs ss : List CaptureRecord) → stream (rs ++ ss) [] ≡ stream rs [] ++ stream ss []
unfolding stream
stream-append [] ss = refl
stream-append (r ∷ rs) ss =
    ap (λ t. record_bytes r ++ t) (stream-append rs ss)
    ∙ sym (append_assoc (record_bytes r) (stream rs []) (stream ss []))

pub AreRecords-append :
    (rs ss : List CaptureRecord) → AreRecords rs → AreRecords ss → AreRecords (rs ++ ss)
AreRecords-append [] ss v w = w
AreRecords-append (r ∷ rs) ss v w = (v.0, AreRecords-append rs ss v.1 w)

-- The beginning of a record: its header is not whole, or says that more bytes follow.
abbrev pub IsPartial : List ℕ → Type 0
IsPartial tail = elim (read_pcaprec_hdr tail) [
  | none ↦ Unit {0}
  | some h ↦
      (h.incl_len + pcaprec_hdr_size < u32_mod) × (length tail < h.incl_len + pcaprec_hdr_size)
]

pub is_match : Options → CaptureRecord → Bool
is_match c r = app_packet_matches c r.packet (length r.packet)

-- A record stored or counted as dropped.
pub consume : Options → Session → CaptureRecord → Session
consume c s r =
    if is_match c r
    then stored c s (record_bytes r)
    else record s { dropped_packets = add32 s.dropped_packets 1 }

pub consume_all : Options → Session → List CaptureRecord → Session
consume_all c s [] = s
consume_all c s (r ∷ rs) = consume_all c (consume c s r) rs

abbrev pub waiting : Session → List ℕ → Session
waiting s bytes = record s { pending = bytes }

module _ (r : CaptureRecord) (rest : List ℕ) (v : IsRecord r) where
  length-record_bytes : length (record_bytes r) ≡ pcaprec_hdr_size + length r.packet
  unfolding record_bytes
  length-record_bytes =
      length-append (pcaprec_hdr_bytes r.header) r.packet
      ∙ ap (λ n. n + length r.packet) (length-pcaprec_hdr_bytes r.header)

  total_length : add32 pcaprec_hdr_size r.header.incl_len ≡ length (record_bytes r)
  total_length = omega (arith, length-record_bytes, v.incl, v.small)

  read-record : read_pcaprec_hdr (record_bytes r ++ rest) ≡ some r.header
  unfolding record_bytes
  read-record =
      ap read_pcaprec_hdr (append_assoc (pcaprec_hdr_bytes r.header) r.packet rest)
      ∙ read-pcaprec_hdr_bytes r.header (r.packet ++ rest) v.header_valid

  take-record :
      take (add32 pcaprec_hdr_size r.header.incl_len) (record_bytes r ++ rest) ≡ record_bytes r
  take-record =
      take-append_ge _ 0 (record_bytes r) rest (omega (arith, total_length))
      ∙ append-nil (record_bytes r)

  drop-record : drop (add32 pcaprec_hdr_size r.header.incl_len) (record_bytes r ++ rest) ≡ rest
  drop-record = drop-append_ge _ 0 (record_bytes r) rest (omega (arith, total_length))

  drop-header : drop pcaprec_hdr_size (record_bytes r ++ rest) ≡ r.packet ++ rest
  unfolding record_bytes
  drop-header =
      ap (drop pcaprec_hdr_size) (append_assoc (pcaprec_hdr_bytes r.header) r.packet rest)
      ∙ drop-append_ge pcaprec_hdr_size 0 (pcaprec_hdr_bytes r.header) (r.packet ++ rest)
          (omega (arith, length-pcaprec_hdr_bytes r.header))

  match-record :
      (c : Options)
      → app_packet_matches c (drop pcaprec_hdr_size (record_bytes r ++ rest)) r.header.incl_len
        ≡ is_match c r
  unfolding is_match
  match-record c =
      ap (λ t. app_packet_matches c t r.header.incl_len) drop-header
      ∙ matches-append c r.packet rest r.header.incl_len (omega (arith, v.incl))
      ∙ ap (app_packet_matches c r.packet) v.incl

Fits-record : (r : CaptureRecord) (rest : List ℕ) → IsRecord r → Fits (record_bytes r ++ rest)
Fits-record r rest v = rw (read-record r rest v, Fits) (omega (arith, v.small, v.incl))

Fits-partial : (tail : List ℕ) → IsPartial tail → Fits tail
Fits-partial tail v = elim (Option-cases (read_pcaprec_hdr tail)) [
  | inl short ↦ rw (short, Fits) tt
  | inr (r, there) ↦ ground (arith, there, v)
]

pub stored-waiting :
    (c : Options) (s : Session) (bytes rest : List ℕ)
    → stored c (waiting s rest) bytes ≡ waiting (stored c s bytes) rest
unfolding stored begun
stored-waiting c s bytes rest = ground arith

module _ {o : Outside} (c : Options) (works : Works o) where
  take_record-record :
      (s : Session) (r : CaptureRecord) (rest : List ℕ)
      → s.have_pcap_header ≡ true
      → IsRecord r
      → take_record o c (waiting s (record_bytes r ++ rest)) r.header.incl_len
        ≡ next (waiting (consume c s r) rest)
  unfolding take_record consume
  take_record-record s r rest h v = elim (Bool-cases (is_match c r)) [
    | inl matched ↦ ground (
      arith,
      matched,
      match-record r rest v c,
      total_length r rest v,
      drop-record r rest v,
      take-record r rest v,
      length-append (record_bytes r) rest,
      store_match-works c works (waiting s (record_bytes r ++ rest))
          (add32 pcaprec_hdr_size r.header.incl_len) h,
      stored-waiting c s (record_bytes r) (record_bytes r ++ rest),
    )
    | inr unmatched ↦ ground (
      arith,
      unmatched,
      match-record r rest v c,
      total_length r rest v,
      drop-record r rest v,
      length-append (record_bytes r) rest,
    )
  ]

  round-record :
      (s : Session) (r : CaptureRecord) (rest : List ℕ)
      → s.process ≡ true
      → s.have_pcap_header ≡ true
      → IsRecord r
      → round o c (waiting s (record_bytes r ++ rest)) ≡ next (waiting (consume c s r) rest)
  unfolding round take_pcap_header
  round-record s r rest p h v =
      ground (arith, p, h, read-record r rest v, take_record-record s r rest h v)

  round-partial :
      (s : Session) (tail : List ℕ)
      → s.process ≡ true
      → s.have_pcap_header ≡ true
      → IsPartial tail
      → round o c (waiting s tail) ≡ return (waiting s tail)
  unfolding round take_pcap_header take_record
  round-partial s tail p h v = elim (Option-cases (read_pcaprec_hdr tail)) [
    | inl short ↦ ground (arith, p, h, short)
    | inr (r, there) ↦ ground (arith, p, h, there, v)
  ]

  consume-keeps :
      (s : Session) (r : CaptureRecord)
      → ((consume c s r).process ≡ s.process)
        × ((consume c s r).have_pcap_header ≡ s.have_pcap_header)
        × ((consume c s r).pcap_header ≡ s.pcap_header)
  unfolding consume stored begun
  consume-keeps s r = ground arith

  fits_now :
      (s : Session) (bytes : List ℕ)
      → s.have_pcap_header ≡ true
      → Fits bytes
      → FitsNow o c (waiting s bytes)
  unfolding take_pcap_header
  fits_now s bytes h f =
      let there : waiting s bytes ≡ (take_pcap_header o c (waiting s bytes)).1 =
        ground (arith, h) in
      subst (λ t. Fits t.pending) there f

  -- The loop on whole records and the beginning of another one.
  pub drain-stream :
      (rs : List CaptureRecord) (n : ℕ) (s : Session) (tail : List ℕ)
      → length rs < n
      → s.process ≡ true
      → s.have_pcap_header ≡ true
      → AreRecords rs
      → IsPartial tail
      → (drain o c n (waiting s (stream rs tail)) ≡ some (waiting (consume_all c s rs) tail))
        × FitsAll o c n (waiting s (stream rs tail))
  unfolding drain stream consume_all
  drain-stream rs zero s tail k p h vs v = absurd (omega arith)
  drain-stream [] (suc n) s tail k p h vs v = (
    ground (arith, round-partial s tail p h v),
    (
      fits_now s tail h (Fits-partial tail v),
      subst (AtNext (FitsAll o c n)) (sym (round-partial s tail p h v)) tt,
    ),
  )
  drain-stream (r ∷ rs) (suc n) s tail k p h vs v =
      let (p', h', same) = consume-keeps s r in
      let go = round-record s r (stream rs tail) p h vs.0 in
      let (rest, fits) =
        drain-stream rs n (consume c s r) tail (omega (arith, k)) (p' ∙ p) (h' ∙ h) vs.1 v in
      (
        ground (arith, go, rest),
        (
          fits_now s (record_bytes r ++ stream rs tail) h (Fits-record r (stream rs tail) vs.0),
          subst (AtNext (FitsAll o c n)) (sym go) fits,
        ),
      )
