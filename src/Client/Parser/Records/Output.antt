-- ===== src/Client/Parser/Records/Output.antt =====
-- The file that `process_data` (USBPcapCMD/thread.c) writes, against the records of the stream.
use usbpcap_ai.Base.{
  ℕ, zero, suc, ◌+◌, ◌%◌, ◌≤◌, ◌<◌, ◌≡◌, sym, ap, ◌∙◌, Bool, true, false, not, ◌&&◌, ◌||◌,
  Bool-cases, some, List, [], ◌∷◌, ◌++◌, append-nil, append_assoc, length, length-append,
  take-append_ge, drop-append_ge, if◌then◌else◌, add32, u32_mod, arith, inl, inr,
}
use mathlib.Core.Path.{subst}
use usbpcap_ai.Format.{pcap_hdr_size}
use usbpcap_ai.Client.Parser.{
  Options, Outside, Parser, Session, drain, fresh_parser, fresh_session, is_immediate, process_all,
  round, take_pcap_header,
}
use usbpcap_ai.Client.Parser.More.{Fits}
use usbpcap_ai.Client.Parser.Works.{Works, begun, stored, start_bytes, take_pcap_header-works}
use usbpcap_ai.Client.Parser.Chunks.{AtNext, FitsAll}
use usbpcap_ai.Client.Parser.Capacity.{max_pending}
use usbpcap_ai.Client.Parser.Reads.{concat, process_all-drain}
use usbpcap_ai.Client.Parser.Records.{
  AreRecords, CaptureRecord, IsPartial, consume, consume_all, drain-stream, is_match, record_bytes,
  stream, waiting,
}

-- The records that match, one behind the other; how many do not; and whether one does.
unfoldable pub matching : Options → List CaptureRecord → List ℕ
matching c [] = []
matching c (r ∷ rs) = if is_match c r then record_bytes r ++ matching c rs else matching c rs

pub unmatched : Options → List CaptureRecord → ℕ
unmatched c [] = 0
unmatched c (r ∷ rs) = if is_match c r then unmatched c rs else suc (unmatched c rs)

pub has_match : Options → List CaptureRecord → Bool
has_match c [] = false
has_match c (r ∷ rs) = is_match c r || has_match c rs

-- The file: nothing in on-match mode as long as no record matches; otherwise the header, the
-- descriptors and the records that match.
unfoldable pub output_bytes : Options → List ℕ → List CaptureRecord → List ℕ
output_bytes c header rs =
    if is_immediate c.store_mode || has_match c rs
    then start_bytes c header ++ matching c rs
    else []

module _ (c : Options) where
  consume-triggered :
      (s : Session) (r : CaptureRecord)
      → s.triggered ≡ true
      → s.wrote_pcap_header ≡ true
      → ((consume c s r).triggered ≡ true)
        × ((consume c s r).wrote_pcap_header ≡ true)
        × ((consume c s r).written ≡ s.written ++ (if is_match c r then record_bytes r else []))
  unfolding consume stored begun
  consume-triggered s r t w = ground (arith, t, w, append-nil s.written)

  consume-first :
      (s : Session) (r : CaptureRecord)
      → is_immediate c.store_mode ≡ false
      → s.triggered ≡ false
      → s.wrote_pcap_header ≡ false
      → is_match c r ≡ true
      → ((consume c s r).triggered ≡ true)
        × ((consume c s r).wrote_pcap_header ≡ true)
        × ((consume c s r).written ≡ (s.written ++ start_bytes c s.pcap_header) ++ record_bytes r)
  unfolding consume stored begun
  consume-first s r l t w m = ground (arith, l, t, w, m)

  written-triggered :
      (rs : List CaptureRecord) (s : Session)
      → s.triggered ≡ true
      → s.wrote_pcap_header ≡ true
      → (consume_all c s rs).written ≡ s.written ++ matching c rs
  unfolding consume_all consume stored begun matching
  written-triggered [] s t w = sym (append-nil s.written)
  written-triggered (r ∷ rs) s t w =
      let (t', w', e) = consume-triggered s r t w in
      written-triggered rs (consume c s r) t' w'
      ∙ ap (λ x. x ++ matching c rs) e
      ∙ append_assoc s.written (if is_match c r then record_bytes r else []) (matching c rs)
      ∙ ground arith

  written-waiting :
      (rs : List CaptureRecord) (s : Session)
      → is_immediate c.store_mode ≡ false
      → s.triggered ≡ false
      → s.wrote_pcap_header ≡ false
      → s.written ≡ []
      → (consume_all c s rs).written ≡ output_bytes c s.pcap_header rs
  unfolding consume_all consume stored begun matching has_match output_bytes
  written-waiting [] s l t w e = ground (arith, l, e)
  written-waiting (r ∷ rs) s l t w e = elim (Bool-cases (is_match c r)) [
    | inl matched ↦
        let (t', w', e') = consume-first s r l t w matched in
        ground (
          arith,
          l,
          e,
          e',
          matched,
          written-triggered rs (consume c s r) t' w',
          append_assoc (start_bytes c s.pcap_header) (record_bytes r) (matching c rs),
        )
    | inr skipped ↦ ground (
      arith,
      l,
      skipped,
      written-waiting rs (record s { dropped_packets = add32 s.dropped_packets 1 }) l t w e,
    )
  ]

  dropped-unmatched :
      (rs : List CaptureRecord) (s : Session)
      → s.dropped_packets < u32_mod
      → (consume_all c s rs).dropped_packets ≡ (s.dropped_packets + unmatched c rs) % u32_mod
  unfolding consume_all consume stored begun unmatched
  dropped-unmatched [] s d = omega (arith, d)
  dropped-unmatched (r ∷ rs) s d = elim (Bool-cases (is_match c r)) [
    | inl matched ↦ ground (arith, matched, same, d, dropped-unmatched rs (consume c s r))
    | inr skipped ↦ ground (arith, skipped, same, d, dropped-unmatched rs (consume c s r))
  ]
    where
      same :
          (consume c s r).dropped_packets
          ≡ (if is_match c r then s.dropped_packets else add32 s.dropped_packets 1)
      same = ground arith

  -- The session with the global header taken.
  opened : List ℕ → Session
  opened header =
      let s = record fresh_session { pcap_header = header; have_pcap_header = true } in
      if is_immediate c.store_mode then begun c s else s

module _ {o : Outside} (c : Options) (works : Works o) where
  take-opened :
      (header body : List ℕ)
      → length header ≡ pcap_hdr_size
      → take_pcap_header o c (waiting fresh_session (header ++ body))
        ≡ (true, waiting (opened c header) body)
  unfolding opened begun
  take-opened header body len = ground (
    arith,
    len,
    take_pcap_header-works c works (waiting fresh_session (header ++ body)),
    length-append header body,
    take-append_ge pcap_hdr_size 0 header body (omega (arith, len)),
    append-nil header,
    drop-append_ge pcap_hdr_size 0 header body (omega (arith, len)),
  )

  take_again :
      (header body : List ℕ)
      → take_pcap_header o c (waiting (opened c header) body)
        ≡ (true, waiting (opened c header) body)
  unfolding opened begun take_pcap_header
  take_again header body = ground arith

  opened-valid :
      (header : List ℕ)
      → ((opened c header).process ≡ true)
        × ((opened c header).have_pcap_header ≡ true)
        × ((opened c header).pcap_header ≡ header)
        × ((opened c header).dropped_packets ≡ 0)
  unfolding opened begun
  opened-valid header = ground arith

  round-opened :
      (header body : List ℕ)
      → length header ≡ pcap_hdr_size
      → round o c (waiting fresh_session (header ++ body))
        ≡ round o c (waiting (opened c header) body)
  unfolding round
  round-opened header body len =
      ground (arith, take-opened header body len, take_again header body, opened-valid header)

  drain-opened :
      (header body : List ℕ) (n : ℕ) (u : Session)
      → length header ≡ pcap_hdr_size
      → drain o c n (waiting (opened c header) body) ≡ some u
      → FitsAll o c n (waiting (opened c header) body)
      → (drain o c n (waiting fresh_session (header ++ body)) ≡ some u)
        × FitsAll o c n (waiting fresh_session (header ++ body))
  unfolding drain
  drain-opened header body zero u len e fits = absurd (ground arith)
  drain-opened header body (suc n) u len e fits = (
    ground (arith, e, round-opened header body len),
    (
      subst (λ t. Fits t.1.pending) (take_again header body ∙ sym (take-opened header body len))
          fits.0,
      subst (AtNext (FitsAll o c n)) (sym (round-opened header body len)) fits.1,
    ),
  )

  opened-written :
      (header : List ℕ) (rs : List CaptureRecord)
      → (consume_all c (opened c header) rs).written ≡ output_bytes c header rs
  unfolding opened begun output_bytes
  opened-written header rs = elim (Bool-cases (is_immediate c.store_mode)) [
    | inl now ↦ ground (
      arith,
      now,
      written-triggered c rs (opened c header) (ground (arith, now)) (ground (arith, now)),
    )
    | inr later ↦ ground (
      arith,
      later,
      opened-valid header,
      written-waiting c rs (opened c header) later (ground (arith, later)) (ground (arith, later))
          (ground (arith, later)),
    )
  ]

  pub process_all-stream :
      (header : List ℕ) (rs : List CaptureRecord) (tail : List ℕ) (n : ℕ) (bytes : List ℕ)
      (chunks : List (List ℕ))
      → (not c.app_filter.enabled && is_immediate c.store_mode) ≡ false
      → length header ≡ pcap_hdr_size
      → AreRecords rs
      → IsPartial tail
      → length rs < n
      → bytes ++ concat chunks ≡ header ++ stream rs tail
      → length (header ++ stream rs tail) ≤ max_pending
      → (q : Parser) × (process_all o c n fresh_parser (bytes ∷ chunks) ≡ some q)
        × (q.session.written ≡ output_bytes c header rs)
        × (q.session.pending ≡ tail)
        × (q.session.dropped_packets ≡ unmatched c rs % u32_mod)
  process_all-stream header rs tail n bytes chunks parses len vs v fuel cut small =
      let (p, h, same, zeroed) = opened-valid header in
      let (ends, fits) = drain-stream c works rs n (opened c header) tail fuel p h vs v in
      let (ends', fits') = drain-opened header (stream rs tail) n _ len ends fits in
      let (q, done, result) =
        process_all-drain c works n chunks fresh_parser bytes _ parses
          (omega (arith, small, ap length cut))
          (subst (λ t. FitsAll o c n (waiting fresh_session t)) (sym cut) fits')
          (ap (λ t. drain o c n (waiting fresh_session t)) cut ∙ ends') in
      (
        q,
        done,
        ap (λ t. t.written) result ∙ opened-written header rs,
        ap (λ t. t.pending) result,
        ap (λ t. t.dropped_packets) result
            ∙ omega
                (arith, zeroed, dropped-unmatched c rs (opened c header) (omega (arith, zeroed))),
      )
