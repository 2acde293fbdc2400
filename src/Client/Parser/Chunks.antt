-- ===== src/Client/Parser/Chunks.antt =====
-- How the bytes are cut into reads does not matter to `process_data` (USBPcapCMD/thread.c).
use usbpcap_ai.Base.{
  ℕ, zero, suc, ◌+◌, ◌≤◌, ◌≡◌, refl, sym, ap, ◌∙◌, Bool, true, false, ◌&&◌, ◌||◌, Bool-cases,
  Option-cases, Option, none, some, List, [], ◌++◌, length, length-append, length-drop, ltb, leb,
  add32, arith, inl, inr, ◌⊎◌,
}
use mathlib.Core.Path.{subst}
use usbpcap_ai.Format.{pcap_hdr_size, pcaprec_hdr_size, read_pcaprec_hdr}
use usbpcap_ai.Client.Parser.{
  Options, Outside, Round, Session, next, return, drain, round, store_match, take_pcap_header,
  take_record,
}
use usbpcap_ai.Client.Parser.More.{
  more, Fits, more_round, read_append, take_record-more, take_record-short, store_match-pending,
  take_pcap_header-more,
}
use usbpcap_ai.Client.Parser.Works.{Works, begun, store_match-works, take_pcap_header-works}

pub Round-cases : (r : Round) → ((t : Session) × (r ≡ return t)) ⊎ ((t : Session) × (r ≡ next t))
Round-cases (return t) = inl (t, refl)
Round-cases (next t) = inr (t, refl)

-- A longer list has the same header at the front.
Fits-prefix : (xs b : List ℕ) → Fits (xs ++ b) → Fits xs
Fits-prefix xs b h = elim (Option-cases (read_pcaprec_hdr xs)) [
  | inl short ↦ rw (short, Fits) tt
  | inr (r, there) ↦ ground (arith, h, there, read_append xs b r there)
]

-- The rounds behind a first one.
run : Outside → Options → ℕ → Round → Option Session
run o c n (return t) = some t
run o c n (next t) = drain o c n t

-- More fuel does not change a result.
pub drain-suc :
    (o : Outside) (c : Options) (n : ℕ) (s t : Session)
    → drain o c n s ≡ some t
    → drain o c (suc n) s ≡ some t
unfolding drain
drain-suc o c zero s t e = absurd (ground arith)
drain-suc o c (suc n) s t e = elim (Round-cases (round o c s)) [
  | inl (r, stop) ↦ ground (arith, e, stop)
  | inr (r, go) ↦ rw (go, drain) (drain-suc o c n r t (ground (arith, e, go)))
]

-- The record header at the front, once the global header is taken, fits.
abbrev pub FitsNow : Outside → Options → Session → Type 0
FitsNow o c s = Fits (take_pcap_header o c s).1.pending

-- The same for every round of a run.
abbrev pub AtNext : (Session → Type 0) → Round → Type 0
AtNext P (return t) = Unit {0}
AtNext P (next t) = P t

abbrev pub FitsAll : Outside → Options → ℕ → Session → Type 0
FitsAll o c zero s = Unit {0}
FitsAll o c (suc n) s = FitsNow o c s × AtNext (λ t. FitsAll o c n t) (round o c s)

module _ {o : Outside} (c : Options) (works : Works o) where
  taken : Session → Session
  taken s = (take_pcap_header o c s).1

  taken-process : (s : Session) → (taken s).process ≡ s.process
  unfolding taken begun
  taken-process s = ground (arith, take_pcap_header-works c works s)

  taken-have :
      (s : Session)
      → (s.have_pcap_header || leb pcap_hdr_size (length s.pending)) ≡ true
      → (taken s).have_pcap_header ≡ true
  unfolding taken begun
  taken-have s h = ground (arith, h, take_pcap_header-works c works s)

  -- What a round computes to.
  round-taken :
      (s : Session)
      → s.process ≡ true
      → (s.have_pcap_header || leb pcap_hdr_size (length s.pending)) ≡ true
      → round o c s ≡ (elim (read_pcaprec_hdr (taken s).pending) [
        | none ↦ return (taken s)
        | some h ↦ take_record o c (taken s) h.incl_len
      ])
  unfolding taken round
  round-taken s p h = ground (arith, p, h, taken-have s h, take_pcap_header-works c works s)

  taken_already : (s : Session) → s.have_pcap_header ≡ true → taken s ≡ s
  unfolding taken take_pcap_header
  taken_already s h = ground (arith, h)

  taken-more :
      (s : Session) (b : List ℕ)
      → (s.have_pcap_header || leb pcap_hdr_size (length s.pending)) ≡ true
      → taken (more s b) ≡ more (taken s) b
  unfolding taken
  taken-more s b h = ap (λ t. t.1) (take_pcap_header-more o c b s h)

  ready-more :
      (s : Session) (b : List ℕ)
      → (s.have_pcap_header || leb pcap_hdr_size (length s.pending)) ≡ true
      → (s.have_pcap_header || leb pcap_hdr_size (length (s.pending ++ b))) ≡ true
  ready-more s b h = ground (arith, h, length-append s.pending b)

  -- What a session with the header taken goes on with.
  front : Session → Round
  front s = elim (read_pcaprec_hdr s.pending) [
    | none ↦ return s
    | some h ↦ take_record o c s h.incl_len
  ]

  round-front :
      (s : Session)
      → s.process ≡ true
      → (s.have_pcap_header || leb pcap_hdr_size (length s.pending)) ≡ true
      → round o c s ≡ front (taken s)
  unfolding front
  round-front s p h = round-taken s p h

  round-more :
      (s : Session) (b : List ℕ)
      → s.process ≡ true
      → (s.have_pcap_header || leb pcap_hdr_size (length s.pending)) ≡ true
      → round o c (more s b) ≡ front (more (taken s) b)
  round-more s b p h = round-front (more s b) p (ready-more s b h) ∙ ap front (taken-more s b h)

  round-more-taken :
      (s : Session) (b : List ℕ)
      → s.process ≡ true
      → (s.have_pcap_header || leb pcap_hdr_size (length s.pending)) ≡ true
      → round o c (more (taken s) b) ≡ front (more (taken s) b)
  round-more-taken s b p h =
      round-front (more (taken s) b) (taken-process s ∙ p) (ground (arith, taken-have s h))
      ∙ ap front (taken_already (more (taken s) b) (taken-have s h))

  take_record-return :
      (s t : Session) (incl_len : ℕ)
      → s.have_pcap_header ≡ true
      → take_record o c s incl_len ≡ return t
      → t ≡ s
  unfolding take_record
  take_record-return s t incl_len h e =
      ground (arith, e, store_match-works c works s (add32 pcaprec_hdr_size incl_len) h)

  front-return : (s t : Session) → s.have_pcap_header ≡ true → front s ≡ return t → t ≡ s
  unfolding front
  front-return s t h e = elim (Option-cases (read_pcaprec_hdr s.pending)) [
    | inl short ↦ ground (arith, e, short)
    | inr (r, there) ↦ take_record-return s t r.incl_len h (ground (arith, e, there))
  ]

  front-next :
      (s t : Session) (b : List ℕ)
      → Fits s.pending
      → front s ≡ next t
      → front (more s b) ≡ next (more t b)
  unfolding front
  front-next s t b fits e = elim (Option-cases (read_pcaprec_hdr s.pending)) [
    | inl short ↦ absurd (ground (arith, e, short))
    | inr (r, there) ↦ elim (Bool-cases (ltb (length s.pending) (r.incl_len + pcaprec_hdr_size))) [
      | inl short ↦ absurd (ground (arith, e, there, fits, take_record-short o c b s r.incl_len))
      | inr whole ↦
          let taken_here : take_record o c s r.incl_len ≡ next t = ground (arith, e, there) in
          rw (read_append s.pending b r there, front)
            (take_record-more o c b s r.incl_len (ground (arith, fits, there))
                (ground (arith, whole))
              ∙ ap (more_round b) taken_here)
    ]
  ]

  -- A round of a session that is stopped, or has too little for the global header.
  round-idle :
      (s : Session)
      → (s.process && (s.have_pcap_header || leb pcap_hdr_size (length s.pending))) ≡ false
      → round o c s ≡ return s
  unfolding round take_pcap_header
  round-idle s h = ground (arith, h)

  ready : Session → Bool
  ready s = s.process && (s.have_pcap_header || leb pcap_hdr_size (length s.pending))

  ready-both :
      (s : Session)
      → ready s ≡ true
      → (s.process ≡ true) × ((s.have_pcap_header || leb pcap_hdr_size (length s.pending)) ≡ true)
  unfolding ready
  ready-both s h = ground (arith, h)

  -- A round that returns leaves nothing to do, also when bytes come after.
  round-return :
      (s t : Session) (b : List ℕ)
      → round o c s ≡ return t
      → round o c (more s b) ≡ round o c (more t b)
  unfolding ready
  round-return s t b e = elim (Bool-cases (ready s)) [
    | inr idle ↦ ground (arith, e, round-idle s idle, ap (λ r. round o c (more r b)))
    | inl going ↦
        let (p, h) = ready-both s going in
        round-more s b p h
        ∙ sym (round-more-taken s b p h)
        ∙ ap (λ r. round o c (more r b))
            (sym (front-return (taken s) t (taken-have s h) (sym (round-front s p h) ∙ e)))
  ]

  round-next :
      (s t : Session) (b : List ℕ)
      → FitsNow o c (more s b)
      → round o c s ≡ next t
      → round o c (more s b) ≡ next (more t b)
  unfolding ready taken
  round-next s t b fits e = elim (Bool-cases (ready s)) [
    | inr idle ↦ absurd (ground (arith, e, round-idle s idle))
    | inl going ↦
        let (p, h) = ready-both s going in
        round-more s b p h
        ∙ front-next (taken s) t b
            (Fits-prefix (taken s).pending b (subst (λ r. Fits r.pending) (taken-more s b h) fits))
            (sym (round-front s p h) ∙ e)
  ]

  fits-return :
      (s t : Session) (b : List ℕ)
      → FitsNow o c (more s b)
      → round o c s ≡ return t
      → FitsNow o c (more t b)
  unfolding ready taken
  fits-return s t b fits e = elim (Bool-cases (ready s)) [
    | inr idle ↦ subst (λ r. FitsNow o c (more r b)) (ground (arith, e, round-idle s idle)) fits
    | inl going ↦
        let (p, h) = ready-both s going in
        let same : taken s ≡ t =
          sym (front-return (taken s) t (taken-have s h) (sym (round-front s p h) ∙ e)) in
        subst (λ r. FitsNow o c (more r b)) same
          (subst (λ r. Fits r.pending)
            (taken-more s b h ∙ sym (taken_already (more (taken s) b) (taken-have s h))) fits)
  ]

  FitsAll-suc :
      (n : ℕ) (s t : Session) → drain o c n s ≡ some t → FitsAll o c n s → FitsAll o c (suc n) s
  unfolding drain
  FitsAll-suc zero s t e fits = absurd (ground arith)
  FitsAll-suc (suc n) s t e fits = elim (Round-cases (round o c s)) [
    | inl (r, stop) ↦ (fits.0, subst (AtNext (FitsAll o c (suc n))) (sym stop) tt)
    | inr (r, go) ↦ (
      fits.0,
      subst (AtNext (FitsAll o c (suc n))) (sym go)
          (FitsAll-suc n r t (ground (arith, e, go)) (subst (AtNext (FitsAll o c n)) go fits.1)),
    )
  ]

  taken-pending : (s : Session) → length (taken s).pending ≤ length s.pending
  unfolding taken begun
  taken-pending s =
      ground (arith, take_pcap_header-works c works s, length-drop pcap_hdr_size s.pending)

  take_record-pending :
      (s t : Session) (incl_len : ℕ)
      → (take_record o c s incl_len ≡ return t) ⊎ (take_record o c s incl_len ≡ next t)
      → length t.pending ≤ length s.pending
  unfolding take_record
  take_record-pending s t incl_len e = ground (
    arith,
    e,
    ap length (store_match-pending o c [] s total),
    length-drop total s.pending,
    length-drop total (store_match o c s total).1.pending,
  )
    where
      total : ℕ
      total = add32 pcaprec_hdr_size incl_len

  front-pending :
      (s t : Session)
      → (front s ≡ return t) ⊎ (front s ≡ next t)
      → length t.pending ≤ length s.pending
  unfolding front
  front-pending s t e = elim (Option-cases (read_pcaprec_hdr s.pending)) [
    | inl short ↦ ground (arith, e, short)
    | inr (r, there) ↦ take_record-pending s t r.incl_len (ground (arith, e, there))
  ]

  -- No round makes the waiting bytes more.
  round-pending :
      (s t : Session)
      → (round o c s ≡ return t) ⊎ (round o c s ≡ next t)
      → length t.pending ≤ length s.pending
  unfolding ready
  round-pending s t e = elim (Bool-cases (ready s)) [
    | inr idle ↦ ground (arith, e, round-idle s idle)
    | inl going ↦
        let (p, h) = ready-both s going in
        omega
          (arith, taken-pending s, front-pending (taken s) t (ground (arith, e, round-front s p h)))
  ]

  -- A run on all the bytes is a run on some of them, and then a run on what that left with the
  -- rest of them.
  pub drain-more :
      (n : ℕ) (s u : Session) (b : List ℕ)
      → FitsAll o c n (more s b)
      → drain o c n (more s b) ≡ some u
      → (t : Session) × (drain o c n s ≡ some t)
        × (drain o c n (more t b) ≡ some u)
        × FitsAll o c n (more t b)
        × (length t.pending ≤ length s.pending)
  unfolding drain run
  drain-more zero s u b fits e = absurd (ground arith)
  drain-more (suc n) s u b fits e = elim (Round-cases (round o c s)) [
    | inl (t, stop) ↦ (
      t,
      ap (run o c n) stop,
      sym (ap (run o c n) (round-return s t b stop)) ∙ e,
      (
        fits-return s t b fits.0 stop,
        subst (AtNext (FitsAll o c n)) (round-return s t b stop) fits.1,
      ),
      round-pending s t (inl stop),
    )
    | inr (r, go) ↦
        let go' = round-next s r b fits.0 go in
        let (t, first, rest, fits', less) =
          drain-more n r u b (subst (AtNext (FitsAll o c n)) go' fits.1)
            (sym (ap (run o c n) go') ∙ e) in
        (
          t,
          ap (run o c n) go ∙ first,
          drain-suc o c n (more t b) u rest,
          FitsAll-suc n (more t b) u rest fits',
          omega (arith, less, round-pending s r (inr go)),
        )
  ]
