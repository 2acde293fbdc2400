-- ===== src/Buffer/Irp/Stream.antt =====
-- What the readers of the buffer of USBPcapDriver/USBPcapBuffer.c get is what was logged.
use usbpcap_ai.Base.{
  ℕ, ◌≡◌, ◌≢◌, false, refl, sym, ap, ◌∙◌, List, [], ◌∷◌, ◌++◌, append-nil, append_assoc, Option,
  none, some, Bool-cases, Option-cases, inl, inr, length, if◌then◌else◌, arith,
}
use usbpcap_ai.Queue.{Irp, csq_remove_next_irp}
use usbpcap_ai.Format.{PacketHeader, pcaprec_hdr_bytes}
use usbpcap_ai.Buffer.{RingData, NtStatus, nt_success, buffer_read}
use usbpcap_ai.Buffer.Inv.{IsRing, buffer_read-IsRing}
use usbpcap_ai.Buffer.Fifo.{contents, buffer_read_lem}
use usbpcap_ai.Buffer.Packet.{PayloadEntry, store_packet}
use usbpcap_ai.Buffer.Packet.Store.{
  IsPacket, record_header, packet_bytes, store_packet-Appends, store_packet_refused,
  store_packet-nt_success,
}
use usbpcap_ai.Buffer.Irp.{
  Hub, Completion, buffer_handle_read_irp, fill_pended_irp, complete_pended_read_irp,
  write_timestamped_payload,
}

pub length_zero : (xs : List ℕ) → length xs ≡ 0 → xs ≡ []
length_zero [] e = refl
length_zero (x ∷ xs) e = absurd (omega arith)

-- What a call delivers to readers.
abbrev pub delivered : Option Completion → List ℕ
delivered none = []
delivered (some c) = c.bytes

-- A state with a valid buffer, whose waiting bytes with those delivered make up `all`.
pub record Delivers (all out : List ℕ) (ring : RingData) : Type 0 where
  pub ring_valid : IsRing ring
  pub conserved : out ++ contents ring ≡ all

fill_pended_irp-Delivers :
    (ring : RingData) (p : Irp)
    → IsRing ring
    → Delivers (contents ring) (fill_pended_irp ring p).0.bytes (fill_pended_irp ring p).1
unfolding fill_pended_irp
fill_pended_irp-Delivers ring p v = elim (Option-cases p.mdl) [
  | inl e ↦ rw (e, fill_pended_irp) (record { ring_valid = v; conserved = refl })
  | inr (n, e) ↦ ground (arith, e, buffer_read-IsRing ring n v, buffer_read_lem ring n v)
]

-- A read request gets the oldest bytes and leaves the others; nothing is lost or repeated.
pub buffer_handle_read_irp-Delivers :
    (h : Hub) (p : Irp) (read_length : ℕ)
    → IsRing h.ring
    → let (_, bytes, h') = buffer_handle_read_irp h p read_length in
      Delivers (contents h.ring) bytes h'.ring
unfolding buffer_handle_read_irp
buffer_handle_read_irp-Delivers h p read_length v = elim (Option-cases p.mdl) [
  | inl e ↦ rw (e, buffer_handle_read_irp) (ground arith)
  | inr (n, e) ↦ ground (
    arith,
    e,
    buffer_read-IsRing h.ring n v,
    buffer_read_lem h.ring n v,
    length_zero (buffer_read h.ring n).0,
  )
]

complete_pended_read_irp-Delivers :
    (h : Hub)
    → IsRing h.ring
    → let (done, h') = complete_pended_read_irp h in
      Delivers (contents h.ring) (delivered done) h'.ring
unfolding complete_pended_read_irp
complete_pended_read_irp-Delivers h v = elim (Option-cases (csq_remove_next_irp h.pend_irps none)) [
  | inl e ↦ rw (e, complete_pended_read_irp) (record { ring_valid = v; conserved = refl })
  | inr (t, e) ↦ rw (e, complete_pended_read_irp) (fill_pended_irp-Delivers h.ring t.0 v)
]

-- What a logging call puts into the stream: its record, if the status is success.
unfoldable pub logged : Hub → ℕ → PacketHeader → List PayloadEntry → List ℕ
logged h timestamp header payload =
    if nt_success (store_packet h.ring timestamp header payload).0
    then pcaprec_hdr_bytes (record_header h.ring timestamp header)
      ++ packet_bytes h.ring timestamp header payload
    else []

-- A logging call adds its record behind what waits, and hands the oldest bytes to the first
-- pended read.
pub write_timestamped_payload-Delivers :
    (h : Hub) (timestamp : ℕ) (header : PacketHeader) (payload : List PayloadEntry)
    → IsRing h.ring
    → IsPacket header payload
    → let (_, done, h') = write_timestamped_payload h timestamp header payload in
      Delivers (contents h.ring ++ logged h timestamp header payload) (delivered done) h'.ring
unfolding write_timestamped_payload logged
write_timestamped_payload-Delivers h timestamp header payload v p =
    let result = store_packet h.ring timestamp header payload in
    elim (Bool-cases (nt_success result.0)) [
      | inl ok ↦
          let stored =
            store_packet-Appends h.ring timestamp header payload v p
              (store_packet-nt_success h.ring timestamp header payload ok) in
          let d = complete_pended_read_irp-Delivers (record h { ring = result.1 }) stored.ring in
          rw ok (record { ring_valid = d.ring_valid; conserved = d.conserved ∙ stored.appended })
      | inr refused ↦
          let same = store_packet_refused h.ring timestamp header payload (not_ok refused) in
          rw (refused, same)
            (record { ring_valid = v; conserved = sym (append-nil (contents h.ring)) })
    ]
  where
    not_ok :
        nt_success (store_packet h.ring timestamp header payload).0 ≡ false
        → (store_packet h.ring timestamp header payload).0 ≢ NtStatus.success
    not_ok r e = cc

-- A call of the driver: a read request, or a packet to log at a time.
pub data Call : Type 0 where
  reads : Irp → ℕ → Call
  logs : ℕ → PacketHeader → List PayloadEntry → Call

abbrev pub IsCall : Call → Type 0
IsCall (reads p read_length) = Unit {0}
IsCall (logs timestamp header payload) = IsPacket header payload

abbrev pub AreCalls : List Call → Type 0
AreCalls [] = Unit {0}
AreCalls (c ∷ cs) = IsCall c × AreCalls cs

-- What a call adds to the stream, what it delivers to readers, and the state after it.
unfoldable pub step : Hub → Call → List ℕ × List ℕ × Hub
step h (reads p read_length) =
    let (_, bytes, h') = buffer_handle_read_irp h p read_length in ([], bytes, h')
step h (logs timestamp header payload) =
    let (_, done, h') = write_timestamped_payload h timestamp header payload in
    (logged h timestamp header payload, delivered done, h')

unfoldable pub run : Hub → List Call → List ℕ × List ℕ × Hub
run h [] = ([], [], h)
run h (c ∷ cs) =
    let (added, out, h') = step h c in
    let (added', out', h'') = run h' cs in (added ++ added', out ++ out', h'')

step-Delivers :
    (h : Hub) (c : Call)
    → IsRing h.ring
    → IsCall c
    → let (added, out, h') = step h c in Delivers (contents h.ring ++ added) out h'.ring
unfolding step
step-Delivers h (reads p read_length) v w =
    let d = buffer_handle_read_irp-Delivers h p read_length v in
    record {
      ring_valid = d.ring_valid;
      conserved = d.conserved ∙ sym (append-nil (contents h.ring));
    }
step-Delivers h (logs timestamp header payload) v w =
    write_timestamped_payload-Delivers h timestamp header payload v w

-- Over any history of reads and logged packets the bytes that the readers got, in order, with
-- those that still wait are the bytes that waited at first and then the records that were
-- accepted, in order: nothing is lost, repeated or reordered, and the buffer stays valid.
pub run-Delivers :
    (h : Hub) (cs : List Call)
    → IsRing h.ring
    → AreCalls cs
    → let (added, out, h') = run h cs in Delivers (contents h.ring ++ added) out h'.ring
unfolding run
run-Delivers h [] v w = record { ring_valid = v; conserved = sym (append-nil (contents h.ring)) }
run-Delivers h (c ∷ cs) v w =
    let (added, out, h') = step h c in
    let (added', out', h'') = run h' cs in
    let d = step-Delivers h c v w.0 in
    let e = run-Delivers h' cs d.ring_valid w.1 in
    record {
      ring_valid = e.ring_valid;
      conserved =
          append_assoc out out' (contents h''.ring)
          ∙ ap (λ t. out ++ t) e.conserved
          ∙ sym (append_assoc out (contents h'.ring) added')
          ∙ ap (λ t. t ++ added') d.conserved
          ∙ append_assoc (contents h.ring) added added';
    }
