-- ===== src/Buffer/Irp/Pending.antt =====
-- Whether a read stays pended while bytes wait (USBPcapDriver/USBPcapBuffer.c).
use usbpcap_ai.Base.{
  ℕ, ◌≤◌, ◌<◌, ◌≡◌, ◌≢◌, ◌⊎◌, inl, inr, refl, ap, List, [], ◌∷◌, ◌++◌, some, false, Bool-cases,
  Option-cases, length, length-append, arith,
}
use usbpcap_ai.Queue.{Irp}
use usbpcap_ai.Queue.CleanUp.{remove_next_nil, remove_next_cons}
use usbpcap_ai.Format.{PacketHeader}
use usbpcap_ai.Buffer.{RingData, NtStatus, nt_success, buffer_read}
use usbpcap_ai.Buffer.Inv.{IsRing}
use usbpcap_ai.Buffer.Fifo.{contents, buffer_read_lem}
use usbpcap_ai.Buffer.Packet.{PayloadEntry, store_packet}
use usbpcap_ai.Buffer.Packet.Store.{IsPacket, store_packet-Appends, store_packet_refused}
use usbpcap_ai.Buffer.Irp.{
  Hub, buffer_handle_read_irp, fill_pended_irp, complete_pended_read_irp, write_timestamped_payload,
}
use usbpcap_ai.Buffer.Irp.Stream.{logged}

-- No read is pended while bytes wait.
abbrev pub IsAwake : Hub → Type 0
IsAwake h = (h.pend_irps ≡ []) ⊎ (contents h.ring ≡ [])

nil_of_length : (xs : List ℕ) → length xs ≡ 0 → xs ≡ []
nil_of_length [] e = refl
nil_of_length (x ∷ xs) e = absurd (omega arith)

-- A read request is pended only when nothing waits. The MDL of a request that is not empty has
-- bytes.
pub buffer_handle_read_irp-IsAwake :
    (h : Hub) (p : Irp) (read_length : ℕ)
    → IsRing h.ring
    → p.mdl ≢ some 0
    → IsAwake h
    → IsAwake (buffer_handle_read_irp h p read_length).2
unfolding buffer_handle_read_irp
buffer_handle_read_irp-IsAwake h p read_length v some_bytes a = elim (Option-cases p.mdl) [
  | inl e ↦ rw (e, buffer_handle_read_irp) (ground arith)
  | inr (n, e) ↦
      let parts = buffer_read_lem h.ring n v in
      ground (
        arith,
        e,
        parts,
        ap length parts.0,
        length-append (buffer_read h.ring n).0 (contents (buffer_read h.ring n).1),
        nil_of_length (contents (buffer_read h.ring n).1),
      )
]

-- A successful log with at most one read pended leaves none pended.
complete-IsAwake :
    (ring : RingData) (queue : List Irp)
    → length queue ≤ 1
    → IsAwake (complete_pended_read_irp (record { ring = ring; pend_irps = queue })).1
unfolding complete_pended_read_irp
complete-IsAwake ring [] h = rw (remove_next_nil, complete_pended_read_irp) (inl refl)
complete-IsAwake ring (p ∷ []) h = rw (remove_next_cons p [], complete_pended_read_irp) (inl refl)
complete-IsAwake ring (p ∷ q ∷ rest) h = absurd (omega arith)

-- Logging a packet wakes the pended read, if there is at most one.
pub write_timestamped_payload-IsAwake :
    (h : Hub) (timestamp : ℕ) (header : PacketHeader) (payload : List PayloadEntry)
    → length h.pend_irps ≤ 1
    → IsAwake h
    → IsAwake (write_timestamped_payload h timestamp header payload).2
unfolding write_timestamped_payload
write_timestamped_payload-IsAwake h timestamp header payload one a =
    let result = store_packet h.ring timestamp header payload in
    elim (Bool-cases (nt_success result.0)) [
      | inl ok ↦ rw ok (complete-IsAwake result.1 h.pend_irps one)
      | inr refused ↦
          let same = store_packet_refused h.ring timestamp header payload (not_ok refused) in
          rw (refused, same) a
    ]
  where
    not_ok :
        nt_success (store_packet h.ring timestamp header payload).0 ≡ false
        → (store_packet h.ring timestamp header payload).0 ≢ NtStatus.success
    not_ok r e = cc

fill_leaves :
    (ring : RingData) (p : Irp) (n : ℕ)
    → p.mdl ≡ some n
    → IsRing ring
    → n < length (contents ring)
    → contents (fill_pended_irp ring p).1 ≢ []
unfolding fill_pended_irp
fill_leaves ring p n mdl v more =
    let parts = buffer_read_lem ring n v in
    ground (
      arith,
      mdl,
      parts,
      ap length parts.0,
      length-append (buffer_read ring n).0 (contents (buffer_read ring n).1),
    )

complete_sleeps :
    (ring : RingData) (p q : Irp) (rest : List Irp)
    → contents (fill_pended_irp ring p).1 ≢ []
    → ¬ IsAwake (complete_pended_read_irp (record { ring = ring; pend_irps = p ∷ q ∷ rest })).1
unfolding complete_pended_read_irp
complete_sleeps ring p q rest waits =
    rw (remove_next_cons p (q ∷ rest), complete_pended_read_irp)
      (λ a. elim a [ inl e ↦ cc | inr e ↦ waits e ])

-- With two reads pended, a logged packet that does not fit the first one's buffer leaves the second
-- pended although bytes wait.
pub second_read_waits :
    (h : Hub) (p q : Irp) (rest : List Irp) (n timestamp : ℕ) (header : PacketHeader)
    (payload : List PayloadEntry)
    → h.pend_irps ≡ p ∷ q ∷ rest
    → p.mdl ≡ some n
    → IsRing h.ring
    → IsPacket header payload
    → (store_packet h.ring timestamp header payload).0 ≡ NtStatus.success
    → n < length (contents h.ring ++ logged h timestamp header payload)
    → ¬ IsAwake (write_timestamped_payload h timestamp header payload).2
unfolding write_timestamped_payload logged
second_read_waits h p q rest n timestamp header payload pend mdl v w ok more =
    let result = store_packet h.ring timestamp header payload in
    let stored = store_packet-Appends h.ring timestamp header payload v w ok in
    let waits = fill_leaves result.1 p n mdl stored.ring (rw (stored.appended) (rw ok at more)) in
    rw (ok, pend) (complete_sleeps result.1 p q rest waits)
