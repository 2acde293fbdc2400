-- ===== src/Buffer/Irp.antt =====
-- USBPcapDriver/USBPcapBuffer.c: read requests, pended reads, and the calls that log a packet.
-- The lock is held from the access to the buffer to the end of each call, so a call is one step.
pub mod Stream
pub mod Pending
pub mod Keeps
use usbpcap_ai.Base.{ℕ, List, [], ◌∷◌, Option, none, some, length, ◌==◌, if◌then◌else◌}
use usbpcap_ai.Queue.{Irp, csq_insert_irp, csq_remove_next_irp}
use usbpcap_ai.Format.{PacketHeader}
use usbpcap_ai.Buffer.{RingData, NtStatus, nt_success, is_null, buffer_read}
use usbpcap_ai.Buffer.Packet.{PayloadEntry, store_packet}

-- The circular buffer of a root hub and the pended reads of its control device.
pub record Hub : Type 0 where
  pub ring : RingData
  pub pend_irps : List Irp

-- A completed request: its status and the bytes in its buffer (`Information` is their number).
pub record Completion : Type 0 where
  pub request : Irp
  pub status : NtStatus
  pub bytes : List ℕ

-- `USBPcapBufferHandleReadIrp`: the status, the bytes read and the state after.
unfoldable pub buffer_handle_read_irp : Hub → Irp → ℕ → NtStatus × List ℕ × Hub
buffer_handle_read_irp h p read_length =
    if read_length == 0
    then (NtStatus.success, [], h)
    else if is_null h.ring.buffer
    then (NtStatus.unsuccessful, [], h)
    else elim p.mdl [
      | none ↦ (NtStatus.insufficient_resources, [], h)
      | some buffer_length ↦
          let (bytes, ring) = buffer_read h.ring buffer_length in
          if length bytes == 0
          then (
            NtStatus.pending,
            [],
            record { ring = ring; pend_irps = csq_insert_irp h.pend_irps p },
          )
          else (NtStatus.success, bytes, record h { ring = ring })
    ]

-- What `USBPcapBufferCompletePendedReadIrp` does with the request that it took off the queue.
unfoldable pub fill_pended_irp : RingData → Irp → Completion × RingData
fill_pended_irp ring p = elim p.mdl [
  | none ↦ (record { request = p; status = NtStatus.insufficient_resources; bytes = [] }, ring)
  | some buffer_length ↦
      let (bytes, ring') = buffer_read ring buffer_length in
      if buffer_length == 0
      then (record { request = p; status = NtStatus.success; bytes = [] }, ring)
      else (record { request = p; status = NtStatus.success; bytes = bytes }, ring')
]

-- `USBPcapBufferCompletePendedReadIrp`
unfoldable pub complete_pended_read_irp : Hub → Option Completion × Hub
complete_pended_read_irp h = elim (csq_remove_next_irp h.pend_irps none) [
  | none ↦ (none, h)
  | some (p, rest) ↦
      let (done, ring) = fill_pended_irp h.ring p in
      (some done, record { ring = ring; pend_irps = rest })
]

-- `USBPcapBufferWriteTimestampedPayload`
unfoldable pub write_timestamped_payload :
    Hub → ℕ → PacketHeader → List PayloadEntry → NtStatus × Option Completion × Hub
write_timestamped_payload h timestamp header payload =
    let (status, ring) = store_packet h.ring timestamp header payload in
    let (done, h') = complete_pended_read_irp (record h { ring = ring }) in
    if nt_success status then (status, done, h') else (status, none, record h { ring = ring })

-- `USBPcapBufferWritePayload`, with the time that `USBPcapGetCurrentTimestamp` returns.
abbrev pub write_payload_now :
    ℕ → Hub → PacketHeader → List PayloadEntry → NtStatus × Option Completion × Hub
write_payload_now now h header payload = write_timestamped_payload h now header payload

-- `USBPcapBufferWriteTimestampedPacket`
abbrev pub write_timestamped_packet :
    Hub → ℕ → PacketHeader → Option (List ℕ) → NtStatus × Option Completion × Hub
write_timestamped_packet h timestamp header buffer = write_timestamped_payload h timestamp header (
    record { size = header.data_length; buffer = buffer } ∷ record { size = 0; buffer = none } ∷ [])

-- `USBPcapBufferWritePacket`
abbrev pub write_packet_now :
    ℕ → Hub → PacketHeader → Option (List ℕ) → NtStatus × Option Completion × Hub
write_packet_now now h header buffer = write_timestamped_packet h now header buffer
