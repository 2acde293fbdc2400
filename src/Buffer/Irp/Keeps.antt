-- ===== src/Buffer/Irp/Keeps.antt =====
-- A read request to USBPcapDriver/USBPcapBuffer.c leaves a valid hub.
use usbpcap_ai.Base.{ℕ, inl, inr, arith, Option-cases}
use usbpcap_ai.Queue.{Irp}
use usbpcap_ai.Queue.CleanUp.{Absent, Distinct, insert-Distinct}
use usbpcap_ai.Buffer.Inv.{buffer_read-IsRing}
use usbpcap_ai.Buffer.Setup.Resize.{IsBuffer}
use usbpcap_ai.Buffer.Irp.{Hub, buffer_handle_read_irp}

module _ (h : Hub) (p : Irp) (n : ℕ) where
  pub handle_read-IsBuffer : IsBuffer h.ring → IsBuffer (buffer_handle_read_irp h p n).2.ring
  unfolding buffer_handle_read_irp
  handle_read-IsBuffer (inl v) = elim (Option-cases p.mdl) [
    | inl e ↦ ground (arith, e)
    | inr (m, e) ↦ ground (arith, e, buffer_read-IsRing h.ring m v)
  ]
  handle_read-IsBuffer (inr v) = ground (arith, v.0)

  pub handle_read-Distinct :
      Distinct h.pend_irps
      → Absent p.irp h.pend_irps
      → Distinct (buffer_handle_read_irp h p n).2.pend_irps
  unfolding buffer_handle_read_irp
  handle_read-Distinct d a = ground (arith, insert-Distinct h.pend_irps p d a)
