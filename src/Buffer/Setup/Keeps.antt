-- ===== src/Buffer/Setup/Keeps.antt =====
-- Each call of USBPcapDriver/USBPcapBuffer.c that sets the buffer up leaves a valid buffer or none.
use usbpcap_ai.Base.{
  ℕ, ◌≡◌, inl, inr, false, Bool-cases, Option, none, some, List, ltb, ◌||◌, arith,
}
use usbpcap_ai.Buffer.{RingData, is_null}
use usbpcap_ai.Buffer.Setup.{set_up_buffer, set_snaplen_size}
use usbpcap_ai.Buffer.Setup.Resize.{IsBuffer, IsAlloc, set_up_buffer_resize, set_up_buffer_first}

pub set_up_buffer-IsBuffer :
    (s : RingData) (bytes : ℕ) (alloc : Option (List ℕ))
    → IsBuffer s
    → IsAlloc bytes alloc
    → IsBuffer (set_up_buffer s bytes alloc).1
unfolding set_up_buffer
set_up_buffer-IsBuffer s bytes alloc (inl v) a = inl ((set_up_buffer_resize s bytes alloc v a).2)
set_up_buffer-IsBuffer s bytes none (inr n) a = ground arith
set_up_buffer-IsBuffer s bytes (some new) (inr n) a =
    elim (Bool-cases (ltb bytes 4096 || ltb 134217728 bytes)) [
      | inl range ↦ rw range (inr n)
      | inr fine ↦ inl ((set_up_buffer_first s bytes new n.0 (ground arith) (ground arith) a).1)
    ]

pub set_snaplen_size-IsBuffer :
    (s : RingData) (bytes : ℕ) → IsBuffer s → IsBuffer (set_snaplen_size s bytes).1
unfolding set_snaplen_size
set_snaplen_size-IsBuffer s bytes (inl v) = rw is_ring (ground (arith, v))
  where
    is_ring : is_null s.buffer ≡ false
    is_ring = ground (arith, v.present)
set_snaplen_size-IsBuffer s bytes (inr n) = ground arith
