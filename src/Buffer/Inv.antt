-- ===== src/Buffer/Inv.antt =====
-- The invariant of the circular buffer of USBPcapDriver/USBPcapBuffer.c, and that its arithmetic
-- does not wrap.
use usbpcap_ai.Base.{
  ℕ, ◌+◌, ◌-◌, ◌≤◌, ◌<◌, ◌≡◌, some, List, length, arith, ltb, if◌then◌else◌, length-append,
  length-take, length-drop, take, drop, Bool-cases, inl, inr, leb, ◌++◌, sub32,
}
use usbpcap_ai.Buffer.{
  RingData, memory, copy_to, get_buffer_free, get_buffer_allocated, buffer_write_unsafe,
  buffer_copy_out, buffer_read,
}

-- The largest buffer that `USBPcapSetUpBuffer` accepts: 128 MiB.
abbrev pub max_buffer_size : ℕ
max_buffer_size = 134217728

-- With no buffer both offsets are 0; otherwise the block has the recorded size and both offsets
-- point into it.
pub record IsRing (s : RingData) : Type 0 where
  pub sized : length (memory s.buffer) ≡ s.buffer_size
  pub small : s.buffer_size ≤ max_buffer_size
  pub read_in : s.read_offset < s.buffer_size
  pub write_in : s.write_offset < s.buffer_size
  pub present : s.buffer ≡ some (memory s.buffer)

-- The bytes between the two offsets, going round the end.
abbrev pub used : RingData → ℕ
used s =
    if ltb s.write_offset s.read_offset
    then s.buffer_size - s.read_offset + s.write_offset
    else s.write_offset - s.read_offset

pub get_buffer_allocated-used : (s : RingData) → IsRing s → get_buffer_allocated s ≡ used s
unfolding get_buffer_allocated
get_buffer_allocated-used s v = ground arith

-- In a valid buffer the free bytes and the bytes that wait make up all of it but one: the
-- arithmetic of `USBPcapGetBufferFree` does not wrap.
pub get_buffer_free-used :
    (s : RingData) → IsRing s → get_buffer_free s + used s + 1 ≡ s.buffer_size
unfolding get_buffer_free
get_buffer_free-used s v = ground arith

module _ (block : List ℕ) (offset : ℕ) (src : List ℕ) where
  -- A copy that fits leaves the size of the block.
  pub length-copy_to :
      offset + length src ≤ length block → length (copy_to block offset src) ≡ length block
  length-copy_to h = omega (
    arith,
    length-append (take offset block) (src ++ drop (offset + length src) block),
    length-append src (drop (offset + length src) block),
    length-take offset block,
    length-drop (offset + length src) block,
  )

-- Writing what fits keeps the invariant: no copy leaves the block.
pub buffer_write_unsafe-IsRing :
    (s : RingData) (src : List ℕ)
    → IsRing s
    → length src + used s < s.buffer_size
    → IsRing (buffer_write_unsafe s src)
unfolding buffer_write_unsafe
buffer_write_unsafe-IsRing s src v h =
    let tmp = sub32 s.buffer_size s.write_offset in
    elim (Bool-cases (leb (length src) tmp)) [
      | inl fits ↦ rw fits (ground (arith, length-copy_to (memory s.buffer) s.write_offset src))
      | inr wraps ↦ rw wraps (
          ground (
            arith,
            length-take tmp src,
            length-drop tmp src,
            length-copy_to (memory s.buffer) s.write_offset (take tmp src),
            length-copy_to (copy_to (memory s.buffer) s.write_offset (take tmp src)) 0
                (drop tmp src),
          ))
    ]

pub buffer_read-IsRing : (s : RingData) (n : ℕ) → IsRing s → IsRing (buffer_read s n).1
unfolding buffer_read buffer_copy_out
buffer_read-IsRing s n v = ground (arith, get_buffer_allocated-used s v)
