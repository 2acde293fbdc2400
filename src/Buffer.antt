-- ===== src/Buffer.antt =====
-- USBPcapDriver/USBPcapBuffer.c: the circular buffer between the driver and the reading process.
-- This file has the state and the operations on the buffer's bytes; `Packet` the packets that are
-- stored, `Setup` the calls that replace, empty and free the buffer, `Irp` the read requests.
-- Every operation runs under `bufferLock`, so an operation is a function on the state. Arithmetic
-- on UINT32 is `add32`, `sub32` and `% bufferSize`, with the wrap written out.
pub mod Inv
pub mod Fifo
pub mod Appends
pub mod Packet
pub mod Setup
pub mod Irp
mod Tests
use usbpcap_ai.Base.{
  ℕ, ◌+◌, ◌%◌, Bool, true, false, ◌||◌, Option, none, some, List, [], ◌∷◌, ◌++◌, length, take, drop,
  ltb, leb, ◌==◌, if◌then◌else◌, add32, sub32,
}

-- The NTSTATUS values that the driver returns.
pub data NtStatus : Type 0 where
  success pending : NtStatus
  unsuccessful invalid_parameter insufficient_resources buffer_too_small : NtStatus
  access_denied not_found not_supported invalid_device_request cancelled : NtStatus
  no_such_device : NtStatus

-- `NT_SUCCESS`: STATUS_PENDING counts as success.
abbrev pub nt_success : NtStatus → Bool
nt_success NtStatus.success = true
nt_success NtStatus.pending = true
nt_success _ = false

-- The circular-buffer part of `USBPCAP_ROOTHUB_DATA`; `buffer` is `none` for NULL.
pub record RingData : Type 0 where
  pub buffer : Option (List ℕ)
  pub buffer_size : ℕ
  pub read_offset : ℕ
  pub write_offset : ℕ
  pub snaplen : ℕ

-- What is at the address `buffer`: nothing, for NULL.
abbrev pub memory : Option (List ℕ) → List ℕ
memory none = []
memory (some b) = b

-- RtlCopyMemory into a block of memory at an offset, and out of it. A copy beyond the end would
-- make the block longer; `Inv` shows that none does.
abbrev pub copy_to : List ℕ → ℕ → List ℕ → List ℕ
copy_to block offset src = take offset block ++ (src ++ drop (offset + length src) block)

abbrev pub copy_from : List ℕ → ℕ → ℕ → List ℕ
copy_from block offset n = take n (drop offset block)

abbrev pub is_null : Option (List ℕ) → Bool
is_null none = true
is_null (some b) = false

-- `USBPcapGetBufferFree`
unfoldable pub get_buffer_free : RingData → ℕ
get_buffer_free s =
    if is_null s.buffer
    then 0
    else if s.read_offset == s.write_offset
    then sub32 s.buffer_size 1
    else if ltb s.write_offset s.read_offset
    then sub32 (sub32 s.read_offset s.write_offset) 1
    else sub32 (add32 (sub32 s.buffer_size s.write_offset) s.read_offset) 1

-- `USBPcapGetBufferAllocated`
unfoldable pub get_buffer_allocated : RingData → ℕ
get_buffer_allocated s =
    if s.read_offset == s.write_offset
    then 0
    else if ltb s.write_offset s.read_offset
    then add32 (sub32 s.buffer_size s.read_offset) s.write_offset
    else sub32 s.write_offset s.read_offset

-- `USBPcapBufferWriteUnsafe`; `data` has `length` bytes.
unfoldable pub buffer_write_unsafe : RingData → List ℕ → RingData
buffer_write_unsafe s src =
    if leb (length src) (sub32 s.buffer_size s.write_offset)
    then record s {
      buffer = some (copy_to (memory s.buffer) s.write_offset src);
      write_offset = add32 s.write_offset (length src) % s.buffer_size;
    }
    else let tmp = sub32 s.buffer_size s.write_offset in
      let first = copy_to (memory s.buffer) s.write_offset (take tmp src) in
      record s {
        buffer = some (copy_to first 0 (drop tmp src));
        write_offset = sub32 (length src) tmp;
      }

-- `USBPcapBufferWrite`
pub buffer_write : RingData → List ℕ → NtStatus × RingData
buffer_write s src =
    if length src == 0
    then (NtStatus.invalid_parameter, s)
    else if ltb (get_buffer_free s) (length src)
    then (NtStatus.insufficient_resources, s)
    else (NtStatus.success, buffer_write_unsafe s src)

-- The copying part of `USBPcapBufferRead`: what goes to the destination, and the state after.
unfoldable pub buffer_copy_out : RingData → ℕ → List ℕ × RingData
buffer_copy_out s to_read =
    let block = memory s.buffer in
    let tmp = sub32 s.buffer_size s.read_offset in
    if ltb s.read_offset s.write_offset || leb to_read tmp
    then (
      copy_from block s.read_offset to_read,
      record s { read_offset = add32 s.read_offset to_read % s.buffer_size },
    )
    else (
      copy_from block s.read_offset tmp ++ copy_from block 0 (sub32 to_read tmp),
      record s { read_offset = sub32 to_read tmp },
    )

-- `USBPcapBufferRead`; the length of the first part is the number of bytes that it returns.
unfoldable pub buffer_read : RingData → ℕ → List ℕ × RingData
buffer_read s dest_size =
    let available = get_buffer_allocated s in
    if available == 0 || dest_size == 0
    then ([], s)
    else buffer_copy_out s (if ltb dest_size available then dest_size else available)
