-- ===== src/Buffer/Setup.antt =====
-- USBPcapDriver/USBPcapBuffer.c: the calls that set the buffer up, replace, reset and free it.
-- `alloc` is what `ExAllocatePoolWithTag` returned: memory of the size asked for, or NULL.
pub mod Resize
pub mod Keeps
pub mod Reset
use usbpcap_ai.Base.{
  ℕ, List, [], ◌∷◌, ◌++◌, Option, none, some, length, ltb, leb, ◌==◌, ◌||◌, if◌then◌else◌,
}
use usbpcap_ai.Format.{PcapHdr, pcap_hdr_bytes, pcap_magic, dlt_usbpcap}
use usbpcap_ai.Buffer.{
  RingData, NtStatus, is_null, copy_to, get_buffer_allocated, buffer_write, buffer_read,
}

-- The global header that `USBPcapWriteGlobalHeader` writes.
pub global_header : RingData → PcapHdr
global_header s = record {
  magic_number = pcap_magic;
  version_major = 2;
  version_minor = 4;
  thiszone = 0;
  sigfigs = 0;
  snaplen = s.snaplen;
  network = dlt_usbpcap;
}

-- `USBPcapWriteGlobalHeader`; the status of the write is not looked at.
pub write_global_header : RingData → RingData
write_global_header s = (buffer_write s (pcap_hdr_bytes (global_header s))).1

-- The branch of `USBPcapSetUpBuffer` for a hub that has a buffer, with the new memory at hand.
pub replace_buffer : RingData → ℕ → List ℕ → NtStatus × RingData
replace_buffer s bytes new =
    let allocated = get_buffer_allocated s in
    let unread = if ltb 0 allocated then (buffer_read s bytes).0 else [] in
    if leb bytes allocated then (NtStatus.buffer_too_small, s) else (
      NtStatus.success,
      record s {
        buffer = some (copy_to new 0 unread);
        buffer_size = bytes;
        read_offset = 0;
        write_offset = allocated;
      },
    )

-- The branch for a hub that has none.
pub create_buffer : RingData → ℕ → List ℕ → RingData
create_buffer s bytes new =
    write_global_header
      (record s { buffer = some new; buffer_size = bytes; read_offset = 0; write_offset = 0 })

-- `USBPcapSetUpBuffer`
pub set_up_buffer : RingData → ℕ → Option (List ℕ) → NtStatus × RingData
set_up_buffer s bytes alloc =
    if ltb bytes 4096 || ltb 134217728 bytes then (NtStatus.invalid_parameter, s) else elim alloc [
      | none ↦ (NtStatus.insufficient_resources, s)
      | some new ↦
          if is_null s.buffer
          then (NtStatus.success, create_buffer s bytes new)
          else replace_buffer s bytes new
    ]

-- `USBPcapSetSnaplenSize`
pub set_snaplen_size : RingData → ℕ → NtStatus × RingData
set_snaplen_size s bytes =
    if bytes == 0
    then (NtStatus.invalid_parameter, s)
    else if is_null s.buffer
    then (NtStatus.success, record s { snaplen = bytes })
    else (NtStatus.unsuccessful, s)

-- `USBPcapBufferRemoveBuffer`
pub remove_buffer : RingData → RingData
remove_buffer s =
    if is_null s.buffer then s else record s { read_offset = 0; write_offset = 0; buffer = none }

-- `USBPcapBufferInitializeBuffer`
pub initialize_buffer : RingData → RingData
initialize_buffer s =
    if is_null s.buffer
    then s
    else write_global_header (record s { read_offset = 0; write_offset = 0 })
