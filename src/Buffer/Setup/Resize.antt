-- ===== src/Buffer/Setup/Resize.antt =====
-- What setting up, replacing and freeing the buffer of USBPcapDriver/USBPcapBuffer.c keeps.
use usbpcap_ai.Base.{
  ℕ, ◌+◌, ◌≤◌, ◌<◌, ◌≡◌, ◌⊎◌, inl, inr, ◌≢◌, refl, sym, ap, ◌∙◌, List, [], ◌∷◌, ◌++◌, append-nil,
  true, false, Bool-cases, Option, none, some, length, ltb, leb, ◌||◌, if◌then◌else◌, arith, drop,
  take_all, length-append, take-append_ge,
}
use usbpcap_ai.Format.{pcap_hdr_bytes, pcap_hdr_size}
use usbpcap_ai.Format.Codec.{length-pcap_hdr_bytes}
use usbpcap_ai.Buffer.{
  RingData, NtStatus, is_null, copy_to, get_buffer_allocated, buffer_write, buffer_read,
  buffer_write_unsafe,
}
use usbpcap_ai.Buffer.Inv.{IsRing, used, max_buffer_size, get_buffer_allocated-used, length-copy_to}
use usbpcap_ai.Buffer.Fifo.{contents, between, length-contents, buffer_read_lem, buffer_write_lem}
use usbpcap_ai.Buffer.Appends.{Appends, Appends-write}
use usbpcap_ai.Buffer.Setup.{
  global_header, write_global_header, replace_buffer, create_buffer, set_up_buffer, remove_buffer,
}

-- A hub has a valid buffer, or none and both offsets at 0.
abbrev pub IsBuffer : RingData → Type 0
IsBuffer s = IsRing s ⊎ ((s.buffer ≡ none) × (s.read_offset ≡ 0) × (s.write_offset ≡ 0))

-- The memory that the allocation returned has the size that was asked for.
abbrev pub IsAlloc : ℕ → Option (List ℕ) → Type 0
IsAlloc bytes none = Unit {0}
IsAlloc bytes (some new) = length new ≡ bytes

pub contents_empty : (s : RingData) → s.read_offset ≡ 0 → s.write_offset ≡ 0 → contents s ≡ []
unfolding contents between
contents_empty s r w = ground arith

-- The global header goes into an empty buffer that has room for it.
pub write_global_header-Appends :
    (s : RingData)
    → IsRing s
    → contents s ≡ []
    → pcap_hdr_size < s.buffer_size
    → Appends s (pcap_hdr_bytes (global_header s)) (write_global_header s)
unfolding write_global_header
write_global_header-Appends s v e room =
    rw fits (Appends-write s header v (omega (arith, len, none_used)))
  where
    header : List ℕ
    header = pcap_hdr_bytes (global_header s)

    len : length header ≡ pcap_hdr_size
    len = length-pcap_hdr_bytes (global_header s)

    none_used : used s ≡ 0
    none_used = omega (arith, ap length e, length-contents s v)

    fits : (buffer_write s header).1 ≡ buffer_write_unsafe s header
    fits = ground (arith, len, none_used, buffer_write_lem s header v, length-contents s v)

-- What `USBPcapSetUpBuffer` does on a hub without a buffer: a valid buffer of the size asked for,
-- which holds the global header.
pub create_buffer_lem :
    (s : RingData) (bytes : ℕ) (new : List ℕ)
    → length new ≡ bytes
    → 4096 ≤ bytes
    → bytes ≤ max_buffer_size
    → let t = create_buffer s bytes new in
      IsRing t × (contents t ≡ pcap_hdr_bytes (global_header s)) × (t.buffer_size ≡ bytes)
unfolding create_buffer global_header
create_buffer_lem s bytes new len low high = (
  added.ring,
  added.appended ∙ ap (λ c. c ++ pcap_hdr_bytes (global_header fresh)) nothing,
  added.same_size,
)
  where
    fresh : RingData
    fresh = record s { buffer = some new; buffer_size = bytes; read_offset = 0; write_offset = 0 }

    valid : IsRing fresh
    valid = ground arith

    nothing : contents fresh ≡ []
    nothing = contents_empty fresh refl refl

    added : Appends fresh (pcap_hdr_bytes (global_header fresh)) (write_global_header fresh)
    added = write_global_header-Appends fresh valid nothing (omega arith)

prefix_all : (xs ys zs : List ℕ) → xs ++ ys ≡ zs → length xs ≡ length zs → xs ≡ zs
prefix_all xs [] zs e h = sym (append-nil xs) ∙ e
prefix_all xs (y ∷ ys) zs e h = absurd (omega (arith, ap length e, length-append xs (y ∷ ys)))

-- The first part of a block that a copy went to.
between-copy_to_start :
    (new src : List ℕ) (n : ℕ) → n ≡ length src → between (copy_to new 0 src) 0 n ≡ src
unfolding between
between-copy_to_start new src n h =
    ground (arith, take-append_ge n 0 src (drop (0 + length src) new), append-nil src)

-- What it does on a hub that has one: it refuses to shrink below what waits to be read, and
-- otherwise moves all of that to the new memory.
pub replace_buffer_lem :
    (s : RingData) (bytes : ℕ) (new : List ℕ)
    → IsRing s
    → length new ≡ bytes
    → bytes ≤ max_buffer_size
    → let (status, t) = replace_buffer s bytes new in
      (status
        ≡ (if ltb (length (contents s)) bytes then NtStatus.success else NtStatus.buffer_too_small))
      × (contents t ≡ contents s)
      × IsRing t
      × (((status ≡ NtStatus.success) × (t.buffer_size ≡ bytes))
          ⊎ ((status ≢ NtStatus.success) × (t ≡ s)))
unfolding replace_buffer contents between
replace_buffer_lem s bytes new v len high = elim (Bool-cases (leb bytes (get_buffer_allocated s))) [
  | inl small ↦ rw small (ground (arith, amount), refl, v, inr ((λ e. cc), refl))
  | inr large ↦
      rw (large, unread (ground (arith, amount)))
        (
          ground (arith, amount),
          between-copy_to_start new (contents s) (get_buffer_allocated s) amount,
          ground (arith, amount, length-copy_to new 0 (contents s)),
          inl (refl, refl),
        )
]
  where
    amount : get_buffer_allocated s ≡ length (contents s)
    amount = get_buffer_allocated-used s v ∙ sym (length-contents s v)

    unread :
        length (contents s) < bytes
        → (if ltb 0 (get_buffer_allocated s) then (buffer_read s bytes).0 else []) ≡ contents s
    unread h = elim (Bool-cases (ltb 0 (get_buffer_allocated s))) [
      | inl waiting ↦ rw waiting (
          prefix_all (buffer_read s bytes).0 (contents (buffer_read s bytes).1) (contents s)
            (buffer_read_lem s bytes v).0 (omega (arith, (buffer_read_lem s bytes v).1)))
      | inr empty ↦ rw empty (take_all 0 (contents s) (ground (arith, amount)))
    ]

-- The status of `USBPcapSetUpBuffer`, where the hub has a buffer with `waiting` bytes to be read.
abbrev pub resize_status : ℕ → ℕ → Option (List ℕ) → NtStatus
resize_status waiting bytes alloc =
    if ltb bytes 4096 || ltb 134217728 bytes
    then NtStatus.invalid_parameter
    else if is_null alloc
    then NtStatus.insufficient_resources
    else if ltb waiting bytes
    then NtStatus.success
    else NtStatus.buffer_too_small

-- On a hub that has a buffer, `USBPcapSetUpBuffer` returns the status for its size argument, the
-- allocation and the bytes that wait; the buffer stays valid, every byte that waits to be read
-- still does, and the size is the new one exactly on success.
pub set_up_buffer_resize :
    (s : RingData) (bytes : ℕ) (alloc : Option (List ℕ))
    → IsRing s
    → IsAlloc bytes alloc
    → let (status, t) = set_up_buffer s bytes alloc in
      (status ≡ resize_status (length (contents s)) bytes alloc)
      × (contents t ≡ contents s)
      × IsRing t
      × (((status ≡ NtStatus.success) × (t.buffer_size ≡ bytes))
          ⊎ ((status ≢ NtStatus.success) × (t ≡ s)))
unfolding set_up_buffer
set_up_buffer_resize s bytes none v a = ground arith
set_up_buffer_resize s bytes (some new) v a =
    elim (Bool-cases (ltb bytes 4096 || ltb 134217728 bytes)) [
      | inl range ↦ rw range (refl, refl, v, inr ((λ e. cc), refl))
      | inr fine ↦
          let is_ring : is_null s.buffer ≡ false = ground (arith, v.present) in
          rw (fine, is_ring) (replace_buffer_lem s bytes new v a (ground arith))
    ]

-- On a hub that has none, a size from 4 KiB to 128 MiB and memory at hand give a valid buffer
-- that holds exactly the global header.
pub set_up_buffer_first :
    (s : RingData) (bytes : ℕ) (new : List ℕ)
    → s.buffer ≡ none
    → 4096 ≤ bytes
    → bytes ≤ max_buffer_size
    → length new ≡ bytes
    → let (status, t) = set_up_buffer s bytes (some new) in
      (status ≡ NtStatus.success)
      × IsRing t
      × (contents t ≡ pcap_hdr_bytes (global_header s))
      × (t.buffer_size ≡ bytes)
unfolding set_up_buffer
set_up_buffer_first s bytes new e low high len =
    ground (arith, create_buffer_lem s bytes new len low high)

-- `USBPcapBufferRemoveBuffer` leaves a hub without a buffer and nothing to read, whatever it had.
pub remove_buffer_lem :
    (s : RingData)
    → IsBuffer s
    → IsBuffer (remove_buffer s)
      × ((remove_buffer s).buffer ≡ none)
      × (contents (remove_buffer s) ≡ [])
unfolding remove_buffer
remove_buffer_lem s (inl v) =
    let is_ring : is_null s.buffer ≡ false = ground (arith, v.present) in
    rw is_ring (inr (refl, refl, refl), refl, contents_empty _ refl refl)
remove_buffer_lem s (inr n) =
    let is_none : is_null s.buffer ≡ true = ground (arith, n.0) in
    rw is_none (inr n, n.0, contents_empty s n.1 n.2)
