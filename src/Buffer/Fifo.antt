-- ===== src/Buffer/Fifo.antt =====
-- The circular buffer of USBPcapDriver/USBPcapBuffer.c behaves as a queue of bytes.
use native.Mathlib.Nat.{mod-eq_of_lt, mod_self}
use usbpcap_ai.Base.{
  ◌==◌, add32, u32_mod, ◌||◌, ◌%◌, ◌≢◌, ℕ, ◌+◌, ◌-◌, ◌≤◌, ◌<◌, ◌≡◌, ◌⊎◌, ap, ◌∙◌, List, ◌++◌,
  append-nil, append_assoc, length, take, drop, arith, ltb, leb, min, if◌then◌else◌, Bool-cases,
  inl, inr, length-append, length-take, length-drop, take-append_ge, drop-append_le, drop-append_ge,
  drop-drop, take-take, drop-take, take_split, drop_split, take_all, drop_all, take-append-drop,
  sub32,
}
use usbpcap_ai.Buffer.{
  RingData, NtStatus, buffer_write, memory, copy_to, copy_from, buffer_write_unsafe,
  buffer_copy_out, buffer_read,
}
use usbpcap_ai.Buffer.Inv.{
  max_buffer_size, length-copy_to, IsRing, used, get_buffer_allocated-used, get_buffer_free-used,
}

-- The bytes of a block between two offsets, going round the end when the second is lower.
unfoldable pub between : List ℕ → ℕ → ℕ → List ℕ
between block r w = if ltb w r then drop r block ++ take w block else drop r (take w block)

-- The bytes waiting to be read, oldest first.
unfoldable pub contents : RingData → List ℕ
contents s = between (memory s.buffer) s.read_offset s.write_offset

pub length-contents : (s : RingData) → IsRing s → length (contents s) ≡ used s
unfolding contents between
length-contents s v = ground (
  arith,
  length-append (drop s.read_offset (memory s.buffer)) (take s.write_offset (memory s.buffer)),
  length-drop s.read_offset (memory s.buffer),
  length-take s.write_offset (memory s.buffer),
  length-drop s.read_offset (take s.write_offset (memory s.buffer)),
)

-- A block written at `w` without going round, seen from `r`.
module _ (b src : List ℕ) (w : ℕ) (fits : w + length src ≤ length b) where
  take-copy_to : take (w + length src) (copy_to b w src) ≡ take w b ++ src
  take-copy_to =
      take-append_ge (w + length src) (length src) (take w b) (src ++ drop (w + length src) b)
        (omega (arith, length-take w b))
      ∙ ap (λ t. take w b ++ t)
          (take-append_ge (length src) 0 src (drop (w + length src) b) (omega arith)
            ∙ append-nil src)

  drop-copy_to : (k : ℕ) → w + length src ≤ k → drop k (copy_to b w src) ≡ drop k b
  drop-copy_to k h =
      drop-append_ge k (k - w) (take w b) (src ++ drop (w + length src) b)
        (omega (arith, length-take w b))
      ∙ (drop-append_ge (k - w) (k - w - length src) src (drop (w + length src) b) (omega arith)
          ∙ drop-drop (w + length src) (k - w - length src) k b (omega arith))

  -- In front of the write, the rest of the block is shifted in.
  drop-copy_to_le :
      (k : ℕ)
      → k ≤ w
      → w + length src ≡ length b
      → drop k (copy_to b w src) ≡ drop k (take w b) ++ src
  drop-copy_to_le k h full =
      drop-append_le k (take w b) (src ++ drop (w + length src) b) (omega (arith, length-take w b))
      ∙ ap (λ t. drop k (take w b) ++ (src ++ t)) (drop_all (w + length src) b (omega arith))
      ∙ ap (λ t. drop k (take w b) ++ t) (append-nil src)

-- Writing in one piece appends the bytes, oldest first: up to before the end of the block, ...
between-copy_to :
    (b src : List ℕ) (r w : ℕ)
    → w + length src < length b
    → r < length b
    → (w < r → w + length src < r)
    → between (copy_to b w src) r (w + length src) ≡ between b r w ++ src
unfolding between
between-copy_to b src r w fits hr gap = ground (
  arith,
  take-copy_to b src w (omega arith),
  drop-copy_to b src w (omega arith) r,
  append_assoc (drop r b) (take w b) src,
  drop-append_le r (take w b) src,
  length-take w b,
)

-- ... up to the end exactly, when the next write starts at 0, ...
between-copy_to_full :
    (b src : List ℕ) (r w : ℕ)
    → w + length src ≡ length b
    → 0 < r
    → r ≤ w
    → between (copy_to b w src) r 0 ≡ between b r w ++ src
unfolding between
between-copy_to_full b src r w full hr low =
    ground (
      arith,
      drop-copy_to_le b src w (omega arith) r low full,
      append-nil (drop r (copy_to b w src)),
    )

-- ... or in two pieces, the second at the start of the block.
between-copy_to_wrap :
    (b p q : List ℕ) (r w : ℕ)
    → w + length p ≡ length b
    → length q < r
    → r ≤ w
    → between (copy_to (copy_to b w p) 0 q) r (length q) ≡ between b r w ++ (p ++ q)
unfolding between
between-copy_to_wrap b p q r w full gap low = ground (
  arith,
  take-copy_to (copy_to b w p) q 0 (omega (arith, same)),
  drop-copy_to (copy_to b w p) q 0 (omega (arith, same)) r,
  drop-copy_to_le b p w (omega arith) r low full,
  append_assoc (drop r (take w b)) p q,
)
  where
    same : length (copy_to b w p) ≡ length b
    same = length-copy_to b w p (omega arith)

-- An offset that moves on by what fits up to the end of the block stays below it, or starts again.
advance_cases :
    (o n size : ℕ)
    → o + n ≤ size
    → o < size
    → size ≤ max_buffer_size
    → ((add32 o n % size ≡ o + n) × (o + n < size)) ⊎ ((add32 o n % size ≡ 0) × (o + n ≡ size))
advance_cases o n size h lt small = elim (Bool-cases (ltb (o + n) size)) [
  | inl below ↦ inl (ground (arith, mod-eq_of_lt {n = o + n} {m = size}), ground arith)
  | inr full ↦ let e : o + n ≡ size = ground arith in inr (round e, e)
]
  where
    round : o + n ≡ size → add32 o n % size ≡ 0
    round e = rw (e, mod-eq_of_lt {n = size} {m = u32_mod} (omega arith)) (mod_self size)

-- `USBPcapBufferWriteUnsafe` appends the data to what waits to be read, if it fits.
pub buffer_write_unsafe_lem :
    (s : RingData) (src : List ℕ)
    → IsRing s
    → length src + used s < s.buffer_size
    → contents (buffer_write_unsafe s src) ≡ contents s ++ src
unfolding buffer_write_unsafe contents
buffer_write_unsafe_lem s src v h = elim (Bool-cases (leb (length src) tmp)) [
  | inl fits ↦
      rw fits (elim (advance_cases w (length src) s.buffer_size (ground arith) v.write_in v.small) [
        | inl e ↦
            rw e.0 (between-copy_to block src r w (ground arith) (ground arith) (ground arith))
        | inr e ↦
            rw e.0 (between-copy_to_full block src r w (ground arith) (ground arith) (ground arith))
      ])
  | inr wraps ↦ rw wraps (
      ground (
        arith,
        length-take tmp src,
        length-drop tmp src,
        take-append-drop tmp src,
        between-copy_to_wrap block (take tmp src) (drop tmp src) r w,
      ))
]
  where
    block : List ℕ
    block = memory s.buffer

    r : ℕ
    r = s.read_offset

    w : ℕ
    w = s.write_offset

    tmp : ℕ
    tmp = sub32 s.buffer_size w

-- Reading in one piece, up to before the end of the block: the bytes, and those that follow.
copy_from-between :
    (b : List ℕ) (r w n : ℕ)
    → r ≢ w
    → (r < w → r + n ≤ w)
    → copy_from b r n ++ between b (r + n) w ≡ between b r w
unfolding between
copy_from-between b r w n ne low = elim (Bool-cases (ltb w r)) [
  | inl lower ↦ ground (
    arith,
    drop_split r n (r + n) b,
    append_assoc (take n (drop r b)) (drop (r + n) b) (take w b),
  )
  | inr upper ↦ ground (
    arith,
    drop_split r n (r + n) (take w b),
    drop-take r w (w - r) b,
    take-take n (w - r) (drop r b),
  )
]

-- Reading up to the end of the block: the next read starts at 0.
copy_from-between_full :
    (b : List ℕ) (r w n : ℕ)
    → w < r
    → r + n ≡ length b
    → copy_from b r n ++ between b 0 w ≡ between b r w
unfolding between
copy_from-between_full b r w n lower full = ground (arith, take_all n (drop r b), length-drop r b)

-- Reading in two pieces.
copy_from-between_wrap :
    (b : List ℕ) (r w n k : ℕ)
    → w < r
    → r + n ≡ length b
    → k ≤ w
    → (copy_from b r n ++ copy_from b 0 k) ++ between b k w ≡ between b r w
unfolding between
copy_from-between_wrap b r w n k lower full h = ground (
  arith,
  take_all n (drop r b),
  length-drop r b,
  append_assoc (drop r b) (take k b) (drop k (take w b)),
  take_split k (w - k) w b,
  drop-take k w (w - k) b,
)

length-copy_from : (b : List ℕ) (o n : ℕ) → o + n ≤ length b → length (copy_from b o n) ≡ n
length-copy_from b o n h = omega (arith, length-take n (drop o b), length-drop o b)

-- What goes out and what stays make up what was there.
buffer_copy_out_lem :
    (s : RingData) (n : ℕ)
    → IsRing s
    → 0 < n
    → n ≤ used s
    → ((buffer_copy_out s n).0 ++ contents (buffer_copy_out s n).1 ≡ contents s)
      × (length (buffer_copy_out s n).0 ≡ n)
unfolding buffer_copy_out contents
buffer_copy_out_lem s n v pos h = elim (Bool-cases (ltb r w || leb n tmp)) [
  | inl piece ↦ rw piece (elim (advance_cases r n s.buffer_size (ground arith) v.read_in v.small) [
    | inl e ↦ rw e.0 (
      copy_from-between block r w n (ground arith) (ground arith),
      length-copy_from block r n (ground arith),
    )
    | inr e ↦ rw e.0 (
      copy_from-between_full block r w n (ground arith) (ground arith),
      length-copy_from block r n (ground arith),
    )
  ])
  | inr wraps ↦ rw wraps (
    copy_from-between_wrap block r w tmp (sub32 n tmp) (ground arith) (ground arith) (ground arith),
    ground (
      arith,
      length-append (copy_from block r tmp) (copy_from block 0 (sub32 n tmp)),
      length-copy_from block r tmp,
      length-copy_from block 0 (sub32 n tmp),
    ),
  )
]
  where
    block : List ℕ
    block = memory s.buffer

    r : ℕ
    r = s.read_offset

    w : ℕ
    w = s.write_offset

    tmp : ℕ
    tmp = sub32 s.buffer_size r

-- `USBPcapBufferRead` takes the oldest bytes: what it copies out and what it leaves make up what
-- was there, and it copies as much as there is and as fits.
pub buffer_read_lem :
    (s : RingData) (n : ℕ)
    → IsRing s
    → ((buffer_read s n).0 ++ contents (buffer_read s n).1 ≡ contents s)
      × (length (buffer_read s n).0 ≡ min n (length (contents s)))
unfolding buffer_read
buffer_read_lem s n v = ground (
  arith,
  get_buffer_allocated-used s v,
  length-contents s v,
  buffer_copy_out_lem s n v,
  buffer_copy_out_lem s (used s) v,
)

-- `USBPcapBufferWrite` refuses empty data and data that does not fit, and then changes nothing;
-- otherwise it appends the data.
pub buffer_write_lem :
    (s : RingData) (src : List ℕ)
    → IsRing s
    → (buffer_write s src ≡ (
        if length src == 0
        then (NtStatus.invalid_parameter, s)
        else if ltb (length src + length (contents s)) s.buffer_size
        then (NtStatus.success, buffer_write_unsafe s src)
        else (NtStatus.insufficient_resources, s)))
unfolding buffer_write
buffer_write_lem s src v = ground (arith, get_buffer_free-used s v, length-contents s v)
