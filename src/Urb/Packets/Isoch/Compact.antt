-- ===== src/Urb/Packets/Isoch/Compact.antt =====
-- The compacted data of isochronous transfers (USBPcapDriver/USBPcapURB.c).
use usbpcap_ai.Base.{
  ℕ, ◌+◌, ◌*◌, ◌≤◌, ◌<◌, ◌≡◌, refl, sym, ◌∙◌, ap, List, [], ◌∷◌, ◌++◌, some, inl, inr, length, take,
  drop, add32, u32_mod, length-take, length-drop, length-append, append_assoc, arith, ap₂,
  drop-append_ge, take-append_le, take_all,
}
use usbpcap_ai.Buffer.Packet.Store.{IsPayload, payload_bytes}
use usbpcap_ai.Buffer.{memory}
use usbpcap_ai.Urb.{IsoPacket, IsochTransfer, get_buffer_pointer}
use usbpcap_ai.Urb.Packets.Complete.{IsTransfer}
use usbpcap_ai.Urb.Packets.Isoch.{
  compacted_entries, compacted_length, compacted_packets, isoch_header_len, packet_table,
}

-- The sum of the lengths, without wrapping.
abbrev pub total : List IsoPacket → ℕ
total [] = 0
total (p ∷ ps) = p.length + total ps

-- What a packet's offset and length name in a block of memory.
abbrev pub slice : List ℕ → IsoPacket → List ℕ
slice bytes p = take p.length (drop p.offset bytes)

abbrev pub slices : List ℕ → List IsoPacket → List (List ℕ)
slices bytes [] = []
slices bytes (p ∷ ps) = slice bytes p ∷ slices bytes ps

abbrev pub concatenated : List (List ℕ) → List ℕ
concatenated [] = []
concatenated (b ∷ bs) = b ++ concatenated bs

-- Each packet lies in a block of `n` bytes.
abbrev pub AreInside : ℕ → List IsoPacket → Type 0
AreInside n [] = Unit {0}
AreInside n (p ∷ ps) = (p.offset + p.length ≤ n) × AreInside n ps

-- The sum that the source computes is the sum, if that fits 32 bits.
pub compacted_length-total :
    (sum : ℕ) (ps : List IsoPacket)
    → sum + total ps < u32_mod
    → compacted_length sum ps ≡ sum + total ps
compacted_length-total sum [] h = omega arith
compacted_length-total sum (p ∷ ps) h =
    ground (arith, h, compacted_length-total (add32 sum p.length) ps (omega (arith, h)))

-- The entries hold the packets' data one behind the other.
pub compacted_entries-bytes :
    (bytes : List ℕ) (ps : List IsoPacket)
    → payload_bytes (compacted_entries (some bytes) ps) ≡ concatenated (slices bytes ps)
unfolding payload_bytes
compacted_entries-bytes bytes [] = refl
compacted_entries-bytes bytes (p ∷ ps) =
    ap (λ t. slice bytes p ++ t) (compacted_entries-bytes bytes ps)

pub compacted_entries-IsPayload :
    (bytes : List ℕ) (ps : List IsoPacket)
    → AreInside (length bytes) ps
    → IsPayload (compacted_entries (some bytes) ps)
compacted_entries-IsPayload bytes [] v = (inl refl, tt)
compacted_entries-IsPayload bytes (p ∷ ps) v =
    (inr (omega (arith, v.0, length-drop p.offset bytes)), compacted_entries-IsPayload bytes ps v.1)

pub length-concatenated :
    (bytes : List ℕ) (ps : List IsoPacket)
    → AreInside (length bytes) ps
    → length (concatenated (slices bytes ps)) ≡ total ps
length-concatenated bytes [] v = refl
length-concatenated bytes (p ∷ ps) v = ground (
  arith,
  v.0,
  length-drop p.offset bytes,
  length-take p.length (drop p.offset bytes),
  length-append (slice bytes p) (concatenated (slices bytes ps)),
  length-concatenated bytes ps v.1,
)

-- Behind `front`, the compacted descriptors name the same data in the concatenation.
pub compacted-slices :
    (bytes front : List ℕ) (ps : List IsoPacket)
    → AreInside (length bytes) ps
    → length front + total ps < u32_mod
    → slices (front ++ concatenated (slices bytes ps)) (compacted_packets (length front) ps)
      ≡ slices bytes ps
compacted-slices bytes front [] v h = refl
compacted-slices bytes front (p ∷ ps) v h =
    let block = slice bytes p in
    let rest = concatenated (slices bytes ps) in
    let size : length block ≡ p.length =
      omega (arith, v.0, length-take p.length (drop p.offset bytes), length-drop p.offset bytes) in
    let next : add32 (length front) p.length ≡ length (front ++ block) =
      ground (arith, h, size, length-append front block) in
    ap₂ (λ x xs. x ∷ xs)
      (ap (λ t. take p.length t)
          (drop-append_ge (length front) 0 front (block ++ rest) (omega arith))
        ∙ take-append_le p.length block rest (omega (arith, size))
        ∙ take_all p.length block (omega (arith, size)))
      (ap₂ (λ s o. slices s (compacted_packets o ps)) (sym (append_assoc front block rest)) next
        ∙ compacted-slices bytes (front ++ block) ps v.1
            (omega (arith, h, size, length-append front block)))

pub length-packet_table : (ps : List IsoPacket) → length (packet_table ps) ≡ 12 * length ps
length-packet_table [] = refl
length-packet_table (p ∷ ps) = omega (arith, length-packet_table ps)

pub length-compacted_packets :
    (o : ℕ) (ps : List IsoPacket) → length (compacted_packets o ps) ≡ length ps
length-compacted_packets o [] = refl
length-compacted_packets o (p ∷ ps) = omega (arith, length-compacted_packets (add32 o p.length) ps)

pub isoch_header_len-plain : (n : ℕ) → n ≤ 1024 → isoch_header_len n ≡ 39 + 12 * n
isoch_header_len-plain n h = omega (arith, h)

-- An isochronous transfer whose memory is there and whose packets lie in the memory, which may be
-- larger than the bytes received; the lengths do not wrap in 32 bits.
pub record IsIsoch (t : IsochTransfer) : Type 0 where
  pub valid : IsTransfer t.transfer
  pub inside : AreInside (length (memory (get_buffer_pointer t.transfer))) t.packets
  pub no_wrap : total t.packets < u32_mod
