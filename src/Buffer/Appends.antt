-- ===== src/Buffer/Appends.antt =====
-- Sequences of writes to the circular buffer of USBPcapDriver/USBPcapBuffer.c.
use usbpcap_ai.Base.{
  ℕ, ◌+◌, ◌<◌, ◌≡◌, refl, sym, ◌∙◌, ap, List, [], ◌++◌, append-nil, append_assoc, length,
  length-append, arith,
}
use usbpcap_ai.Buffer.{RingData, buffer_write_unsafe}
use usbpcap_ai.Buffer.Inv.{IsRing, used, buffer_write_unsafe-IsRing}
use usbpcap_ai.Buffer.Fifo.{contents, length-contents, buffer_write_unsafe_lem}

-- `t` is a valid buffer that holds what `s` held and `bytes` behind it; nothing else has changed.
pub record Appends (s : RingData) (bytes : List ℕ) (t : RingData) : Type 0 where
  pub ring : IsRing t
  pub appended : contents t ≡ contents s ++ bytes
  pub same_size : t.buffer_size ≡ s.buffer_size
  pub same_read : t.read_offset ≡ s.read_offset
  pub same_snaplen : t.snaplen ≡ s.snaplen

pub Appends-nothing : {s : RingData} → IsRing s → Appends s [] s
Appends-nothing {s} v = record {
  ring = v;
  appended = sym (append-nil (contents s));
  same_size = refl;
  same_read = refl;
  same_snaplen = refl;
}

pub Appends-write :
    (s : RingData) (src : List ℕ)
    → IsRing s
    → length src + used s < s.buffer_size
    → Appends s src (buffer_write_unsafe s src)
unfolding buffer_write_unsafe
Appends-write s src v h = record {
  ring = buffer_write_unsafe-IsRing s src v h;
  appended = buffer_write_unsafe_lem s src v h;
  same_size = ground arith;
  same_read = ground arith;
  same_snaplen = ground arith;
}

pub Appends-trans :
    {s t u : RingData} (xs ys : List ℕ) → Appends s xs t → Appends t ys u → Appends s (xs ++ ys) u
Appends-trans {s} {t} {u} xs ys p q = record {
  ring = q.ring;
  appended = q.appended ∙ ap (λ c. c ++ ys) p.appended ∙ append_assoc (contents s) xs ys;
  same_size = q.same_size ∙ p.same_size;
  same_read = q.same_read ∙ p.same_read;
  same_snaplen = q.same_snaplen ∙ p.same_snaplen;
}

-- The bytes in use grow by what was appended.
pub Appends-used :
    {s t : RingData} (xs : List ℕ) → IsRing s → Appends s xs t → used t ≡ used s + length xs
Appends-used {s} {t} xs v p = omega (
  arith,
  length-contents s v,
  length-contents t p.ring,
  ap length p.appended,
  length-append (contents s) xs,
)
