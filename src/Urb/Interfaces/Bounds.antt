-- ===== src/Urb/Interfaces/Bounds.antt =====
-- Which memory `USBPcapParseInterfaceInformation` of USBPcapDriver/USBPcapURB.c reads.
use usbpcap_ai.Base.{
  ℕ, zero, suc, ◌+◌, ◌-◌, ◌*◌, ◌≤◌, ◌<◌, ◌≡◌, refl, ap, Bool, true, false, List, [], ◌∷◌, ◌++◌,
  Bool-cases, inl, inr, ◌==◌, ◌||◌, if◌then◌else◌, u32_mod, arith,
}
use native.Mathlib.Nat.{suc-mul}
use usbpcap_ai.Urb.Interfaces.{
  InterfaceInformation, Layout, Memory, is_sane, parse_interface_information, parse_rounds,
  pipe_offsets,
}

-- Each pipe in a list of offsets ends before an offset.
abbrev pub WithinAll : Layout → ℕ → List ℕ → Type 0
WithinAll l end [] = Unit {0}
WithinAll l end (o ∷ os) = (o + l.pipe_size ≤ end) × WithinAll l end os

WithinAll-append :
    (l : Layout) (end : ℕ) (xs ys : List ℕ)
    → WithinAll l end xs
    → WithinAll l end ys
    → WithinAll l end (xs ++ ys)
WithinAll-append l end [] ys v w = w
WithinAll-append l end (x ∷ xs) ys v w = (v.0, WithinAll-append l end xs ys v.1 w)

pipe_offsets-WithinAll :
    (l : Layout) (end count offset : ℕ)
    → offset + count * l.pipe_size ≤ end
    → WithinAll l end (pipe_offsets l count offset)
unfolding pipe_offsets
pipe_offsets-WithinAll l end zero offset h = tt
pipe_offsets-WithinAll l end (suc count) offset h = (
  omega (arith, h, suc-mul count l.pipe_size),
  pipe_offsets-WithinAll l end count (offset + l.pipe_size)
      (omega (arith, h, suc-mul count l.pipe_size)),
)

-- The interface information covers one pipe, and no number of pipes makes the required length
-- wrap.
pub record IsMemory (l : Layout) (m : Memory) : Type 0 where
  pub covers : l.pipes_offset + l.pipe_size ≤ l.interface_size
  pub no_wrap :
      (o : ℕ) → l.interface_size + (m.interface_at o).number_of_pipes * l.pipe_size < u32_mod

-- Where the checks hold, all pipes of an interface fit.
sane-fits :
    (l : Layout) (i : InterfaceInformation) (interfaces_len : ℕ)
    → l.pipes_offset + l.pipe_size ≤ l.interface_size
    → l.interface_size + i.number_of_pipes * l.pipe_size < u32_mod
    → is_sane l i interfaces_len ≡ true
    → (l.pipes_offset + i.number_of_pipes * l.pipe_size ≤ interfaces_len)
      × (i.length ≤ interfaces_len)
unfolding is_sane
sane-fits l i interfaces_len covers small sane = by_count i.number_of_pipes refl
  where
    by_count :
        (n : ℕ)
        → i.number_of_pipes ≡ n
        → (l.pipes_offset + i.number_of_pipes * l.pipe_size ≤ interfaces_len)
          × (i.length ≤ interfaces_len)
    by_count zero e = ground (arith, sane, covers, small, e, ap (λ k. k * l.pipe_size) e)
    by_count (suc n) e = ground (
      arith,
      sane,
      covers,
      small,
      e,
      ap (λ k. k * l.pipe_size) e,
      ap (λ k. (k - 1) * l.pipe_size) e,
      suc-mul n l.pipe_size,
      ap (λ k. k * l.pipe_size) last,
    )
      where
        last : suc n - 1 ≡ n
        last = omega arith

rounds-WithinAll :
    (rounds : ℕ) (l : Layout) (m : Memory) (offset interfaces_len end : ℕ)
    → IsMemory l m
    → offset + interfaces_len ≤ end
    → WithinAll l end (parse_rounds rounds l m offset interfaces_len)
unfolding parse_rounds
rounds-WithinAll zero l m offset interfaces_len end v h = tt
rounds-WithinAll (suc rounds) l m offset interfaces_len end v h =
    elim (Bool-cases (is_sane l (m.interface_at offset) interfaces_len)) [
      | inr insane ↦ rw (insane, parse_rounds) (stop (interfaces_len == 0 || i.length == 0))
      | inl sane ↦
          let (fits, shorter) = sane-fits l i interfaces_len v.covers (v.no_wrap offset) sane in
          rw (sane, parse_rounds)
            (go (interfaces_len == 0 || i.length == 0) _ (
              WithinAll-append l end (pipe_offsets l i.number_of_pipes (offset + l.pipes_offset))
                (parse_rounds rounds l m (offset + i.length) (interfaces_len - i.length))
                (pipe_offsets-WithinAll l end i.number_of_pipes (offset + l.pipes_offset)
                  (omega (arith, h, fits)))
                (rounds-WithinAll rounds l m (offset + i.length) (interfaces_len - i.length) end v
                  (omega (arith, h, shorter)))))
    ]
  where
    i : InterfaceInformation
    i = m.interface_at offset

    stop : (b : Bool) → WithinAll l end (if b then [] else [])
    stop true = tt
    stop false = tt

    go : (b : Bool) (os : List ℕ) → WithinAll l end os → WithinAll l end (if b then [] else os)
    go true os w = tt
    go false os w = w

-- Every pipe information that is read lies within the interface information of the URB, if no
-- number of pipes makes the 32-bit required length wrap.
pub parse-WithinAll :
    (l : Layout) (m : Memory) (interfaces_len : ℕ)
    → IsMemory l m
    → WithinAll l interfaces_len (parse_interface_information l m interfaces_len)
unfolding parse_interface_information
parse-WithinAll l m interfaces_len v =
    rounds-WithinAll interfaces_len l m 0 interfaces_len interfaces_len v (omega arith)

-- Rounds beyond one for each byte change nothing: the loop ends by itself.
parse_rounds-enough :
    (rounds extra : ℕ) (l : Layout) (m : Memory) (offset interfaces_len : ℕ)
    → interfaces_len ≤ rounds
    → interfaces_len ≤ extra
    → parse_rounds rounds l m offset interfaces_len ≡ parse_rounds extra l m offset interfaces_len
unfolding parse_rounds
parse_rounds-enough zero zero l m offset interfaces_len h k = refl
parse_rounds-enough zero (suc extra) l m offset interfaces_len h k = ground arith
parse_rounds-enough (suc rounds) zero l m offset interfaces_len h k = ground arith
parse_rounds-enough (suc rounds) (suc extra) l m offset interfaces_len h k =
    let i = m.interface_at offset in
    ground (
      arith,
      h,
      k,
      parse_rounds-enough rounds extra l m (offset + i.length) (interfaces_len - i.length),
    )

-- The loop ends by itself: with any number of rounds from one per byte on, the pipes that are
-- added are the same.
pub parse_rounds_lem :
    (rounds : ℕ) (l : Layout) (m : Memory) (interfaces_len : ℕ)
    → interfaces_len ≤ rounds
    → parse_rounds rounds l m 0 interfaces_len ≡ parse_interface_information l m interfaces_len
unfolding parse_interface_information
parse_rounds_lem rounds l m interfaces_len h =
    parse_rounds-enough rounds interfaces_len l m 0 interfaces_len h (omega arith)
