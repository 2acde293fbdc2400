-- ===== src/Device/Data/Counts.antt =====
-- The reference count of the root hub data in USBPcapDriver/USBPcapFilterManager.c.
use mathlib.Core.Path.{subst}
use usbpcap_ai.Base.{
  ap, ℕ, zero, suc, ◌+◌, ◌≡◌, ◌<◌, refl, false, Option, none, some, List, [], ◌∷◌, ◌++◌, ◌==◌,
  if◌then◌else◌, Bool-cases, Option-cases, inl, inr, arith,
}
use usbpcap_ai.Device.{
  DeviceExtension, RootHubData, System, interlocked_decrement, interlocked_increment, put, root_of,
}
use usbpcap_ai.Device.Data.{
  add_reference, one_less, one_more, drop_reference, free_device_data, with_data, with_roots,
}

-- One, if the pointer is to the address.
abbrev pub one_if : Option ℕ → ℕ → ℕ
one_if none a = 0
one_if (some b) a = if a == b then 1 else 0

-- The devices of a list whose data point to the root hub data at an address.
abbrev pub references : List DeviceExtension → ℕ → ℕ
references [] a = 0
references (x ∷ xs) a = one_if (root_of x.data_of_usb) a + references xs a

abbrev pub CountAt : Option RootHubData → ℕ → Type 0
CountAt none n = n ≡ 0
CountAt (some d) n = (d.ref_count ≡ n) × (0 < n) × (n < 4294967296)

-- Root hub data are there exactly where the count `n` is not zero, and hold it.
abbrev pub CountedBy : (ℕ → Option RootHubData) → (ℕ → ℕ) → Type 0
CountedBy f n = (a : ℕ) → CountAt (f a) (n a)

-- Root hub data are there exactly as long as a device points to them, and count those devices.
abbrev pub Counted : System → List DeviceExtension → Type 0
Counted s xs = CountedBy s.roots (references xs)

pub references-append :
    (xs ys : List DeviceExtension) (a : ℕ)
    → references (xs ++ ys) a ≡ references xs a + references ys a
references-append [] ys a = omega arith
references-append (x ∷ xs) ys a = omega (arith, references-append xs ys a)

pub CountedBy-≡ :
    (f : ℕ → Option RootHubData) (m n : ℕ → ℕ)
    → CountedBy f m
    → ((a : ℕ) → m a ≡ n a)
    → CountedBy f n
CountedBy-≡ f m n h e a = subst (λ k. CountAt (f a) k) (e a) (h a)

-- Reading the count of an address where some device points to it.
pub counted_some :
    (o : Option RootHubData) (n : ℕ)
    → CountAt o n
    → 0 < n
    → (d : RootHubData) × (o ≡ some d) × (d.ref_count ≡ n) × (n < 4294967296)
counted_some none n h p = ground arith
counted_some (some d) n h p = (d, refl, h.0, h.2)

-- The count after a reference is dropped: the data are freed with the last one.
one_less-CountAt :
    (d : RootHubData) (n : ℕ) → d.ref_count ≡ suc n → suc n < 4294967296 → CountAt (one_less d) n
one_less-CountAt d zero e p = rw e refl
one_less-CountAt d (suc n) e p =
    let count : interlocked_decrement d.ref_count ≡ suc n = ground arith in
    let left : (suc n == 0) ≡ false = ground arith in
    rw (count, left) (refl, omega arith, omega arith)

-- Root hub data that change at one address change the count there.
pub put-CountedBy :
    (f : ℕ → Option RootHubData) (m n : ℕ → ℕ) (r : ℕ) (o : Option RootHubData)
    → CountedBy f m
    → CountAt o (n r)
    → ((a : ℕ) → (a == r) ≡ false → m a ≡ n a)
    → CountedBy (put f r o) n
put-CountedBy f m n r o h here same a = elim (Bool-cases (a == r)) [
  | inl e ↦ let at : a ≡ r = ground arith in rw (e, at) here
  | inr e ↦ rw e (subst (λ k. CountAt (f a) k) (same a e) (h a))
]

pub drop_reference-CountedBy :
    (s : System) (n : ℕ → ℕ) (r : Option ℕ)
    → CountedBy s.roots (λ b. one_if r b + n b)
    → (f : ℕ → Option RootHubData) × (drop_reference s r ≡ some (with_roots s f)) × CountedBy f n
unfolding drop_reference
drop_reference-CountedBy s n none h = (s.roots, refl, CountedBy-≡ s.roots _ n h (λ a. omega arith))
drop_reference-CountedBy s n (some r) h =
    let at_root = CountedBy-≡ s.roots _ (λ a. one_if (some r) a + n a) h (λ a. refl) in
    let one : one_if (some r) r ≡ 1 = ground arith in
    let (d, e, count, small) =
      counted_some (s.roots r) (one_if (some r) r + n r) (h r) (omega arith) in
    (
      put s.roots r (one_less d),
      rw (e, drop_reference) refl,
      put-CountedBy s.roots (λ b. one_if (some r) b + n b) n r (one_less d) h
          (one_less-CountAt d (n r) (omega arith) (omega arith))
          (λ a other. rw other (omega arith)),
    )

pub add_reference-CountedBy :
    (s : System) (n : ℕ → ℕ) (r : ℕ)
    → CountedBy s.roots n
    → 0 < n r
    → n r < 4294967295
    → (f : ℕ → Option RootHubData) × (add_reference s (some r) ≡ some (some r, with_roots s f))
      × CountedBy f (λ b. one_if (some r) b + n b)
unfolding add_reference
add_reference-CountedBy s n r h p q =
    let (d, e, count, small) = counted_some (s.roots r) (n r) (h r) p in
    let more : interlocked_increment d.ref_count ≡ suc (n r) = ground arith in
    let one : one_if (some r) r ≡ 1 = ground arith in
    (
      put s.roots r (some (one_more d)),
      rw (e, add_reference) refl,
      put-CountedBy s.roots n (λ b. one_if (some r) b + n b) r (some (one_more d)) h
          (rw (more, one) (omega arith, omega arith, omega arith))
          (λ a other. rw other (omega arith)),
    )

-- The data of a device that counts are freed without a fault, and the other devices still count.
pub free_device_data-CountedBy :
    (s : System) (n : ℕ → ℕ) (x : DeviceExtension)
    → CountedBy s.roots (λ b. one_if (root_of x.data_of_usb) b + n b)
    → (f : ℕ → Option RootHubData) × (free_device_data s x
        ≡ some (with_roots s f, with_data x none))
      × CountedBy f n
unfolding free_device_data
free_device_data-CountedBy s n x h = elim (Option-cases x.data_of_usb) [
  | inl e ↦ (
    s.roots,
    rw (e, free_device_data) (ap (λ o. some (s, with_data x o)) e),
    CountedBy-≡ s.roots _ n h (λ a. rw e (omega arith)),
  )
  | inr (d, e) ↦
      let same : root_of x.data_of_usb ≡ d.root_data = rw e refl in
      let counted = subst (λ r. CountedBy s.roots (λ b. one_if r b + n b)) same h in
      let (f, run, left) = drop_reference-CountedBy s n d.root_data counted in
      (f, rw (e, run, free_device_data) refl, left)
]
