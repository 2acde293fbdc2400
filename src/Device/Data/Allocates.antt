-- ===== src/Device/Data/Allocates.antt =====
-- What an allocation of device data does to the reference counts, in
-- USBPcapDriver/USBPcapFilterManager.c.
use usbpcap_ai.Base.{
  ℕ, ◌+◌, ◌≡◌, ◌<◌, refl, true, false, Option, none, some, Bool-cases, Option-cases, inl, inr,
  arith,
}
use usbpcap_ai.Buffer.{NtStatus, nt_success}
use usbpcap_ai.Device.{DeviceExtension, RootHubData, System, put, root_of}
use usbpcap_ai.Device.Data.{
  Allocation, allocate_device_data, child_data, end_allocation, free_device_data, new_root_hub_data,
  take_root, drop_reference, with_data, with_roots,
}
use usbpcap_ai.Device.Data.Counts.{
  CountedBy, CountedBy-≡, add_reference-CountedBy, one_if, put-CountedBy,
}

-- The allocation does not fault. With success the new extension has data with root hub data, and
-- counts; otherwise it has no data and nothing has changed.
abbrev pub Allocates :
    System → DeviceExtension → (ℕ → ℕ) → Option (NtStatus × System × DeviceExtension) → Type 0
Allocates s x n o =
    (status : NtStatus) × (f : ℕ → Option RootHubData) × (d : Option _) × (o
      ≡ some (status, with_roots s f, with_data x d))
    × CountedBy f (λ b. one_if (root_of d) b + n b)
    × (nt_success status ≡ true → (r : ℕ) × (root_of d ≡ some r))
    × (nt_success status ≡ false → (d ≡ none) × (f ≡ s.roots))

pub allocate_child :
    (m : Allocation) (s : System) (n : ℕ → ℕ) (x parent : DeviceExtension) (r : ℕ)
    → CountedBy s.roots n
    → root_of parent.data_of_usb ≡ some r
    → 0 < n r
    → n r < 4294967295
    → Allocates s x n (allocate_device_data m s x (some parent))
unfolding allocate_device_data take_root end_allocation
allocate_child m s n x parent r h e p q = elim (Bool-cases m.room) [
  | inr full ↦ (
    NtStatus.insufficient_resources,
    s.roots,
    none,
    rw (full, allocate_device_data) refl,
    CountedBy-≡ s.roots n _ h (λ a. omega arith),
    λ ok. ground arith,
    λ failed. (refl, refl),
  )
  | inl room ↦
      let (f, run, counted) = add_reference-CountedBy s n r h p q in
      (
        NtStatus.success,
        f,
        some (child_data m (some parent) r),
        rw (room, e, run, allocate_device_data, take_root, end_allocation) refl,
        counted,
        λ ok. (r, refl),
        λ failed. ground arith,
      )
]

pub allocate_root :
    (m : Allocation) (s : System) (n : ℕ → ℕ) (x : DeviceExtension)
    → CountedBy s.roots n
    → ((r : ℕ) → m.root_block ≡ some r → n r ≡ 0)
    → Allocates s x n (allocate_device_data m s x none)
unfolding allocate_device_data take_root end_allocation free_device_data drop_reference
allocate_root m s n x h unused = elim (Bool-cases m.room) [
  | inr full ↦ (
    NtStatus.insufficient_resources,
    s.roots,
    none,
    rw (full, allocate_device_data) refl,
    CountedBy-≡ s.roots n _ h (λ a. omega arith),
    λ ok. ground arith,
    λ failed. (refl, refl),
  )
  | inl room ↦ elim (Option-cases m.root_block) [
    | inl no_block ↦ (
      NtStatus.insufficient_resources,
      s.roots,
      none,
      rw
          (
            room, no_block, allocate_device_data, take_root, end_allocation, free_device_data,
            drop_reference,
          )
          refl,
      CountedBy-≡ s.roots n _ h (λ a. omega arith),
      λ ok. ground arith,
      λ failed. (refl, refl),
    )
    | inr (r, e) ↦
        let one : one_if (some r) r ≡ 1 = ground arith in
        let no_other = unused r e in
        (
          NtStatus.success,
          put s.roots r (some new_root_hub_data),
          some (child_data m none r),
          rw (room, e, allocate_device_data, take_root, end_allocation) refl,
          put-CountedBy s.roots n (λ b. one_if (some r) b + n b) r (some new_root_hub_data) h
              (rw (one, no_other) (omega arith, omega arith, omega arith))
              (λ a other. rw other (omega arith)),
          λ ok. (r, refl),
          λ failed. ground arith,
        )
  ]
]
