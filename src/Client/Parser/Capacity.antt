-- ===== src/Client/Parser/Capacity.antt =====
-- `ensure_pending_capacity` of USBPcapCMD/thread.c ends, and makes room for what is asked.
use usbpcap_ai.Base.{
  ℕ, zero, suc, ◌+◌, ◌*◌, ◌%◌, ◌≤◌, ◌<◌, ◌≡◌, refl, Bool, true, Bool-cases, some, ltb, leb, ◌==◌,
  add32, u32_mod, arith, inl, inr,
}
use usbpcap_ai.Client.Parser.{grow_capacity, ensure_pending_capacity}

-- 2 GiB
abbrev pub max_pending : ℕ
max_pending = 2147483648

-- The capacity after some doublings.
abbrev doubled : ℕ → ℕ → ℕ
doubled zero capacity = capacity
doubled (suc k) capacity = doubled k (capacity * 2)

grow_capacity_lem :
    (fuel k capacity required : ℕ)
    → k < fuel
    → 1 ≤ capacity
    → required ≤ max_pending
    → required ≤ doubled k capacity
    → (larger : ℕ) × (grow_capacity fuel capacity required ≡ some larger) × (required ≤ larger)
unfolding grow_capacity
grow_capacity_lem zero k capacity required f p m h = absurd (omega arith)
grow_capacity_lem (suc fuel) zero capacity required f p m h =
    (capacity, ground (arith, h), omega (arith, h))
grow_capacity_lem (suc fuel) (suc k) capacity required f p m h =
    let wraps : capacity < required → capacity * 2 % u32_mod ≡ capacity * 2 =
      (λ l. omega (arith, l, m)) in
    elim (Bool-cases (ltb capacity required)) [
      | inr enough ↦ rw (enough, grow_capacity) (capacity, refl, ground (arith, enough))
      | inl less ↦
          rw (less, grow_capacity)
            (grow_capacity_lem fuel k (capacity * 2 % u32_mod) required (omega (arith, f))
              (ground (arith, less, p)) m (rw (wraps (ground (arith, less))) h))
    ]

-- Up to 2 GiB of waiting and new bytes, and with memory at hand, the doubling ends after at most
-- 32 rounds, and the capacity is enough for all of them.
pub ensure_pending_capacity_lem :
    (capacity pending_len additional : ℕ) (room : ℕ → Bool)
    → pending_len + additional ≤ max_pending
    → ((size : ℕ) → room size ≡ true)
    → (larger : ℕ) × (ensure_pending_capacity room capacity pending_len additional
        ≡ some (true, larger))
      × (pending_len + additional ≤ larger)
unfolding ensure_pending_capacity
ensure_pending_capacity_lem capacity pending_len additional room h r =
    elim (Bool-cases (leb (add32 pending_len additional) capacity)) [
      | inl enough ↦ (capacity, ground (arith, enough), ground (arith, enough, h))
      | inr less ↦ elim (Bool-cases (capacity == 0)) [
        | inl new ↦ (
          add32 pending_len additional,
          ground (arith, new, less, r (add32 pending_len additional)),
          omega (arith, h),
        )
        | inr old ↦
            let (larger, grown, enough) =
              grow_capacity_lem 32 31 capacity (add32 pending_len additional) (omega arith)
                (ground (arith, old)) (ground (arith, h)) (ground (arith, h, old)) in
            (larger, ground (arith, old, less, grown, r larger), omega (arith, h, enough))
      ]
    ]
