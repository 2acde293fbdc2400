-- ===== src/Filter.antt =====
-- The address filter: USBPcapDriver/USBPcapHelperFunctions.c (`USBPcapIsDeviceFiltered`,
-- `USBPcapSetDeviceFiltered`) and USBPcapCMD/iocontrol.c, which has the same two functions and
-- reads a filter from a comma-separated list.
pub mod Mask
pub mod Parse
mod Tests
use usbpcap_ai.Base.{
  ℕ, zero, suc, ◌+◌, ◌-◌, ◌*◌, ◌/◌, ◌%◌, min, Bool, true, false, ◌&&◌, Option, none, some, List, [],
  ◌∷◌, length, get_or, set, ltb, leb, ◌==◌, if◌then◌else◌, has_bit, set_bit,
}

-- A C `int`: `negsuc n` is -(n + 1).
pub data ℤ : Type 0 where
  pos : ℕ → ℤ
  negsuc : ℕ → ℤ

-- `USBPCAP_ADDRESS_FILTER`: four 32-bit masks, and a BOOLEAN that a caller may set to any byte.
pub record AddressFilter : Type 0 where
  pub addresses : List ℕ
  pub filter_all : ℕ

-- What `memset(…, 0, …)` leaves.
abbrev pub zero_filter : AddressFilter
zero_filter = record { addresses = 0 ∷ 0 ∷ 0 ∷ 0 ∷ []; filter_all = 0 }

-- `USBPcapGetAddressRangeAndIndex`: `range` and `index`, if the address is in 0 … 127.
unfoldable pub get_address_range_and_index : ℤ → Option (ℕ × ℕ)
get_address_range_and_index (negsuc n) = none
get_address_range_and_index (pos a) = if ltb 127 a then none else some (a / 32, a % 32)

-- `USBPcapIsDeviceFiltered`
unfoldable pub is_device_filtered : AddressFilter → ℤ → Bool
is_device_filtered f address =
    if f.filter_all == 1 then true else elim (get_address_range_and_index address) [
      | none ↦ true
      | some (range, index) ↦ has_bit (get_or f.addresses range 0) index
    ]

-- `USBPcapSetDeviceFiltered`: whether it succeeds, and the filter after.
pub set_device_filtered : AddressFilter → ℤ → Bool × AddressFilter
set_device_filtered f address = elim (get_address_range_and_index address) [
  | none ↦ (false, f)
  | some (range, index) ↦ (
    true,
    record f { addresses = set f.addresses range (set_bit (get_or f.addresses range 0) index) },
  )
]

-- `isdigit`, and the value of the digits in front of a text, after a number read so far.
pub is_digit : ℕ → Bool
is_digit c = leb b'0' c && leb c b'9'

pub number_from : ℕ → List ℕ → ℕ
number_from n [] = n
number_from n (c ∷ cs) = if is_digit c then number_from (n * 10 + (c - b'0')) cs else n

-- `atoi` at a digit: the number, or INT_MAX where it does not fit.
pub atoi : List ℕ → ℤ
atoi text = pos (min (number_from 0 text) 2147483647)

pub skip_digits : List ℕ → List ℕ
skip_digits [] = []
skip_digits (c ∷ cs) = if is_digit c then skip_digits cs else c ∷ cs

-- The loop of `USBPcapInitAddressFilter` over the list, up to its terminating zero; the inner
-- `none` is the return of FALSE, the outer one is the end of the fuel.
pub init_loop : ℕ → AddressFilter → List ℕ → Option (Option AddressFilter)
init_loop zero tmp text = none
init_loop (suc fuel) tmp [] = some (some tmp)
init_loop (suc fuel) tmp (c ∷ cs) =
    let (done, tmp') = set_device_filtered tmp (atoi (c ∷ cs)) in
    let next_number = init_loop fuel tmp' (skip_digits cs) in
    let next = init_loop fuel tmp cs in
    let number = if done then next_number else some none in
    let other = if c == b',' then next else some none in if is_digit c then number else other

-- `USBPcapInitAddressFilter`: the pointers `filter` and `list` may be NULL. The result is what it
-- returns and what is at `filter` after; `none` is the end of the fuel.
pub init_address_filter :
    Option AddressFilter → Option (List ℕ) → ℕ → Option (Bool × Option AddressFilter)
init_address_filter none list filter_all = some (false, none)
init_address_filter (some f) none filter_all =
    some (true, some (record zero_filter { filter_all = filter_all }))
init_address_filter (some f) (some text) filter_all =
    elim (init_loop (suc (length text)) (record zero_filter { filter_all = filter_all }) text) [
      | none ↦ none
      | some none ↦ some (false, some f)
      | some (some tmp) ↦ some (true, some tmp)
    ]
