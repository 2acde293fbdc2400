-- ===== src/Filter/Mask.antt =====
-- The masks of an address filter (USBPcapCMD/iocontrol.c, USBPcapDriver/USBPcapHelperFunctions.c)
-- as a set of addresses.
use usbpcap_ai.Base.{
  ℕ, zero, suc, ◌/◌, ◌%◌, ◌≤◌, ◌<◌, ◌≡◌, refl, ◌||◌, List, [], ◌∷◌, length, get_or, set, ltb, ◌==◌,
  if◌then◌else◌, set_bit, has_bit-set_bit, has_bit-zero, arith,
}
use usbpcap_ai.Filter.{
  ℤ, pos, negsuc, AddressFilter, zero_filter, get_address_range_and_index, is_device_filtered,
  set_device_filtered,
}

-- There are four masks.
abbrev pub IsFilter : AddressFilter → Type 0
IsFilter f = length f.addresses ≡ 4

length-set : (xs : List ℕ) (i v : ℕ) → length (set xs i v) ≡ length xs
length-set [] i v = refl
length-set (x ∷ xs) zero v = refl
length-set (x ∷ xs) (suc i) v = omega (arith, length-set xs i v)

get_or-set :
    (xs : List ℕ) (i j v : ℕ)
    → i < length xs
    → get_or (set xs i v) j 0 ≡ (if i == j then v else get_or xs j 0)
get_or-set [] i j v h = absurd (omega arith)
get_or-set (x ∷ xs) zero zero v h = refl
get_or-set (x ∷ xs) zero (suc j) v h = ground arith
get_or-set (x ∷ xs) (suc i) zero v h = ground arith
get_or-set (x ∷ xs) (suc i) (suc j) v h = ground (arith, get_or-set xs i j v)

pub set_device_filtered-IsFilter :
    (f : AddressFilter) (address : ℤ) → IsFilter f → IsFilter (set_device_filtered f address).1
unfolding set_device_filtered get_address_range_and_index
set_device_filtered-IsFilter f (negsuc n) v = v
set_device_filtered-IsFilter f (pos a) v =
    ground
      (arith, length-set f.addresses (a / 32) (set_bit (get_or f.addresses (a / 32) 0) (a % 32)))

-- Setting an address succeeds exactly for 0 … 127; then that address is filtered, and every other
-- one is as it was before. An address out of range is refused and changes nothing.
pub set_device_filtered_lem :
    (f : AddressFilter) (a b : ℕ)
    → IsFilter f
    → b ≤ 127
    → let (done, g) = set_device_filtered f (pos a) in
      (done ≡ ltb a 128)
      × (is_device_filtered g (pos b) ≡ (is_device_filtered f (pos b) || (a == b)))
unfolding set_device_filtered get_address_range_and_index is_device_filtered
set_device_filtered_lem f a b v h = ground (
  arith,
  get_or-set f.addresses (a / 32) (b / 32) (set_bit (get_or f.addresses (a / 32) 0) (a % 32)),
  has_bit-set_bit (get_or f.addresses (a / 32) 0) (a % 32) (b % 32),
)

-- A cleared filter filters no valid address, unless it filters all.
pub is_device_filtered-zero :
    (all b : ℕ)
    → b ≤ 127
    → is_device_filtered (record zero_filter { filter_all = all }) (pos b) ≡ (all == 1)
unfolding is_device_filtered get_address_range_and_index
is_device_filtered-zero all b h = ground (arith, has_bit-zero (b % 32), zeros (b / 32))
  where
    zeros : (i : ℕ) → get_or zero_filter.addresses i 0 ≡ 0
    zeros zero = refl
    zeros (suc zero) = refl
    zeros (suc (suc zero)) = refl
    zeros (suc (suc (suc zero))) = refl
    zeros (suc (suc (suc (suc i)))) = refl
