-- ===== src/Filter/Tests.antt =====
-- The theorems on the address filter at concrete lists.
use usbpcap_ai.Base.{ℕ, ◌≡◌, refl, true, none, some, List, [], ◌∷◌, set_bit}
use usbpcap_ai.Filter.{
  AddressFilter, atoi, get_address_range_and_index, init_loop, is_digit, number_from, skip_digits,
  init_address_filter, set_device_filtered, zero_filter,
}
use usbpcap_ai.Filter.Parse.{ReadAs, init_address_filter-ReadAs, numbers}

-- "5,12"
abbrev text : List ℕ
text = b'5' ∷ b',' ∷ b'1' ∷ b'2' ∷ []

numbers-text : numbers none text ≡ some (5 ∷ 12 ∷ [])
unfolding numbers is_digit
numbers-text = refl

init_address_filter-ReadAs_example :
    ReadAs (some (5 ∷ 12 ∷ [])) zero_filter 0 (init_address_filter (some zero_filter) (some text) 0)
unfolding numbers is_digit
init_address_filter-ReadAs_example = init_address_filter-ReadAs zero_filter text 0

abbrev text_filter : AddressFilter
text_filter = record { addresses = 4128 ∷ 0 ∷ 0 ∷ 0 ∷ []; filter_all = 0 }

parsed : init_address_filter (some zero_filter) (some text) 0 ≡ some (true, some text_filter)
unfolding init_address_filter init_loop set_device_filtered get_address_range_and_index atoi
    number_from skip_digits is_digit set_bit
parsed = refl
