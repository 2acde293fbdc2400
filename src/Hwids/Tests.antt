-- ===== src/Hwids/Tests.antt =====
-- The theorems on the hardware ids and the upper filters at concrete texts.
use usbpcap_ai.Base.{ℕ, ◌≡◌, refl, true, false, none, some, List, [], ◌∷◌, arith}
use usbpcap_ai.Hwids.{root_hub}
use usbpcap_ai.Hwids.Multi.{
  StringArray, append_text, build_multi_sz, init_string_array, insert_string_array,
}
use usbpcap_ai.Hwids.Upper.{
  found_after, is_usbpcap_upper_filter_installed, is_usbpcap_upper_filter_installed-found_after,
  name,
}

-- An id of a vendor.
abbrev vendor_hub : List ℕ
vendor_hub = b'N' ∷ b'H' ∷ b'C' ∷ []

abbrev array : StringArray
array = record { texts = []; size = 1; places = 1 }

-- The filter USB hides the filter USBPcap behind it.
is_usbpcap_upper_filter_installed-found_after_example :
    is_usbpcap_upper_filter_installed (build_multi_sz ((b'U' ∷ b'S' ∷ b'B' ∷ []) ∷ name ∷ []))
    ≡ false
unfolding found_after
is_usbpcap_upper_filter_installed-found_after_example =
    is_usbpcap_upper_filter_installed-found_after ((b'U' ∷ b'S' ∷ b'B' ∷ []) ∷ name ∷ [])
      (ground arith)

-- After a `realloc` that fails the size is doubled and the block is not: the next text goes beyond it.
abbrev full : StringArray
full = record { texts = vendor_hub ∷ []; size = 1; places = 1 }

abbrev after_failure : StringArray
after_failure = record { texts = vendor_hub ∷ []; size = 2; places = 1 }

insert_fails : insert_string_array false full root_hub ≡ some after_failure
unfolding insert_string_array append_text
insert_fails = refl

insert_beyond : insert_string_array true after_failure root_hub ≡ none
unfolding insert_string_array append_text
insert_beyond = refl

init_two : (init_string_array true 2).places ≡ 2
unfolding init_string_array
init_two = refl
