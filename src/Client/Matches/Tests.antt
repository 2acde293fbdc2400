-- ===== src/Client/Matches/Tests.antt =====
-- The theorems on the connected devices at two interfaces.
use usbpcap_ai.Base.{◌≡◌, refl, true, none, some, List, [], ◌∷◌}
use usbpcap_ai.Client.Matches.{ConnectedInfo, Interface, auto_select_interface, matching_devices}
use usbpcap_ai.Client.Matches.Choice.{auto_select_interface-only}

abbrev keyboard : ConnectedInfo
keyboard = record { address = 3; vendor = 7511; product = 64096 }

abbrev mouse : ConnectedInfo
mouse = record { address = 5; vendor = 1133; product = 49271 }

abbrev interfaces : List Interface
interfaces =
    record { name = b'1' ∷ []; devices = some (mouse ∷ []) }
    ∷ record { name = b'2' ∷ []; devices = some (mouse ∷ keyboard ∷ []) }
    ∷ []

auto_select_interface-only_example :
    auto_select_interface (some 7511) none interfaces ≡ (true, some (b'2' ∷ [], keyboard ∷ []))
unfolding matching_devices
auto_select_interface-only_example =
    auto_select_interface-only (some 7511) none interfaces
      ((mouse ∷ [], refl), ((mouse ∷ keyboard ∷ [], refl), tt))
