-- ===== src/Client/Matches.antt =====
-- USBPcapCMD/cmd.c: what is kept of the connected devices (`populate_device_metadata`), which of them
-- match the ids that are asked for (`resolve_filter_matches`, without the text of the addresses), and
-- the choice of the interface (`auto_select_interface`). What `enumerate_get_connected_devices` finds
-- is given.

pub mod Choice
mod Tests
use usbpcap_ai.Base.{
  ℕ, zero, suc, ◌+◌, Bool, true, false, not, ◌&&◌, Option, none, some, List, [], ◌∷◌, set, ltb,
  ◌==◌, if◌then◌else◌,
}
use usbpcap_ai.Client.Parser.{DeviceMetadata, no_metadata}

-- `USBPCAP_CONNECTED_DEVICE_INFO`
pub record ConnectedInfo : Type 0 where
  pub address : ℕ
  pub vendor : ℕ
  pub product : ℕ

abbrev pub metadata_of : ConnectedInfo → DeviceMetadata
metadata_of d = record { present = true; vendor = d.vendor; product = d.product }

-- The loop of `populate_device_metadata`.
unfoldable pub keep_metadata : List DeviceMetadata → List ConnectedInfo → List DeviceMetadata
keep_metadata kept [] = kept
keep_metadata kept (d ∷ ds) =
    keep_metadata (if ltb d.address 128 then set kept d.address (metadata_of d) else kept) ds

abbrev pub cleared : ℕ → List DeviceMetadata
cleared zero = []
cleared (suc n) = no_metadata ∷ cleared n

-- `populate_device_metadata`, at pointers that are not NULL: whether it succeeds, and the metadata
-- after. The devices are `none` where they cannot be enumerated.
unfoldable pub populate_device_metadata : Option (List ConnectedInfo) → Bool × List DeviceMetadata
populate_device_metadata none = (false, cleared 128)
populate_device_metadata (some devices) = (true, keep_metadata (cleared 128) devices)

-- An id that is asked for, or none, and the id of a device.
abbrev pub differs : Option ℕ → ℕ → Bool
differs none id = false
differs (some asked) id = not (asked == id)

-- The loop of `resolve_filter_matches`, which keeps the devices with the ids.
unfoldable pub matching_devices : Option ℕ → Option ℕ → List ConnectedInfo → List ConnectedInfo
matching_devices vendor product [] = []
matching_devices vendor product (d ∷ ds) =
    let rest = matching_devices vendor product ds in
    if differs vendor d.vendor then rest else if differs product d.product then rest else d ∷ rest

-- An interface: its name, and the devices of it, or `none` where they cannot be enumerated or there
-- is no memory.
pub record Interface : Type 0 where
  pub name : List ℕ
  pub devices : Option (List ConnectedInfo)

-- `*selected_device` and `*matches`, once they are set.
abbrev pub Selected : Type 0
Selected = Option (List ℕ × List ConnectedInfo)

abbrev pub matches_of :
    Option ℕ → Option ℕ → Option (List ConnectedInfo) → Option (List ConnectedInfo)
matches_of vendor product none = none
matches_of vendor product (some devices) = some (matching_devices vendor product devices)

-- One round of the loop of `auto_select_interface`, from what the loop does next without a match and
-- with the first match.
abbrev pub select_round :
    ℕ
    → Selected
    → Option (List ConnectedInfo)
    → Bool × Selected
    → (List ConnectedInfo → Bool × Selected)
    → Bool × Selected
select_round found selected none next first = (false, selected)
select_round found selected (some []) next first = next
select_round found selected (some (d ∷ ds)) next first =
    let chosen = first (d ∷ ds) in if suc found == 1 then chosen else (false, selected)

-- The loop of `auto_select_interface`, with `foundFilters`.
unfoldable pub select_loop : Option ℕ → Option ℕ → ℕ → Selected → List Interface → Bool × Selected
select_loop vendor product found selected [] = (found == 1, selected)
select_loop vendor product found selected (i ∷ is) =
    select_round found selected (matches_of vendor product i.devices)
      (select_loop vendor product found selected is)
      (λ matches. select_loop vendor product (suc found) (some (i.name, matches)) is)

-- `auto_select_interface`, at pointers that are not NULL: whether it succeeds, and `*selected_device`
-- and `*matches`.
unfoldable pub auto_select_interface : Option ℕ → Option ℕ → List Interface → Bool × Selected
auto_select_interface vendor product interfaces = select_loop vendor product 0 none interfaces
