-- ===== src/Hwids/Found.antt =====
-- Every root hub that USBPcapCMD/roothubs.c saw is one for USBPcapDriver/USBPcapHelperFunctions.c.
use usbpcap_ai.Base.{
  ℕ, ◌*◌, ◌≡◌, ◌≤◌, ◌<◌, ap, true, false, Option, none, some, List, [], ◌∷◌, length, ltb, arith,
}
use usbpcap_ai.Buffer.{NtStatus}
use usbpcap_ai.Hwids.{has_root_hub_id, is_device_root_hub}
use usbpcap_ai.Hwids.Multi.{StringArray, build_multi_sz, is_known}
use usbpcap_ai.Hwids.Upper.{AllZeroFree}
use usbpcap_ai.Hwids.Known.{AllNonEmpty, split_ids-build_multi_sz, values_of}

-- A list that has the places it counts on, and one at least.
abbrev pub IsArray : StringArray → Type 0
IsArray a = (a.places ≡ a.size) × (length a.texts ≤ a.size) × (0 < a.size)

-- A later list knows what a list knows.
abbrev Grows : StringArray → StringArray → Type 0
Grows a b = (hwid : List ℕ) → is_known a.texts hwid ≡ true → is_known b.texts hwid ≡ true

-- The ids that the system keeps of a root hub: 1 to 64, none of them empty, in at most 1024 bytes of
-- two for each character.
abbrev pub IsIds : List (List ℕ) → Type 0
IsIds ts =
    AllZeroFree ts
    × AllNonEmpty ts
    × (length ts ≤ 64)
    × (0 < length ts)
    × (2 * length (build_multi_sz ts) ≤ 1024)

abbrev pub AllIds : List (Option (List (List ℕ))) → Type 0
AllIds [] = Unit {0}
AllIds (none ∷ hubs) = AllIds hubs
AllIds (some ts ∷ hubs) = IsIds ts × AllIds hubs

-- The driver takes the device with these ids for a root hub, with a list in the registry.
abbrev pub IsTaken : List (List ℕ) → List (List ℕ) → Type 0
IsTaken known ts =
    is_device_root_hub true NtStatus.success NtStatus.success (build_multi_sz ts)
      (some (values_of known))
    ≡ some true

abbrev pub AllTaken : List (List ℕ) → List (Option (List (List ℕ))) → Type 0
AllTaken known [] = Unit {0}
AllTaken known (none ∷ hubs) = AllTaken known hubs
AllTaken known (some ts ∷ hubs) = IsTaken known ts × AllTaken known hubs

taken :
    (known : List (List ℕ)) (ts : List (List ℕ))
    → IsIds ts
    → has_root_hub_id (some (values_of known)) ts ≡ true
    → IsTaken known ts
unfolding is_device_root_hub
taken known ts (zero_free, non_empty, few, any, short) found =
    let fits : ltb 1024 (2 * length (build_multi_sz ts)) ≡ false = ground (arith, short) in
    rw (fits, split_ids-build_multi_sz 0 ts zero_free non_empty (omega arith), is_device_root_hub)
      (ap (λ b. some b) found)
