-- ===== src/Hwids.antt =====
-- The hardware ids of root hubs and the list of filter drivers, as texts in a row (REG_MULTI_SZ):
-- USBPcapDriver/USBPcapHelperFunctions.c (`USBPcapIsDeviceRootHub`), USBPcapCMD/roothubs.c (the list of
-- ids that are not standard) and USBPcapCMD/filters.c (`is_usbpcap_upper_filter_installed`, in
-- `Upper`). A text is the list of its characters without the terminating zero.
pub mod Upper
pub mod Multi
pub mod Known
pub mod Found
mod Tests
use usbpcap_ai.Base.{
  ℕ, suc, ◌+◌, ◌*◌, Bool, true, false, not, ltb, ◌&&◌, ◌||◌, Option, none, some, List, [], ◌∷◌,
  ◌++◌, length, ◌==◌, if◌then◌else◌,
}
use usbpcap_ai.Buffer.{NtStatus, nt_success}

-- `wcscmp` and `_tcscmp`, where they give 0.
unfoldable pub same : List ℕ → List ℕ → Bool
same [] [] = true
same [] (d ∷ ds) = false
same (c ∷ cs) [] = false
same (c ∷ cs) (d ∷ ds) = if c == d then same cs ds else false

abbrev pub root_hub : List ℕ
root_hub = b'U' ∷ b'S' ∷ b'B' ∷ 92 ∷ b'R' ∷ b'O' ∷ b'O' ∷ b'T' ∷ b'_' ∷ b'H' ∷ b'U' ∷ b'B' ∷ []

-- `USB\ROOT_HUB`, `USB\ROOT_HUB20` and `USB\ROOT_HUB30`: `is_standard_hwid`, and the first three tests
-- of `USBPcapIsDeviceRootHub`.
unfoldable pub is_standard_hwid : List ℕ → Bool
is_standard_hwid hwid =
    if same root_hub hwid
    then true
    else if same (root_hub ++ b'2' ∷ b'0' ∷ []) hwid
    then true
    else same (root_hub ++ b'3' ∷ b'0' ∷ []) hwid

-- A value that `RtlQueryRegistryValues` hands to its routine: whether it is a REG_SZ, and its text.
pub record RegistryValue : Type 0 where
  pub is_sz : Bool
  pub text : List ℕ

-- `ValueLength`, in bytes with the terminating zero.
abbrev pub value_length : RegistryValue → ℕ
value_length v = 2 * (length v.text + 1)

-- `QueryCompareHwid`: `*match` after a value.
unfoldable pub query_compare_hwid : List ℕ → Bool → RegistryValue → Bool
query_compare_hwid hwid found v =
    if found
    then true
    else if value_length v == 2
    then false
    else if v.is_sz
    then same v.text hwid
    else false

unfoldable pub query_all : List ℕ → Bool → List RegistryValue → Bool
query_all hwid found [] = found
query_all hwid found (v ∷ vs) = query_all hwid (query_compare_hwid hwid found v) vs

-- `IsHwidNonStandardRootHub`; the values are `none` where the registry cannot be queried.
unfoldable pub is_hwid_non_standard_root_hub : Option (List RegistryValue) → List ℕ → Bool
is_hwid_non_standard_root_hub none hwid = false
is_hwid_non_standard_root_hub (some values) hwid = query_all hwid false values

-- The loop over the hardware ids, with `id`, the characters from `start` on and those that are left;
-- `none` is a write beyond `hardwareIds`, which has MAX_HARDWARE_IDS places.
unfoldable pub split_ids : ℕ → List ℕ → List ℕ → Option (List (List ℕ))
split_ids id [] [] = some []
split_ids id (w ∷ ws) [] = some []
split_ids id [] (c ∷ cs) = let word = split_ids id (c ∷ []) cs in if c == 0 then some [] else word
split_ids id (w ∷ ws) (c ∷ cs) =
    let rest = split_ids (suc id) [] cs in
    let word = split_ids id (w ∷ ws ++ c ∷ []) cs in
    if c == 0
    then (if id == 64 then none else elim rest [ none ↦ none | some ids ↦ some ((w ∷ ws) ∷ ids) ])
    else word

-- The second loop, which begins with the last id.
unfoldable pub has_root_hub_id : Option (List RegistryValue) → List (List ℕ) → Bool
has_root_hub_id registry [] = false
has_root_hub_id registry (hwid ∷ hwids) =
    has_root_hub_id registry hwids
    || (is_standard_hwid hwid || is_hwid_non_standard_root_hub registry hwid)

-- `IoGetDeviceProperty` with a buffer of REGSTR_VAL_MAX_HCID_LEN bytes fails with
-- STATUS_BUFFER_TOO_SMALL for a text that is longer.
abbrev property_fits : List ℕ → Bool
property_fits text = not (ltb 1024 (2 * length text))

-- `USBPcapIsDeviceRootHub`: whether there is memory, the statuses of the calls, the text of the
-- property and the registry are given.
unfoldable pub is_device_root_hub :
    Bool → NtStatus → NtStatus → List ℕ → Option (List RegistryValue) → Option Bool
is_device_root_hub room pdo_status property_status text registry =
    if room
    then (if nt_success pdo_status
        then (if nt_success property_status && property_fits text
            then (elim (split_ids 0 [] text) [
              | none ↦ none
              | some ids ↦ some (has_root_hub_id registry ids)
            ])
            else some false)
        else some false)
    else some false
