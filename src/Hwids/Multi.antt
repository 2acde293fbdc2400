-- ===== src/Hwids/Multi.antt =====
-- USBPcapCMD/roothubs.c: texts in a row, and the list of the ids that are not standard.
use usbpcap_ai.Base.{
  ℕ, ◌+◌, ◌*◌, Bool, true, false, Option, none, some, List, [], ◌∷◌, ◌++◌, length, ltb, ◌==◌,
  if◌then◌else◌,
}
use usbpcap_ai.Hwids.{is_standard_hwid, same}

-- `StringArray`: the texts in use, `size`, and the places of the block at `array`.
pub record StringArray : Type 0 where
  pub texts : List (List ℕ)
  pub size : ℕ
  pub places : ℕ

-- `init_string_array`; `room` is whether `malloc` succeeds.
unfoldable pub init_string_array : Bool → ℕ → StringArray
init_string_array room initial_size = record {
  texts = [];
  size = initial_size;
  places = if room then initial_size else 0;
}

-- `a->array[a->used++] = _tcsdup(hwid)`; `none` is a write beyond the block.
unfoldable pub append_text : StringArray → List ℕ → Option StringArray
append_text a hwid =
    if ltb (length a.texts) a.places then some (record a { texts = a.texts ++ hwid ∷ [] }) else none

-- `insert_string_array`; `room` is whether `realloc` succeeds. The size is doubled before that.
unfoldable pub insert_string_array : Bool → StringArray → List ℕ → Option StringArray
insert_string_array room a hwid =
    let doubled = record a { size = a.size * 2 } in
    let grown = append_text (record doubled { places = a.size * 2 }) hwid in
    let added = append_text a hwid in
    if length a.texts == a.size then (if room then grown else some doubled) else added

-- `is_non_standard_hwid_known`
unfoldable pub is_known : List (List ℕ) → List ℕ → Bool
is_known [] hwid = false
is_known (t ∷ ts) hwid = if same t hwid then true else is_known ts hwid

-- `build_non_standard_reg_multi_sz`: each text with its zero, and one more zero.
unfoldable pub build_multi_sz : List (List ℕ) → List ℕ
build_multi_sz [] = 0 ∷ []
build_multi_sz (t ∷ ts) = t ++ 0 ∷ build_multi_sz ts

-- The length that it computes, in characters.
unfoldable pub multi_sz_length : ℕ → List (List ℕ) → ℕ
multi_sz_length len [] = len
multi_sz_length len (t ∷ ts) = multi_sz_length (len + (length t + 1)) ts

-- The loop of `find_non_standard_hwids` over the ids of a root hub.
unfoldable pub has_standard : Bool → List (List ℕ) → Bool
has_standard standard [] = standard
has_standard standard (t ∷ ts) = has_standard (if is_standard_hwid t then true else standard) ts

-- What becomes of the list at a root hub without a standard id. What the C library makes of the
-- NULL at the place of the first id of none is not modelled: `none`.
unfoldable pub add_first : Bool → StringArray → List (List ℕ) → Option StringArray
add_first room a [] = none
add_first room a (hwid ∷ hwids) =
    if is_known a.texts hwid then some a else insert_string_array room a hwid

-- One root hub; its ids are `none` where they cannot be read.
unfoldable pub find_at : Bool → StringArray → Option (List (List ℕ)) → Option StringArray
find_at room a none = some a
find_at room a (some hwids) =
    let added = add_first room a hwids in if has_standard false hwids then some a else added

-- `find_non_standard_hwids` over the root hubs.
unfoldable pub find_non_standard_hwids :
    Bool → StringArray → List (Option (List (List ℕ))) → Option StringArray
find_non_standard_hwids room a [] = some a
find_non_standard_hwids room a (hub ∷ hubs) = elim (find_at room a hub) [
  | none ↦ none
  | some b ↦ find_non_standard_hwids room b hubs
]
