-- ===== src/Client/TransferType.antt =====
-- USBPcapCMD/cmd.c: the names of the transfer types on the command line and in its messages. A text
-- is its characters.
mod Tests
use usbpcap_ai.Base.{
  ℕ, ◌+◌, ◌≡◌, ◌<◌, refl, Bool, true, false, ◌&&◌, Option, none, some, List, [], ◌∷◌, leb, ltb,
  ◌==◌, if◌then◌else◌, arith, Bool-cases, inl, inr,
}
use usbpcap_ai.Format.{
  transfer_bulk, transfer_control, transfer_interrupt, transfer_isochronous, transfer_unknown,
}

abbrev pub control_text : List ℕ
control_text = b'c' ∷ b'o' ∷ b'n' ∷ b't' ∷ b'r' ∷ b'o' ∷ b'l' ∷ []

abbrev pub bulk_text : List ℕ
bulk_text = b'b' ∷ b'u' ∷ b'l' ∷ b'k' ∷ []

abbrev pub interrupt_text : List ℕ
interrupt_text = b'i' ∷ b'n' ∷ b't' ∷ b'e' ∷ b'r' ∷ b'r' ∷ b'u' ∷ b'p' ∷ b't' ∷ []

abbrev pub isochronous_text : List ℕ
isochronous_text = b'i' ∷ b's' ∷ b'o' ∷ b'c' ∷ b'h' ∷ b'r' ∷ b'o' ∷ b'n' ∷ b'o' ∷ b'u' ∷ b's' ∷ []

abbrev pub unknown_text : List ℕ
unknown_text = b'u' ∷ b'n' ∷ b'k' ∷ b'n' ∷ b'o' ∷ b'w' ∷ b'n' ∷ []

-- `_stricmp(a, b) == 0`, with the letters A … Z as a … z.
abbrev pub lower : ℕ → ℕ
lower c = if leb b'A' c && leb c b'Z' then c + 32 else c

abbrev pub same_text : List ℕ → List ℕ → Bool
same_text [] [] = true
same_text [] (d ∷ ds) = false
same_text (c ∷ cs) [] = false
same_text (c ∷ cs) (d ∷ ds) = lower c == lower d && same_text cs ds

-- `transfer_type_to_text`
abbrev pub transfer_type_to_text : ℕ → List ℕ
transfer_type_to_text transfer =
    if transfer == transfer_control
    then control_text
    else if transfer == transfer_bulk
    then bulk_text
    else if transfer == transfer_interrupt
    then interrupt_text
    else if transfer == transfer_isochronous
    then isochronous_text
    else unknown_text

-- `parse_transfer_type`: the type, or `none` for FALSE; the pointer `text` may be NULL.
abbrev pub parse_transfer_type : Option (List ℕ) → Option ℕ
parse_transfer_type none = none
parse_transfer_type (some text) =
    if same_text text control_text
    then some transfer_control
    else if same_text text bulk_text
    then some transfer_bulk
    else if same_text text interrupt_text
    then some transfer_interrupt
    else if same_text text isochronous_text
    then some transfer_isochronous
    else if same_text text unknown_text
    then some transfer_unknown
    else none

-- The name of every transfer type is read back as that type, and the name of any other value as
-- USBPCAP_TRANSFER_UNKNOWN.
pub parse-transfer_type_to_text :
    (transfer : ℕ)
    → parse_transfer_type (some (transfer_type_to_text transfer))
      ≡ some (if ltb transfer 4 then transfer else transfer_unknown)
parse-transfer_type_to_text transfer = ground arith
