-- ===== src/Urb/Interfaces.antt =====
-- USBPcapDriver/USBPcapURB.c: `USBPcapParseInterfaceInformation`, over the memory of a URB.
-- The sizes of the structures are those of the system's headers (`Layout`), and the memory is what
-- a structure reads at each offset, in bytes from the first interface information.
pub mod Bounds
use usbpcap_ai.Base.{
  ℕ, zero, suc, ◌+◌, ◌-◌, ◌*◌, ◌%◌, Bool, true, false, ◌&&◌, ◌||◌, List, [], ◌∷◌, ◌++◌, ltb, ◌==◌,
  if◌then◌else◌, u32_mod,
}
use usbpcap_ai.Tables.Endpoint.{PipeInformation}

-- The fields of `USBD_INTERFACE_INFORMATION` that are read.
pub record InterfaceInformation : Type 0 where
  pub length : ℕ
  pub interface_number : ℕ
  pub alternate_setting : ℕ
  pub number_of_pipes : ℕ

-- sizeof(USBD_INTERFACE_INFORMATION), which covers one pipe, offsetof(…, Pipes) and
-- sizeof(USBD_PIPE_INFORMATION).
pub record Layout : Type 0 where
  pub interface_size : ℕ
  pub pipes_offset : ℕ
  pub pipe_size : ℕ

pub record Memory : Type 0 where
  pub interface_at : ℕ → InterfaceInformation
  pub pipe_at : ℕ → PipeInformation

-- The offsets of `count` pipes, from an offset on.
unfoldable pub pipe_offsets : Layout → ℕ → ℕ → List ℕ
pipe_offsets l zero offset = []
pipe_offsets l (suc count) offset = offset ∷ pipe_offsets l count (offset + l.pipe_size)

-- `required_length`, a ULONG.
abbrev pub required_length : Layout → ℕ → ℕ
required_length l pipes = (l.interface_size + (pipes - 1) * l.pipe_size) % u32_mod

-- The sanity checks of a round; they hold where the pipes are parsed.
unfoldable pub is_sane : Layout → InterfaceInformation → ℕ → Bool
is_sane l i interfaces_len =
    if ltb interfaces_len l.interface_size
    then false
    else if ltb interfaces_len i.length
    then false
    else if ltb 1 i.number_of_pipes && ltb interfaces_len (required_length l i.number_of_pipes)
    then false
    else true

-- The loop: the offsets of the pipes that are added to the endpoint table, in order. The count of
-- rounds starts at `interfaces_len`; each round takes at least one byte off.
unfoldable pub parse_rounds : ℕ → Layout → Memory → ℕ → ℕ → List ℕ
parse_rounds zero l m offset interfaces_len = []
parse_rounds (suc rounds) l m offset interfaces_len =
    let i = m.interface_at offset in
    let pipes = pipe_offsets l i.number_of_pipes (offset + l.pipes_offset) in
    let rest = parse_rounds rounds l m (offset + i.length) (interfaces_len - i.length) in
    if interfaces_len == 0 || i.length == 0
    then []
    else if is_sane l i interfaces_len
    then pipes ++ rest
    else []

-- `USBPcapParseInterfaceInformation`, up to its calls of `USBPcapAddEndpointInfo`.
unfoldable pub parse_interface_information : Layout → Memory → ℕ → List ℕ
parse_interface_information l m interfaces_len = parse_rounds interfaces_len l m 0 interfaces_len
