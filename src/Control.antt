-- ===== src/Control.antt =====
-- The control device `USBPcapX`: USBPcapDriver/USBPcapGenReq.c (`DkCreateClose`, `DkReadWrite`) and
-- USBPcapDriver/USBPcapDeviceControl.c (`HandleUSBPcapControlIOCTL`, `DkDevCtl`).
-- The state is the capture handle of the control device, with the buffer, the pended reads and
-- the filter of its root hub. A request names the file object of its stack location. `lock` is
-- what `IoAcquireRemoveLock` returned. Each handler reads and writes the capture handle by one
-- interlocked operation; the handlers are modelled as one step each.
pub mod Exclusive
pub mod Inv
mod Tests
use usbpcap_ai.Base.{
  ℕ, ◌+◌, ◌*◌, ◌≡◌, ◌<◌, Bool, true, false, ◌||◌, Option, none, some, List, [], ◌∷◌, ◌++◌, length,
  get_or, ltb, ◌==◌, if◌then◌else◌, has_bit, le16, of_le32,
}
use usbpcap_ai.Queue.{Irp, csq_clean_up_queue}
use usbpcap_ai.Buffer.{NtStatus, nt_success, RingData}
use usbpcap_ai.Buffer.Setup.{set_up_buffer, set_snaplen_size, remove_buffer}
use usbpcap_ai.Buffer.Irp.{Hub, buffer_handle_read_irp}
use usbpcap_ai.Filter.{AddressFilter, zero_filter}

-- `deviceMagic`
pub data DeviceMagic : Type 0 where
  roothub device control unknown : DeviceMagic

pub record Control : Type 0 where
  pub capture_object : Option ℕ
  pub hub : Hub
  pub filter : AddressFilter

-- What becomes of the request: completed with a status and the bytes that go back, sent to the
-- next driver, left pended, or left alone (a device object of no known kind).
pub data Outcome : Type 0 where
  completed : NtStatus → List ℕ → Outcome
  forwarded left_pending left_alone : Outcome

-- What a handler does: the outcome, the pended reads that it cancels and the state after.
pub record Handled : Type 0 where
  pub outcome : Outcome
  pub cancelled : List Irp
  pub after : Control

abbrev pub complete : NtStatus → Control → Handled
complete status c = record { outcome = Outcome.completed status []; cancelled = []; after = c }

-- `InterlockedCompareExchangePointer`: what was there, and what is there after.
abbrev pub compare_exchange : Option ℕ → Option ℕ → Option ℕ → Option ℕ × Option ℕ
compare_exchange none exchange none = (none, exchange)
compare_exchange none exchange (some b) = (none, none)
compare_exchange (some a) exchange none = (some a, some a)
compare_exchange (some a) exchange (some b) = (some a, if a == b then exchange else some a)

-- The pointer is that of the file object.
abbrev pub is_object : Option ℕ → ℕ → Bool
is_object none file = false
is_object (some a) file = a == file

-- `DesiredAccess & (READ_CONTROL | FILE_READ_DATA)`
abbrev pub wants_read : ℕ → Bool
wants_read access = has_bit access 17 || has_bit access 0

-- The part of `DkCreateClose` that every device object has: the lock, and the kind of device.
abbrev pub dispatch : NtStatus → DeviceMagic → Control → Option Handled → Option Handled
dispatch lock magic c handled =
    if nt_success lock
    then (elim magic [
      | DeviceMagic.control ↦ handled
      | DeviceMagic.roothub ↦
          some (record { outcome = Outcome.forwarded; cancelled = []; after = c })
      | DeviceMagic.device ↦
          some (record { outcome = Outcome.forwarded; cancelled = []; after = c })
      | DeviceMagic.unknown ↦
          some (record { outcome = Outcome.left_alone; cancelled = []; after = c })
    ])
    else some (complete lock c)

-- The cases of `DkCreateClose` on a control device.
pub create : Control → ℕ → ℕ → Handled
create c file access =
    let (previous, object) = compare_exchange c.capture_object (some file) none in
    if wants_read access
    then (elim previous [
      | none ↦ complete NtStatus.success (record c { capture_object = object })
      | some p ↦ complete NtStatus.access_denied (record c { capture_object = object })
    ])
    else complete NtStatus.success c

pub clean_up : Control → ℕ → Option Handled
clean_up c file =
    let queue = csq_clean_up_queue c.hub.pend_irps file in
    if is_object c.capture_object file
    then (elim queue [
      | none ↦ none
      | some (cancelled, left) ↦ some (record {
        outcome = Outcome.completed NtStatus.success [];
        cancelled = cancelled;
        after = record {
          capture_object = c.capture_object;
          hub = record { ring = remove_buffer c.hub.ring; pend_irps = left };
          filter = zero_filter;
        };
      })
    ])
    else some (complete NtStatus.success c)

pub close : Control → ℕ → Handled
close c file =
    complete NtStatus.success
      (record c { capture_object = (compare_exchange c.capture_object none (some file)).1 })

-- The cases of `DkReadWrite` on a control device; `read_length` is `Parameters.Read.Length`.
pub read : Control → Irp → ℕ → Handled
read c p read_length =
    let (status, bytes, hub) = buffer_handle_read_irp c.hub p read_length in
    if is_object c.capture_object p.file_object
    then record {
      outcome = elim status [
        | NtStatus.pending ↦ Outcome.left_pending
        | other ↦ Outcome.completed other bytes
      ];
      cancelled = [];
      after = record c { hub = hub };
    }
    else complete NtStatus.access_denied c

-- The control codes.
pub data ControlCode : Type 0 where
  get_hub_symlink setup_buffer start_filtering stop_filtering set_snaplen_size_code other_code :
      ControlCode

-- A device control request: its code, its input and the size of its output buffer. `alloc` is
-- what an allocation of each size returns.
pub record IoctlRequest : Type 0 where
  pub code : ControlCode
  pub input : List ℕ
  pub output_length : ℕ
  pub alloc : ℕ → Option (List ℕ)

-- A zero-terminated string of WCHAR in memory.
abbrev pub wide_bytes : List ℕ → List ℕ
wide_bytes [] = 0 ∷ 0 ∷ []
wide_bytes (c ∷ text) = le16 c ++ wide_bytes text

abbrev pub word_at : List ℕ → ℕ → ℕ
word_at input i =
    of_le32 (get_or input i 0) (get_or input (i + 1) 0) (get_or input (i + 2) 0)
      (get_or input (i + 3) 0)

-- The input as `USBPCAP_ADDRESS_FILTER`.
pub filter_at : List ℕ → AddressFilter
filter_at input = record {
  addresses = word_at input 0 ∷ word_at input 4 ∷ word_at input 8 ∷ word_at input 12 ∷ [];
  filter_all = get_or input 16 0;
}

-- The answer to `IOCTL_USBPCAP_GET_HUB_SYMLINK`; `interfaces` is what `USBPcapGetHubInterfaces` returns.
abbrev pub hub_symlink : Option (List ℕ) → ℕ → NtStatus × List ℕ
hub_symlink none output_length = (NtStatus.not_found, [])
hub_symlink (some text) output_length =
    if ltb output_length (length (wide_bytes text))
    then (NtStatus.buffer_too_small, [])
    else (NtStatus.success, wide_bytes text)

-- The `switch` of `HandleUSBPcapControlIOCTL`: the status and the state after.
pub handle_capture_ioctl : Control → IoctlRequest → NtStatus × Control
handle_capture_ioctl c r =
    let size = word_at r.input 0 in
    let (set_up, ring) = set_up_buffer c.hub.ring size (r.alloc size) in
    let (sized, snapped) = set_snaplen_size c.hub.ring size in
    elim r.code [
      | ControlCode.setup_buffer ↦
          if length r.input == 4
          then (set_up, record c { hub = record { ring = ring; pend_irps = c.hub.pend_irps } })
          else (NtStatus.invalid_parameter, c)
      | ControlCode.start_filtering ↦
          if length r.input == 17
          then (NtStatus.success, record c { filter = filter_at r.input })
          else (NtStatus.invalid_parameter, c)
      | ControlCode.stop_filtering ↦ (NtStatus.success, record c { filter = zero_filter })
      | ControlCode.set_snaplen_size_code ↦
          if length r.input == 4
          then (sized, record c { hub = record { ring = snapped; pend_irps = c.hub.pend_irps } })
          else (NtStatus.invalid_parameter, c)
      | _ ↦ (NtStatus.invalid_device_request, c)
    ]

-- `HandleUSBPcapControlIOCTL`: the status, the output and the state after.
pub handle_control_ioctl :
    Option (List ℕ) → Control → Bool → IoctlRequest → NtStatus × List ℕ × Control
handle_control_ioctl interfaces c allow_capture r =
    let (found, output) = hub_symlink interfaces r.output_length in
    let (status, after) = handle_capture_ioctl c r in
    let exclusive =
      if allow_capture then (status, [], after) else (NtStatus.access_denied, [], c) in
    elim r.code [ ControlCode.get_hub_symlink ↦ (found, output, c) | _ ↦ exclusive ]

-- `DkDevCtl` on a control device.
pub device_control : Option (List ℕ) → Control → ℕ → IoctlRequest → Handled
device_control interfaces c file r =
    let (status, output, after) =
      handle_control_ioctl interfaces c (is_object c.capture_object file) r in
    record { outcome = Outcome.completed status output; cancelled = []; after = after }

-- A request to the device; `none` is the end of the fuel of a loop.
pub data Request : Type 0 where
  create_request : ℕ → ℕ → Request
  clean_up_request close_request : ℕ → Request
  read_request : Irp → ℕ → Request
  write_request : ℕ → Request
  ioctl_request : Option (List ℕ) → ℕ → IoctlRequest → Request

-- The handler that the driver object has for the request's major function.
pub handle : NtStatus → DeviceMagic → Control → Request → Option Handled
handle lock magic c (create_request file access) =
    dispatch lock magic c (some (create c file access))
handle lock magic c (clean_up_request file) = dispatch lock magic c (clean_up c file)
handle lock magic c (close_request file) = dispatch lock magic c (some (close c file))
handle lock magic c (read_request p n) = dispatch lock magic c (some (read c p n))
handle lock magic c (write_request file) =
    dispatch lock magic c (some (complete NtStatus.not_supported c))
handle lock magic c (ioctl_request interfaces file r) =
    dispatch lock magic c (some (device_control interfaces c file r))
