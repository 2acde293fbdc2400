-- ===== src/Control/Exclusive.antt =====
-- The capture handle of USBPcapDriver/USBPcapGenReq.c and USBPcapDriver/USBPcapDeviceControl.c is
-- exclusive, and only it controls the capture.
use usbpcap_ai.Base.{
  ℕ, ◌≡◌, Bool, false, Option, none, some, List, [], ◌∷◌, ◌==◌, if◌then◌else◌, arith, Option-cases,
  inl, inr,
}
use usbpcap_ai.Buffer.{NtStatus}
use usbpcap_ai.Control.{
  Control, ControlCode, DeviceMagic, Handled, IoctlRequest, Outcome, Request, clean_up, close,
  complete, create, create_request, clean_up_request, close_request, device_control, handle,
  handle_capture_ioctl, handle_control_ioctl, hub_symlink, ioctl_request, is_object, read,
  read_request, wants_read, write_request,
}

-- A request that closes the file object.
abbrev pub is_close : ℕ → Request → Bool
is_close file (close_request g) = g == file
is_close file _ = false

-- The file object of a request.
abbrev pub file_of : Request → ℕ
file_of (create_request file access) = file
file_of (clean_up_request file) = file
file_of (close_request file) = file
file_of (read_request p n) = p.file_object
file_of (write_request file) = file
file_of (ioctl_request interfaces file r) = file

-- A request that asks for read access.
abbrev pub asks_read : Request → Bool
asks_read (create_request file access) = wants_read access
asks_read _ = false

-- Requests to a control device whose lock is granted, one after the other.
unfoldable pub handle_all : Control → List Request → Option Control
handle_all c [] = some c
handle_all c (r ∷ rs) = elim (handle NtStatus.success DeviceMagic.control c r) [
  | none ↦ none
  | some h ↦ handle_all h.after rs
]

abbrev pub NoClose : ℕ → List Request → Type 0
NoClose file [] = Unit {0}
NoClose file (r ∷ rs) = (is_close file r ≡ false) × NoClose file rs

capture_ioctl_keeps :
    (c : Control) (r : IoctlRequest)
    → (handle_capture_ioctl c r).1.capture_object ≡ c.capture_object
unfolding handle_capture_ioctl
capture_ioctl_keeps c r = ground arith

handle_keeps :
    (c : Control) (r : Request) (file : ℕ) (h : Handled)
    → c.capture_object ≡ some file
    → is_close file r ≡ false
    → handle NtStatus.success DeviceMagic.control c r ≡ some h
    → h.after.capture_object ≡ some file
unfolding handle create clean_up close read device_control handle_control_ioctl
handle_keeps c (create_request g access) file h e n k = ground arith
handle_keeps c (clean_up_request g) file h e n k = ground arith
handle_keeps c (close_request g) file h e n k = ground arith
handle_keeps c (read_request p m) file h e n k = ground arith
handle_keeps c (write_request g) file h e n k = ground arith
handle_keeps c (ioctl_request i g r) file h e n k = ground (arith, capture_ioctl_keeps c r)

handle_all_keeps :
    (c : Control) (rs : List Request) (file : ℕ) (d : Control)
    → c.capture_object ≡ some file
    → NoClose file rs
    → handle_all c rs ≡ some d
    → d.capture_object ≡ some file
unfolding handle_all
handle_all_keeps c [] file d e n k = ground arith
handle_all_keeps c (r ∷ rs) file d e n k =
    elim (Option-cases (handle NtStatus.success DeviceMagic.control c r)) [
      | inl stop ↦ absurd (ground arith)
      | inr (h, go) ↦
          handle_all_keeps h.after rs file d (handle_keeps c r file h e n.0 go) n.1 (step h go)
    ]
  where
    step :
        (h : Handled)
        → handle NtStatus.success DeviceMagic.control c r ≡ some h
        → handle_all h.after rs ≡ some d
    step h go = ground (arith, k, go)

-- While a file object holds the capture, and until it is closed, every other request to open the
-- device for reading is completed with STATUS_ACCESS_DENIED and changes nothing, whatever
-- requests came between; a handle without read access can still be opened.
pub create_exclusive :
    (c : Control) (rs : List Request) (file : ℕ) (d : Control) (g access : ℕ)
    → c.capture_object ≡ some file
    → NoClose file rs
    → handle_all c rs ≡ some d
    → handle NtStatus.success DeviceMagic.control d (create_request g access)
      ≡ some (complete (if wants_read access then NtStatus.access_denied else NtStatus.success) d)
unfolding handle create
create_exclusive c rs file d g access e n k = ground (arith, handle_all_keeps c rs file d e n k)

-- How a request ends that comes from a handle without the capture.
abbrev pub bystander_outcome : Request → Outcome
bystander_outcome (create_request file access) = Outcome.completed NtStatus.success []
bystander_outcome (clean_up_request file) = Outcome.completed NtStatus.success []
bystander_outcome (close_request file) = Outcome.completed NtStatus.success []
bystander_outcome (read_request p n) = Outcome.completed NtStatus.access_denied []
bystander_outcome (write_request file) = Outcome.completed NtStatus.not_supported []
bystander_outcome (ioctl_request interfaces file r) = elim r.code [
  | ControlCode.get_hub_symlink ↦
      Outcome.completed (hub_symlink interfaces r.output_length).0
        (hub_symlink interfaces r.output_length).1
  | _ ↦ Outcome.completed NtStatus.access_denied []
]

-- A request from a handle that does not hold the capture, and that does not ask for read access,
-- changes nothing and cancels nothing. A read is denied, a write not supported, and of the control
-- codes only the one for the hub's name is answered.
pub bystander_request :
    (c : Control) (r : Request)
    → is_object c.capture_object (file_of r) ≡ false
    → asks_read r ≡ false
    → handle NtStatus.success DeviceMagic.control c r
      ≡ some (record { outcome = bystander_outcome r; cancelled = []; after = c })
unfolding handle create clean_up close read device_control handle_control_ioctl
bystander_request c (create_request g access) o a = ground arith
bystander_request c (clean_up_request g) o a = ground arith
bystander_request c (close_request g) o a = ground arith
bystander_request c (read_request p m) o a = ground arith
bystander_request c (write_request g) o a = ground arith
bystander_request c (ioctl_request i g r) o a = ground arith
