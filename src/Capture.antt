-- ===== src/Capture.antt =====
-- The driver's part of a capture as a whole: internal device control requests to a captured device
-- and their completions (USBPcapDriver/USBPcapDeviceControl.c), read requests to the control
-- device of its root hub and changes of the filter, in any order. Each is one step: the tables, the
-- buffer and the filter are each behind a lock or written at once.
pub mod Traffic
pub mod File
mod Tests
use usbpcap_ai.Base.{ℕ, Bool, Option, none, some, List, [], ◌∷◌, ◌++◌}
use usbpcap_ai.Queue.{Irp}
use usbpcap_ai.Filter.{AddressFilter}
use usbpcap_ai.Buffer.Irp.Stream.{Call, reads}
use usbpcap_ai.Tables.Generic.{GenericTable}
use usbpcap_ai.Tables.Endpoint.{EndpointInfo, endpoint_key}
use usbpcap_ai.Tables.UrbIrp.{UrbIrpInfo, urb_irp_key}
use usbpcap_ai.Urb.Analyze.{Resources, Sizes, Urb}
use usbpcap_ai.Urb.Dispatch.{Extension, InternalRequest, in_dev_ctl, tgt_in_dev_ctl_completion}

pub data Event : Type 0 where
  sends : Resources → InternalRequest → Event
  comes_back : Resources → ℕ → Option Urb → Event
  is_read : Irp → ℕ → Event
  sets_filter : AddressFilter → Event

module _ (E : GenericTable EndpointInfo endpoint_key) (U : GenericTable UrbIrpInfo urb_irp_key)
    (sizes : Sizes) (find_interface : List ℕ → ℕ → ℕ → Option (ℕ × ℕ)) where
  -- The calls of the buffer that an event makes, and the device after; `none` is a fault.
  unfoldable pub handle_event :
      Extension E U sizes find_interface
      → Event
      → Option (List Call × Extension E U sizes find_interface)
  handle_event x (sends r q) = elim (in_dev_ctl E U sizes find_interface r x q) [
    | none ↦ none
    | some (sent, calls, y) ↦ some (calls, y)
  ]
  handle_event x (comes_back r irp urb) =
      tgt_in_dev_ctl_completion E U sizes find_interface r x irp urb
  handle_event x (is_read p n) = some (reads p n ∷ [], x)
  handle_event x (sets_filter f) =
      some ([], record x { data_of_device = record x.data_of_device { filter = f } })

  unfoldable pub handle_events :
      Extension E U sizes find_interface
      → List Event
      → Option (List Call × Extension E U sizes find_interface)
  handle_events x [] = some ([], x)
  handle_events x (e ∷ es) = elim (handle_event x e) [
    | none ↦ none
    | some (calls, y) ↦ elim (handle_events y es) [
      | none ↦ none
      | some (more, z) ↦ some (calls ++ more, z)
    ]
  ]
