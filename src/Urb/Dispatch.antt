-- ===== src/Urb/Dispatch.antt =====
-- USBPcapDriver/USBPcapDeviceControl.c: `DkInDevCtl`, `DkTgtInDevCtl` and
-- `DkTgtInDevCtlCompletion`, which bring URBs to the analysis. The remove lock is the system's: of
-- it stand here whether an acquire succeeds, and the count of acquires that are not released.
pub mod Locks
use usbpcap_ai.Base.{ℕ, suc, ◌-◌, Bool, true, false, Option, none, some, List, [], if◌then◌else◌}
use usbpcap_ai.Control.{DeviceMagic}
use usbpcap_ai.Buffer.Irp.Stream.{Call}
use usbpcap_ai.Tables.Generic.{GenericTable}
use usbpcap_ai.Tables.Endpoint.{EndpointInfo, endpoint_key}
use usbpcap_ai.Tables.UrbIrp.{UrbIrpInfo, urb_irp_key}
use usbpcap_ai.Urb.Analyze.{Device, Resources, Sizes, Urb, analyze_urb}

-- What becomes of the request: completed with an error, or sent to the next driver, with the
-- completion routine or without.
pub data Sent : Type 0 where
  lock_error invalid_device_request passed_on with_completion : Sent

-- An internal device control request: the address of the IRP, whether its code is
-- IOCTL_INTERNAL_USB_SUBMIT_URB, the URB that it names, or NULL, and whether the two acquires
-- succeed.
pub record InternalRequest : Type 0 where
  pub irp : ℕ
  pub is_submit : Bool
  pub urb : Option Urb
  pub first_lock : Bool
  pub second_lock : Bool

module _ (E : GenericTable EndpointInfo endpoint_key) (U : GenericTable UrbIrpInfo urb_irp_key)
    (sizes : Sizes) (find_interface : List ℕ → ℕ → ℕ → Option (ℕ × ℕ)) where
  -- `DEVICE_EXTENSION`: `deviceMagic`, whether `pNextDevObj` is there, the acquires of the lock that
  -- are not released, and the data of the device.
  pub record Extension : Type 0 where
    pub magic : DeviceMagic
    pub has_next : Bool
    pub held : ℕ
    pub data_of_device : Device E U sizes find_interface

  abbrev pub acquire : Extension → Extension
  acquire x = record x { held = suc x.held }

  abbrev pub release : Extension → Extension
  release x = record x { held = x.held - 1 }

  -- The analysis of a URB that may be NULL.
  unfoldable pub analyze_some :
      Resources → Extension → ℕ → Option Urb → Bool → Option (List Call × Extension)
  analyze_some r x irp none post = some ([], x)
  analyze_some r x irp (some urb) post =
      elim (analyze_urb E U sizes find_interface r x.data_of_device irp urb post) [
        | none ↦ none
        | some (calls, d) ↦ some (calls, record x { data_of_device = d })
      ]

  -- `DkTgtInDevCtl`: what becomes of the request, the logging calls and the extension after.
  unfoldable pub tgt_in_dev_ctl :
      Resources → Extension → InternalRequest → Option (Sent × List Call × Extension)
  tgt_in_dev_ctl r x q =
      if q.second_lock
      then (if q.is_submit
          then (elim (analyze_some r (acquire x) q.irp q.urb false) [
            | none ↦ none
            | some (calls, y) ↦ some (Sent.with_completion, calls, y)
          ])
          else some (Sent.passed_on, [], release (acquire x)))
      else some (Sent.lock_error, [], x)

  -- `DkInDevCtl`
  unfoldable pub in_dev_ctl :
      Resources → Extension → InternalRequest → Option (Sent × List Call × Extension)
  in_dev_ctl r x q =
      if q.first_lock
      then (elim x.magic [
        | DeviceMagic.device ↦ elim (tgt_in_dev_ctl r (acquire x) q) [
          | none ↦ none
          | some (sent, calls, y) ↦ some (sent, calls, release y)
        ]
        | _ ↦ some (
          if x.has_next then Sent.passed_on else Sent.invalid_device_request,
          [],
          release (acquire x),
        )
      ])
      else some (Sent.lock_error, [], x)

  -- `DkTgtInDevCtlCompletion`, which a request sent with the completion routine comes back to.
  unfoldable pub tgt_in_dev_ctl_completion :
      Resources → Extension → ℕ → Option Urb → Option (List Call × Extension)
  tgt_in_dev_ctl_completion r x irp urb = elim (analyze_some r x irp urb true) [
    | none ↦ none
    | some (calls, y) ↦ some (calls, release y)
  ]
