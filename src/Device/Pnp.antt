-- ===== src/Device/Pnp.antt =====
-- USBPcapDriver/USBPcapPnP.c: `DkPnP`, `DkHubFltPnP` and `DkTgtPnP`.
pub mod Removal
mod Tests
use usbpcap_ai.Base.{ℕ, Bool, true, false, Option, none, some, List, [], if◌then◌else◌}
use usbpcap_ai.Control.{DeviceMagic}
use usbpcap_ai.Buffer.{NtStatus}
use usbpcap_ai.Device.{
  ControlDevice, DeviceData, DeviceExtension, System, acquire_lock, put, release_lock, root_of,
}
use usbpcap_ai.Device.Control.{delete_root_hub_control_device, release_and_wait}
use usbpcap_ai.Device.Data.{is_none}
use usbpcap_ai.Device.Attach.{detach_and_delete}
use usbpcap_ai.Device.Forward.{Disposition, default_request, forward_and_wait, pass_on}
use usbpcap_ai.Device.Start.{StartAnswers, get_device_usb_info}
use usbpcap_ai.Device.Relations.{Queried, RelationsQuery, query_device_relations}

pub data Minor : Type 0 where
  start_device remove_device query_relations other : Minor

-- A PnP request: its minor function, whether the remove lock is acquired, the statuses of the next
-- driver, the query that it may be, what a device that starts is told, and the status of the text
-- with the name of the control device.
pub record PnpRequest : Type 0 where
  pub minor : Minor
  pub acquired : Bool
  pub called : NtStatus
  pub final : NtStatus
  pub query : RelationsQuery
  pub start : StartAnswers
  pub name_status : NtStatus

-- What a handler comes to: an access through NULL or to data that were freed, a wait for a remove
-- lock that does not end, or what it did.
pub data PnpRun : Type 0 where
  fault waits : PnpRun
  ran : Queried → PnpRun

abbrev pub ran_only : Disposition → System → DeviceExtension → PnpRun
ran_only disposition s x =
    PnpRun.ran
      (record { disposition = disposition; called_for = []; filters = []; system = s; hub = x })

-- The request goes on to the next driver, and the lock is released.
abbrev pub release_own : System → DeviceExtension → System
release_own s x = release_lock s x.remove_lock

abbrev pub default_pnp : System → DeviceExtension → PnpRun
default_pnp s x = ran_only (pass_on x.next_obj) (release_own s x) x

-- A query under the lock of the handler.
unfoldable pub query_pnp : PnpRequest → System → DeviceExtension → PnpRun
query_pnp q s x = elim (query_device_relations q.query s x) [
  | none ↦ PnpRun.fault
  | some r ↦ PnpRun.ran (record r { system = release_own r.system x })
]

-- The end of a removal: the wait for the lock, and the filter goes.
unfoldable pub detached_filter : Option (System × DeviceExtension) → PnpRun
detached_filter none = PnpRun.fault
detached_filter (some (t, y)) = ran_only Disposition.passed_on t y

unfoldable pub detach_waited : DeviceExtension → Option System → PnpRun
detach_waited x none = PnpRun.waits
detach_waited x (some waited) = detached_filter (detach_and_delete waited x)

unfoldable pub remove_filter : PnpRequest → System → DeviceExtension → PnpRun
remove_filter q s x = detach_waited x (release_and_wait s x.remove_lock)

-- `pDeviceData->pRootData->controlDevice`, where there are data: the outer `none` is an access to
-- data that were freed.
unfoldable pub control_device_of : System → Option ℕ → Option (Option ControlDevice)
control_device_of s none = some none
control_device_of s (some a) = elim (s.roots a) [ none ↦ none | some d ↦ some d.control_device ]

unfoldable pub delete_control : PnpRequest → System → Option ControlDevice → Option System
delete_control q s none = some s
delete_control q s (some control) = delete_root_hub_control_device q.name_status s control

unfoldable pub remove_after : PnpRequest → DeviceExtension → Option System → PnpRun
remove_after q x none = PnpRun.waits
remove_after q x (some deleted) = remove_filter q deleted x

unfoldable pub remove_control :
    PnpRequest → System → DeviceExtension → Option (Option ControlDevice) → PnpRun
remove_control q s x none = PnpRun.fault
remove_control q s x (some control) = remove_after q x (delete_control q s control)

-- IRP_MN_REMOVE_DEVICE for a root hub, whose next driver is called.
unfoldable pub remove_hub : Option ℕ → PnpRequest → System → DeviceExtension → PnpRun
remove_hub none q s x = PnpRun.fault
remove_hub (some next) q s x = remove_control q s x (control_device_of s (root_of x.data_of_usb))

-- IRP_MN_START_DEVICE for a root hub.
unfoldable pub start_hub : PnpRequest → System → DeviceExtension → PnpRun
start_hub q s x = elim (forward_and_wait x.next_obj q.called q.final) [
  | none ↦ PnpRun.fault
  | some status ↦ ran_only (Disposition.waited status) (release_own s x) x
]

unfoldable pub locked_hub : Minor → PnpRequest → System → DeviceExtension → PnpRun
locked_hub Minor.start_device q s x = start_hub q s x
locked_hub Minor.remove_device q s x = remove_hub x.next_obj q s x
locked_hub Minor.query_relations q s x = query_pnp q s x
locked_hub Minor.other q s x = default_pnp s x

-- `DkHubFltPnP`
unfoldable pub hub_flt_pnp : PnpRequest → System → DeviceExtension → PnpRun
hub_flt_pnp q s x =
    let run = locked_hub q.minor q (acquire_lock true s x.remove_lock) x in
    if q.acquired then run else ran_only Disposition.lock_error s x

module _ (equal_text : List ℕ → List ℕ → Bool) where
  -- IRP_MN_START_DEVICE for a device.
  unfoldable pub start_tgt : PnpRequest → System → DeviceExtension → PnpRun
  start_tgt q s x = elim (forward_and_wait x.next_obj q.called q.final) [
    | none ↦ PnpRun.fault
    | some status ↦ elim (get_device_usb_info equal_text q.start s x) [
      | none ↦ PnpRun.fault
      | some (info, t, y) ↦ ran_only (Disposition.waited status) (release_own t x) y
    ]
  ]

  -- IRP_MN_REMOVE_DEVICE for a device.
  unfoldable pub remove_tgt : PnpRequest → System → DeviceExtension → PnpRun
  remove_tgt q s x = if is_none x.next_obj then PnpRun.fault else remove_filter q s x

  -- IRP_MN_QUERY_DEVICE_RELATIONS for a device: only for a hub.
  unfoldable pub query_tgt : PnpRequest → System → DeviceExtension → PnpRun
  query_tgt q s x = elim x.data_of_usb [
    | none ↦ PnpRun.fault
    | some d ↦ if d.is_hub then query_pnp q s x else default_pnp s x
  ]

  unfoldable pub locked_tgt : Minor → PnpRequest → System → DeviceExtension → PnpRun
  locked_tgt Minor.start_device q s x = start_tgt q s x
  locked_tgt Minor.remove_device q s x = remove_tgt q s x
  locked_tgt Minor.query_relations q s x = query_tgt q s x
  locked_tgt Minor.other q s x = default_pnp s x

  -- `DkTgtPnP`
  unfoldable pub tgt_pnp : PnpRequest → System → DeviceExtension → PnpRun
  tgt_pnp q s x =
      let run = locked_tgt q.minor q (acquire_lock true s x.remove_lock) x in
      if q.acquired then run else ran_only Disposition.lock_error s x

  abbrev by_default : Disposition × System → DeviceExtension → PnpRun
  by_default (disposition, t) x = ran_only disposition t x

  -- `DkPnP`
  unfoldable pub pnp : PnpRequest → System → DeviceExtension → PnpRun
  pnp q s x = elim x.magic [
    | DeviceMagic.roothub ↦ hub_flt_pnp q s x
    | DeviceMagic.device ↦ tgt_pnp q s x
    | _ ↦ by_default (default_request q.acquired s x) x
  ]
