-- ===== src/Device/Attach.antt =====
-- USBPcapDriver/USBPcapFilterManager.c: the filters of root hubs (`AddDevice`,
-- `DkDetachAndDeleteHubFilt`) and of the devices on a hub (`DkCreateAndAttachTgt`,
-- `DkDetachAndDeleteTgt`). A result `none` is an access through NULL or to root hub data that were freed.
pub mod Counts
pub mod Hub
pub mod Steps
use usbpcap_ai.Base.{ℕ, Bool, Option, none, some, List, ◌∷◌, if◌then◌else◌}
use usbpcap_ai.Control.{DeviceMagic}
use usbpcap_ai.Buffer.{NtStatus, nt_success}
use usbpcap_ai.Device.{
  ControlDevice, DeviceExtension, RootHubData, System, acquire_lock, add_object, delete_object,
  init_lock, put, release_lock, remove, root_of,
}
use usbpcap_ai.Device.Data.{Allocation, allocate_device_data, free_device_data, set_root, with_data}
use usbpcap_ai.Device.Control.{ControlAnswers, create_root_hub_control_device}

-- What the system answers: the status of `IoCreateDevice` and the new device object, the pool, the
-- object that the new one is attached to, and whether the lock of the parent is acquired.
pub record AttachAnswers : Type 0 where
  pub created_status : NtStatus
  pub created : Option ℕ
  pub allocation : Allocation
  pub lower : Option ℕ
  pub acquired : Bool

abbrev pub attach : System → ℕ → System
attach s lower = record s { attached = lower ∷ s.attached }

abbrev pub detach : System → ℕ → System
detach s lower = record s { attached = remove lower s.attached }

abbrev pub with_next : DeviceExtension → ℕ → DeviceExtension
with_next x lower = record x { next_obj = some lower }

abbrev pub new_extension : DeviceMagic → ℕ → Option ℕ → DeviceExtension
new_extension magic object parent_lock = record {
  magic = magic;
  this_obj = some object;
  next_obj = none;
  remove_lock = object;
  parent_lock = parent_lock;
  data_of_usb = none;
}

-- The end of a failure: the data are freed and the device object is deleted.
unfoldable pub undo_device :
    NtStatus → System → DeviceExtension → ℕ → Option (NtStatus × System × Option DeviceExtension)
undo_device status s x object = elim (free_device_data s x) [
  | none ↦ none
  | some (freed, y) ↦ some (status, delete_object freed object, none)
]

abbrev pub with_control : RootHubData → Option ControlDevice → RootHubData
with_control d none = record d { control_device = none }
with_control d (some c) = record d { control_device = some c; bus_id = c.id }

-- `pRootData->controlDevice = control; pRootData->busId = id;`
unfoldable pub set_control : System → Option ℕ → Option ControlDevice → Option System
set_control s none control = none
set_control s (some a) control = elim (s.roots a) [
  | none ↦ none
  | some d ↦ some (set_root s a (some (with_control d control)))
]

-- `AddDevice` from the attachment on.
unfoldable pub add_control :
    ControlAnswers
    → System
    → DeviceExtension
    → ℕ
    → Option (NtStatus × System × Option DeviceExtension)
add_control q s x object =
    let (status, control, created) = create_root_hub_control_device q s x in
    elim (set_control created (root_of x.data_of_usb) control) [
      | none ↦ none
      | some named ↦
          let undone = undo_device status named x object in
          if nt_success status then some (status, named, some x) else undone
    ]

-- `AddDevice` from the extension of the new device object on.
unfoldable pub add_hub_filter :
    AttachAnswers
    → ControlAnswers
    → System
    → ℕ
    → Option (NtStatus × System × Option DeviceExtension)
add_hub_filter q control s object =
    elim (allocate_device_data q.allocation (init_lock (add_object s object) object)
      (new_extension DeviceMagic.roothub object none) none) [
        | none ↦ none
        | some (status, allocated, x) ↦
            let unattached = undo_device NtStatus.no_such_device allocated x object in
            let undone = undo_device status allocated x object in
            if nt_success status
            then (elim q.lower [
              | none ↦ unattached
              | some lower ↦ add_control control (attach allocated lower) (with_next x lower) object
            ])
            else undone
      ]

unfoldable pub add_created :
    AttachAnswers
    → ControlAnswers
    → System
    → Option ℕ
    → Option (NtStatus × System × Option DeviceExtension)
add_created q control s none = none
add_created q control s (some object) = add_hub_filter q control s object

-- `AddDevice`, after `USBPcapIsDeviceRootHub`: the status, the system and the filter, if it is there.
unfoldable pub add_device :
    AttachAnswers
    → ControlAnswers
    → System
    → Bool
    → Option (NtStatus × System × Option DeviceExtension)
add_device q control s is_root_hub =
    if is_root_hub
    then (if nt_success q.created_status
        then add_created q control s q.created
        else some (q.created_status, s, none))
    else some (NtStatus.success, s, none)

-- `DkCreateAndAttachTgt` from the extension of the new device object on.
unfoldable pub attach_tgt :
    AttachAnswers
    → System
    → DeviceExtension
    → ℕ
    → Option (NtStatus × System × Option DeviceExtension)
attach_tgt q s parent object =
    elim (allocate_device_data q.allocation (add_object s object)
      (new_extension DeviceMagic.device object (some parent.remove_lock)) (some parent)) [
        | none ↦ none
        | some (status, allocated, x) ↦
            let ready = init_lock allocated object in
            let unattached = undo_device NtStatus.no_such_device ready x object in
            let undone = undo_device status allocated x object in
            if nt_success status
            then (elim q.lower [
              | none ↦ unattached
              | some lower ↦ some (
                status,
                acquire_lock q.acquired (attach ready lower) parent.remove_lock,
                some (with_next x lower),
              )
            ])
            else undone
      ]

unfoldable pub attach_created :
    AttachAnswers
    → System
    → DeviceExtension
    → Option ℕ
    → Option (NtStatus × System × Option DeviceExtension)
attach_created q s parent none = some (q.created_status, s, none)
attach_created q s parent (some object) = attach_tgt q s parent object

-- `DkCreateAndAttachTgt`: the status, the system and the filter, if it is there.
unfoldable pub create_and_attach_tgt :
    AttachAnswers → System → DeviceExtension → Option (NtStatus × System × Option DeviceExtension)
create_and_attach_tgt q s parent =
    if nt_success q.created_status
    then attach_created q s parent q.created
    else some (q.created_status, s, none)

abbrev pub if_some : (System → ℕ → System) → System → Option ℕ → System
if_some f s none = s
if_some f s (some a) = f s a

-- `DkDetachAndDeleteHubFilt` and `DkDetachAndDeleteTgt`, which do the same. The source reads the
-- extension after `IoDeleteDevice`; here the extension is still there, as while the system has a
-- reference to the device object, and that read is none of the accesses that give `none`.
unfoldable pub detach_and_delete : System → DeviceExtension → Option (System × DeviceExtension)
detach_and_delete s x =
    let released = if_some release_lock s x.parent_lock in
    let detached = if_some detach released x.next_obj in
    let deleted = if_some delete_object detached x.this_obj in
    free_device_data deleted (record x { next_obj = none; this_obj = none })
