-- ===== src/Device/Control.antt =====
-- USBPcapDriver/USBPcapRootHubControl.c: the control device of a root hub.
use usbpcap_ai.Base.{ℕ, ◌%◌, Bool, true, Option, none, some, ◌∷◌, ◌==◌, if◌then◌else◌}
use usbpcap_ai.Buffer.{NtStatus, nt_success}
use usbpcap_ai.Device.{
  ControlDevice, DeviceExtension, System, acquire_lock, add_object, delete_object, init_lock,
  interlocked_increment, release_lock, remove,
}

-- What the system answers: the status of the two texts with the id, of the creation with the new
-- device object, of the symbolic link and of the queue, and whether the root hub's remove lock is
-- acquired.
pub record ControlAnswers : Type 0 where
  pub name_status : NtStatus
  pub link_name_status : NtStatus
  pub created_status : NtStatus
  pub created : ℕ
  pub link_status : NtStatus
  pub queue_status : NtStatus
  pub acquired : Bool

abbrev pub add_link : System → ℕ → System
add_link s id = record s { links = id ∷ s.links }

abbrev pub delete_link : System → ℕ → System
delete_link s id = record s { links = remove id s.links }

-- The control device with its symbolic link, from the initialisation of its extension on.
unfoldable pub init_control :
    ControlAnswers → System → ℕ → ℕ → NtStatus × Option ControlDevice × System
init_control q s id hub_lock =
    let ready = init_lock s q.created in
    let control : ControlDevice = record {
      this_obj = q.created;
      id = id;
      remove_lock = q.created;
      parent_lock = hub_lock;
    } in
    if nt_success q.queue_status
    then (q.queue_status, some control, acquire_lock q.acquired ready hub_lock)
    else (q.queue_status, none, delete_object (delete_link ready id) q.created)

-- `USBPcapCreateRootHubControlDevice`: the status, `*control` and `*busId` where they are written,
-- and the system after.
unfoldable pub create_root_hub_control_device :
    ControlAnswers → System → DeviceExtension → NtStatus × Option ControlDevice × System
create_root_hub_control_device q s hub =
    let next_id = interlocked_increment s.control_id in
    let id = next_id % 65536 in
    let counted = record s { control_id = next_id } in
    let created = add_object counted q.created in
    if nt_success q.name_status
    then (if nt_success q.link_name_status
        then (if nt_success q.created_status
            then (if nt_success q.link_status
                then init_control q (add_link created id) id hub.remove_lock
                else (q.link_status, none, delete_object created q.created))
            else (q.created_status, none, counted))
        else (q.link_name_status, none, counted))
    else (q.name_status, none, counted)

-- `IoReleaseRemoveLockAndWait`: it comes back when no other acquire is left, and never where one
-- stays.
unfoldable pub release_and_wait : System → ℕ → Option System
release_and_wait s a =
    let released = release_lock s a in if released.held a == 0 then some released else none

-- `USBPcapDeleteRootHubControlDevice`; `none` is a wait that does not end.
unfoldable pub delete_root_hub_control_device : NtStatus → System → ControlDevice → Option System
delete_root_hub_control_device name_status s control =
    elim (release_and_wait (acquire_lock true s control.remove_lock) control.remove_lock) [
      | none ↦ none
      | some waited ↦
          let released = release_lock waited control.parent_lock in
          some (
            if nt_success name_status
            then delete_object (delete_link released control.id) control.this_obj
            else released)
    ]
