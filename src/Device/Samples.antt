-- ===== src/Device/Samples.antt =====
-- A root hub with a device for trying the definitions of the device objects.
use usbpcap_ai.Base.{◌∷◌, refl, ℕ, true, Option, none, some, []}
use usbpcap_ai.Control.{DeviceMagic}
use usbpcap_ai.Buffer.{NtStatus}
use usbpcap_ai.Device.{
  ControlDevice, DeviceExtension, RootHubData, System, acquire_lock, add_object, init_lock,
}
use usbpcap_ai.Device.Data.{
  Allocation, child_data, new_root_hub_data, one_more, set_root, with_data,
}
use usbpcap_ai.Device.Control.{ControlAnswers, add_link}
use usbpcap_ai.Device.Attach.{AttachAnswers, attach, new_extension, with_control, with_next}
use usbpcap_ai.Device.Data.{allocate_device_data, end_allocation, take_root}
use usbpcap_ai.Device.Control.{create_root_hub_control_device, init_control}
use usbpcap_ai.Device.Attach.{add_control, add_created, add_device, add_hub_filter, set_control}
use usbpcap_ai.Device.Attach.Steps.{Reached, Step}

abbrev pub empty_system : System
empty_system = record {
  roots = λ a. none;
  held = λ a. 0;
  objects = [];
  attached = [];
  links = [];
  control_id = 0;
}

abbrev pub pool : Option ℕ → Allocation
pool block = record { room = true; root_block = block; endpoint_room = true; urb_irp_room = true }

abbrev pub answers : ℕ → ℕ → Option ℕ → AttachAnswers
answers object lower block = record {
  created_status = NtStatus.success;
  created = some object;
  allocation = pool block;
  lower = some lower;
  acquired = true;
}

abbrev pub control_answers : NtStatus → ControlAnswers
control_answers link_status = record {
  name_status = NtStatus.success;
  link_name_status = NtStatus.success;
  created_status = NtStatus.success;
  created = 11;
  link_status = link_status;
  queue_status = NtStatus.success;
  acquired = true;
}

abbrev pub control : ControlDevice
control = record { this_obj = 11; id = 1; remove_lock = 11; parent_lock = 10 }

abbrev pub hub : DeviceExtension
hub =
    with_next
      (with_data (new_extension DeviceMagic.roothub 10 none)
        (some (child_data (pool (some 1000)) none 1000)))
      5

-- The system after the root hub, object 5, got its filter, object 10.
abbrev pub with_hub : System
with_hub =
    let attached =
      attach (set_root (init_lock (add_object empty_system 10) 10) 1000 (some new_root_hub_data))
        5 in
    let made = record (add_link (add_object attached 11) 1) { control_id = 1 } in
    set_root (acquire_lock true (init_lock made 11) 10) 1000
      (some (with_control new_root_hub_data (some control)))

abbrev pub child : DeviceExtension
child =
    with_next
      (with_data (new_extension DeviceMagic.device 20 (some 10))
        (some (child_data (pool none) (some hub) 1000)))
      6

-- The system after a device of the hub, object 6, got its filter, object 20.
abbrev pub with_child : System
with_child =
    let counted : RootHubData = with_control (one_more new_root_hub_data) (some control) in
    acquire_lock true
      (attach (init_lock (set_root (add_object with_hub 20) 1000 (some counted)) 20) 6) 10

pub with_hub-Reached : Reached with_hub (hub ∷ [])
unfolding add_device add_created add_hub_filter add_control set_control
    create_root_hub_control_device init_control allocate_device_data take_root end_allocation
with_hub-Reached = Reached.stepped (Reached.loaded {s = empty_system} (λ a. refl)) (
    Step.added (answers 10 5 (some 1000)) (control_answers NtStatus.success) true 10
      NtStatus.success refl (λ r e. refl) refl)
