-- ===== src/Device/Tests.antt =====
-- The theorems on the device objects at a root hub with two devices.
use usbpcap_ai.Base.{ℕ, ◌≡◌, ◌<◌, refl, true, Option, none, some, List, [], ◌∷◌, arith}
use usbpcap_ai.Buffer.{NtStatus}
use usbpcap_ai.Device.{DeviceExtension, System}
use usbpcap_ai.Device.Data.{
  add_reference, allocate_device_data, drop_reference, end_allocation, free_device_data, take_root,
}
use usbpcap_ai.Device.Data.Counts.{Counted, references}
use usbpcap_ai.Device.Control.{create_root_hub_control_device, init_control}
use usbpcap_ai.Device.Attach.{
  add_control, add_created, add_device, add_hub_filter, attach_created, attach_tgt,
  create_and_attach_tgt, set_control, undo_device,
}
use usbpcap_ai.Device.Attach.Hub.{AttachesHub, add_device-Counted}
use usbpcap_ai.Device.Attach.Steps.{Reached, Reached-Counted, Rooted, Step}
use usbpcap_ai.Device.Samples.{
  with_hub-Reached, empty_system, answers, control_answers, hub, with_hub, child, with_child,
}

few : (r : ℕ) → references (hub ∷ []) r < 4294967295
few r = ground arith

child-Step : Step with_hub (hub ∷ []) with_child (child ∷ hub ∷ [])
unfolding create_and_attach_tgt attach_created attach_tgt allocate_device_data take_root
    end_allocation add_reference
child-Step = Step.attached [] hub [] (answers 20 6 none) NtStatus.success few refl

Reached-Counted_example : Counted with_child (child ∷ hub ∷ []) × Rooted (child ∷ hub ∷ [])
Reached-Counted_example =
    Reached-Counted with_child (child ∷ hub ∷ []) (Reached.stepped with_hub-Reached child-Step)

-- The symbolic link cannot be made.
add_device-Counted_example : AttachesHub (5 ∷ []) empty_system (references []) (
    add_device (answers 10 5 (some 1000)) (control_answers NtStatus.unsuccessful) empty_system true)
add_device-Counted_example =
    add_device-Counted (answers 10 5 (some 1000)) (control_answers NtStatus.unsuccessful)
      empty_system [] true 10 (λ a. refl) refl (λ r e. refl)

-- Then the filter is gone, and still on the stack of the root hub.
abbrev left_attached : Option (NtStatus × System × Option DeviceExtension) → List ℕ × List ℕ
left_attached none = ([], [])
left_attached (some (status, t, o)) = (t.objects, t.attached)

add_device_leaves :
    left_attached (
      add_device
        (answers 10 5 (some 1000))
        (control_answers NtStatus.unsuccessful)
        empty_system
        true)
    ≡ ([], 5 ∷ [])
unfolding add_device add_created add_hub_filter add_control set_control
    create_root_hub_control_device init_control allocate_device_data take_root end_allocation
    undo_device free_device_data drop_reference
add_device_leaves = refl
