-- ===== src/Device/Data.antt =====
-- USBPcapDriver/USBPcapFilterManager.c: `USBPcapAllocateDeviceData` and `USBPcapFreeDeviceData`.
-- A result `none` is an access through NULL or to a block that was freed.
pub mod Counts
pub mod Allocates
use usbpcap_ai.Base.{ℕ, Bool, true, false, Option, none, some, ◌==◌, if◌then◌else◌}
use usbpcap_ai.Buffer.{NtStatus}
use usbpcap_ai.Filter.{zero_filter}
use usbpcap_ai.Device.{
  DeviceData, DeviceExtension, RootHubData, System, interlocked_decrement, interlocked_increment,
  put, root_of,
}

-- What the pool answers: whether there is room for the data of the device, the block for the root
-- hub data, and whether the two tables could be allocated.
pub record Allocation : Type 0 where
  pub room : Bool
  pub root_block : Option ℕ
  pub endpoint_room : Bool
  pub urb_irp_room : Bool

-- The root hub data as a new root hub has them.
abbrev pub new_root_hub_data : RootHubData
new_root_hub_data = record {
  ring = record {
    buffer = none;
    buffer_size = 0;
    read_offset = 0;
    write_offset = 0;
    snaplen = 65535;
  };
  filter = zero_filter;
  ref_count = 1;
  bus_id = 0;
  control_device = none;
}

abbrev pub with_roots : System → (ℕ → Option RootHubData) → System
with_roots s f = record s { roots = f }

abbrev pub set_root : System → ℕ → Option RootHubData → System
set_root s a o = with_roots s (put s.roots a o)

-- The root hub data with a reference fewer, freed with the last one, and with a reference more.
abbrev pub one_less : RootHubData → Option RootHubData
one_less d =
    let count = interlocked_decrement d.ref_count in
    if count == 0 then none else some (record d { ref_count = count })

abbrev pub one_more : RootHubData → RootHubData
one_more d = record d { ref_count = interlocked_increment d.ref_count }

unfoldable pub drop_reference : System → Option ℕ → Option System
drop_reference s none = some s
drop_reference s (some a) = elim (s.roots a) [
  | none ↦ none
  | some d ↦ some (set_root s a (one_less d))
]

abbrev pub with_data : DeviceExtension → Option DeviceData → DeviceExtension
with_data x o = record x { data_of_usb = o }

-- `USBPcapFreeDeviceData`
unfoldable pub free_device_data : System → DeviceExtension → Option (System × DeviceExtension)
free_device_data s x = elim x.data_of_usb [
  | none ↦ some (s, x)
  | some d ↦ elim (drop_reference s d.root_data) [
    | none ↦ none
    | some freed ↦ some (freed, with_data x none)
  ]
]

-- `InterlockedIncrement` on the reference count of the parent's root hub data.
unfoldable pub add_reference : System → Option ℕ → Option (Option ℕ × System)
add_reference s none = none
add_reference s (some a) = elim (s.roots a) [
  | none ↦ none
  | some d ↦ some (some a, set_root s a (some (one_more d)))
]

-- `pRootData` of the new data: new root hub data without a parent, the parent's with one.
unfoldable pub take_root : Allocation → System → Option DeviceExtension → Option (Option ℕ × System)
take_root m s (some parent) = add_reference s (root_of parent.data_of_usb)
take_root m s none = elim m.root_block [
  | none ↦ some (none, s)
  | some a ↦ some (some a, set_root s a (some new_root_hub_data))
]

abbrev pub is_none {ℓ} : {A : Type ℓ} → Option A → Bool
is_none none = true
is_none (some a) = false

abbrev pub new_device_data : Allocation → Bool → Option ℕ → DeviceData
new_device_data m is_root root = record {
  parent_flt = none;
  next_parent_flt = none;
  previous_children = none;
  proper_data = false;
  parent_port = 0;
  is_hub = is_root;
  device_address = 255;
  has_endpoint_table = m.endpoint_room;
  has_urb_irp_table = m.urb_irp_room;
  root_data = root;
}

-- The objects of the parent, which the data of a device other than a root hub have.
abbrev pub with_parent : Option DeviceExtension → DeviceData → DeviceData
with_parent none d = d
with_parent (some p) d = record d { parent_flt = p.this_obj; next_parent_flt = p.next_obj }

abbrev pub child_data : Allocation → Option DeviceExtension → ℕ → DeviceData
child_data m parent a = with_parent parent (new_device_data m (is_none parent) (some a))

-- The end of the allocation: data without root hub data are freed again.
unfoldable pub end_allocation :
    Allocation
    → System
    → DeviceExtension
    → Option DeviceExtension
    → Option ℕ
    → Option (NtStatus × System × DeviceExtension)
end_allocation m s x parent (some a) =
    some (NtStatus.success, s, with_data x (some (child_data m parent a)))
end_allocation m s x parent none =
    let d = new_device_data m (is_none parent) none in
    elim (free_device_data s (with_data x (some d))) [
      | none ↦ none
      | some (freed, y) ↦ some (NtStatus.insufficient_resources, freed, y)
    ]

-- `USBPcapAllocateDeviceData`: the status, and the system and the extension after.
unfoldable pub allocate_device_data :
    Allocation
    → System
    → DeviceExtension
    → Option DeviceExtension
    → Option (NtStatus × System × DeviceExtension)
allocate_device_data m s x parent =
    if m.room
    then (elim (take_root m s parent) [
      | none ↦ none
      | some (root, taken) ↦ end_allocation m taken x parent root
    ])
    else some (NtStatus.insufficient_resources, s, with_data x none)
