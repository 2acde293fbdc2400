-- ===== src/Device.antt =====
-- The device objects of the driver: USBPcapDriver/USBPcapMain.h (`DEVICE_EXTENSION`,
-- `USBPCAP_DEVICE_DATA`, `USBPCAP_ROOTHUB_DATA`). `Data` allocates and frees the data of a device,
-- `Control` creates the control device of a root hub, `Attach` attaches and detaches the filters,
-- `Forward`, `Relations` and `Pnp` handle the requests that the system sends to them, `Start` asks
-- the hub for the address of a device. A pointer is the address of its block. The remove lock of a
-- device object is the count of its acquires that are not released.
pub mod Data
pub mod Control
pub mod Attach
pub mod Forward
pub mod Start
pub mod Relations
pub mod Pnp
mod Samples
mod Tests
use usbpcap_ai.Base.{
  ℕ, suc, ◌+◌, ◌-◌, ◌%◌, Bool, Option, none, some, List, [], ◌∷◌, ◌==◌, if◌then◌else◌,
}
use usbpcap_ai.Control.{DeviceMagic}
use usbpcap_ai.Buffer.{RingData}
use usbpcap_ai.Filter.{AddressFilter}

-- The control device of a root hub: its device object, `context.control.id`, `removeLock` and
-- `parentRemoveLock`.
pub record ControlDevice : Type 0 where
  pub this_obj : ℕ
  pub id : ℕ
  pub remove_lock : ℕ
  pub parent_lock : ℕ

-- `USBPCAP_ROOTHUB_DATA`
pub record RootHubData : Type 0 where
  pub ring : RingData
  pub filter : AddressFilter
  pub ref_count : ℕ
  pub bus_id : ℕ
  pub control_device : Option ControlDevice

-- `USBPCAP_DEVICE_DATA`; of the tables, whether they were allocated.
pub record DeviceData : Type 0 where
  pub parent_flt : Option ℕ
  pub next_parent_flt : Option ℕ
  pub previous_children : Option (List ℕ)
  pub proper_data : Bool
  pub parent_port : ℕ
  pub is_hub : Bool
  pub device_address : ℕ
  pub has_endpoint_table : Bool
  pub has_urb_irp_table : Bool
  pub root_data : Option ℕ

-- `DEVICE_EXTENSION`: `deviceMagic`, `pThisDevObj`, `pNextDevObj`, the address of `removeLock`,
-- which is that of the device object here, `parentRemoveLock`, and `context.usb.pDeviceData`.
pub record DeviceExtension : Type 0 where
  pub magic : DeviceMagic
  pub this_obj : Option ℕ
  pub next_obj : Option ℕ
  pub remove_lock : ℕ
  pub parent_lock : Option ℕ
  pub data_of_usb : Option DeviceData

-- What the driver has in the system: the root hub data by address, the acquires of each remove
-- lock, the device objects that exist, the objects of other drivers that a filter is attached to, the
-- ids whose symbolic link exists, and `g_controlId`.
pub record System : Type 0 where
  pub roots : ℕ → Option RootHubData
  pub held : ℕ → ℕ
  pub objects : List ℕ
  pub attached : List ℕ
  pub links : List ℕ
  pub control_id : ℕ

abbrev pub put {ℓ} : {A : Type ℓ} → (ℕ → A) → ℕ → A → ℕ → A
put f a v b = if b == a then v else f b

-- The list without the first occurrence of an address.
abbrev pub remove : ℕ → List ℕ → List ℕ
remove a [] = []
remove a (b ∷ bs) = if b == a then bs else b ∷ remove a bs

-- `InterlockedIncrement` and `InterlockedDecrement` on 32 bits: the new value.
abbrev pub interlocked_increment : ℕ → ℕ
interlocked_increment n = (n + 1) % 4294967296

abbrev pub interlocked_decrement : ℕ → ℕ
interlocked_decrement n = (n + 4294967295) % 4294967296

-- `pDeviceData->pRootData`, where there are data.
abbrev pub root_of : Option DeviceData → Option ℕ
root_of none = none
root_of (some d) = d.root_data

-- `IoAcquireRemoveLock`, which counts where it succeeds, and `IoReleaseRemoveLock`.
abbrev pub acquire_lock : Bool → System → ℕ → System
acquire_lock acquired s a = record s {
  held = put s.held a (if acquired then suc (s.held a) else s.held a);
}

abbrev pub release_lock : System → ℕ → System
release_lock s a = record s { held = put s.held a (s.held a - 1) }

-- `IoInitializeRemoveLock`
abbrev pub init_lock : System → ℕ → System
init_lock s a = record s { held = put s.held a 0 }

-- `IoDeleteDevice`
abbrev pub delete_object : System → ℕ → System
delete_object s a = record s { objects = remove a s.objects }

abbrev pub add_object : System → ℕ → System
add_object s a = record s { objects = a ∷ s.objects }
