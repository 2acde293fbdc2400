-- ===== src/Device/Start.antt =====
-- USBPcapDriver/USBPcapHelperFunctions.c: `USBPcapGetDeviceUSBInfo` with the calls it makes to find
-- the port of a device (`USBPcapGetNumberOfPorts`, `USBPcapGetTargetDevicePort`) and what is at it
-- (`USBPcapGetNodeInformation`). What the hub and the registry answer is given.
pub mod Info
use usbpcap_ai.Base.{
  ℕ, zero, suc, ◌+◌, Bool, true, false, Option, none, some, List, [], ◌==◌, if◌then◌else◌,
}
use usbpcap_ai.Buffer.{NtStatus, nt_success}
use usbpcap_ai.Filter.{pos, AddressFilter, is_device_filtered, set_device_filtered}
use usbpcap_ai.Device.{DeviceData, DeviceExtension, RootHubData, System, put}
use usbpcap_ai.Device.Data.{set_root, with_data}
use usbpcap_ai.Device.Forward.{wait_for}

-- A control request to the hub: whether there was memory for it, and the statuses of the call.
pub record HubCall : Type 0 where
  pub room : Bool
  pub called : NtStatus
  pub final : NtStatus

abbrev pub call_status : HubCall → NtStatus
call_status c = if c.room then wait_for c.called c.final else NtStatus.insufficient_resources

-- `USB_NODE_INFORMATION`: a hub with its ports, or a composite device with its interfaces.
pub data NodeInformation : Type 0 where
  usb_hub mi_parent : ℕ → NodeInformation

abbrev pub ports_of : NodeInformation → ℕ
ports_of (NodeInformation.usb_hub n) = n
ports_of (NodeInformation.mi_parent n) = n

-- `IoGetDeviceProperty` for the driver key with an empty buffer: STATUS_BUFFER_TOO_SMALL with the
-- length, or another status.
pub data KeyLength : Type 0 where
  too_small : ℕ → KeyLength
  answered : NtStatus → KeyLength

-- What is asked for a device that starts: its physical device object, the length of its driver key,
-- whether there is memory for it, its driver key and those of the ports, where they can be had, and
-- what is connected at a port.
pub record StartAnswers : Type 0 where
  pub pdo_status : NtStatus
  pub node_call : HubCall
  pub node : NodeInformation
  pub key_length : KeyLength
  pub key_room : Bool
  pub key_status : NtStatus
  pub key : List ℕ
  pub port_key : ℕ → Option (List ℕ)
  pub connection_call : HubCall
  pub connected_is_hub : ℕ → Bool
  pub connected_address : ℕ → ℕ

-- `USBPcapGetNumberOfPorts` of the hub, which may be NULL: the status and `*numberOfPorts`.
unfoldable pub get_number_of_ports : StartAnswers → Option ℕ → Option (NtStatus × ℕ)
get_number_of_ports q none = none
get_number_of_ports q (some hub) = some (call_status q.node_call, ports_of q.node)

-- `USBPcapGetPDODriverKey` from its length on: the status and the key. The allocation is not
-- checked: without memory it writes to NULL or frees it.
unfoldable pub get_sized_key : StartAnswers → ℕ → Option (NtStatus × List ℕ)
get_sized_key q length =
    if length == 0
    then some (NtStatus.invalid_device_request, [])
    else if q.key_room
    then some (q.key_status, if nt_success q.key_status then q.key else [])
    else none

-- `USBPcapGetPDODriverKey`
unfoldable pub get_pdo_driver_key : StartAnswers → Option (NtStatus × List ℕ)
get_pdo_driver_key q = elim q.key_length [
  | KeyLength.too_small length ↦ get_sized_key q length
  | KeyLength.answered status ↦
      some (if nt_success status then NtStatus.invalid_device_request else status, [])
]

-- A new device is filtered where capture from new devices is enabled, which is bit 0.
abbrev pub filter_new : AddressFilter → ℕ → AddressFilter
filter_new f address =
    if is_device_filtered f (pos 0) then (set_device_filtered f (pos address)).1 else f

abbrev pub with_filter_new : RootHubData → ℕ → RootHubData
with_filter_new d address = record d { filter = filter_new d.filter address }

abbrev pub placed_at : DeviceData → ℕ → DeviceData
placed_at d port = record d { parent_port = port }

abbrev pub known_at : StartAnswers → DeviceData → ℕ → DeviceData
known_at q d port = record (placed_at d port) {
  proper_data = true;
  is_hub = q.connected_is_hub port;
  device_address = q.connected_address port;
}

-- The address of the device at the filter of its root hub, which must be there.
unfoldable pub filter_started :
    NtStatus
    → System
    → DeviceExtension
    → ℕ
    → Option ℕ
    → Option (NtStatus × System × DeviceExtension)
filter_started status s y address none = none
filter_started status s y address (some a) = elim (s.roots a) [
  | none ↦ none
  | some r ↦ some (status, set_root s a (some (with_filter_new r address)), y)
]

-- The data of a device at a port of the hub, after `USBPcapGetNodeInformation`.
unfoldable pub start_at :
    StartAnswers
    → System
    → DeviceExtension
    → DeviceData
    → ℕ
    → Option ℕ
    → Option (NtStatus × System × DeviceExtension)
start_at q s x d port none = none
start_at q s x d port (some hub) =
    let status = call_status q.connection_call in
    let y = with_data x (some (known_at q d port)) in
    if nt_success status
    then filter_started status s y (q.connected_address port) d.root_data
    else some (status, s, with_data x (some (placed_at d port)))

unfoldable pub start_found :
    StartAnswers
    → System
    → DeviceExtension
    → DeviceData
    → NtStatus
    → Option ℕ
    → Option (NtStatus × System × DeviceExtension)
start_found q s x d status none = some (status, s, x)
start_found q s x d status (some port) = start_at q s x d port d.next_parent_flt

-- `RtlEqualUnicodeString` without regard to case is the system's.
module _ (equal_text : List ℕ → List ℕ → Bool) where
  abbrev pub is_key : StartAnswers → List ℕ → ℕ → Bool
  is_key q key i = elim (q.port_key i) [ none ↦ false | some text ↦ equal_text key text ]

  -- The loop of `USBPcapGetTargetDevicePort`, of which `left` rounds are left.
  unfoldable pub find_port : StartAnswers → List ℕ → ℕ → ℕ → Option ℕ
  find_port q key zero i = none
  find_port q key (suc left) i = if is_key q key i then some i else find_port q key left (suc i)

  -- `USBPcapGetTargetDevicePort` with the number of ports and the key: the status, and the port where
  -- it is found.
  unfoldable pub port_with_key : StartAnswers → ℕ → NtStatus → List ℕ → NtStatus × Option ℕ
  port_with_key q ports status key =
      if nt_success status
      then (elim (find_port q key ports 1) [
        | none ↦ (NtStatus.not_found, none)
        | some port ↦ (NtStatus.success, some port)
      ])
      else (status, none)

  -- `USBPcapGetTargetDevicePort` of the hub.
  unfoldable pub get_target_device_port : StartAnswers → Option ℕ → Option (NtStatus × Option ℕ)
  get_target_device_port q hub = elim (get_number_of_ports q hub) [
    | none ↦ none
    | some (status, ports) ↦
        let with_key : Option (NtStatus × Option ℕ) = elim (get_pdo_driver_key q) [
          | none ↦ none
          | some (key_status, key) ↦ some (port_with_key q ports key_status key)
        ] in
        if nt_success status then with_key else some (status, none)
  ]

  -- `USBPcapGetTargetDevicePdo` of the next device object, and the port at the hub.
  unfoldable pub port_below : StartAnswers → Option ℕ → Option ℕ → Option (NtStatus × Option ℕ)
  port_below q hub none = none
  port_below q hub (some next) =
      let found = get_target_device_port q hub in
      if nt_success q.pdo_status then found else some (q.pdo_status, none)

  -- The port of the device: the one it has, or the one that is found.
  unfoldable pub port_of : StartAnswers → Option ℕ → DeviceData → Option (NtStatus × Option ℕ)
  port_of q next d =
      let found = port_below q d.next_parent_flt next in
      if d.parent_port == 0 then found else some (NtStatus.success, some d.parent_port)

  unfoldable pub start_with :
      StartAnswers
      → System
      → DeviceExtension
      → Option DeviceData
      → Option (NtStatus × System × DeviceExtension)
  start_with q s x none = none
  start_with q s x (some d) = elim (port_of q x.next_obj d) [
    | none ↦ none
    | some (status, port) ↦ start_found q s x d status port
  ]

  -- `USBPcapGetDeviceUSBInfo`; `none` is an access through NULL or to data that were freed.
  unfoldable pub get_device_usb_info :
      StartAnswers → System → DeviceExtension → Option (NtStatus × System × DeviceExtension)
  get_device_usb_info q s x = start_with q s x x.data_of_usb
