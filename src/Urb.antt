-- ===== src/Urb.antt =====
-- USBPcapDriver/USBPcapURB.c: what the driver logs of the URBs that pass it.
-- This file has the URBs as the source reads them: a request of the USB bus driver interface, with
-- the fields that are used. The flags are USBD_TRANSFER_DIRECTION_IN (bit 0) and
-- USBD_DEFAULT_PIPE_TRANSFER (bit 3). The branches for Windows 8 and later are compiled in.
pub mod Setup
pub mod Packets
pub mod Interfaces
pub mod Analyze
pub mod Dispatch
pub mod Samples
mod Tests
use usbpcap_ai.Base.{ℕ, Bool, Option, none, some, List, ◌==◌, if◌then◌else◌, has_bit}
use usbpcap_ai.Tables.Endpoint.{EndpointInfo}

-- A transfer buffer: its length, the memory at its address, or NULL, and its MDL, or NULL; the
-- system may fail to map an MDL.
pub record Transfer : Type 0 where
  pub buffer_length : ℕ
  pub buffer : Option (List ℕ)
  pub mdl : Option (Option (List ℕ))

-- `USBPcapURBGetBufferPointer`
abbrev pub get_buffer_pointer : Transfer → Option (List ℕ)
get_buffer_pointer t = if t.buffer_length == 0 then none else elim t.buffer [
  | some memory ↦ some memory
  | none ↦ elim t.mdl [ none ↦ none | some address ↦ address ]
]

-- `struct _URB_CONTROL_TRANSFER`; a NULL pipe handle is 0.
pub record ControlTransfer : Type 0 where
  pub pipe_handle : ℕ
  pub transfer_flags : ℕ
  pub transfer : Transfer
  pub setup_packet : List ℕ

abbrev pub is_direction_in : ℕ → Bool
is_direction_in flags = has_bit flags 0

-- The functions of a descriptor request.
pub data DescriptorFunction : Type 0 where
  get_from_device get_from_endpoint get_from_interface : DescriptorFunction
  set_to_device set_to_endpoint set_to_interface : DescriptorFunction

-- `struct _URB_CONTROL_DESCRIPTOR_REQUEST`
pub record DescriptorRequest : Type 0 where
  pub index : ℕ
  pub descriptor_type : ℕ
  pub language_id : ℕ
  pub transfer : Transfer

-- The recipients of a status, vendor or class request.
pub data Recipient : Type 0 where
  to_device to_interface to_endpoint to_other : Recipient

-- `struct _URB_CONTROL_GET_STATUS_REQUEST`
pub record StatusRequest : Type 0 where
  pub index : ℕ
  pub transfer : Transfer

pub data RequestKind : Type 0 where
  vendor_request class_request : RequestKind

-- `struct _URB_CONTROL_VENDOR_OR_CLASS_REQUEST`
pub record VendorClassRequest : Type 0 where
  pub transfer_flags : ℕ
  pub transfer : Transfer
  pub request : ℕ
  pub value : ℕ
  pub index : ℕ

-- `struct _URB_BULK_OR_INTERRUPT_TRANSFER`
pub record BulkTransfer : Type 0 where
  pub pipe_handle : ℕ
  pub transfer : Transfer

-- `USBD_ISO_PACKET_DESCRIPTOR`
pub record IsoPacket : Type 0 where
  pub offset : ℕ
  pub length : ℕ
  pub status : ℕ

-- `struct _URB_ISOCH_TRANSFER`; NumberOfPackets is the number of packets.
pub record IsochTransfer : Type 0 where
  pub pipe_handle : ℕ
  pub transfer_flags : ℕ
  pub transfer : Transfer
  pub start_frame : ℕ
  pub error_count : ℕ
  pub packets : List IsoPacket

-- What the analysis of a URB reads beside its body: the numbers of the bus and of the device, the
-- address of the IRP, the status and function of the URB's header, and the endpoint of a pipe
-- handle (`USBPcapRetrieveEndpointInfo`).
pub record Context : Type 0 where
  pub bus_id : ℕ
  pub device_address : ℕ
  pub irp_id : ℕ
  pub status : ℕ
  pub function : ℕ
  pub retrieve : ℕ → Option EndpointInfo
