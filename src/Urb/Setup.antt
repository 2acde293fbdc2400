-- ===== src/Urb/Setup.antt =====
-- USBPcapDriver/USBPcapURB.c: the requests that are logged as control transfers (`wrapTransfer`),
-- with the setup packet that they stand for.
pub mod Fields
use usbpcap_ai.Base.{
  ℕ, ◌/◌, ◌%◌, Bool, Option, none, some, List, [], ◌∷◌, ◌++◌, if◌then◌else◌, has_bit, set_bit, le16,
}
use usbpcap_ai.Urb.{
  ControlTransfer, DescriptorFunction, DescriptorRequest, Recipient, RequestKind, StatusRequest,
  Transfer, VendorClassRequest, is_direction_in,
}

-- The low and the high byte of a 16-bit field: `x & 0x00FF` and `(x & 0xFF00) >> 8`.
abbrev pub word_bytes : ℕ → List ℕ
word_bytes x = x % 256 ∷ x / 256 % 256 ∷ []

abbrev pub no_transfer : Transfer
no_transfer = record { buffer_length = 0; buffer = none; mdl = none }

-- The transfer for URB_FUNCTION_SELECT_CONFIGURATION, with the configuration's value, if any.
unfoldable pub wrap_select_configuration : Option ℕ → ControlTransfer
wrap_select_configuration value = record {
  pipe_handle = 0;
  transfer_flags = 0;
  transfer = no_transfer;
  setup_packet =
      0
      ∷ 0x09
      ∷ (elim value [ none ↦ 0 | some configuration ↦ configuration ])
      ∷ 0
      ∷ 0
      ∷ 0
      ∷ 0
      ∷ 0
      ∷ [];
}

-- The transfer for URB_FUNCTION_SELECT_INTERFACE, with the setting and number of the interface.
unfoldable pub wrap_select_interface : ℕ → ℕ → ControlTransfer
wrap_select_interface alternate_setting interface_number = record {
  pipe_handle = 0;
  transfer_flags = 0;
  transfer = no_transfer;
  setup_packet = 0 ∷ 0x0B ∷ alternate_setting ∷ 0 ∷ interface_number ∷ 0 ∷ 0 ∷ 0 ∷ [];
}

-- The first two bytes of the setup packet and the direction for a descriptor request.
abbrev pub descriptor_flags : DescriptorFunction → ℕ
descriptor_flags DescriptorFunction.get_from_device = 1
descriptor_flags DescriptorFunction.get_from_endpoint = 1
descriptor_flags DescriptorFunction.get_from_interface = 1
descriptor_flags DescriptorFunction.set_to_device = 0
descriptor_flags DescriptorFunction.set_to_endpoint = 0
descriptor_flags DescriptorFunction.set_to_interface = 0

abbrev pub descriptor_setup : DescriptorFunction → List ℕ
descriptor_setup DescriptorFunction.get_from_device = 0x80 ∷ 0x06 ∷ []
descriptor_setup DescriptorFunction.get_from_endpoint = 0x82 ∷ 0x06 ∷ []
descriptor_setup DescriptorFunction.get_from_interface = 0x81 ∷ 0x06 ∷ []
descriptor_setup DescriptorFunction.set_to_device = 0x00 ∷ 0x07 ∷ []
descriptor_setup DescriptorFunction.set_to_endpoint = 0x02 ∷ 0x07 ∷ []
descriptor_setup DescriptorFunction.set_to_interface = 0x01 ∷ 0x07 ∷ []

-- The transfer for URB_FUNCTION_GET_DESCRIPTOR_FROM_… and URB_FUNCTION_SET_DESCRIPTOR_TO_….
unfoldable pub wrap_descriptor : DescriptorFunction → DescriptorRequest → ControlTransfer
wrap_descriptor function r = record {
  pipe_handle = 0;
  transfer_flags = descriptor_flags function;
  transfer = r.transfer;
  setup_packet =
      descriptor_setup function
      ++ (r.index ∷ r.descriptor_type ∷ [])
      ++ word_bytes r.language_id
      ++ word_bytes r.transfer.buffer_length;
}

-- D4-D0 of the request type.
abbrev pub recipient_bits : Recipient → ℕ
recipient_bits Recipient.to_device = 0
recipient_bits Recipient.to_interface = 1
recipient_bits Recipient.to_endpoint = 2
recipient_bits Recipient.to_other = 3

abbrev pub status_setup : Recipient → ℕ
status_setup Recipient.to_device = 0x80
status_setup Recipient.to_interface = 0x81
status_setup Recipient.to_endpoint = 0x82
status_setup Recipient.to_other = 0x83

-- The transfer for URB_FUNCTION_GET_STATUS_FROM_….
unfoldable pub wrap_status : Recipient → StatusRequest → ControlTransfer
wrap_status recipient r = record {
  pipe_handle = 0;
  transfer_flags = 1;
  transfer = r.transfer;
  setup_packet =
      (status_setup recipient ∷ 0 ∷ 0 ∷ 0 ∷ [])
      ++ word_bytes r.index
      ++ word_bytes r.transfer.buffer_length;
}

-- D6-D0 of the request type of a vendor or class request.
abbrev pub vendor_class_setup : RequestKind → Recipient → ℕ
vendor_class_setup RequestKind.vendor_request Recipient.to_device = 0x40
vendor_class_setup RequestKind.vendor_request Recipient.to_interface = 0x41
vendor_class_setup RequestKind.vendor_request Recipient.to_endpoint = 0x42
vendor_class_setup RequestKind.vendor_request Recipient.to_other = 0x43
vendor_class_setup RequestKind.class_request Recipient.to_device = 0x20
vendor_class_setup RequestKind.class_request Recipient.to_interface = 0x21
vendor_class_setup RequestKind.class_request Recipient.to_endpoint = 0x22
vendor_class_setup RequestKind.class_request Recipient.to_other = 0x23

-- The transfer for URB_FUNCTION_VENDOR_… and URB_FUNCTION_CLASS_….
unfoldable pub wrap_vendor_class : RequestKind → Recipient → VendorClassRequest → ControlTransfer
wrap_vendor_class kind recipient r =
    let request_type = vendor_class_setup kind recipient in
    record {
      pipe_handle = 0;
      transfer_flags = r.transfer_flags;
      transfer = r.transfer;
      setup_packet =
          ((if is_direction_in r.transfer_flags then set_bit request_type 7 else request_type)
            ∷ r.request
            ∷ [])
          ++ word_bytes r.value
          ++ word_bytes r.index
          ++ word_bytes r.transfer.buffer_length;
    }
