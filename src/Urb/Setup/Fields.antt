-- ===== src/Urb/Setup/Fields.antt =====
-- The setup packets of USBPcapDriver/USBPcapURB.c against the format of a USB setup packet:
-- bmRequestType, bRequest, wValue, wIndex, wLength.
use usbpcap_ai.Base.{
  ℕ, ◌+◌, ◌*◌, ◌/◌, ◌%◌, ◌<◌, ◌≡◌, refl, Bool, true, false, Option, none, some, List, [], ◌∷◌,
  if◌then◌else◌, of_le16, has_bit, set_bit, u16_mod, arith, ◌==◌,
}
use usbpcap_ai.Urb.{
  DescriptorFunction, DescriptorRequest, Recipient, RequestKind, VendorClassRequest,
  is_direction_in,
}
use usbpcap_ai.Urb.Setup.{recipient_bits, wrap_descriptor, wrap_vendor_class}

-- A setup packet read by its fields: bit 7 of the first byte is the direction, bits 5 and 6 the
-- type, the others the recipient.
pub record SetupFields : Type 0 where
  pub from_device : Bool
  pub kind : ℕ
  pub recipient : ℕ
  pub request : ℕ
  pub value : ℕ
  pub index : ℕ
  pub size : ℕ

abbrev pub read_setup : List ℕ → Option SetupFields
read_setup (t ∷ r ∷ v ∷ w ∷ i ∷ j ∷ l ∷ m ∷ []) = some (record {
  from_device = t / 128 % 2 == 1;
  kind = t / 32 % 4;
  recipient = t % 32;
  request = r;
  value = of_le16 v w;
  index = of_le16 i j;
  size = of_le16 l m;
})
read_setup _ = none

abbrev pub kind_code : RequestKind → ℕ
kind_code RequestKind.class_request = 1
kind_code RequestKind.vendor_request = 2

-- The setup packet of a vendor or class request reads back as the direction of its flags, its
-- kind and recipient, its request, value and index, and its length cut to 16 bits.
pub wrap_vendor_class-fields :
    (kind : RequestKind) (recipient : Recipient) (r : VendorClassRequest)
    → r.value < u16_mod
    → r.index < u16_mod
    → read_setup (wrap_vendor_class kind recipient r).setup_packet
      ≡ some (record {
        from_device = is_direction_in r.transfer_flags;
        kind = kind_code kind;
        recipient = recipient_bits recipient;
        request = r.request;
        value = r.value;
        index = r.index;
        size = r.transfer.buffer_length % u16_mod;
      })
unfolding wrap_vendor_class set_bit
wrap_vendor_class-fields RequestKind.vendor_request Recipient.to_device r v i = ground arith
wrap_vendor_class-fields RequestKind.vendor_request Recipient.to_interface r v i = ground arith
wrap_vendor_class-fields RequestKind.vendor_request Recipient.to_endpoint r v i = ground arith
wrap_vendor_class-fields RequestKind.vendor_request Recipient.to_other r v i = ground arith
wrap_vendor_class-fields RequestKind.class_request Recipient.to_device r v i = ground arith
wrap_vendor_class-fields RequestKind.class_request Recipient.to_interface r v i = ground arith
wrap_vendor_class-fields RequestKind.class_request Recipient.to_endpoint r v i = ground arith
wrap_vendor_class-fields RequestKind.class_request Recipient.to_other r v i = ground arith

abbrev pub descriptor_recipient : DescriptorFunction → Recipient
descriptor_recipient DescriptorFunction.get_from_device = Recipient.to_device
descriptor_recipient DescriptorFunction.get_from_endpoint = Recipient.to_endpoint
descriptor_recipient DescriptorFunction.get_from_interface = Recipient.to_interface
descriptor_recipient DescriptorFunction.set_to_device = Recipient.to_device
descriptor_recipient DescriptorFunction.set_to_endpoint = Recipient.to_endpoint
descriptor_recipient DescriptorFunction.set_to_interface = Recipient.to_interface

abbrev pub is_get : DescriptorFunction → Bool
is_get DescriptorFunction.get_from_device = true
is_get DescriptorFunction.get_from_endpoint = true
is_get DescriptorFunction.get_from_interface = true
is_get _ = false

-- The setup packet of a descriptor request is GET_DESCRIPTOR or SET_DESCRIPTOR, of the standard
-- kind, with the direction that the flags of the transfer have: its value is the type and index
-- of the descriptor, its index the language, its length that of the buffer cut to 16 bits.
pub wrap_descriptor-fields :
    (f : DescriptorFunction) (r : DescriptorRequest)
    → r.language_id < u16_mod
    → (read_setup (wrap_descriptor f r).setup_packet
        ≡ some (record {
          from_device = is_get f;
          kind = 0;
          recipient = recipient_bits (descriptor_recipient f);
          request = if is_get f then 6 else 7;
          value = r.descriptor_type * 256 + r.index;
          index = r.language_id;
          size = r.transfer.buffer_length % u16_mod;
        }))
      × (is_direction_in (wrap_descriptor f r).transfer_flags ≡ is_get f)
unfolding wrap_descriptor has_bit
wrap_descriptor-fields DescriptorFunction.get_from_device r l = (ground arith, refl)
wrap_descriptor-fields DescriptorFunction.get_from_endpoint r l = (ground arith, refl)
wrap_descriptor-fields DescriptorFunction.get_from_interface r l = (ground arith, refl)
wrap_descriptor-fields DescriptorFunction.set_to_device r l = (ground arith, refl)
wrap_descriptor-fields DescriptorFunction.set_to_endpoint r l = (ground arith, refl)
wrap_descriptor-fields DescriptorFunction.set_to_interface r l = (ground arith, refl)
