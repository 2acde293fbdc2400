-- ===== src/Urb/Analyze/Complete.antt =====
-- What `USBPcapAnalyzeURB` of USBPcapDriver/USBPcapURB.c logs.
use usbpcap_ai.Base.{
  ℕ, ◌≡◌, refl, Bool, true, false, Option, none, some, List, [], ◌∷◌, ◌++◌, IfSome, Bool-cases,
  Option-cases, inl, inr, length, if◌then◌else◌, arith,
}
use usbpcap_ai.Format.Codec.{length-packet_header_bytes}
use usbpcap_ai.Filter.{is_device_filtered, pos}
use usbpcap_ai.Buffer.Irp.Stream.{Call, logs, reads}
use usbpcap_ai.Tables.Generic.{GenericTable}
use usbpcap_ai.Tables.Endpoint.{EndpointInfo, endpoint_key}
use usbpcap_ai.Tables.UrbIrp.{UrbIrpInfo, urb_irp_key}
use usbpcap_ai.Urb.{Context, ControlTransfer, DescriptorFunction, DescriptorRequest, Transfer}
use usbpcap_ai.Urb.Setup.{
  no_transfer, wrap_descriptor, wrap_select_configuration, wrap_select_interface, wrap_status,
  wrap_vendor_class,
}
use usbpcap_ai.Urb.Packets.{Packet, control_packet, unknown_packet}
use usbpcap_ai.Urb.Packets.Complete.{
  IsComplete, IsControl, IsTransfer, bulk_packet-IsComplete, control_packet-IsComplete,
  frame_packet-IsComplete, one_entry-IsComplete, pipe_packet-IsComplete, unknown_packet-IsComplete,
}
use usbpcap_ai.Urb.Packets.Isoch.Compact.{IsIsoch}
use usbpcap_ai.Urb.Packets.Isoch.Gathered.{IsWhole, isoch_packet-IsComplete}
use usbpcap_ai.Urb.Interfaces.{Memory}
use usbpcap_ai.Urb.Analyze.{
  Device, Resources, Sizes, Urb, UrbBody, control_of, interface_transfer, analyze_always,
  analyze_urb, context, obtain, packet_calls, packet_of, selected_interface, submit_calls,
  submit_header,
}

-- The memory that a URB names is there.
abbrev pub IsBody : UrbBody → Type 0
IsBody (UrbBody.control_transfer t) = IsControl t
IsBody (UrbBody.descriptor_request function r) = IsTransfer r.transfer
IsBody (UrbBody.status_request recipient r) = IsTransfer r.transfer
IsBody (UrbBody.vendor_class_request kind recipient r) = IsTransfer r.transfer
IsBody (UrbBody.bulk_or_interrupt t) = IsTransfer t.transfer
IsBody (UrbBody.isoch_transfer t) = IsIsoch t
IsBody _ = Unit {0}

-- A call that logs a complete packet.
abbrev pub IsCompleteCall : Call → Type 0
IsCompleteCall (reads p read_length) = Unit {0}
IsCompleteCall (logs timestamp header payload) = IsComplete header payload

abbrev pub AreCompleteCalls : List Call → Type 0
AreCompleteCalls [] = Unit {0}
AreCompleteCalls (c ∷ cs) = IsCompleteCall c × AreCompleteCalls cs

pub AreCompleteCalls-append :
    (xs ys : List Call) → AreCompleteCalls xs → AreCompleteCalls ys → AreCompleteCalls (xs ++ ys)
AreCompleteCalls-append [] ys v w = w
AreCompleteCalls-append (x ∷ xs) ys v w = (v.0, AreCompleteCalls-append xs ys v.1 w)

no_transfer-IsTransfer : IsTransfer no_transfer
no_transfer-IsTransfer = record { fits = omega arith; small = omega arith }

wrapped :
    (c : Context) (t : Transfer) (flags : ℕ) (setup : List ℕ) (post : Bool)
    → IsTransfer t
    → length setup ≡ 8
    → IsWhole (
        control_packet c
          (record { pipe_handle = 0; transfer_flags = flags; transfer = t; setup_packet = setup })
          post)
wrapped c t flags setup post v eight =
    control_packet-IsComplete c _ post (record { valid = v; eight = eight })

submit_calls-AreCompleteCalls :
    (found : Option UrbIrpInfo) (irp : ℕ) → AreCompleteCalls (submit_calls found irp)
submit_calls-AreCompleteCalls none irp = tt
submit_calls-AreCompleteCalls (some i) irp = (
  one_entry-IsComplete _ 0 none (length-packet_header_bytes (submit_header i irp)) refl
      (omega arith) (omega arith),
  tt,
)

packet_calls-AreCompleteCalls :
    (now : ℕ) (o : Option Packet) → IfSome IsWhole o → AreCompleteCalls (packet_calls now o)
packet_calls-AreCompleteCalls now none v = tt
packet_calls-AreCompleteCalls now (some p) v = (v, tt)

interface_transfer-IsControl : (o : Option (ℕ × ℕ)) → IfSome IsControl (interface_transfer o)
unfolding wrap_select_interface
interface_transfer-IsControl none = tt
interface_transfer-IsControl (some (setting, number)) = record {
  valid = no_transfer-IsTransfer;
  eight = refl;
}

control_of-IsWhole :
    (c : Context) (post : Bool) (o : Option ControlTransfer)
    → IfSome IsControl o
    → IfSome IsWhole (control_of c post o)
control_of-IsWhole c post none v = tt
control_of-IsWhole c post (some t) v = control_packet-IsComplete c t post v

wrap_descriptor-IsControl :
    (f : DescriptorFunction) (r : DescriptorRequest)
    → IsTransfer r.transfer
    → IsControl (wrap_descriptor f r)
unfolding wrap_descriptor
wrap_descriptor-IsControl f r v = record { valid = v; eight = eight f }
  where
    eight : (g : DescriptorFunction) → length (wrap_descriptor g r).setup_packet ≡ 8
    eight DescriptorFunction.get_from_device = refl
    eight DescriptorFunction.get_from_endpoint = refl
    eight DescriptorFunction.get_from_interface = refl
    eight DescriptorFunction.set_to_device = refl
    eight DescriptorFunction.set_to_endpoint = refl
    eight DescriptorFunction.set_to_interface = refl

module _ (E : GenericTable EndpointInfo endpoint_key) (U : GenericTable UrbIrpInfo urb_irp_key)
    (sizes : Sizes) (find_interface : List ℕ → ℕ → ℕ → Option (ℕ × ℕ)) where
  selected :
      (descriptor : Option (List ℕ)) (m : Memory)
      → IfSome IsControl (selected_interface E U sizes find_interface descriptor m)
  selected none m = tt
  selected (some stored) m = interface_transfer-IsControl _

  -- The packet for a URB is complete.
  packet_of-IsWhole :
      (r : Resources) (d : Device E U sizes find_interface) (irp : ℕ) (urb : Urb) (post : Bool)
      → IsBody urb.body
      → IfSome IsWhole (packet_of E U sizes find_interface r d irp urb post)
  unfolding packet_of wrap_descriptor wrap_select_configuration wrap_select_interface wrap_status
      wrap_vendor_class
  packet_of-IsWhole r d irp urb post v = go urb.body v
    where
      unknown :
          (b : Bool)
          → IfSome IsWhole (
              if b
              then some (unknown_packet (context E U sizes find_interface d irp urb))
              else none)
      unknown true = unknown_packet-IsComplete _
      unknown false = tt

      go :
          (b : UrbBody)
          → IsBody b
          → IfSome IsWhole
              (packet_of E U sizes find_interface r d irp (record urb { body = b }) post)
      go (UrbBody.select_configuration m descriptor) w =
          wrapped _ no_transfer 0 _ post no_transfer-IsTransfer refl
      go (UrbBody.select_interface m) w = control_of-IsWhole _ post _ (selected d.descriptor m)
      go (UrbBody.control_transfer t) w = control_packet-IsComplete _ t post w
      go (UrbBody.descriptor_request function t) w =
          control_packet-IsComplete _ (wrap_descriptor function t) post
            (wrap_descriptor-IsControl function t w)
      go (UrbBody.status_request recipient t) w = wrapped _ t.transfer _ _ post w refl
      go (UrbBody.vendor_class_request kind recipient t) w = wrapped _ t.transfer _ _ post w refl
      go (UrbBody.bulk_or_interrupt t) w = bulk_packet-IsComplete _ t post w
      go (UrbBody.isoch_transfer t) w =
          isoch_packet-IsComplete r.header_room r.entries_room _ t post w
      go (UrbBody.pipe_request handle) w = pipe_packet-IsComplete _ handle post
      go (UrbBody.get_current_frame_number n) w = frame_packet-IsComplete _ n r.garbage post
      go UrbBody.other w = unknown post

  -- Every packet that the analysis of a URB logs states the length of its own header and of its payload,
  -- for a URB whose memory is there with a length below 2^32 - 65536; of an isochronous transfer,
  -- the packets lie in the memory and their lengths sum to less than 2^32.
  pub analyze_urb-AreCompleteCalls :
      (r : Resources) (d : Device E U sizes find_interface) (irp : ℕ) (urb : Urb) (post : Bool)
      → IsBody urb.body
      → IfSome (λ x. AreCompleteCalls x.0) (analyze_urb E U sizes find_interface r d irp urb post)
  unfolding analyze_urb
  analyze_urb-AreCompleteCalls r d irp urb post v =
      let (found, obtained) = obtain E U sizes find_interface d irp post in
      elim (Option-cases (analyze_always E U sizes find_interface r obtained urb post)) [
        | inl e ↦ rw (e, analyze_urb) tt
        | inr (d', e) ↦ elim (Bool-cases (is_device_filtered d'.filter (pos d'.device_address))) [
          | inl on ↦
              rw (e, on, analyze_urb)
                (AreCompleteCalls-append (submit_calls found irp) (packet_calls r.now _)
                  (submit_calls-AreCompleteCalls found irp)
                  (packet_calls-AreCompleteCalls r.now _ (packet_of-IsWhole r d' irp urb post v)))
          | inr off ↦ rw (e, off, analyze_urb) tt
        ]
      ]
