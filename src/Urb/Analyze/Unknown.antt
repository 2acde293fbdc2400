-- ===== src/Urb/Analyze/Unknown.antt =====
-- URBs that `USBPcapAnalyzeURB` of USBPcapDriver/USBPcapURB.c does not log, or not at once.
use usbpcap_ai.Base.{
  ℕ, ◌≡◌, refl, ◌∙◌, ap, ap₂, Bool, true, false, Option, none, some, List, [], ◌∷◌, IfSome,
  IfSome-some, Option-cases, inl, inr,
}
use usbpcap_ai.Filter.{is_device_filtered, pos}
use usbpcap_ai.Buffer.Irp.Stream.{Call, logs}
use usbpcap_ai.Tables.Generic.{GenericTable}
use usbpcap_ai.Tables.Endpoint.{EndpointInfo, endpoint_key}
use usbpcap_ai.Tables.UrbIrp.{UrbIrpInfo, add_urb_irp_info, obtain-add_urb_irp_info, urb_irp_key}
use usbpcap_ai.Urb.Packets.{one_entry}
use usbpcap_ai.Urb.Interfaces.{Memory}
use usbpcap_ai.Urb.Analyze.{
  interfaces_of, parse_interfaces, Device, Resources, Sizes, Urb, UrbBody, analyze_always,
  analyze_urb, obtain, packet_calls, packet_of, record_unknown, store_descriptor, submit_header,
}

module _ (E : GenericTable EndpointInfo endpoint_key) (U : GenericTable UrbIrpInfo urb_irp_key)
    (sizes : Sizes) (find_interface : List ℕ → ℕ → ℕ → Option (ℕ × ℕ)) where
  -- What the first switch leaves as it was.
  record Same (d d' : Device E U sizes find_interface) : Type 0 where
    filter_same : d'.filter ≡ d.filter
    address_same : d'.device_address ≡ d.device_address
    urbs_same : d'.urbs ≡ d.urbs

  analyze_always-Same :
      (r : Resources) (d : Device E U sizes find_interface) (urb : Urb) (post : Bool)
      → IfSome (Same d) (analyze_always E U sizes find_interface r d urb post)
  unfolding analyze_always
  analyze_always-Same r d urb false = record {
    filter_same = refl;
    address_same = refl;
    urbs_same = refl;
  }
  analyze_always-Same r d urb true = go urb.body refl
    where
      interfaces :
          (m : Memory) (o : Option ℕ) → Same d (parse_interfaces E U sizes find_interface r d m o)
      interfaces m none = record { filter_same = refl; address_same = refl; urbs_same = refl }
      interfaces m (some n) = record { filter_same = refl; address_same = refl; urbs_same = refl }

      go :
          (b : UrbBody)
          → urb.body ≡ b
          → IfSome (Same d) (analyze_always E U sizes find_interface r d urb true)
      go (UrbBody.select_configuration m descriptor) e =
          elim (Option-cases (store_descriptor E U sizes find_interface r descriptor)) [
            | inl fault ↦ rw (e, fault, analyze_always) tt
            | inr (stored, kept) ↦
                let parsed = interfaces m (interfaces_of urb sizes.configuration_offset) in
                rw (e, kept, analyze_always)
                  (record {
                    filter_same = parsed.filter_same;
                    address_same = parsed.address_same;
                    urbs_same = parsed.urbs_same;
                  })
          ]
      go (UrbBody.select_interface m) e =
          rw (e, analyze_always) (interfaces m (interfaces_of urb sizes.interface_offset))
      go _ e =
          rw (e, analyze_always)
            (record { filter_same = refl; address_same = refl; urbs_same = refl })

  -- Of a device that is not filtered nothing is logged, whatever the URB is and whichever way it
  -- goes.
  pub analyze_urb-unfiltered :
      (r : Resources) (d : Device E U sizes find_interface) (irp : ℕ) (urb : Urb) (post : Bool)
      → is_device_filtered d.filter (pos d.device_address) ≡ false
      → IfSome (λ y. y.0 ≡ []) (analyze_urb E U sizes find_interface r d irp urb post)
  unfolding analyze_urb obtain analyze_always
  analyze_urb-unfiltered r d irp urb false off = rw (off, analyze_urb, analyze_always) refl
  analyze_urb-unfiltered r d irp urb true off =
      let obtained = (obtain E U sizes find_interface d irp true).1 in
      elim (Option-cases (analyze_always E U sizes find_interface r obtained urb true)) [
        | inl fault ↦ rw (fault, analyze_urb) tt
        | inr (d', e) ↦
            let same =
              IfSome-some (Same obtained) _ d' (analyze_always-Same r obtained urb true) e in
            let off' : is_device_filtered d'.filter (pos d'.device_address) ≡ false =
              ap₂ (λ f a. is_device_filtered f (pos a)) same.filter_same same.address_same ∙ off in
            rw (e, off', analyze_urb) refl
      ]

  -- What is recorded of a URB.
  abbrev recorded : Resources → Device E U sizes find_interface → ℕ → Urb → UrbIrpInfo
  recorded r d irp urb = record {
    irp = irp;
    timestamp = r.now;
    status = urb.status;
    function = urb.function;
    info = 0;
    bus = d.bus_id;
    device = d.device_address;
  }

  -- A URB of an unknown function of a filtered device, whose IRP has no entry in the table and with
  -- memory for one, is not logged on its way to the bus driver. When the IRP comes back, with any URB,
  -- next and without a fault, the first packet that is logged is of the URB as it was sent, at the
  -- time when it was sent.
  pub analyze_urb-unknown :
      (r r' : Resources) (d : Device E U sizes find_interface) (irp : ℕ) (urb urb' : Urb)
      → urb.body ≡ UrbBody.other
      → r.urb_room ≡ true
      → U.lookup d.urbs irp ≡ none
      → is_device_filtered d.filter (pos d.device_address) ≡ true
      → (d' : Device E U sizes find_interface) × (analyze_urb E U sizes find_interface r d irp urb
            false
          ≡ some ([], d'))
        × IfSome
            (λ y.
              (others : List Call) × (y.0
                ≡ logs r.now (submit_header (recorded r d irp urb) irp) (one_entry 0 none)
                  ∷ others))
            (analyze_urb E U sizes find_interface r' d' irp urb' true)
  unfolding analyze_urb obtain analyze_always record_unknown packet_of
  analyze_urb-unknown r r' d irp urb urb' body room absent on = (
    sent,
    rw (on, body, analyze_urb, analyze_always, record_unknown, packet_of)
        (ap (λ b. some ([], record d { urbs = add_urb_irp_info U b d.urbs (recorded r d irp urb) }))
          room),
    back,
  )
    where
      sent : Device E U sizes find_interface
      sent = record d { urbs = add_urb_irp_info U true d.urbs (recorded r d irp urb) }

      obtained : Device E U sizes find_interface
      obtained = (obtain E U sizes find_interface sent irp true).1

      found : (obtain E U sizes find_interface sent irp true).0 ≡ some (recorded r d irp urb)
      found = (obtain-add_urb_irp_info U d.urbs (recorded r d irp urb) irp absent).0

      back :
          IfSome
            (λ y.
              (others : List Call) × (y.0
                ≡ logs r.now (submit_header (recorded r d irp urb) irp) (one_entry 0 none)
                  ∷ others))
            (analyze_urb E U sizes find_interface r' sent irp urb' true)
      back = elim (Option-cases (analyze_always E U sizes find_interface r' obtained urb' true)) [
        | inl fault ↦ rw (fault, analyze_urb) tt
        | inr (d', e) ↦
            let same =
              IfSome-some (Same obtained) _ d' (analyze_always-Same r' obtained urb' true) e in
            let on' : is_device_filtered d'.filter (pos d'.device_address) ≡ true =
              ap₂ (λ f a. is_device_filtered f (pos a)) same.filter_same same.address_same ∙ on in
            rw (e, on', found, analyze_urb)
              (packet_calls r'.now (packet_of E U sizes find_interface r' d' irp urb' true), refl)
      ]
