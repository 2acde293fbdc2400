-- ===== src/Capture/Traffic.antt =====
-- What a capture of USBPcapDriver makes of the traffic of a device.
use usbpcap_ai.Base.{
  ℕ, ◌≡◌, refl, Bool, true, false, Option, none, some, List, [], ◌∷◌, ◌++◌, IfSome, IfSome-some,
  Option-cases, Bool-cases, inl, inr,
}
use usbpcap_ai.Control.{DeviceMagic}
use usbpcap_ai.Buffer.Inv.{IsRing}
use usbpcap_ai.Buffer.Fifo.{contents}
use usbpcap_ai.Buffer.Irp.{Hub}
use usbpcap_ai.Buffer.Irp.Stream.{Delivers, run, run-Delivers}
use usbpcap_ai.Tables.Generic.{GenericTable}
use usbpcap_ai.Tables.Endpoint.{EndpointInfo, endpoint_key}
use usbpcap_ai.Tables.UrbIrp.{UrbIrpInfo, urb_irp_key}
use usbpcap_ai.Urb.Analyze.{Resources, Sizes, Urb, analyze_urb}
use usbpcap_ai.Urb.Analyze.Complete.{
  AreCompleteCalls, AreCompleteCalls-append, IsBody, analyze_urb-AreCompleteCalls,
}
use usbpcap_ai.Urb.Analyze.Records.{AreCompleteCalls-AreCalls, IsRecords, run-IsRecords}
use usbpcap_ai.Urb.Dispatch.{
  Extension, InternalRequest, acquire, analyze_some, in_dev_ctl, tgt_in_dev_ctl,
  tgt_in_dev_ctl_completion,
}
use usbpcap_ai.Capture.{Event, comes_back, handle_event, handle_events, is_read, sends, sets_filter}

-- The memory that the URB names is there.
abbrev pub IsUrb : Option Urb → Type 0
IsUrb none = Unit {0}
IsUrb (some urb) = IsBody urb.body

abbrev pub AreEvents : List Event → Type 0
AreEvents [] = Unit {0}
AreEvents (sends r q ∷ es) = IsUrb q.urb × AreEvents es
AreEvents (comes_back r irp urb ∷ es) = IsUrb urb × AreEvents es
AreEvents (_ ∷ es) = AreEvents es

module _ (E : GenericTable EndpointInfo endpoint_key) (U : GenericTable UrbIrpInfo urb_irp_key)
    (sizes : Sizes) (find_interface : List ℕ → ℕ → ℕ → Option (ℕ × ℕ)) where
  analyze_some_complete :
      (r : Resources) (x : Extension E U sizes find_interface) (irp : ℕ) (urb : Option Urb)
      (post : Bool)
      → IsUrb urb
      → IfSome (λ y. AreCompleteCalls y.0) (analyze_some E U sizes find_interface r x irp urb post)
  unfolding analyze_some
  analyze_some_complete r x irp none post v = tt
  analyze_some_complete r x irp (some urb) post v =
      elim (Option-cases (analyze_urb E U sizes find_interface r x.data_of_device irp urb post)) [
        | inl e ↦ rw (e, analyze_some) tt
        | inr (a, e) ↦
            rw (e, analyze_some)
              (IfSome-some (λ y. AreCompleteCalls y.0) _ a
                (analyze_urb-AreCompleteCalls E U sizes find_interface r x.data_of_device irp urb
                  post v)
                e)
      ]

  tgt_in_dev_ctl_complete :
      (r : Resources) (x : Extension E U sizes find_interface) (q : InternalRequest)
      → IsUrb q.urb
      → IfSome (λ y. AreCompleteCalls y.1) (tgt_in_dev_ctl E U sizes find_interface r x q)
  unfolding tgt_in_dev_ctl
  tgt_in_dev_ctl_complete r x q v = elim (Bool-cases q.second_lock) [
    | inr refused ↦ rw (refused, tgt_in_dev_ctl) tt
    | inl ok ↦ elim (Bool-cases q.is_submit) [
      | inr plain ↦ rw (ok, plain, tgt_in_dev_ctl) tt
      | inl submit ↦
          let locked = acquire E U sizes find_interface x in
          elim (Option-cases (analyze_some E U sizes find_interface r locked q.irp q.urb false)) [
            | inl e ↦ rw (ok, submit, e, tgt_in_dev_ctl) tt
            | inr (a, e) ↦
                rw (ok, submit, e, tgt_in_dev_ctl)
                  (IfSome-some (λ y. AreCompleteCalls y.0) _ a
                    (analyze_some_complete r locked q.irp q.urb false v) e)
          ]
    ]
  ]

  in_dev_ctl_complete :
      (r : Resources) (x : Extension E U sizes find_interface) (q : InternalRequest)
      → IsUrb q.urb
      → IfSome (λ y. AreCompleteCalls y.1) (in_dev_ctl E U sizes find_interface r x q)
  unfolding in_dev_ctl
  in_dev_ctl_complete r x q v = elim (Bool-cases q.first_lock) [
    | inr refused ↦ rw (refused, in_dev_ctl) tt
    | inl ok ↦ by_magic x.magic refl ok
  ]
    where
      by_magic :
          (m : DeviceMagic)
          → x.magic ≡ m
          → q.first_lock ≡ true
          → IfSome (λ y. AreCompleteCalls y.1) (in_dev_ctl E U sizes find_interface r x q)
      by_magic DeviceMagic.device e ok =
          let locked = acquire E U sizes find_interface x in
          elim (Option-cases (tgt_in_dev_ctl E U sizes find_interface r locked q)) [
            | inl f ↦ rw (ok, e, f, in_dev_ctl) tt
            | inr (a, f) ↦
                rw (ok, e, f, in_dev_ctl)
                  (IfSome-some (λ y. AreCompleteCalls y.1) _ a
                    (tgt_in_dev_ctl_complete r locked q v) f)
          ]
      by_magic DeviceMagic.roothub e ok = rw (e, ok, in_dev_ctl) tt
      by_magic DeviceMagic.control e ok = rw (e, ok, in_dev_ctl) tt
      by_magic DeviceMagic.unknown e ok = rw (e, ok, in_dev_ctl) tt

  handle_event_complete :
      (x : Extension E U sizes find_interface) (e : Event) (es : List Event)
      → AreEvents (e ∷ es)
      → IfSome (λ y. AreCompleteCalls y.0) (handle_event E U sizes find_interface x e)
  unfolding handle_event tgt_in_dev_ctl_completion
  handle_event_complete x (sends r q) es v =
      elim (Option-cases (in_dev_ctl E U sizes find_interface r x q)) [
        | inl f ↦ rw (f, handle_event) tt
        | inr (a, f) ↦
            rw (f, handle_event)
              (IfSome-some (λ y. AreCompleteCalls y.1) _ a (in_dev_ctl_complete r x q v.0) f)
      ]
  handle_event_complete x (comes_back r irp urb) es v =
      elim (Option-cases (analyze_some E U sizes find_interface r x irp urb true)) [
        | inl f ↦ rw (f, handle_event, tgt_in_dev_ctl_completion) tt
        | inr (a, f) ↦
            rw (f, handle_event, tgt_in_dev_ctl_completion)
              (IfSome-some (λ y. AreCompleteCalls y.0) _ a
                (analyze_some_complete r x irp urb true v.0) f)
      ]
  handle_event_complete x (is_read p n) es v = (tt, tt)
  handle_event_complete x (sets_filter f) es v = tt

  others : (e : Event) (es : List Event) → AreEvents (e ∷ es) → AreEvents es
  others (sends r q) es v = v.1
  others (comes_back r irp urb) es v = v.1
  others (is_read p n) es v = v
  others (sets_filter f) es v = v

  -- Every packet that a history of events logs is complete.
  pub handle_events_complete :
      (x : Extension E U sizes find_interface) (es : List Event)
      → AreEvents es
      → IfSome (λ y. AreCompleteCalls y.0) (handle_events E U sizes find_interface x es)
  unfolding handle_events
  handle_events_complete x [] v = tt
  handle_events_complete x (e ∷ es) v =
      elim (Option-cases (handle_event E U sizes find_interface x e)) [
        | inl f ↦ rw (f, handle_events) tt
        | inr (a, f) ↦ elim (Option-cases (handle_events E U sizes find_interface a.1 es)) [
          | inl g ↦ rw (f, g, handle_events) tt
          | inr (b, g) ↦
              rw (f, g, handle_events)
                (AreCompleteCalls-append a.0 b.0
                  (IfSome-some (λ y. AreCompleteCalls y.0) _ a (handle_event_complete x e es v) f)
                  (IfSome-some (λ y. AreCompleteCalls y.0) _ b
                    (handle_events_complete a.1 es (others e es v)) g))
        ]
      ]

  -- Over any history of requests to a device, completions, reads and changes of the filter, in any
  -- order, on a valid buffer and with the memory of the URBs at hand, their lengths below 2^32 - 65536
  -- and isochronous packets in the memory, the driver adds whole records to the stream, each as long
  -- as its header says, and the readers get the stream in order, nothing lost or
  -- repeated, unless the driver faults.
  pub handle_events-IsRecords :
      (x : Extension E U sizes find_interface) (es : List Event) (h : Hub)
      → AreEvents es
      → IsRing h.ring
      → IfSome
          (λ y.
            let (added, out, h') = run h y.0 in
            IsRecords added × Delivers (contents h.ring ++ added) out h'.ring)
          (handle_events E U sizes find_interface x es)
  handle_events-IsRecords x es h v ring =
      elim (Option-cases (handle_events E U sizes find_interface x es)) [
        | inl f ↦ rw f tt
        | inr (a, f) ↦
            let complete =
              IfSome-some (λ y. AreCompleteCalls y.0) _ a (handle_events_complete x es v) f in
            rw f (
              run-IsRecords h a.0 complete,
              run-Delivers h a.0 ring (AreCompleteCalls-AreCalls a.0 complete),
            )
      ]
