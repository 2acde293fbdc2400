-- ===== src/Urb/Dispatch/Locks.antt =====
-- The remove lock in USBPcapDriver/USBPcapDeviceControl.c.
use usbpcap_ai.Base.{
  ℕ, suc, ◌+◌, ◌≡◌, Bool, true, false, Option, none, some, List, IfSome, IfSome-some, Option-cases,
  Bool-cases, inl, inr, arith, refl,
}
use usbpcap_ai.Control.{DeviceMagic}
use usbpcap_ai.Buffer.Irp.Stream.{Call}
use usbpcap_ai.Tables.Generic.{GenericTable}
use usbpcap_ai.Tables.Endpoint.{EndpointInfo, endpoint_key}
use usbpcap_ai.Tables.UrbIrp.{UrbIrpInfo, urb_irp_key}
use usbpcap_ai.Urb.Analyze.{Resources, Sizes, Urb, analyze_urb}
use usbpcap_ai.Urb.Dispatch.{
  Extension, InternalRequest, Sent, acquire, analyze_some, in_dev_ctl, tgt_in_dev_ctl,
  tgt_in_dev_ctl_completion,
}

-- The acquires that a request keeps until it comes back.
abbrev pub kept : Sent → ℕ
kept Sent.with_completion = 1
kept _ = 0

module _ (E : GenericTable EndpointInfo endpoint_key) (U : GenericTable UrbIrpInfo urb_irp_key)
    (sizes : Sizes) (find_interface : List ℕ → ℕ → ℕ → Option (ℕ × ℕ)) where
  analyze_some-held :
      (r : Resources) (x : Extension E U sizes find_interface) (irp : ℕ) (urb : Option Urb)
      (post : Bool)
      → IfSome (λ y. y.1.held ≡ x.held) (analyze_some E U sizes find_interface r x irp urb post)
  unfolding analyze_some
  analyze_some-held r x irp none post = refl
  analyze_some-held r x irp (some urb) post =
      elim (Option-cases (analyze_urb E U sizes find_interface r x.data_of_device irp urb post)) [
        | inl e ↦ rw (e, analyze_some) tt
        | inr (a, e) ↦ rw (e, analyze_some) refl
      ]

  analyze_some-some :
      (r : Resources) (x : Extension E U sizes find_interface) (irp : ℕ) (urb : Option Urb)
      (post : Bool) (a : List Call × Extension E U sizes find_interface)
      → analyze_some E U sizes find_interface r x irp urb post ≡ some a
      → a.1.held ≡ x.held
  analyze_some-some r x irp urb post a e =
      IfSome-some (λ y. y.1.held ≡ x.held) _ a (analyze_some-held r x irp urb post) e

  tgt_in_dev_ctl-held :
      (r : Resources) (x : Extension E U sizes find_interface) (q : InternalRequest)
      → IfSome (λ y. y.2.held ≡ x.held + kept y.0) (tgt_in_dev_ctl E U sizes find_interface r x q)
  unfolding tgt_in_dev_ctl
  tgt_in_dev_ctl-held r x q = elim (Bool-cases q.second_lock) [
    | inr refused ↦ rw (refused, tgt_in_dev_ctl) (omega arith)
    | inl ok ↦ elim (Bool-cases q.is_submit) [
      | inr plain ↦ rw (ok, plain, tgt_in_dev_ctl) (omega arith)
      | inl submit ↦
          let locked = acquire E U sizes find_interface x in
          elim (Option-cases (analyze_some E U sizes find_interface r locked q.irp q.urb false)) [
            | inl e ↦ rw (ok, submit, e, tgt_in_dev_ctl) tt
            | inr (a, e) ↦
                rw (ok, submit, e, tgt_in_dev_ctl)
                  (omega (arith, analyze_some-some r locked q.irp q.urb false a e))
          ]
    ]
  ]

  on_device-held :
      (r : Resources) (x : Extension E U sizes find_interface) (q : InternalRequest)
      → x.magic ≡ DeviceMagic.device
      → q.first_lock ≡ true
      → IfSome (λ y. y.2.held ≡ x.held + kept y.0) (in_dev_ctl E U sizes find_interface r x q)
  unfolding in_dev_ctl
  on_device-held r x q device ok =
      let locked = acquire E U sizes find_interface x in
      elim (Option-cases (tgt_in_dev_ctl E U sizes find_interface r locked q)) [
        | inl e ↦ rw (ok, device, e, in_dev_ctl) tt
        | inr (a, e) ↦
            rw (ok, device, e, in_dev_ctl)
              (omega (
                arith,
                IfSome-some (λ y. y.2.held ≡ suc x.held + kept y.0) _ a
                    (tgt_in_dev_ctl-held r locked q) e,
              ))
      ]

  -- The remove lock is balanced over every internal request that does not fault: one acquire stays
  -- exactly if the request is sent on with the completion routine, whatever locks are refused.
  pub in_dev_ctl-held :
      (r : Resources) (x : Extension E U sizes find_interface) (q : InternalRequest)
      → IfSome (λ y. y.2.held ≡ x.held + kept y.0) (in_dev_ctl E U sizes find_interface r x q)
  unfolding in_dev_ctl
  in_dev_ctl-held r x q = elim (Bool-cases q.first_lock) [
    | inr refused ↦ rw (refused, in_dev_ctl) (omega arith)
    | inl ok ↦ by_magic x.magic refl ok
  ]
    where
      by_magic :
          (m : DeviceMagic)
          → x.magic ≡ m
          → q.first_lock ≡ true
          → IfSome (λ y. y.2.held ≡ x.held + kept y.0) (in_dev_ctl E U sizes find_interface r x q)
      by_magic DeviceMagic.device e ok = on_device-held r x q e ok
      by_magic DeviceMagic.roothub e ok = rw (e, ok, in_dev_ctl) (ground arith)
      by_magic DeviceMagic.control e ok = rw (e, ok, in_dev_ctl) (ground arith)
      by_magic DeviceMagic.unknown e ok = rw (e, ok, in_dev_ctl) (ground arith)

  -- A request that was sent with the completion routine and comes back leaves the lock as it was
  -- before the request, if neither pass faults.
  pub completion-in_dev_ctl :
      (r r' : Resources) (x y : Extension E U sizes find_interface) (q : InternalRequest)
      (calls : List Call) (urb : Option Urb)
      → in_dev_ctl E U sizes find_interface r x q ≡ some (Sent.with_completion, calls, y)
      → IfSome
          (λ z. z.1.held ≡ x.held)
          (tgt_in_dev_ctl_completion E U sizes find_interface r' y q.irp urb)
  unfolding tgt_in_dev_ctl_completion
  completion-in_dev_ctl r r' x y q calls urb sent =
      let one = IfSome-some (λ z. z.2.held ≡ x.held + kept z.0) _ _ (in_dev_ctl-held r x q) sent in
      elim (Option-cases (analyze_some E U sizes find_interface r' y q.irp urb true)) [
        | inl e ↦ rw (e, tgt_in_dev_ctl_completion) tt
        | inr (a, e) ↦
            rw (e, tgt_in_dev_ctl_completion)
              (omega (arith, one, analyze_some-some r' y q.irp urb true a e))
      ]
