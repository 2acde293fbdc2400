-- ===== src/Device/Forward/Locks.antt =====
-- The remove lock across USBPcapDriver/USBPcapMain.c (`DkDefault`) and
-- USBPcapDriver/USBPcapPower.c (`DkPower`).
use usbpcap_ai.Base.{
  ℕ, ◌+◌, ◌≡◌, refl, Bool, true, false, ◌&&◌, Bool-cases, Option-cases, inl, inr, arith, ◌==◌,
  if◌then◌else◌,
}
use usbpcap_ai.Device.{DeviceExtension, System, acquire_lock, release_lock}
use usbpcap_ai.Device.Data.{is_none}
use usbpcap_ai.Device.Forward.{default_request, power_request}

-- An acquire and a release leave every lock as it was.
pub release_lock-acquire_lock :
    (s : System) (a b : ℕ) → (release_lock (acquire_lock true s a) a).held b ≡ s.held b
release_lock-acquire_lock s a b = elim (Bool-cases (b == a)) [
  | inl same ↦ let at : b ≡ a = ground arith in rw (same, at) (ground arith)
  | inr other ↦ rw other refl
]

pub default_request-held :
    (acquired : Bool) (s : System) (x : DeviceExtension) (b : ℕ)
    → (default_request acquired s x).1.held b ≡ s.held b
unfolding default_request
default_request-held true s x b = release_lock-acquire_lock s x.remove_lock b
default_request-held false s x b = refl

-- A power request leaves the remove lock as it was where the lock is refused and where there is a
-- next driver. Without a next driver, as for a control device, it keeps one acquire of the lock for
-- good.
pub power_request-held :
    (acquired : Bool) (s : System) (x : DeviceExtension)
    → (power_request acquired s x).1.held x.remove_lock
      ≡ s.held x.remove_lock + (if acquired && is_none x.next_obj then 1 else 0)
unfolding power_request
power_request-held false s x = omega arith
power_request-held true s x = elim (Option-cases x.next_obj) [
  | inl e ↦ rw (e, power_request) (ground arith)
  | inr (next, e) ↦
      let balanced = release_lock-acquire_lock s x.remove_lock x.remove_lock in
      rw (e, power_request) (omega (arith, balanced))
]
