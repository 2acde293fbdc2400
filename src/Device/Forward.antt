-- ===== src/Device/Forward.antt =====
-- Requests that go on to the next driver: USBPcapDriver/USBPcapMain.c (`DkDefault`,
-- `DkForwardAndWait`) and USBPcapDriver/USBPcapPower.c (`DkPower`).
pub mod Locks
use usbpcap_ai.Base.{ℕ, Bool, true, Option, none, some, if◌then◌else◌}
use usbpcap_ai.Buffer.{NtStatus}
use usbpcap_ai.Device.{DeviceExtension, System, acquire_lock, put, release_lock}

-- What becomes of a request: completed with the error of the remove lock or for want of a next
-- driver, passed on, or completed here after the next driver had it, with its status.
pub data Disposition : Type 0 where
  lock_error invalid_device_request passed_on : Disposition
  waited : NtStatus → Disposition

-- The status of a call that is waited for: that of the call, or the final one of a pending call.
abbrev pub wait_for : NtStatus → NtStatus → NtStatus
wait_for NtStatus.pending final = final
wait_for called final = called

-- `DkForwardAndWait`, which calls a next driver that may be NULL.
unfoldable pub forward_and_wait : Option ℕ → NtStatus → NtStatus → Option NtStatus
forward_and_wait none called final = none
forward_and_wait (some next) called final = some (wait_for called final)

-- The request is passed to the next driver, or completed where there is none.
abbrev pub pass_on : Option ℕ → Disposition
pass_on none = Disposition.invalid_device_request
pass_on (some next) = Disposition.passed_on

-- `DkDefault`, and what `DkPnP` does for a device that is not a filter; `acquired` is whether the
-- remove lock is acquired.
unfoldable pub default_request : Bool → System → DeviceExtension → Disposition × System
default_request acquired s x =
    if acquired
    then (pass_on x.next_obj, release_lock (acquire_lock true s x.remove_lock) x.remove_lock)
    else (Disposition.lock_error, s)

-- `DkPower`
unfoldable pub power_request : Bool → System → DeviceExtension → Disposition × System
power_request acquired s x =
    if acquired
    then (elim x.next_obj [
      | none ↦ (Disposition.invalid_device_request, acquire_lock true s x.remove_lock)
      | some next ↦
          (Disposition.passed_on, release_lock (acquire_lock true s x.remove_lock) x.remove_lock)
    ])
    else (Disposition.lock_error, s)
