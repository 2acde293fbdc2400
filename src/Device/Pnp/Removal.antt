-- ===== src/Device/Pnp/Removal.antt =====
-- A root hub that comes and goes: `AddDevice` in USBPcapDriver/USBPcapFilterManager.c and the removal
-- in USBPcapDriver/USBPcapPnP.c.
use usbpcap_ai.Base.{
  ℕ, suc, ◌-◌, ◌≡◌, ◌<◌, refl, ap, ◌∙◌, true, false, none, some, ◌==◌, if◌then◌else◌, arith,
}
use usbpcap_ai.Buffer.{NtStatus, nt_success}
use usbpcap_ai.Device.{
  ControlDevice, DeviceData, RootHubData, DeviceExtension, System, acquire_lock, delete_object,
  interlocked_decrement, release_lock, remove, root_of,
}
use usbpcap_ai.Device.Control.{delete_root_hub_control_device, release_and_wait, delete_link}
use usbpcap_ai.Device.Data.{free_device_data, drop_reference, set_root, with_data, one_less}
use usbpcap_ai.Device.Attach.{detach, detach_and_delete, if_some}
use usbpcap_ai.Device.Forward.{Disposition}
use usbpcap_ai.Device.Pnp.{
  Minor, detach_waited, detached_filter, remove_after, remove_control, PnpRequest, PnpRun,
  control_device_of, delete_control, hub_flt_pnp, locked_hub, ran_only, remove_filter, remove_hub,
}

release_and_wait-some :
    (s : System) (a : ℕ) → s.held a ≡ 1 → release_and_wait s a ≡ some (release_lock s a)
unfolding release_and_wait
release_and_wait-some s a e =
    let here : ((release_lock s a).held a == 0) ≡ true = ground arith in
    rw (here, release_and_wait) refl

release_and_wait-none :
    (s : System) (a n : ℕ) → s.held a ≡ suc (suc n) → release_and_wait s a ≡ none
unfolding release_and_wait
release_and_wait-none s a n e =
    let here : ((release_lock s a).held a == 0) ≡ false = ground arith in
    rw (here, release_and_wait) refl

-- The acquires of the locks after a control device has gone.
abbrev locks_after : System → ControlDevice → System
locks_after s c =
    release_lock (release_lock (acquire_lock true s c.remove_lock) c.remove_lock) c.parent_lock

-- The control device goes, if no other acquire of its lock is left.
delete_control-some :
    (n : NtStatus) (s : System) (c : ControlDevice)
    → nt_success n ≡ true
    → s.held c.remove_lock ≡ 0
    → delete_root_hub_control_device n s c
      ≡ some (delete_object (delete_link (locks_after s c) c.id) c.this_obj)
unfolding delete_root_hub_control_device
delete_control-some n s c ok free =
    let one : (acquire_lock true s c.remove_lock).held c.remove_lock ≡ 1 = ground arith in
    let waited = release_and_wait-some (acquire_lock true s c.remove_lock) c.remove_lock one in
    rw (delete_root_hub_control_device, waited, ok) refl

-- A root hub filter with its data, its control device and the object that it is attached to, as
-- `AddDevice` leaves it; nothing else holds the lock of the control device.
abbrev pub IsHub :
    System → DeviceExtension → DeviceData → RootHubData → ControlDevice → ℕ → ℕ → Type 0
IsHub s x d r c lower object =
    (x.data_of_usb ≡ some d)
    × ((a : ℕ) × (d.root_data ≡ some a) × (s.roots a ≡ some r))
    × (r.control_device ≡ some c)
    × (x.next_obj ≡ some lower)
    × (x.this_obj ≡ some object)
    × (x.parent_lock ≡ none)
    × (c.parent_lock ≡ x.remove_lock)
    × ((x.remove_lock == c.remove_lock) ≡ false)
    × (s.held c.remove_lock ≡ 0)

-- A request to remove the device that gets the lock, and for which the name of the control device
-- can be written.
abbrev pub IsRemoval : PnpRequest → Type 0
IsRemoval q =
    (q.minor ≡ Minor.remove_device) × (q.acquired ≡ true) × (nt_success q.name_status ≡ true)

-- What the locks hold of the filter after the control device has gone: what they held before.
own_lock :
    (s : System) (l : ℕ) (c : ControlDevice)
    → c.parent_lock ≡ l
    → (l == c.remove_lock) ≡ false
    → (locks_after (acquire_lock true s l) c).held l ≡ s.held l
own_lock s l c e other = ground arith

-- The system when the wait for the filter's own lock begins.
abbrev before_wait : System → DeviceExtension → ControlDevice → System
before_wait s x c =
    delete_object (delete_link (locks_after (acquire_lock true s x.remove_lock) c) c.id) c.this_obj

to_wait :
    (q : PnpRequest) (s : System) (x : DeviceExtension) (d : DeviceData) (r : RootHubData)
    (c : ControlDevice) (lower object : ℕ)
    → IsRemoval q
    → IsHub s x d r c lower object
    → hub_flt_pnp q s x ≡ remove_filter q (before_wait s x c) x
unfolding hub_flt_pnp locked_hub remove_hub remove_control remove_after delete_control
    control_device_of
to_wait q s x d r c lower object (minor, acquired, named)
      (known, (a, root, there), control, next, this, parent, above, other, free) =
    let locked = acquire_lock true s x.remove_lock in
    let run = locked_hub q.minor q locked x in
    let free_still : locked.held c.remove_lock ≡ 0 = ground arith in
    let pointed : root_of x.data_of_usb ≡ some a = ap (λ o. root_of o) known ∙ root in
    let found : control_device_of locked (some a) ≡ some (some c) =
      rw (there, control_device_of) (ap (λ o. some o) control) in
    let gone = delete_control-some q.name_status locked c named free_still in
    ap (λ b. if b then run else ran_only Disposition.lock_error s x) acquired
    ∙ ap (λ m. locked_hub m q locked x) minor
    ∙ ap (λ o. remove_hub o q locked x) next
    ∙ ap (λ o. remove_control q locked x (control_device_of locked o)) pointed
    ∙ ap (λ o. remove_control q locked x o) found
    ∙ ap (λ o. remove_after q x o) gone

-- A root hub filter whose lock is held once more than by its control device, by a device below it or
-- a request, is not removed: the removal waits for the lock.
pub hub_flt_pnp-waits :
    (q : PnpRequest) (s : System) (x : DeviceExtension) (d : DeviceData) (r : RootHubData)
    (c : ControlDevice) (lower object n : ℕ)
    → IsRemoval q
    → IsHub s x d r c lower object
    → s.held x.remove_lock ≡ suc (suc n)
    → hub_flt_pnp q s x ≡ PnpRun.waits
unfolding remove_filter detach_waited
hub_flt_pnp-waits q s x d r c lower object n removal hub e =
    let (known, root, control, next, this, parent, above, other, free) = hub in
    let own = own_lock s x.remove_lock c above other in
    to_wait q s x d r c lower object removal hub
    ∙ ap (λ o. detach_waited x o)
        (release_and_wait-none (before_wait s x c) x.remove_lock n (own ∙ e))

one_less-last : (r : RootHubData) → r.ref_count ≡ 1 → one_less r ≡ none
one_less-last r e =
    let zero_left : (interlocked_decrement r.ref_count == 0) ≡ true = ground (arith, e) in
    rw zero_left refl

one_less-more :
    (r : RootHubData)
    → 1 < r.ref_count
    → r.ref_count < 4294967296
    → one_less r ≡ some (record r { ref_count = r.ref_count - 1 })
one_less-more r more small =
    let some_left : (interlocked_decrement r.ref_count == 0) ≡ false =
      ground (arith, more, small) in
    let fewer : interlocked_decrement r.ref_count ≡ r.ref_count - 1 = omega (arith, more, small) in
    ap (λ b. if b then none else some (record r { ref_count = interlocked_decrement r.ref_count }))
      some_left
    ∙ ap (λ n. some (record r { ref_count = n })) fewer

-- The system after the removal: the filter and its control device are gone with the symbolic link
-- and the attachment, and the root hub data are gone with their last reference, or have one fewer.
abbrev pub Removed :
    System → DeviceExtension → DeviceData → RootHubData → ControlDevice → ℕ → ℕ → PnpRun → Type 0
Removed s x d r c lower object run =
    (t : System) × (y : DeviceExtension) × (run ≡ ran_only Disposition.passed_on t y)
    × (t.objects ≡ remove object (remove c.this_obj s.objects))
    × (t.links ≡ remove c.id s.links)
    × (t.attached ≡ remove lower s.attached)
    × ((a : ℕ)
        → d.root_data ≡ some a
        → (r.ref_count ≡ 1 → t.roots a ≡ none)
          × (1 < r.ref_count
              → r.ref_count < 4294967296
              → t.roots a ≡ some (record r { ref_count = r.ref_count - 1 })))
    × (y.data_of_usb ≡ none)

abbrev taken_down : System → RootHubData → ℕ → ℕ → ℕ → System
taken_down t r a lower object = set_root (delete_object (detach t lower) object) a (one_less r)

freed :
    (t : System) (y : DeviceExtension) (d : DeviceData) (r : RootHubData) (a : ℕ)
    → y.data_of_usb ≡ some d
    → d.root_data ≡ some a
    → t.roots a ≡ some r
    → free_device_data t y ≡ some (set_root t a (one_less r), with_data y none)
unfolding free_device_data drop_reference
freed t y d r a known root there = rw (known, root, there, free_device_data, drop_reference) refl

detached :
    (t : System) (x : DeviceExtension) (d : DeviceData) (r : RootHubData) (lower object a : ℕ)
    → x.data_of_usb ≡ some d
    → d.root_data ≡ some a
    → t.roots a ≡ some r
    → x.next_obj ≡ some lower
    → x.this_obj ≡ some object
    → x.parent_lock ≡ none
    → detach_and_delete t x
      ≡ some (
        taken_down t r a lower object,
        with_data (record x { next_obj = none; this_obj = none }) none,
      )
unfolding detach_and_delete
detached t x d r lower object a known root there next this parent =
    let y : DeviceExtension = record x { next_obj = none; this_obj = none } in
    ap
      (λ p.
        free_device_data
          (if_some delete_object (if_some detach (if_some release_lock t p) x.next_obj) x.this_obj)
          y)
      parent
    ∙ ap (λ n. free_device_data (if_some delete_object (if_some detach t n) x.this_obj) y) next
    ∙ ap (λ o. free_device_data (if_some delete_object (detach t lower) o) y) this
    ∙ freed (delete_object (detach t lower) object) y d r a known root there

-- With no other acquire of its lock than that of its control device, none of the control device's
-- lock, a request that acquires the lock and a name that can be written, a root hub filter as
-- `AddDevice` leaves it is removed: its device object, the control device, the symbolic link and the attachment go, and the
-- root hub data lose a reference and go with the last one.
pub hub_flt_pnp-Removed :
    (q : PnpRequest) (s : System) (x : DeviceExtension) (d : DeviceData) (r : RootHubData)
    (c : ControlDevice) (lower object : ℕ)
    → IsRemoval q
    → IsHub s x d r c lower object
    → s.held x.remove_lock ≡ 1
    → Removed s x d r c lower object (hub_flt_pnp q s x)
unfolding remove_filter detach_waited detached_filter
hub_flt_pnp-Removed q s x d r c lower object removal hub e =
    let (known, (a, root, there), control, next, this, parent, above, other, free) = hub in
    let own = own_lock s x.remove_lock c above other in
    let start = before_wait s x c in
    let waited = release_and_wait-some start x.remove_lock (own ∙ e) in
    let end_of =
      detached (release_lock start x.remove_lock) x d r lower object a known root there next this
        parent in
    (
      taken_down (release_lock start x.remove_lock) r a lower object,
      with_data (record x { next_obj = none; this_obj = none }) none,
      to_wait q s x d r c lower object removal hub
          ∙ ap (λ o. detach_waited x o) waited
          ∙ ap (λ o. detached_filter o) end_of,
      refl,
      refl,
      refl,
      λ b is. (
        λ last. placed b is ∙ one_less-last r last,
        λ more small. placed b is ∙ one_less-more r more small,
      ),
      refl,
    )
  where
    placed :
        (b : ℕ)
        → d.root_data ≡ some b
        → (taken_down
              (release_lock (before_wait s x c) x.remove_lock)
              r
              (hub.1.0)
              lower
              object).roots
            b
          ≡ one_less r
    placed b is = ground (arith, hub.1.1, is)
