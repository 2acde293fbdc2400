-- ===== src/Device/Attach/Hub.antt =====
-- `AddDevice` in USBPcapDriver/USBPcapFilterManager.c, with the control device that it makes.
use mathlib.Core.Path.{subst}
use usbpcap_ai.Base.{
  ℕ, ◌+◌, ◌≡◌, ◌<◌, ◌&&◌, refl, sym, ap, ap₂, ◌∙◌, IfSome, IfSome-some, if◌then◌else◌, Bool, true,
  false, Option, none, some, List, ◌∷◌, Bool-cases, Option-cases, inl, inr, arith,
}
use usbpcap_ai.Control.{DeviceMagic}
use usbpcap_ai.Buffer.{NtStatus, nt_success}
use usbpcap_ai.Device.{
  ControlDevice, DeviceExtension, RootHubData, System, add_object, delete_object, init_lock, put,
  root_of,
}
use usbpcap_ai.Device.Data.{
  Allocation, allocate_device_data, drop_reference, end_allocation, free_device_data, take_root,
  with_data, with_roots,
}
use usbpcap_ai.Device.Data.Counts.{
  CountedBy, Counted, counted_some, one_if, put-CountedBy, references,
}
use usbpcap_ai.Device.Data.Allocates.{allocate_root}
use usbpcap_ai.Device.Control.{
  ControlAnswers, add_link, create_root_hub_control_device, init_control,
}
use usbpcap_ai.Device.Attach.{
  AttachAnswers, add_control, add_created, add_device, add_hub_filter, attach, new_extension,
  set_control, with_control, with_next,
}
use usbpcap_ai.Device.Attach.Counts.{data_of, plus_none, remove_first, undo_device-CountedBy}

-- A control device that is not made leaves no device object and no link behind.
abbrev Undone : System → NtStatus × Option ControlDevice × System → Type 0
Undone s made =
    (made.2.roots ≡ s.roots)
    × (made.2.attached ≡ s.attached)
    × (nt_success made.0 ≡ false
        → (made.1 ≡ none) × (made.2.objects ≡ s.objects) × (made.2.links ≡ s.links))

init_control-Undone :
    (q : ControlAnswers) (s : System) (id hub_lock : ℕ)
    → Undone s (init_control q (add_link (add_object s q.created) id) id hub_lock)
unfolding init_control
init_control-Undone q s id hub_lock = elim (Bool-cases (nt_success q.queue_status)) [
  | inl ok ↦ rw (ok, init_control) (refl, refl, λ failed. ground arith)
  | inr failed ↦
      rw (failed, init_control)
        (refl, refl, λ e. (refl, remove_first q.created s.objects, remove_first id s.links))
]

pub create_root_hub_control_device-Undone :
    (q : ControlAnswers) (s : System) (x : DeviceExtension)
    → Undone s (create_root_hub_control_device q s x)
unfolding create_root_hub_control_device
create_root_hub_control_device-Undone q s x = elim (Bool-cases (nt_success q.name_status)) [
  | inr a ↦ rw (a, create_root_hub_control_device) (refl, refl, λ e. (refl, refl, refl))
  | inl a ↦ elim (Bool-cases (nt_success q.link_name_status)) [
    | inr b ↦ rw (a, b, create_root_hub_control_device) (refl, refl, λ e. (refl, refl, refl))
    | inl b ↦ elim (Bool-cases (nt_success q.created_status)) [
      | inr c ↦ rw (a, b, c, create_root_hub_control_device) (refl, refl, λ e. (refl, refl, refl))
      | inl c ↦ elim (Bool-cases (nt_success q.link_status)) [
        | inr d ↦
            rw (a, b, c, d, create_root_hub_control_device)
              (refl, refl, λ e. (refl, remove_first q.created s.objects, refl))
        | inl d ↦
            rw (a, b, c, d, create_root_hub_control_device)
              (init_control-Undone q _ _ x.remove_lock)
      ]
    ]
  ]
]

with_control-ref_count :
    (d : RootHubData) (c : Option ControlDevice) → (with_control d c).ref_count ≡ d.ref_count
with_control-ref_count d none = refl
with_control-ref_count d (some c) = refl

set_control-CountedBy :
    (s : System) (n : ℕ → ℕ) (o : Option ℕ) (r : ℕ) (c : Option ControlDevice)
    → CountedBy s.roots n
    → o ≡ some r
    → 0 < n r
    → (f : ℕ → Option RootHubData) × (set_control s o c ≡ some (with_roots s f)) × CountedBy f n
unfolding set_control
set_control-CountedBy s n o r c h at p =
    let (d, e, count, small) = counted_some (s.roots r) (n r) (h r) p in
    let same = with_control-ref_count d c in
    (
      put s.roots r (some (with_control d c)),
      rw (at, e, set_control) refl,
      put-CountedBy s.roots n n r (some (with_control d c)) h (omega arith, p, small)
          (λ a other. refl),
    )

-- Without a filter, the device objects and the links are those from before.
abbrev pub KeepsHub : System → System → Option DeviceExtension → Type 0
KeepsHub s t (some x) = (r : ℕ) × (root_of x.data_of_usb ≡ some r)
KeepsHub s t none = (t.objects ≡ s.objects) × (t.links ≡ s.links)

KeepsHub-before :
    (s t : System) (object : ℕ) (f : ℕ → Option RootHubData) (o : Option DeviceExtension)
    → KeepsHub (with_roots (init_lock s object) f) t o
    → KeepsHub s t o
KeepsHub-before s t object f none h = h
KeepsHub-before s t object f (some x) h = h

-- There is memory for the data of a root hub.
abbrev pub has_memory : Allocation → Bool
has_memory m = elim m.root_block [ none ↦ false | some r ↦ m.room ]

-- The attachments, with that to an object where there is one and it came to this.
abbrev pub attached_to : Bool → Option ℕ → List ℕ → List ℕ
attached_to b none xs = xs
attached_to b (some lower) xs = if b then lower ∷ xs else xs

-- The attachments that `AddDevice` leaves: one more for a root hub with a device object and memory
-- for its data, whatever comes of the control device.
abbrev pub attached_by : Bool → AttachAnswers → List ℕ → List ℕ
attached_by is_root_hub q xs =
    attached_to (is_root_hub && (nt_success q.created_status && has_memory q.allocation)) q.lower xs

attached_to-false : (o : Option ℕ) (xs : List ℕ) → xs ≡ attached_to false o xs
attached_to-false none xs = refl
attached_to-false (some lower) xs = refl

allocate_device_data-has_memory :
    (m : Allocation) (s : System) (x : DeviceExtension)
    → IfSome (λ a. nt_success a.0 ≡ has_memory m) (allocate_device_data m s x none)
unfolding allocate_device_data take_root end_allocation free_device_data drop_reference
allocate_device_data-has_memory m s x = elim (Option-cases m.root_block) [
  | inl nothing ↦ elim (Bool-cases m.room) [
    | inl room ↦
        rw
          (
            nothing, room, allocate_device_data, take_root, end_allocation, free_device_data,
            drop_reference,
          )
          refl
    | inr full ↦ rw (nothing, full, allocate_device_data) refl
  ]
  | inr (r, e) ↦ elim (Bool-cases m.room) [
    | inl room ↦ rw (e, room, allocate_device_data, take_root, end_allocation) refl
    | inr full ↦ rw (e, full, allocate_device_data) refl
  ]
]

-- No fault, with counts that are right, the attachments `xs`, and what is kept without a filter.
abbrev pub AttachesHub :
    List ℕ → System → (ℕ → ℕ) → Option (NtStatus × System × Option DeviceExtension) → Type 0
AttachesHub xs s n run =
    (status : NtStatus) × (after : System) × (o : Option DeviceExtension) × (run
      ≡ some (status, after, o))
    × CountedBy after.roots (λ b. one_if (root_of (data_of o)) b + n b)
    × (after.attached ≡ xs)
    × KeepsHub s after o

-- Where the control device is not made, the filter and its data go, but it was attached.
add_control-AttachesHub :
    (c : ControlAnswers) (s : System) (n : ℕ → ℕ) (x : DeviceExtension) (object lower r : ℕ)
    → CountedBy s.roots (λ b. one_if (root_of x.data_of_usb) b + n b)
    → root_of x.data_of_usb ≡ some r
    → AttachesHub
        (lower ∷ s.attached)
        s
        n
        (add_control c (attach (add_object s object) lower) x object)
unfolding add_control
add_control-AttachesHub c s n x object lower r h e =
    let attached = attach (add_object s object) lower in
    let made = create_root_hub_control_device c attached x in
    let (roots, kept, undone) = create_root_hub_control_device-Undone c attached x in
    let m : ℕ → ℕ = λ b. one_if (root_of x.data_of_usb) b + n b in
    let counted = subst (λ f. CountedBy f m) (sym roots) h in
    let one : one_if (root_of x.data_of_usb) r ≡ 1 = rw e (ground arith) in
    let (f, run, named) =
      set_control-CountedBy made.2 m (root_of x.data_of_usb) r made.1 counted e (omega arith) in
    elim (Bool-cases (nt_success made.0)) [
      | inl ok ↦
          (made.0, with_roots made.2 f, some x, rw (run, ok, add_control) refl, named, kept, (r, e))
      | inr failed ↦
          let (no_control, objects, links) = undone failed in
          let (g, undo, left) =
            undo_device-CountedBy made.0 (with_roots made.2 f) n x object named in
          (
            made.0,
            delete_object (with_roots made.2 g) object,
            none,
            rw (run, failed, undo, add_control) refl,
            plus_none g n left,
            kept,
            (rw objects (remove_first object s.objects), links),
          )
    ]

add_hub_filter-AttachesHub :
    (q : AttachAnswers) (c : ControlAnswers) (s : System) (n : ℕ → ℕ) (object : ℕ)
    → CountedBy s.roots n
    → ((r : ℕ) → q.allocation.root_block ≡ some r → n r ≡ 0)
    → AttachesHub
        (attached_to (has_memory q.allocation) q.lower s.attached)
        s
        n
        (add_hub_filter q c s object)
unfolding add_hub_filter
add_hub_filter-AttachesHub q c s n object h unused =
    let x = new_extension DeviceMagic.roothub object none in
    let start = init_lock (add_object s object) object in
    let (status, f, d, run, counted, good, bad) = allocate_root q.allocation start n x h unused in
    let allocated = with_roots start f in
    let memory : nt_success status ≡ has_memory q.allocation =
      IfSome-some (λ a. nt_success a.0 ≡ has_memory q.allocation) _
        (status, allocated, with_data x d) (allocate_device_data-has_memory q.allocation start x)
        run in
    elim (Bool-cases (nt_success status)) [
      | inr failed ↦
          let (g, undo, left) =
            undo_device-CountedBy status allocated n (with_data x d) object counted in
          (
            status,
            delete_object (with_roots start g) object,
            none,
            rw (run, failed, undo, add_hub_filter) refl,
            plus_none g n left,
            attached_to-false q.lower s.attached
                ∙ ap (λ b. attached_to b q.lower s.attached) (sym failed ∙ memory),
            (remove_first object s.objects, refl),
          )
      | inl ok ↦ elim (Option-cases q.lower) [
        | inl nothing ↦
            let (g, undo, left) =
              undo_device-CountedBy NtStatus.no_such_device allocated n (with_data x d) object
                counted in
            (
              NtStatus.no_such_device,
              delete_object (with_roots start g) object,
              none,
              rw (run, ok, nothing, undo, add_hub_filter) refl,
              plus_none g n left,
              sym (ap (λ o. attached_to (has_memory q.allocation) o s.attached) nothing),
              (remove_first object s.objects, refl),
            )
        | inr (lower, at) ↦
            let (r, root) = good ok in
            let (last, after, o, added, left, same, keeps) =
              add_control-AttachesHub c (with_roots (init_lock s object) f) n
                (with_next (with_data x d) lower) object lower r counted root in
            (
              last,
              after,
              o,
              rw (run, ok, at, add_hub_filter) added,
              left,
              same ∙ sym (ap₂ (λ b o. attached_to b o s.attached) (sym memory ∙ ok) at),
              KeepsHub-before s after object f o keeps,
            )
      ]
    ]

-- `AddDevice` does not fault where `IoCreateDevice` hands out an object with its success and the
-- block for the root hub data is not one that a device points to. The reference counts are right
-- after it. If it leaves no filter, its device objects and links are gone. In every case, an
-- attachment is added exactly for a root hub with a device object, memory for its data and an object
-- to attach to, and it stays where the control device could not be made and there is no filter.
pub add_device-Counted :
    (q : AttachAnswers) (c : ControlAnswers) (s : System) (xs : List DeviceExtension)
    (is_root_hub : Bool) (object : ℕ)
    → Counted s xs
    → q.created ≡ some object
    → ((r : ℕ) → q.allocation.root_block ≡ some r → references xs r ≡ 0)
    → AttachesHub
        (attached_by is_root_hub q s.attached)
        s
        (references xs)
        (add_device q c s is_root_hub)
unfolding add_device add_created
add_device-Counted q c s xs false object h at unused = (
  NtStatus.success,
  s,
  none,
  refl,
  plus_none s.roots (references xs) h,
  attached_to-false q.lower s.attached,
  (refl, refl),
)
add_device-Counted q c s xs true object h at unused =
    elim (Bool-cases (nt_success q.created_status)) [
      | inr failed ↦ (
        q.created_status,
        s,
        none,
        rw (failed, add_device) refl,
        plus_none s.roots (references xs) h,
        attached_to-false q.lower s.attached
            ∙ ap (λ b. attached_to (b && has_memory q.allocation) q.lower s.attached) (sym failed),
        (refl, refl),
      )
      | inl ok ↦
          let (status, after, o, run, counted, same, keeps) =
            add_hub_filter-AttachesHub q c s (references xs) object h unused in
          (
            status,
            after,
            o,
            rw (ok, add_device) (ap (λ a. add_created q c s a) at ∙ run),
            counted,
            same ∙ ap (λ b. attached_to (b && has_memory q.allocation) q.lower s.attached) (sym ok),
            keeps,
          )
    ]
