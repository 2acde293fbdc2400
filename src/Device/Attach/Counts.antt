-- ===== src/Device/Attach/Counts.antt =====
-- The reference counts and the device objects across the attachments and detachments of
-- USBPcapDriver/USBPcapFilterManager.c.
use mathlib.Core.Path.{subst}
use usbpcap_ai.Base.{
  sym, ◌∙◌, ℕ, ◌+◌, ◌≡◌, ◌<◌, refl, Option, none, some, List, ◌∷◌, ◌++◌, Bool-cases, Option-cases,
  inl, inr, arith,
}
use usbpcap_ai.Control.{DeviceMagic}
use usbpcap_ai.Buffer.{NtStatus, nt_success}
use usbpcap_ai.Device.{
  DeviceData, DeviceExtension, RootHubData, System, acquire_lock, add_object, delete_object,
  init_lock, release_lock, remove, root_of,
}
use usbpcap_ai.Device.Data.{with_data, with_roots}
use usbpcap_ai.Device.Data.Counts.{
  Counted, CountedBy, CountedBy-≡, free_device_data-CountedBy, one_if, references,
  references-append,
}
use usbpcap_ai.Device.Data.Allocates.{allocate_child}
use usbpcap_ai.Device.Attach.{
  AttachAnswers, attach_created, attach_tgt, create_and_attach_tgt, detach_and_delete, if_some,
  new_extension, undo_device, with_next, attach, detach,
}

abbrev pub data_of : Option DeviceExtension → Option DeviceData
data_of none = none
data_of (some x) = x.data_of_usb

-- Without a filter the device objects, the attachments and the links are those from before; with
-- one, it has root hub data.
abbrev pub Keeps : System → System → Option DeviceExtension → Type 0
Keeps s t none = (t.objects ≡ s.objects) × (t.attached ≡ s.attached) × (t.links ≡ s.links)
Keeps s t (some x) = (r : ℕ) × (root_of x.data_of_usb ≡ some r)

-- A call that attaches a filter: no fault, and the new filter counts with the others.
abbrev pub Attaches :
    System → (ℕ → ℕ) → Option (NtStatus × System × Option DeviceExtension) → Type 0
Attaches s n run =
    (status : NtStatus) × (after : System) × (o : Option DeviceExtension) × (run
      ≡ some (status, after, o))
    × CountedBy after.roots (λ b. one_if (root_of (data_of o)) b + n b)
    × Keeps s after o

pub undo_device-CountedBy :
    (status : NtStatus) (s : System) (n : ℕ → ℕ) (x : DeviceExtension) (object : ℕ)
    → CountedBy s.roots (λ b. one_if (root_of x.data_of_usb) b + n b)
    → (f : ℕ → Option RootHubData) × (undo_device status s x object
        ≡ some (status, delete_object (with_roots s f) object, none))
      × CountedBy f n
unfolding undo_device
undo_device-CountedBy status s n x object h =
    let (f, run, counted) = free_device_data-CountedBy s n x h in
    (f, rw (run, undo_device) refl, counted)

pub plus_none :
    (f : ℕ → Option RootHubData) (n : ℕ → ℕ)
    → CountedBy f n
    → CountedBy f (λ b. one_if none b + n b)
plus_none f n h = CountedBy-≡ f n _ h (λ a. omega arith)

pub remove_first : (a : ℕ) (xs : List ℕ) → remove a (a ∷ xs) ≡ xs
remove_first a xs = ground arith

attach_tgt-Attaches :
    (q : AttachAnswers) (s : System) (n : ℕ → ℕ) (parent : DeviceExtension) (object r : ℕ)
    → CountedBy s.roots n
    → root_of parent.data_of_usb ≡ some r
    → 0 < n r
    → n r < 4294967295
    → Attaches s n (attach_tgt q s parent object)
unfolding attach_tgt
attach_tgt-Attaches q s n parent object r h e p small =
    let x = new_extension DeviceMagic.device object (some parent.remove_lock) in
    let (status, f, d, run, counted, good, bad) =
      allocate_child q.allocation (add_object s object) n x parent r h e p small in
    let allocated = with_roots (add_object s object) f in
    elim (Bool-cases (nt_success status)) [
      | inr failed ↦
          let (g, undo, left) =
            undo_device-CountedBy status allocated n (with_data x d) object counted in
          (
            status,
            delete_object (with_roots allocated g) object,
            none,
            rw (run, failed, undo, attach_tgt) refl,
            plus_none g n left,
            (remove_first object s.objects, refl, refl),
          )
      | inl ok ↦ elim (Option-cases q.lower) [
        | inl nothing ↦
            let (g, undo, left) =
              undo_device-CountedBy NtStatus.no_such_device (init_lock allocated object) n
                (with_data x d) object counted in
            (
              NtStatus.no_such_device,
              delete_object (with_roots (init_lock allocated object) g) object,
              none,
              rw (run, ok, nothing, undo, attach_tgt) refl,
              plus_none g n left,
              (remove_first object s.objects, refl, refl),
            )
        | inr (lower, there) ↦ (
          status,
          acquire_lock q.acquired (attach (init_lock allocated object) lower) parent.remove_lock,
          some (with_next (with_data x d) lower),
          rw (run, ok, there, attach_tgt) refl,
          counted,
          good ok,
        )
      ]
    ]

pub create_and_attach_tgt-Attaches :
    (q : AttachAnswers) (s : System) (n : ℕ → ℕ) (parent : DeviceExtension) (r : ℕ)
    → CountedBy s.roots n
    → root_of parent.data_of_usb ≡ some r
    → 0 < n r
    → n r < 4294967295
    → Attaches s n (create_and_attach_tgt q s parent)
unfolding create_and_attach_tgt attach_created
create_and_attach_tgt-Attaches q s n parent r h e p small =
    elim (Bool-cases (nt_success q.created_status)) [
      | inr failed ↦ rw (failed, create_and_attach_tgt) (by_object none)
      | inl ok ↦ rw (ok, create_and_attach_tgt) (by_object q.created)
    ]
  where
    by_object : (o : Option ℕ) → Attaches s n (attach_created q s parent o)
    by_object none = (q.created_status, s, none, refl, plus_none s.roots n h, (refl, refl, refl))
    by_object (some object) = attach_tgt-Attaches q s n parent object r h e p small

-- The references that a list has without one of its devices.
pub references_middle :
    (before : List DeviceExtension) (x : DeviceExtension) (after : List DeviceExtension) (a : ℕ)
    → references (before ++ x ∷ after) a
      ≡ one_if (root_of x.data_of_usb) a + references (before ++ after) a
references_middle before x after a =
    omega (arith, references-append before (x ∷ after) a, references-append before after a)

if_some-roots :
    (f : System → ℕ → System) (s : System) (o : Option ℕ)
    → ((t : System) (a : ℕ) → (f t a).roots ≡ t.roots)
    → (if_some f s o).roots ≡ s.roots
if_some-roots f s none h = refl
if_some-roots f s (some a) h = h s a

-- A filter of a list that counts, wherever it stands, is detached without a fault, and the rest
-- counts.
pub detach_and_delete-Counted :
    (s : System) (before : List DeviceExtension) (x : DeviceExtension)
    (after : List DeviceExtension)
    → Counted s (before ++ x ∷ after)
    → (t : System) × (y : DeviceExtension) × (detach_and_delete s x ≡ some (t, y))
      × (y.data_of_usb ≡ none)
      × Counted t (before ++ after)
unfolding detach_and_delete
detach_and_delete-Counted s before x after h =
    let released = if_some release_lock s x.parent_lock in
    let detached = if_some detach released x.next_obj in
    let deleted = if_some delete_object detached x.this_obj in
    let kept : deleted.roots ≡ s.roots =
      if_some-roots delete_object detached x.this_obj (λ t a. refl)
      ∙ if_some-roots detach released x.next_obj (λ t a. refl)
      ∙ if_some-roots release_lock s x.parent_lock (λ t a. refl) in
    let y : DeviceExtension = record x { next_obj = none; this_obj = none } in
    let counted = CountedBy-≡ s.roots _ _ h (references_middle before x after) in
    let moved =
      subst
        (λ f. CountedBy f (λ b. one_if (root_of x.data_of_usb) b + references (before ++ after) b))
        (sym kept) counted in
    let (f, run, left) =
      free_device_data-CountedBy deleted (references (before ++ after)) y moved in
    (with_roots deleted f, with_data y none, rw (run, detach_and_delete) refl, refl, left)
