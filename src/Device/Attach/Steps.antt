-- ===== src/Device/Attach/Steps.antt =====
-- Any sequence of attachments and detachments of USBPcapDriver/USBPcapFilterManager.c.
use mathlib.Core.Path.{subst}
use usbpcap_ai.Base.{
  IfSome, IfSome-some, ℕ, ◌+◌, ◌≡◌, ◌<◌, refl, Bool, Option, none, some, List, [], ◌∷◌, ◌++◌, arith,
  sym,
}
use usbpcap_ai.Buffer.{NtStatus}
use usbpcap_ai.Device.{DeviceExtension, System, root_of}
use usbpcap_ai.Device.Data.Counts.{Counted, CountedBy, CountedBy-≡, one_if, references}
use usbpcap_ai.Device.Control.{ControlAnswers}
use usbpcap_ai.Device.Attach.{AttachAnswers, add_device, create_and_attach_tgt, detach_and_delete}
use usbpcap_ai.Device.Attach.Counts.{
  Attaches, Keeps, create_and_attach_tgt-Attaches, data_of, detach_and_delete-Counted,
  references_middle,
}
use usbpcap_ai.Device.Attach.Hub.{KeepsHub, add_device-Counted}

-- The filters with the one that a call made.
abbrev pub with_filter : Option DeviceExtension → List DeviceExtension → List DeviceExtension
with_filter none xs = xs
with_filter (some x) xs = x ∷ xs

-- What the driver does to its filters: a root hub or a device on a hub gets one, or one goes. The
-- pool hands out blocks that no device points to, and fewer than 2 ^ 32 - 1 devices share a root hub.
pub data Step : System → List DeviceExtension → System → List DeviceExtension → Type 0 where
  added :
      {s t : System} {xs : List DeviceExtension} {o : Option DeviceExtension} (q : AttachAnswers)
      (c : ControlAnswers) (is_root_hub : Bool) (object : ℕ) (status : NtStatus)
      → q.created ≡ some object
      → ((r : ℕ) → q.allocation.root_block ≡ some r → references xs r ≡ 0)
      → add_device q c s is_root_hub ≡ some (status, t, o)
      → Step s xs t (with_filter o xs)
  attached :
      {s t : System} {o : Option DeviceExtension} (before : List DeviceExtension)
      (parent : DeviceExtension) (after : List DeviceExtension) (q : AttachAnswers)
      (status : NtStatus)
      → ((r : ℕ) → references (before ++ parent ∷ after) r < 4294967295)
      → create_and_attach_tgt q s parent ≡ some (status, t, o)
      → Step s (before ++ parent ∷ after) t (with_filter o (before ++ parent ∷ after))
  removed :
      {s t : System} (before : List DeviceExtension) (x : DeviceExtension)
      (after : List DeviceExtension) (y : DeviceExtension)
      → detach_and_delete s x ≡ some (t, y)
      → Step s (before ++ x ∷ after) t (before ++ after)

-- From a driver without filters on.
pub data Reached : System → List DeviceExtension → Type 0 where
  loaded : {s : System} → ((a : ℕ) → s.roots a ≡ none) → Reached s []
  stepped :
      {s t : System} {xs ys : List DeviceExtension} → Reached s xs → Step s xs t ys → Reached t ys

-- Every filter has root hub data.
abbrev pub Rooted : List DeviceExtension → Type 0
Rooted [] = Unit {0}
Rooted (x ∷ xs) = ((r : ℕ) × (root_of x.data_of_usb ≡ some r)) × Rooted xs

Rooted-middle :
    (before : List DeviceExtension) (x : DeviceExtension) (after : List DeviceExtension)
    → Rooted (before ++ x ∷ after)
    → ((r : ℕ) × (root_of x.data_of_usb ≡ some r)) × Rooted (before ++ after)
Rooted-middle [] x after h = h
Rooted-middle (b ∷ before) x after h =
    let (own, rest) = Rooted-middle before x after h.1 in (own, (h.0, rest))

-- A filter of the list is counted.
pub references_there :
    (before : List DeviceExtension) (x : DeviceExtension) (after : List DeviceExtension) (r : ℕ)
    → root_of x.data_of_usb ≡ some r
    → 0 < references (before ++ x ∷ after) r
references_there before x after r e =
    let one : one_if (root_of x.data_of_usb) r ≡ 1 = rw e (ground arith) in
    omega (arith, one, references_middle before x after r)

-- In any list of filters that counts, a device below one of them is attached without a fault.
pub attach_in :
    (s : System) (before : List DeviceExtension) (parent : DeviceExtension)
    (after : List DeviceExtension) (q : AttachAnswers)
    → Counted s (before ++ parent ∷ after)
    → Rooted (before ++ parent ∷ after)
    → ((r : ℕ) → references (before ++ parent ∷ after) r < 4294967295)
    → Attaches s (references (before ++ parent ∷ after)) (create_and_attach_tgt q s parent)
attach_in s before parent after q counted rooted small =
    let ((r, e), rest) = Rooted-middle before parent after rooted in
    create_and_attach_tgt-Attaches q s (references (before ++ parent ∷ after)) parent r counted e
      (references_there before parent after r e) (small r)

abbrev Sound : System → List DeviceExtension → Type 0
Sound s xs = Counted s xs × Rooted xs

-- A new filter in front of a list.
with_filter-Sound :
    (t : System) (o : Option DeviceExtension) (xs : List DeviceExtension)
    → CountedBy t.roots (λ b. one_if (root_of (data_of o)) b + references xs b)
    → IfSome (λ x. (r : ℕ) × (root_of x.data_of_usb ≡ some r)) o
    → Rooted xs
    → Sound t (with_filter o xs)
with_filter-Sound t none xs counted own rooted =
    (CountedBy-≡ t.roots _ (references xs) counted (λ a. omega arith), rooted)
with_filter-Sound t (some x) xs counted own rooted = (counted, (own, rooted))

Keeps-root :
    (s t : System) (o : Option DeviceExtension)
    → Keeps s t o
    → IfSome (λ x. (r : ℕ) × (root_of x.data_of_usb ≡ some r)) o
Keeps-root s t none h = tt
Keeps-root s t (some y) h = h

KeepsHub-root :
    (s t : System) (o : Option DeviceExtension)
    → KeepsHub s t o
    → IfSome (λ x. (r : ℕ) × (root_of x.data_of_usb ≡ some r)) o
KeepsHub-root s t none h = tt
KeepsHub-root s t (some y) h = h

-- What a call returned, from what it is known to return.
returned :
    (xs : List DeviceExtension) (run : Option (NtStatus × System × Option DeviceExtension))
    (a b : NtStatus × System × Option DeviceExtension)
    → run ≡ some a
    → run ≡ some b
    → Sound a.1 (with_filter a.2 xs)
    → Sound b.1 (with_filter b.2 xs)
returned xs run a b e e' h =
    IfSome-some (λ x. Sound x.1 (with_filter x.2 xs)) run b
      (subst (λ o. IfSome (λ x. Sound x.1 (with_filter x.2 xs)) o) (sym e) h) e'

Step-Sound :
    (s t : System) (xs ys : List DeviceExtension) → Step s xs t ys → Sound s xs → Sound t ys
Step-Sound s t xs ys (Step.added q c is_root object status at unused run) h =
    let (status', after, o, run', counted, stack, keeps) =
      add_device-Counted q c s xs is_root object h.0 at unused in
    returned xs _ (status', after, o) _ run' run
      (with_filter-Sound after o xs counted (KeepsHub-root s after o keeps) h.1)
Step-Sound s t xs ys (Step.attached before parent after q status small run) h =
    let (status', done, o, run', counted, keeps) =
      attach_in s before parent after q h.0 h.1 small in
    returned xs _ (status', done, o) _ run' run
      (with_filter-Sound done o xs counted (Keeps-root s done o keeps) h.1)
Step-Sound s t xs ys (Step.removed before x after y run) h =
    let (done, z, run', gone, counted) = detach_and_delete-Counted s before x after h.0 in
    let (own, rooted) = Rooted-middle before x after h.1 in
    IfSome-some (λ r. Sound r.0 (before ++ after)) _ (t, y)
      (subst (λ o. IfSome (λ r. Sound r.0 (before ++ after)) o) (sym run') (counted, rooted)) run

-- In every state that the driver reaches, root hub data exist exactly as long as a filter points to
-- them, their reference count is the number of those filters, and every filter has root hub data.
pub Reached-Counted :
    (s : System) (xs : List DeviceExtension) → Reached s xs → Counted s xs × Rooted xs
Reached-Counted s xs (Reached.loaded empty) = (λ a. rw (empty a) refl, tt)
Reached-Counted s xs (Reached.stepped before step) =
    Step-Sound _ s _ xs step (Reached-Counted _ _ before)

-- So in a reached state with fewer than 2 ^ 32 - 1 filters on a root hub, a device below any filter
-- is attached without an access through NULL or to data that were freed.
pub create_and_attach_tgt-Reached :
    (s : System) (before : List DeviceExtension) (parent : DeviceExtension)
    (after : List DeviceExtension) (q : AttachAnswers)
    → Reached s (before ++ parent ∷ after)
    → ((r : ℕ) → references (before ++ parent ∷ after) r < 4294967295)
    → Attaches s (references (before ++ parent ∷ after)) (create_and_attach_tgt q s parent)
create_and_attach_tgt-Reached s before parent after q reached small =
    let (counted, rooted) = Reached-Counted s (before ++ parent ∷ after) reached in
    attach_in s before parent after q counted rooted small
