-- ===== src/Device/Relations/Counts.antt =====
-- No query of a hub's devices faults, in USBPcapDriver/USBPcapPnP.c, and the filters it makes count.
use usbpcap_ai.Base.{
  ℕ, suc, ◌+◌, ◌≡◌, ◌≤◌, ◌<◌, refl, sym, ap, ◌∙◌, Bool, true, false, Option, none, some, List, [],
  ◌∷◌, ◌++◌, Option-cases, IfSome, IfSome-some, inl, inr, arith, length,
}
use usbpcap_ai.Buffer.{NtStatus, nt_success}
use usbpcap_ai.Device.{DeviceExtension, System, acquire_lock, release_lock, root_of}
use usbpcap_ai.Device.Data.{with_data}
use usbpcap_ai.Device.Data.Counts.{
  Counted, CountedBy, CountedBy-≡, one_if, references, references-append,
}
use usbpcap_ai.Device.Attach.{AttachAnswers, create_and_attach_tgt}
use usbpcap_ai.Device.Attach.Counts.{create_and_attach_tgt-Attaches, data_of}
use usbpcap_ai.Device.Attach.Steps.{references_there}
use usbpcap_ai.Device.Forward.{Disposition, pass_on, forward_and_wait, wait_for}
use usbpcap_ai.Device.Relations.{
  Queried, RelationsQuery, attach_if_new, attach_new, filter_of, handle_reported, is_previous,
  keep_children, nothing_attached, query_by_type, query_device_relations, query_if_acquired,
  reported_after, reported_if, with_children,
}

-- What the loop comes to: no fault, and the new filters count with the others.
abbrev LoopCounts : (ℕ → ℕ) → Option (System × List ℕ × List DeviceExtension) → Type 0
LoopCounts n run =
    (t : System) × (calls : List ℕ) × (made : List DeviceExtension) × (run ≡ some (t, calls, made))
    × CountedBy t.roots (λ b. references made b + n b)

references-filter_of :
    (o : Option DeviceExtension) (a : ℕ)
    → references (filter_of o) a ≡ one_if (root_of (data_of o)) a
references-filter_of none a = refl
references-filter_of (some x) a = omega arith

one_if_le : (o : Option ℕ) (a : ℕ) → one_if o a ≤ 1
one_if_le none a = omega arith
one_if_le (some b) a = ground arith

attach_if_new-LoopCounts :
    (old : Bool) (q : AttachAnswers) (s : System) (n : ℕ → ℕ) (x : DeviceExtension) (object r : ℕ)
    → CountedBy s.roots n
    → root_of x.data_of_usb ≡ some r
    → 0 < n r
    → n r < 4294967295
    → LoopCounts n (attach_if_new old q s x object)
unfolding attach_if_new
attach_if_new-LoopCounts true q s n x object r h e p small =
    (s, [], [], refl, CountedBy-≡ s.roots n _ h (λ a. omega arith))
attach_if_new-LoopCounts false q s n x object r h e p small =
    let (status, t, o, run, counted, keeps) =
      create_and_attach_tgt-Attaches q s n x r h e p small in
    (
      t,
      object ∷ [],
      filter_of o,
      rw (run, attach_if_new) refl,
      CountedBy-≡ t.roots _ _ counted (λ a. omega (arith, references-filter_of o a)),
    )

-- A round makes at most one filter.
attach_if_new_le :
    (old : Bool) (q : AttachAnswers) (s : System) (x : DeviceExtension) (object r : ℕ)
    → IfSome (λ a. references a.2 r ≤ 1) (attach_if_new old q s x object)
unfolding attach_if_new
attach_if_new_le true q s x object r = omega arith
attach_if_new_le false q s x object r = elim (Option-cases (create_and_attach_tgt q s x)) [
  | inl e ↦ rw (e, attach_if_new) tt
  | inr ((status, t, o), e) ↦
      rw (e, attach_if_new)
        (omega (arith, references-filter_of o r, one_if_le (root_of (data_of o)) r))
]

attach_new-LoopCounts :
    (q : ℕ → ℕ → AttachAnswers) (previous : Option (List ℕ)) (s : System) (n : ℕ → ℕ)
    (x : DeviceExtension) (i : ℕ) (os : List ℕ) (r : ℕ)
    → CountedBy s.roots n
    → root_of x.data_of_usb ≡ some r
    → 0 < n r
    → n r + length os < 4294967296
    → LoopCounts n (attach_new q previous s x i os)
unfolding attach_new
attach_new-LoopCounts q previous s n x i [] r h e p small =
    (s, [], [], refl, CountedBy-≡ s.roots n _ h (λ a. omega arith))
attach_new-LoopCounts q previous s n x i (o ∷ os) r h e p small =
    let (t, calls, made, run, counted) =
      attach_if_new-LoopCounts (is_previous previous o) (q i o) s n x o r h e p (omega arith) in
    let m : ℕ → ℕ = λ b. references made b + n b in
    let few =
      IfSome-some (λ a. references a.2 r ≤ 1) _ (t, calls, made)
        (attach_if_new_le (is_previous previous o) (q i o) s x o r) run in
    let (u, calls', made', run', counted') =
      attach_new-LoopCounts q previous t m x (suc i) os r counted e (omega arith) (omega arith) in
    (
      u,
      calls ++ calls',
      made ++ made',
      rw (run, run', attach_new) refl,
      CountedBy-≡ u.roots _ _ counted' (λ a. omega (arith, references-append made made' a)),
    )

abbrev QueryCounts : List DeviceExtension → Option Queried → Type 0
QueryCounts xs run = (r : Queried) × (run ≡ some r) × Counted r.system (r.filters ++ xs)

handle_reported-QueryCounts :
    (q : RelationsQuery) (s : System) (x : DeviceExtension) (status : NtStatus)
    (o : Option (List ℕ)) (xs : List DeviceExtension) (r : ℕ)
    → Counted s xs
    → root_of x.data_of_usb ≡ some r
    → 0 < references xs r
    → ((os : List ℕ) → o ≡ some os → references xs r + length os < 4294967296)
    → QueryCounts xs (handle_reported q s x status o)
unfolding handle_reported
handle_reported-QueryCounts q s x status none xs r h e p small =
    (nothing_attached (Disposition.waited status) (release_lock s x.remove_lock) x, refl, h)
handle_reported-QueryCounts q s x status (some os) xs r h e p small =
    elim (Option-cases x.data_of_usb) [
      | inl nothing ↦ ground (arith, e, nothing)
      | inr (d, there) ↦
          let (t, calls, made, run, counted) =
            attach_new-LoopCounts q.targets d.previous_children s (references xs) x 0 os r h e p
              (small os refl) in
          (
            record {
              disposition = Disposition.waited status;
              called_for = calls;
              filters = made;
              system = release_lock t x.remove_lock;
              hub = with_data x (some (with_children d (keep_children q.room os)));
            },
            rw (there, run, handle_reported) refl,
            CountedBy-≡ t.roots _ (references (made ++ xs)) counted
                (λ a. sym (references-append made xs a)),
          )
    ]

reported_if-some :
    (b : Bool) (o : Option (List ℕ)) (os : List ℕ) → reported_if b o ≡ some os → o ≡ some os
reported_if-some true o os e = e
reported_if-some false o os e = ground arith

-- A query of the devices of a hub, whose filter is among those that count and stands on another
-- driver, does not fault, whatever locks, pool and statuses answer, as long as the references stay
-- below 2 ^ 32 with the reported objects. The filters that it makes count with the others.
pub query_device_relations-Counted :
    (q : RelationsQuery) (s : System) (before : List DeviceExtension) (x : DeviceExtension)
    (after : List DeviceExtension) (next r : ℕ)
    → Counted s (before ++ x ∷ after)
    → x.next_obj ≡ some next
    → root_of x.data_of_usb ≡ some r
    → ((os : List ℕ)
        → q.reported ≡ some os
        → references (before ++ x ∷ after) r + length os < 4294967296)
    → (t : Queried) × (query_device_relations q s x ≡ some t)
      × Counted t.system (t.filters ++ (before ++ x ∷ after))
unfolding query_device_relations query_if_acquired query_by_type reported_after forward_and_wait
query_device_relations-Counted q s before x after next r h at e small = if_acquired q.acquired
  where
    xs : List DeviceExtension
    xs = before ++ x ∷ after

    locked : System
    locked = acquire_lock true s x.remove_lock

    status : NtStatus
    status = wait_for q.called q.final

    by_type : (b : Bool) → QueryCounts xs (query_by_type b q locked x)
    by_type false =
        (nothing_attached (pass_on x.next_obj) (release_lock locked x.remove_lock) x, refl, h)
    by_type true =
        let (t, run, counted) =
          handle_reported-QueryCounts q locked x status (reported_if (nt_success status) q.reported)
            xs r h e (references_there before x after r e)
            (λ os is. small os (reported_if-some (nt_success status) q.reported os is)) in
        let next_called =
          ap (λ o. reported_after q locked x (forward_and_wait o q.called q.final)) at in
        (t, next_called ∙ run, counted)

    if_acquired : (b : Bool) → QueryCounts xs (query_if_acquired b q s x)
    if_acquired false = (nothing_attached Disposition.lock_error s x, refl, h)
    if_acquired true = by_type q.is_bus_relations
