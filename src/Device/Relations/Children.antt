-- ===== src/Device/Relations/Children.antt =====
-- Which devices of a hub get a filter, in USBPcapDriver/USBPcapPnP.c.
use mathlib.Core.Path.{subst}
use usbpcap_ai.Base.{
  ℕ, suc, ◌≡◌, ◌≢◌, refl, ap, ◌∙◌, sym, Bool, true, false, ◌&&◌, Option, none, some, List, [], ◌∷◌,
  ◌++◌, ◌==◌, if◌then◌else◌, IfSome, IfSome-some, Option-cases, Bool-cases, inl, inr, arith,
}
use usbpcap_ai.Buffer.{nt_success}
use usbpcap_ai.Device.{DeviceExtension, System, acquire_lock}
use usbpcap_ai.Device.Attach.{AttachAnswers, create_and_attach_tgt}
use usbpcap_ai.Device.Forward.{forward_and_wait, wait_for}
use usbpcap_ai.Device.Relations.{
  Queried, RelationsQuery, attach_if_new, attach_new, handle_reported, is_child, is_previous,
  keep_children, query_by_type, query_device_relations, query_if_acquired, reported_after,
  reported_if,
}

-- The addresses that a test does not hold for, in their order.
abbrev pub without : (ℕ → Bool) → List ℕ → List ℕ
without test [] = []
without test (o ∷ os) = if test o then without test os else o ∷ without test os

abbrev pub is_in : List ℕ → ℕ → Bool
is_in [] o = false
is_in (c ∷ cs) o = if c == o then true else is_in cs o

-- No address of the list is NULL.
abbrev pub NonNull : List ℕ → Type 0
NonNull [] = Unit {0}
NonNull (o ∷ os) = (o ≢ 0) × NonNull os

is_child-is_in : (cs : List ℕ) (o : ℕ) → NonNull cs → is_child (cs ++ 0 ∷ []) o ≡ is_in cs o
unfolding is_child
is_child-is_in [] o h = refl
is_child-is_in (c ∷ cs) o h =
    let null : (c == 0) ≡ false = ground (arith, h.0) in
    let rest = is_child-is_in cs o h.1 in
    elim (Bool-cases (c == o)) [ inl e ↦ rw (null, e) refl | inr e ↦ rw (null, e) rest ]

attach_new-without :
    (q : ℕ → ℕ → AttachAnswers) (previous : Option (List ℕ)) (s : System) (x : DeviceExtension)
    (i : ℕ) (os : List ℕ)
    → IfSome (λ r. r.1 ≡ without (λ o. is_previous previous o) os) (attach_new q previous s x i os)
unfolding attach_new attach_if_new
attach_new-without q previous s x i [] = refl
attach_new-without q previous s x i (o ∷ os) = elim (Bool-cases (is_previous previous o)) [
  | inl old ↦ elim (Option-cases (attach_new q previous s x (suc i) os)) [
    | inl e ↦ rw (old, e, attach_new, attach_if_new) tt
    | inr (r, e) ↦
        let rest =
          IfSome-some (λ r. r.1 ≡ without (λ o. is_previous previous o) os) _ r
            (attach_new-without q previous s x (suc i) os) e in
        rw (old, e, attach_new, attach_if_new) rest
  ]
  | inr new ↦ elim (Option-cases (create_and_attach_tgt (q i o) s x)) [
    | inl e ↦ rw (new, e, attach_new, attach_if_new) tt
    | inr (a, made) ↦ elim (Option-cases (attach_new q previous a.1 x (suc i) os)) [
      | inl e ↦ rw (new, made, e, attach_new, attach_if_new) tt
      | inr (r, e) ↦
          let rest =
            IfSome-some (λ r. r.1 ≡ without (λ o. is_previous previous o) os) _ r
              (attach_new-without q previous a.1 x (suc i) os) e in
          rw (new, made, e, attach_new, attach_if_new) (ap (λ t. o ∷ t) rest)
    ]
  ]
]

-- A query that brings the objects of a hub: the lock is acquired, the next driver succeeds.
abbrev pub Reports : RelationsQuery → List ℕ → Type 0
Reports q os =
    (q.acquired ≡ true)
    × (q.is_bus_relations ≡ true)
    × (nt_success (wait_for q.called q.final) ≡ true)
    × (q.reported ≡ some os)

abbrev pub children_of : DeviceExtension → Option (List ℕ)
children_of x = elim x.data_of_usb [ none ↦ none | some d ↦ d.previous_children ]

abbrev KeepsReported : Bool → Option (List ℕ) → List ℕ → Queried → Type 0
KeepsReported room previous os r =
    (r.called_for ≡ without (λ o. is_previous previous o) os)
    × (children_of r.hub ≡ keep_children room os)

handle_reported-KeepsReported :
    (q : RelationsQuery) (s : System) (x : DeviceExtension) (status : _) (os : List ℕ)
    → IfSome (KeepsReported q.room (children_of x) os) (handle_reported q s x status (some os))
unfolding handle_reported
handle_reported-KeepsReported q s x status os = elim (Option-cases x.data_of_usb) [
  | inl e ↦ rw (e, handle_reported) tt
  | inr (d, e) ↦ elim (Option-cases (attach_new q.targets d.previous_children s x 0 os)) [
    | inl f ↦ rw (e, f, handle_reported) tt
    | inr (a, f) ↦
        let calls =
          IfSome-some (λ r. r.1 ≡ without (λ o. is_previous d.previous_children o) os) _ a
            (attach_new-without q.targets d.previous_children s x 0 os) f in
        rw (e, f, handle_reported) (calls, refl)
  ]
]

query_device_relations-KeepsReported :
    (q : RelationsQuery) (s : System) (x : DeviceExtension) (os : List ℕ)
    → Reports q os
    → IfSome (KeepsReported q.room (children_of x) os) (query_device_relations q s x)
unfolding query_device_relations query_if_acquired query_by_type reported_after forward_and_wait
query_device_relations-KeepsReported q s x os (lock, bus, ok, reported) =
    subst Good (sym (ap (λ b. query_if_acquired b q s x) lock))
      (subst Good (sym (ap (λ b. query_by_type b q locked x) bus)) (after_next x.next_obj))
  where
    Good : Option Queried → Type 0
    Good o = IfSome (KeepsReported q.room (children_of x) os) o

    locked : System
    locked = acquire_lock true s x.remove_lock

    brought : reported_if (nt_success (wait_for q.called q.final)) q.reported ≡ some os
    brought = ap (λ b. reported_if b q.reported) ok ∙ reported

    after_next :
        (o : Option ℕ) → Good (reported_after q locked x (forward_and_wait o q.called q.final))
    after_next none = tt
    after_next (some next) =
        let status = wait_for q.called q.final in
        subst (λ o. Good (handle_reported q locked x status o)) (sym brought)
          (handle_reported-KeepsReported q locked x status os)

without-≡ : (p q : ℕ → Bool) (os : List ℕ) → ((o : ℕ) → p o ≡ q o) → without p os ≡ without q os
without-≡ p q [] h = refl
without-≡ p q (o ∷ os) h = rw (h o, without-≡ p q os h) refl

is_previous-keep_children :
    (room : Bool) (cs : List ℕ) (o : ℕ)
    → NonNull cs
    → is_previous (keep_children room cs) o ≡ (room && is_in cs o)
is_previous-keep_children true [] o h = refl
is_previous-keep_children false [] o h = refl
is_previous-keep_children true (c ∷ cs) o h = is_child-is_in (c ∷ cs) o h
is_previous-keep_children false (c ∷ cs) o h = refl

-- A query after a query, both of BusRelations with the lock acquired and the next driver's success,
-- the first of which does not fault and reported no NULL: if the second does not fault,
-- `DkCreateAndAttachTgt` is called in it for exactly the reported objects that the first did not
-- report, in their order, if there was room to keep what it reported; without room it is called for
-- every reported object, also those that have a filter.
pub query_device_relations-without :
    (p q : RelationsQuery) (s t : System) (x : DeviceExtension) (r : Queried) (before now : List ℕ)
    → Reports p before
    → NonNull before
    → query_device_relations p s x ≡ some r
    → Reports q now
    → IfSome
        (λ r'. r'.called_for ≡ without (λ o. p.room && is_in before o) now)
        (query_device_relations q t r.hub)
query_device_relations-without p q s t x r before now reports non_null run reports' =
    let (calls, children) =
      IfSome-some (KeepsReported p.room (children_of x) before) _ r
        (query_device_relations-KeepsReported p s x before reports) run in
    elim (Option-cases (query_device_relations q t r.hub)) [
      | inl e ↦ rw e tt
      | inr (r', e) ↦
          let (calls', children') =
            IfSome-some (KeepsReported q.room (children_of r.hub) now) _ r'
              (query_device_relations-KeepsReported q t r.hub now reports') e in
          rw e (
            calls'
            ∙ without-≡ _ (λ o. p.room && is_in before o) now
                (λ o.
                  ap (λ c. is_previous c o) children
                  ∙ is_previous-keep_children p.room before o non_null))
    ]
