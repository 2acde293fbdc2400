-- ===== src/Device/Relations.antt =====
-- USBPcapDriver/USBPcapPnP.c: `DkHubFltPnpHandleQryDevRels`, which attaches filters to the new
-- devices of a hub. `none` is an access through NULL or to data that were freed.
pub mod Children
pub mod Counts
use usbpcap_ai.Base.{
  ℕ, suc, Bool, true, false, Option, none, some, List, [], ◌∷◌, ◌++◌, ◌==◌, if◌then◌else◌,
}
use usbpcap_ai.Buffer.{NtStatus, nt_success}
use usbpcap_ai.Device.{DeviceData, DeviceExtension, System, acquire_lock, put, release_lock}
use usbpcap_ai.Device.Data.{with_data}
use usbpcap_ai.Device.Attach.{AttachAnswers, create_and_attach_tgt}
use usbpcap_ai.Device.Forward.{Disposition, forward_and_wait, pass_on}

-- `IRP_MN_QUERY_DEVICE_RELATIONS`: whether the lock is acquired, whether the type is BusRelations,
-- the statuses of the next driver, the device objects that it reports, or NULL, whether there is
-- room to keep them, and what the system answers for the filter of an object, by its position and the
-- object.
pub record RelationsQuery : Type 0 where
  pub acquired : Bool
  pub is_bus_relations : Bool
  pub called : NtStatus
  pub final : NtStatus
  pub reported : Option (List ℕ)
  pub room : Bool
  pub targets : ℕ → ℕ → AttachAnswers

-- What a query did: the request, the objects that `DkCreateAndAttachTgt` was called for, the
-- filters that it made, the system and the extension of the hub.
pub record Queried : Type 0 where
  pub disposition : Disposition
  pub called_for : List ℕ
  pub filters : List DeviceExtension
  pub system : System
  pub hub : DeviceExtension

-- The search for an object in `previousChildren`, which ends at NULL.
unfoldable pub is_child : List ℕ → ℕ → Bool
is_child [] object = false
is_child (c ∷ cs) object =
    if c == 0 then false else if c == object then true else is_child cs object

abbrev pub is_previous : Option (List ℕ) → ℕ → Bool
is_previous none object = false
is_previous (some children) object = is_child children object

abbrev pub filter_of : Option DeviceExtension → List DeviceExtension
filter_of none = []
filter_of (some x) = x ∷ []

-- One round of the loop over the reported objects.
unfoldable pub attach_if_new :
    Bool
    → AttachAnswers
    → System
    → DeviceExtension
    → ℕ
    → Option (System × List ℕ × List DeviceExtension)
attach_if_new true q s x object = some (s, [], [])
attach_if_new false q s x object = elim (create_and_attach_tgt q s x) [
  | none ↦ none
  | some (status, t, made) ↦ some (t, object ∷ [], filter_of made)
]

-- The loop over the reported objects, from position `i` on.
unfoldable pub attach_new :
    (ℕ → ℕ → AttachAnswers)
    → Option (List ℕ)
    → System
    → DeviceExtension
    → ℕ
    → List ℕ
    → Option (System × List ℕ × List DeviceExtension)
attach_new q previous s x i [] = some (s, [], [])
attach_new q previous s x i (object ∷ objects) =
    elim (attach_if_new (is_previous previous object) (q i object) s x object) [
      | none ↦ none
      | some (t, calls, made) ↦ elim (attach_new q previous t x (suc i) objects) [
        | none ↦ none
        | some (u, calls', made') ↦ some (u, calls ++ calls', made ++ made')
      ]
    ]

-- The new `previousChildren`, terminated by NULL.
abbrev pub keep_children : Bool → List ℕ → Option (List ℕ)
keep_children room [] = none
keep_children room (object ∷ objects) = if room then some (object ∷ objects ++ 0 ∷ []) else none

abbrev pub with_children : DeviceData → Option (List ℕ) → DeviceData
with_children d children = record d { previous_children = children }

-- What is done with the objects that the next driver reports; the lock is released at the end.
unfoldable pub handle_reported :
    RelationsQuery → System → DeviceExtension → NtStatus → Option (List ℕ) → Option Queried
handle_reported q s x status none = some (record {
  disposition = Disposition.waited status;
  called_for = [];
  filters = [];
  system = release_lock s x.remove_lock;
  hub = x;
})
handle_reported q s x status (some objects) = elim x.data_of_usb [
  | none ↦ none
  | some d ↦ elim (attach_new q.targets d.previous_children s x 0 objects) [
    | none ↦ none
    | some (t, calls, made) ↦ some (record {
      disposition = Disposition.waited status;
      called_for = calls;
      filters = made;
      system = release_lock t x.remove_lock;
      hub = with_data x (some (with_children d (keep_children q.room objects)));
    })
  ]
]

abbrev pub reported_if : Bool → Option (List ℕ) → Option (List ℕ)
reported_if true reported = reported
reported_if false reported = none

-- What the hub's bus driver reported, if it could be asked.
unfoldable pub reported_after :
    RelationsQuery → System → DeviceExtension → Option NtStatus → Option Queried
reported_after q s x none = none
reported_after q s x (some status) =
    handle_reported q s x status (reported_if (nt_success status) q.reported)

abbrev pub nothing_attached : Disposition → System → DeviceExtension → Queried
nothing_attached disposition s x = record {
  disposition = disposition;
  called_for = [];
  filters = [];
  system = s;
  hub = x;
}

-- The switch over the type of the query: BusRelations or another.
unfoldable pub query_by_type : Bool → RelationsQuery → System → DeviceExtension → Option Queried
query_by_type true q s x = reported_after q s x (forward_and_wait x.next_obj q.called q.final)
query_by_type false q s x =
    some (nothing_attached (pass_on x.next_obj) (release_lock s x.remove_lock) x)

unfoldable pub query_if_acquired : Bool → RelationsQuery → System → DeviceExtension → Option Queried
query_if_acquired true q s x =
    query_by_type q.is_bus_relations q (acquire_lock true s x.remove_lock) x
query_if_acquired false q s x = some (nothing_attached Disposition.lock_error s x)

-- `DkHubFltPnpHandleQryDevRels`
unfoldable pub query_device_relations : RelationsQuery → System → DeviceExtension → Option Queried
query_device_relations q s x = query_if_acquired q.acquired q s x
