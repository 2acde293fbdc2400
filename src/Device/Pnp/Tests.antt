-- ===== src/Device/Pnp/Tests.antt =====
-- The theorems on requests to a device object at concrete requests.
use usbpcap_ai.Base.{
  ℕ, ◌+◌, ◌≡◌, refl, Bool, true, false, none, some, List, [], ◌∷◌, ◌++◌, IfSome, arith,
  if◌then◌else◌, ◌==◌,
}
use usbpcap_ai.Buffer.{NtStatus}
use usbpcap_ai.Filter.{zero_filter}
use usbpcap_ai.Device.{acquire_lock, release_lock, add_object, init_lock}
use usbpcap_ai.Device.Data.{
  set_root, allocate_device_data, take_root, add_reference, end_allocation, child_data,
  new_root_hub_data, one_more, with_data,
}
use usbpcap_ai.Device.Data.Counts.{Counted}
use usbpcap_ai.Device.Attach.{
  with_control, attach, create_and_attach_tgt, attach_created, attach_tgt,
}
use usbpcap_ai.Device.Attach.Steps.{Reached-Counted}
use usbpcap_ai.Device.Forward.{power_request, Disposition, forward_and_wait}
use usbpcap_ai.Device.Forward.Locks.{power_request-held}
use usbpcap_ai.Device.Start.{HubCall, KeyLength, NodeInformation, StartAnswers, get_device_usb_info}
use usbpcap_ai.Device.Start.Info.{Starts, get_device_usb_info-Starts}
use usbpcap_ai.Device.Relations.{
  with_children, Queried, RelationsQuery, attach_if_new, attach_new, handle_reported, is_child,
  query_by_type, query_device_relations, query_if_acquired, reported_after,
}
use usbpcap_ai.Device.Relations.Children.{query_device_relations-without}
use usbpcap_ai.Device.Relations.Counts.{query_device_relations-Counted}
use usbpcap_ai.Device.Pnp.{Minor, PnpRequest, PnpRun, hub_flt_pnp}
use usbpcap_ai.Device.Pnp.Removal.{Removed, hub_flt_pnp-Removed, hub_flt_pnp-waits}
use usbpcap_ai.Device.Samples.{
  answers, child, control, hub, pool, with_child, with_hub, with_hub-Reached,
}

abbrev call : HubCall
call = record { room = true; called = NtStatus.pending; final = NtStatus.success }

abbrev start_answers : StartAnswers
start_answers = record {
  pdo_status = NtStatus.success;
  node_call = call;
  node = NodeInformation.usb_hub 4;
  key_length = KeyLength.too_small 4;
  key_room = true;
  key_status = NtStatus.success;
  key = 7 ∷ [];
  port_key = λ i. if i == 3 then some (7 ∷ []) else none;
  connection_call = call;
  connected_is_hub = λ i. false;
  connected_address = λ i. i + 2;
}

abbrev same_head : List ℕ → List ℕ → Bool
same_head (a ∷ x) (b ∷ y) = a == b
same_head _ _ = false

get_device_usb_info-Starts_example :
    Starts with_child 1000 zero_filter
      (get_device_usb_info same_head start_answers with_child child)
get_device_usb_info-Starts_example =
    get_device_usb_info-Starts same_head start_answers with_child child
      (child_data (pool none) (some hub) 1000) 6 5 1000
      (with_control (one_more new_root_hub_data) (some control)) refl refl refl refl refl refl refl

power_request-held_example : (power_request true with_hub hub).1.held 10 ≡ 1
power_request-held_example = power_request-held true with_hub hub

abbrev query : List ℕ → RelationsQuery
query objects = record {
  acquired = true;
  is_bus_relations = true;
  called = NtStatus.pending;
  final = NtStatus.success;
  reported = some objects;
  room = true;
  targets = λ i object. answers (i + 20) object none;
}

abbrev request : PnpRequest
request = record {
  minor = Minor.remove_device;
  acquired = true;
  called = NtStatus.success;
  final = NtStatus.success;
  query = query [];
  start = start_answers;
  name_status = NtStatus.success;
}

hub_flt_pnp-Removed_example :
    Removed with_hub hub
      (child_data (pool (some 1000)) none 1000)
      (with_control new_root_hub_data (some control))
      control
      5
      10
      (hub_flt_pnp request with_hub hub)
hub_flt_pnp-Removed_example =
    hub_flt_pnp-Removed request with_hub hub (child_data (pool (some 1000)) none 1000)
      (with_control new_root_hub_data (some control)) control 5 10 (refl, refl, refl)
      (refl, (1000, refl, refl), refl, refl, refl, refl, refl, refl, refl) refl

-- The device of the hub still has its filter.
hub_flt_pnp-waits_example : hub_flt_pnp request with_child hub ≡ PnpRun.waits
hub_flt_pnp-waits_example =
    hub_flt_pnp-waits request with_child hub (child_data (pool (some 1000)) none 1000)
      (with_control (one_more new_root_hub_data) (some control)) control 5 10 0 (refl, refl, refl)
      (refl, (1000, refl, refl), refl, refl, refl, refl, refl, refl, refl) refl

query_device_relations-Counted_example :
    (t : Queried) × (query_device_relations (query (6 ∷ 7 ∷ [])) with_hub hub ≡ some t)
    × Counted t.system (t.filters ++ ([] ++ hub ∷ []))
query_device_relations-Counted_example =
    query_device_relations-Counted (query (6 ∷ 7 ∷ [])) with_hub [] hub [] 5 1000
      (Reached-Counted with_hub (hub ∷ []) with_hub-Reached).0 refl refl (λ os e. ground (arith, e))

-- What the first query does.
abbrev first_queried : Queried
first_queried = record {
  disposition = Disposition.waited NtStatus.success;
  called_for = 6 ∷ [];
  filters = child ∷ [];
  system =
      release_lock
        (acquire_lock true
          (attach
            (init_lock
              (set_root (add_object (acquire_lock true with_hub 10) 20) 1000
                (some (with_control (one_more new_root_hub_data) (some control))))
              20)
            6)
          10)
        10;
  hub =
      with_data hub
        (some (with_children (child_data (pool (some 1000)) none 1000) (some (6 ∷ 0 ∷ []))));
}

-- After a query for object 6, a query for 6 and 7 calls for 7.
query_device_relations-without_example :
    IfSome
      (λ r. r.called_for ≡ 7 ∷ [])
      (query_device_relations (query (6 ∷ 7 ∷ [])) with_hub first_queried.hub)
unfolding query_device_relations query_if_acquired query_by_type reported_after handle_reported
    attach_new attach_if_new is_child forward_and_wait create_and_attach_tgt attach_created
    attach_tgt allocate_device_data take_root add_reference end_allocation
query_device_relations-without_example =
    query_device_relations-without (query (6 ∷ [])) (query (6 ∷ 7 ∷ [])) with_hub with_hub hub
      first_queried (6 ∷ []) (6 ∷ 7 ∷ []) (refl, refl, refl, refl) (ground arith, tt) refl
      (refl, refl, refl, refl)
