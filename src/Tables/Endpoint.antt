-- ===== src/Tables/Endpoint.antt =====
-- The endpoint table of USBPcapDriver/USBPcapTables.c.
use usbpcap_ai.Base.{
  ap, ℕ, zero, suc, ◌≡◌, ◌<◌, refl, ◌∙◌, true, Bool, Option, none, some, ◌==◌, if◌then◌else◌, arith,
  Option-cases, inl, inr,
}
use usbpcap_ai.Tables.Generic.{GenericTable, compare_keys}

-- `USBPCAP_ENDPOINT_INFO`
pub record EndpointInfo : Type 0 where
  pub handle : ℕ
  pub pipe_type : ℕ
  pub endpoint_address : ℕ
  pub device_address : ℕ

-- The fields of `USBD_PIPE_INFORMATION` that are read.
pub record PipeInformation : Type 0 where
  pub pipe_handle : ℕ
  pub type : ℕ
  pub address : ℕ

abbrev pub endpoint_key : EndpointInfo → ℕ
endpoint_key e = e.handle

abbrev pub endpoint_of : PipeInformation → ℕ → EndpointInfo
endpoint_of pipe device_address = record {
  handle = pipe.pipe_handle;
  pipe_type = pipe.type;
  endpoint_address = pipe.address;
  device_address = device_address;
}

module _ (T : GenericTable EndpointInfo endpoint_key) where
  open T use {
    Table, empty, lookup, insert, delete, modify, first, count, lookup-insert, lookup-delete,
    lookup-modify, lookup-key, count_first, first_none,
  }

  -- `USBPcapAddEndpointInfo`; `room` is whether the allocation of a new element succeeds.
  unfoldable pub add_endpoint_info : Bool → Table → PipeInformation → ℕ → Table
  add_endpoint_info room t pipe device_address =
      let t' = insert room t (endpoint_of pipe device_address) in
      elim (lookup t pipe.pipe_handle) [
        | none ↦ t'
        | some old ↦ modify t' pipe.pipe_handle (λ e. record e {
          pipe_type = pipe.type;
          endpoint_address = pipe.address;
          device_address = device_address;
        })
      ]

  -- `USBPcapRemoveEndpointInfo`
  unfoldable pub remove_endpoint_info : Table → ℕ → Table
  remove_endpoint_info t handle = delete t handle

  -- `USBPcapGetEndpointInfo`
  abbrev pub get_endpoint_info : Table → ℕ → Option EndpointInfo
  get_endpoint_info t handle = lookup t handle

  -- `USBPcapRetrieveEndpointInfo`: the copy that it makes.
  unfoldable pub retrieve_endpoint_info : Table → ℕ → Option EndpointInfo
  retrieve_endpoint_info t handle = get_endpoint_info t handle

  -- `USBPcapInitializeEndpointTable`; `room` is whether the allocation of the table succeeds.
  unfoldable pub initialize_endpoint_table : Bool → Option Table
  initialize_endpoint_table room = if room then some empty else none

  -- The loop of `USBPcapFreeEndpointTable`; `none` is the end of the fuel.
  unfoldable pub free_endpoint_table : ℕ → Table → Option Table
  free_endpoint_table zero t = none
  free_endpoint_table (suc fuel) t = elim (first t) [
    | none ↦ some t
    | some e ↦ free_endpoint_table fuel (delete t e.handle)
  ]

  -- After a pipe is added, its handle finds the pipe as it was added, also if the handle was in
  -- the table before, and every other handle finds what it found. Where the handle is new and
  -- there is no memory, the table is as it was.
  pub retrieve-add_endpoint_info :
      (room : Bool) (t : Table) (pipe : PipeInformation) (device_address handle : ℕ)
      → retrieve_endpoint_info (add_endpoint_info room t pipe device_address) handle ≡ (
          if pipe.pipe_handle == handle
          then (elim (retrieve_endpoint_info t handle) [
            | none ↦ if room then some (endpoint_of pipe device_address) else none
            | some old ↦ some (endpoint_of pipe device_address)
          ])
          else retrieve_endpoint_info t handle)
  unfolding add_endpoint_info retrieve_endpoint_info compare_keys
  retrieve-add_endpoint_info room t pipe device_address handle =
      elim (Option-cases (lookup t pipe.pipe_handle)) [
        | inl absent ↦
            rw (absent, add_endpoint_info, retrieve_endpoint_info)
              (ground (
                arith,
                lookup-insert room t (endpoint_of pipe device_address) handle,
                absent,
                found,
              ))
        | inr (old, present) ↦
            rw (present, add_endpoint_info, retrieve_endpoint_info)
              (ground (
                arith,
                lookup-insert room t (endpoint_of pipe device_address) handle,
                lookup-modify (insert room t (endpoint_of pipe device_address)) pipe.pipe_handle
                    update handle (λ e. refl),
                present,
                found,
                lookup-key t pipe.pipe_handle old present,
              ))
      ]
    where
      found : pipe.pipe_handle ≡ handle → lookup t pipe.pipe_handle ≡ lookup t handle
      found e = ap (λ k. lookup t k) e

      update : EndpointInfo → EndpointInfo
      update e = record e {
        pipe_type = pipe.type;
        endpoint_address = pipe.address;
        device_address = device_address;
      }

  -- In a new table, with memory at hand for it and for one element, exactly the pipe that is added
  -- first is found.
  pub initialize-add_endpoint_info :
      (pipe : PipeInformation) (device_address handle : ℕ)
      → (t : Table) × (initialize_endpoint_table true ≡ some t)
        × (retrieve_endpoint_info (add_endpoint_info true t pipe device_address) handle
            ≡ (if pipe.pipe_handle == handle then some (endpoint_of pipe device_address) else none))
  unfolding initialize_endpoint_table retrieve_endpoint_info
  initialize-add_endpoint_info pipe device_address handle = (
    empty,
    refl,
    retrieve-add_endpoint_info true empty pipe device_address handle
        ∙ ground (arith, T.lookup-empty handle),
  )

  -- With more fuel than elements the loop ends, and nothing is left to be found.
  pub free_endpoint_table_lem :
      (fuel : ℕ) (t : Table)
      → count t < fuel
      → (left : Table) × (free_endpoint_table fuel t ≡ some left) × ((k : ℕ) → lookup left k ≡ none)
  unfolding free_endpoint_table
  free_endpoint_table_lem zero t h = absurd (omega arith)
  free_endpoint_table_lem (suc fuel) t h = elim (Option-cases (first t)) [
    | inl e ↦ rw (e, free_endpoint_table) (t, refl, first_none t e)
    | inr (a, e) ↦
        rw (e, free_endpoint_table)
          (free_endpoint_table_lem fuel (delete t a.handle) (omega (arith, count_first t a e)))
  ]
