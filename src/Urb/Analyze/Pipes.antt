-- ===== src/Urb/Analyze/Pipes.antt =====
-- The endpoints that `USBPcapAnalyzeURB` of USBPcapDriver/USBPcapURB.c learns.
use usbpcap_ai.Base.{
  ℕ, ◌≡◌, refl, sym, ◌∙◌, Bool, true, Option, none, some, List, [], ◌∷◌, Option-cases, IfSome, inl,
  inr, ◌==◌, if◌then◌else◌, arith,
}
use mathlib.Core.Path.{subst}
use usbpcap_ai.Tables.Generic.{GenericTable}
use usbpcap_ai.Tables.Endpoint.{
  EndpointInfo, PipeInformation, add_endpoint_info, endpoint_key, endpoint_of,
  retrieve-add_endpoint_info, retrieve_endpoint_info,
}
use usbpcap_ai.Tables.UrbIrp.{UrbIrpInfo, urb_irp_key}
use usbpcap_ai.Urb.Interfaces.{Memory, parse_interface_information}
use usbpcap_ai.Urb.Analyze.{
  ConfigurationDescriptor, Device, Resources, Sizes, Urb, UrbBody, add_pipes, analyze_always,
  interfaces_of, parse_interfaces, store_descriptor,
}

-- The last pipe with a handle, among those at some offsets.
abbrev pub last_pipe : Memory → ℕ → List ℕ → Option PipeInformation
last_pipe m handle [] = none
last_pipe m handle (o ∷ os) = elim (last_pipe m handle os) [
  | none ↦ if (m.pipe_at o).pipe_handle == handle then some (m.pipe_at o) else none
  | some later ↦ some later
]

abbrev pub known_or : Option EndpointInfo → ℕ → Option PipeInformation → Option EndpointInfo
known_or before device_address none = before
known_or before device_address (some pipe) = some (endpoint_of pipe device_address)

module _ (E : GenericTable EndpointInfo endpoint_key) (U : GenericTable UrbIrpInfo urb_irp_key)
    (sizes : Sizes) (find_interface : List ℕ → ℕ → ℕ → Option (ℕ × ℕ)) where
  retrieve-add_pipes :
      (room : ℕ → Bool) (m : Memory) (device_address : ℕ) (t : E.Table) (os : List ℕ) (handle : ℕ)
      → ((o : ℕ) → room o ≡ true)
      → retrieve_endpoint_info E
          (add_pipes E U sizes find_interface room m device_address t os)
          handle
        ≡ known_or (retrieve_endpoint_info E t handle) device_address (last_pipe m handle os)
  unfolding add_pipes
  retrieve-add_pipes room m device_address t [] handle memory = refl
  retrieve-add_pipes room m device_address t (o ∷ os) handle memory =
      let t' = add_endpoint_info E (room o) t (m.pipe_at o) device_address in
      retrieve-add_pipes room m device_address t' os handle memory
      ∙ ground (
        arith,
        memory o,
        retrieve-add_endpoint_info E (room o) t (m.pipe_at o) device_address handle,
      )

  -- After a configuration was selected, with memory at hand for the elements, every pipe handle in
  -- the parsed interface information finds the last pipe with it, with the device's address, and
  -- every other handle what it found before, unless the copy of the descriptor faults.
  pub retrieve-analyze_always :
      (r : Resources) (d : Device E U sizes find_interface) (urb : Urb) (m : Memory)
      (descriptor : Option ConfigurationDescriptor) (handle interfaces_len : ℕ)
      → ((o : ℕ) → r.pipe_room o ≡ true)
      → urb.body ≡ UrbBody.select_configuration m descriptor
      → interfaces_of urb sizes.configuration_offset ≡ some interfaces_len
      → IfSome
          (λ d'.
            retrieve_endpoint_info E d'.endpoints handle
            ≡ known_or
                (retrieve_endpoint_info E d.endpoints handle)
                d.device_address
                (last_pipe m handle (parse_interface_information sizes.layout m interfaces_len)))
          (analyze_always E U sizes find_interface r d urb true)
  unfolding analyze_always
  retrieve-analyze_always r d urb m descriptor handle interfaces_len memory body len =
      let known =
        retrieve-add_pipes r.pipe_room m d.device_address d.endpoints
          (parse_interface_information sizes.layout m interfaces_len) handle memory in
      elim (Option-cases (store_descriptor E U sizes find_interface r descriptor)) [
        | inl fault ↦ rw (body, fault, analyze_always) tt
        | inr (stored, kept) ↦ rw (body, kept, analyze_always) (subst found (sym len) known)
      ]
    where
      found : Option ℕ → Type 0
      found o =
          retrieve_endpoint_info E (parse_interfaces E U sizes find_interface r d m o).endpoints
            handle
          ≡ known_or (retrieve_endpoint_info E d.endpoints handle) d.device_address
              (last_pipe m handle (parse_interface_information sizes.layout m interfaces_len))
