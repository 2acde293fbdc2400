-- ===== src/Device/Start/Info.antt =====
-- What a device that starts is known by, in USBPcapDriver/USBPcapHelperFunctions.c.
use usbpcap_ai.Base.{
  ℕ, ◌≡◌, ◌≤◌, refl, ap, ◌∙◌, Bool, true, false, ◌&&◌, ◌||◌, if◌then◌else◌, Option, none, some,
  List, [], ◌==◌, Bool-cases, Option-cases, inl, inr, arith,
}
use usbpcap_ai.Buffer.{NtStatus, nt_success}
use usbpcap_ai.Filter.{AddressFilter, is_device_filtered, pos}
use usbpcap_ai.Filter.Mask.{IsFilter, set_device_filtered_lem}
use usbpcap_ai.Device.{DeviceData, DeviceExtension, RootHubData, System}
use usbpcap_ai.Device.Data.{set_root, with_data}
use usbpcap_ai.Device.Start.{
  KeyLength, StartAnswers, call_status, filter_new, filter_started, find_port, get_device_usb_info,
  get_number_of_ports, get_pdo_driver_key, get_sized_key, get_target_device_port, known_at,
  placed_at, port_below, port_of, port_with_key, ports_of, start_at, start_found, start_with,
  with_filter_new,
}

-- The filter that a device starts with: the address joins it if the filter has new devices, which
-- is address 0.
filter_new_lem :
    (f : AddressFilter) (a b : ℕ)
    → IsFilter f
    → b ≤ 127
    → is_device_filtered (filter_new f a) (pos b)
      ≡ (is_device_filtered f (pos b) || (is_device_filtered f (pos 0) && (a == b)))
filter_new_lem f a b v h =
    let set = (set_device_filtered_lem f a b v h).1 in
    elim (Bool-cases (is_device_filtered f (pos 0))) [
      | inl new ↦ rw new set
      | inr old ↦ rw old (ground arith)
    ]

-- What is found for a device: no fault, and no port comes with a status that is no success.
abbrev Finds : Option (NtStatus × Option ℕ) → Type 0
Finds run =
    (status : NtStatus) × (o : Option ℕ) × (run ≡ some (status, o))
    × (o ≡ none → nt_success status ≡ false)

-- With memory for it, the driver key is asked for without a fault.
get_pdo_driver_key-answers :
    (q : StartAnswers)
    → q.key_room ≡ true
    → (status : NtStatus) × (key : List ℕ) × (get_pdo_driver_key q ≡ some (status, key))
unfolding get_pdo_driver_key get_sized_key
get_pdo_driver_key-answers q room = by_length q.key_length refl
  where
    by_length :
        (l : KeyLength)
        → q.key_length ≡ l
        → (status : NtStatus) × (key : List ℕ) × (get_pdo_driver_key q ≡ some (status, key))
    by_length (KeyLength.answered status) e = (
      (if nt_success status then NtStatus.invalid_device_request else status),
      [],
      rw (e, get_pdo_driver_key) refl,
    )
    by_length (KeyLength.too_small n) e = elim (Bool-cases (n == 0)) [
      | inl empty ↦ (
        NtStatus.invalid_device_request,
        [],
        rw (e, empty, get_pdo_driver_key, get_sized_key) refl,
      )
      | inr other ↦ (
        q.key_status,
        (if nt_success q.key_status then q.key else []),
        rw (e, other, room, get_pdo_driver_key, get_sized_key) refl,
      )
    ]

module _ (equal_text : List ℕ → List ℕ → Bool) where
  port_with_key-none :
      (q : StartAnswers) (ports : ℕ) (status : NtStatus) (key : List ℕ)
      → (port_with_key equal_text q ports status key).1 ≡ none
      → nt_success (port_with_key equal_text q ports status key).0 ≡ false
  unfolding port_with_key
  port_with_key-none q ports status key = elim (Bool-cases (nt_success status)) [
    | inr a ↦ rw (a, port_with_key) (λ e. a)
    | inl a ↦ elim (Option-cases (find_port equal_text q key ports 1)) [
      | inl b ↦ rw (a, b, port_with_key) (λ e. refl)
      | inr (port, b) ↦ rw (a, b, port_with_key) (λ e. ground arith)
    ]
  ]

  get_target_device_port-Finds :
      (q : StartAnswers) (hub : ℕ)
      → q.key_room ≡ true
      → Finds (get_target_device_port equal_text q (some hub))
  unfolding get_target_device_port get_number_of_ports
  get_target_device_port-Finds q hub room =
      let (key_status, key, asked) = get_pdo_driver_key-answers q room in
      elim (Bool-cases (nt_success (call_status q.node_call))) [
        | inr a ↦ (call_status q.node_call, none, rw (a, get_target_device_port) refl, λ e. a)
        | inl a ↦ (
          (port_with_key equal_text q (ports_of q.node) key_status key).0,
          (port_with_key equal_text q (ports_of q.node) key_status key).1,
          rw (a, asked, get_target_device_port) refl,
          port_with_key-none q (ports_of q.node) key_status key,
        )
      ]

  port_of-Finds :
      (q : StartAnswers) (next hub : ℕ) (d : DeviceData)
      → q.key_room ≡ true
      → d.next_parent_flt ≡ some hub
      → Finds (port_of equal_text q (some next) d)
  unfolding port_of port_below
  port_of-Finds q next hub d room at = elim (Bool-cases (d.parent_port == 0)) [
    | inr known ↦
        (NtStatus.success, some d.parent_port, rw (known, port_of) refl, λ e. ground arith)
    | inl unknown ↦ elim (Bool-cases (nt_success q.pdo_status)) [
      | inr a ↦ (q.pdo_status, none, rw (unknown, a, port_of, port_below) refl, λ e. a)
      | inl a ↦
          let (status, o, run, failed) = get_target_device_port-Finds q hub room in
          (status, o, rw (unknown, at, a, port_of, port_below) run, failed)
    ]
  ]

-- What a start comes to: with success, the data of the device are proper, and exactly the address
-- that they have joined the filter of its root hub, if that has new devices; otherwise no root hub
-- data have changed.
abbrev pub Starts :
    System → ℕ → AddressFilter → Option (NtStatus × System × DeviceExtension) → Type 0
Starts s a f run =
    (status : NtStatus) × (t : System) × (y : DeviceExtension) × (run ≡ some (status, t, y))
    × (nt_success status ≡ true
        → (k : DeviceData) × (g : RootHubData) × (y.data_of_usb ≡ some k)
          × (t.roots a ≡ some g)
          × (k.proper_data ≡ true)
          × ((b : ℕ)
              → b ≤ 127
              → is_device_filtered g.filter (pos b) ≡ (
                  is_device_filtered f (pos b)
                  || (is_device_filtered f (pos 0) && (k.device_address == b)))))
    × (nt_success status ≡ false → (b : ℕ) → t.roots b ≡ s.roots b)

start_at-Starts :
    (q : StartAnswers) (s : System) (x : DeviceExtension) (d : DeviceData) (port hub a : ℕ)
    (r : RootHubData)
    → d.root_data ≡ some a
    → s.roots a ≡ some r
    → IsFilter r.filter
    → Starts s a r.filter (start_at q s x d port (some hub))
unfolding start_at filter_started
start_at-Starts q s x d port hub a r root there v =
    elim (Bool-cases (nt_success (call_status q.connection_call))) [
      | inl ok ↦ (
        call_status q.connection_call,
        set_root s a (some (with_filter_new r (q.connected_address port))),
        with_data x (some (known_at q d port)),
        rw (ok, start_at)
            (ap
                (λ o.
                  filter_started (call_status q.connection_call) s
                    (with_data x (some (known_at q d port))) (q.connected_address port) o)
                root
              ∙ rw (there, filter_started) refl),
        λ e. (
          known_at q d port,
          with_filter_new r (q.connected_address port),
          refl,
          ground arith,
          refl,
          λ b h. filter_new_lem r.filter (q.connected_address port) b v h,
        ),
        λ e. absurd (ground arith),
      )
      | inr failed ↦ (
        call_status q.connection_call,
        s,
        with_data x (some (placed_at d port)),
        rw (failed, start_at) refl,
        λ e. absurd (ground arith),
        λ e b. refl,
      )
    ]

module _ (equal_text : List ℕ → List ℕ → Bool) where
  -- A device that starts, with root hub data that are there and whose filter is well formed, on a next
  -- device object, with the hub's next device object known, and with memory for the driver key, which
  -- the code does not check: the call does not fault. With success the data of the device are proper, and exactly the
  -- address in them joins the filter of the root hub, and only if that has address 0, which stands
  -- for new devices. Without success the root hub data stay as they were.
  pub get_device_usb_info-Starts :
      (q : StartAnswers) (s : System) (x : DeviceExtension) (d : DeviceData) (next hub a : ℕ)
      (r : RootHubData)
      → x.data_of_usb ≡ some d
      → x.next_obj ≡ some next
      → d.next_parent_flt ≡ some hub
      → q.key_room ≡ true
      → d.root_data ≡ some a
      → s.roots a ≡ some r
      → IsFilter r.filter
      → Starts s a r.filter (get_device_usb_info equal_text q s x)
  unfolding get_device_usb_info start_with start_found
  get_device_usb_info-Starts q s x d next hub a r known below at room root there v =
      let (port_status, o, found, failed) = port_of-Finds equal_text q next hub d room at in
      let (status, t, y, run, good, bad) = by_port port_status o failed in
      (
        status,
        t,
        y,
        ap (λ o. start_with equal_text q s x o) known
            ∙ ap (λ o. after_port (port_of equal_text q o d)) below
            ∙ ap (λ o. after_port o) found
            ∙ run,
        good,
        bad,
      )
    where
      after_port : Option (NtStatus × Option ℕ) → Option (NtStatus × System × DeviceExtension)
      after_port run = elim run [
        | none ↦ none
        | some (status, port) ↦ start_found q s x d status port
      ]

      by_port :
          (status : NtStatus) (o : Option ℕ)
          → (o ≡ none → nt_success status ≡ false)
          → Starts s a r.filter (start_found q s x d status o)
      by_port status none failed =
          (status, s, x, refl, λ ok. absurd (ground (arith, ok, failed refl)), λ e b. refl)
      by_port status (some port) failed =
          let (last, t, y, run, good, bad) = start_at-Starts q s x d port hub a r root there v in
          (last, t, y, ap (λ o. start_at q s x d port o) at ∙ run, good, bad)
