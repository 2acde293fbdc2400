-- ===== src/Client/Matches/Choice.antt =====
-- What USBPcapCMD/cmd.c knows of the connected devices, and which interface it chooses.
use mathlib.Core.Path.{subst}
use usbpcap_ai.Base.{
  sym, ℕ, zero, suc, ◌≡◌, ◌<◌, refl, ap, ◌∙◌, Bool, true, false, not, ◌&&◌, Option, none, some,
  List, [], ◌∷◌, length, get_or, set, ltb, ◌==◌, if◌then◌else◌, Bool-cases, inl, inr, arith,
}
use usbpcap_ai.Client.Parser.{DeviceMetadata, no_metadata}
use usbpcap_ai.Client.Matches.{
  ConnectedInfo, Interface, Selected, auto_select_interface, cleared, differs, keep_metadata,
  matches_of, matching_devices, metadata_of, populate_device_metadata, select_loop, select_round,
}

-- The last of the devices at an address.
abbrev pub last_at : ℕ → DeviceMetadata → List ConnectedInfo → DeviceMetadata
last_at a kept [] = kept
last_at a kept (d ∷ ds) = last_at a (if d.address == a then metadata_of d else kept) ds

get_or-set :
    (xs : List DeviceMetadata) (i j : ℕ) (v : DeviceMetadata)
    → i < length xs
    → get_or (set xs i v) j no_metadata ≡ (if i == j then v else get_or xs j no_metadata)
get_or-set [] i j v h = absurd (omega arith)
get_or-set (x ∷ xs) zero zero v h = refl
get_or-set (x ∷ xs) zero (suc j) v h = ground arith
get_or-set (x ∷ xs) (suc i) zero v h = ground arith
get_or-set (x ∷ xs) (suc i) (suc j) v h = ground (arith, get_or-set xs i j v)

length-set :
    (xs : List DeviceMetadata) (i : ℕ) (v : DeviceMetadata) → length (set xs i v) ≡ length xs
length-set [] i v = refl
length-set (x ∷ xs) zero v = refl
length-set (x ∷ xs) (suc i) v = omega (arith, length-set xs i v)

keep_metadata-last_at :
    (kept : List DeviceMetadata) (ds : List ConnectedInfo) (a : ℕ)
    → length kept ≡ 128
    → a < 128
    → get_or (keep_metadata kept ds) a no_metadata ≡ last_at a (get_or kept a no_metadata) ds
unfolding keep_metadata
keep_metadata-last_at kept [] a n h = refl
keep_metadata-last_at kept (d ∷ ds) a n h = elim (Bool-cases (ltb d.address 128)) [
  | inl e ↦
      let written = get_or-set kept d.address a (metadata_of d) (ground arith) in
      let measured = length-set kept d.address (metadata_of d) in
      rw e (
        keep_metadata-last_at (set kept d.address (metadata_of d)) ds a (measured ∙ n) h
        ∙ ap (λ m. last_at a m ds) written)
  | inr e ↦
      let other : (d.address == a) ≡ false = ground arith in
      rw (e, other) (keep_metadata-last_at kept ds a n h)
]

get_or-cleared : (n a : ℕ) → get_or (cleared n) a no_metadata ≡ no_metadata
get_or-cleared zero a = refl
get_or-cleared (suc n) zero = refl
get_or-cleared (suc n) (suc a) = get_or-cleared n a

-- If the devices can be enumerated, each address below 128 has the ids of the last device there, and
-- is not present if there is none; otherwise no address is present.
pub populate_device_metadata-last_at :
    (devices : List ConnectedInfo) (a : ℕ)
    → a < 128
    → get_or (populate_device_metadata (some devices)).1 a no_metadata
      ≡ last_at a no_metadata devices
unfolding populate_device_metadata
populate_device_metadata-last_at devices a h =
    keep_metadata-last_at (cleared 128) devices a refl h
    ∙ ap (λ m. last_at a m devices) (get_or-cleared 128 a)

abbrev pub Match : Type 0
Match = List ℕ × List ConnectedInfo

abbrev pub add_match : List ℕ → Option (List ConnectedInfo) → List Match → List Match
add_match name (some (d ∷ ds)) ms = (name, d ∷ ds) ∷ ms
add_match name _ ms = ms

-- An id that nothing is asked of, or that is asked for.
abbrev pub is_asked : Option ℕ → ℕ → Bool
is_asked none id = true
is_asked (some asked) id = asked == id

-- The devices with both ids, each if it is asked for.
abbrev pub asked_for : Option ℕ → Option ℕ → List ConnectedInfo → List ConnectedInfo
asked_for vendor product [] = []
asked_for vendor product (d ∷ ds) =
    let rest = asked_for vendor product ds in
    if is_asked vendor d.vendor && is_asked product d.product then d ∷ rest else rest

abbrev pub asked_of :
    Option ℕ → Option ℕ → Option (List ConnectedInfo) → Option (List ConnectedInfo)
asked_of vendor product none = none
asked_of vendor product (some ds) = some (asked_for vendor product ds)

differs-is_asked : (asked : Option ℕ) (id : ℕ) → differs asked id ≡ not (is_asked asked id)
differs-is_asked none id = refl
differs-is_asked (some asked) id = refl

matching_devices-asked_for :
    (vendor product : Option ℕ) (ds : List ConnectedInfo)
    → matching_devices vendor product ds ≡ asked_for vendor product ds
unfolding matching_devices
matching_devices-asked_for vendor product [] = refl
matching_devices-asked_for vendor product (d ∷ ds) =
    let rest = matching_devices-asked_for vendor product ds in
    let v = differs-is_asked vendor d.vendor in
    let p = differs-is_asked product d.product in
    elim (Bool-cases (is_asked vendor d.vendor)) [
      | inr a ↦ rw (v, a) rest
      | inl a ↦ elim (Bool-cases (is_asked product d.product)) [
        | inr b ↦ rw (v, p, a, b) rest
        | inl b ↦ rw (v, p, a, b) (ap (λ t. d ∷ t) rest)
      ]
    ]

-- The interfaces that have a device with the ids, with those devices.
abbrev pub with_match : Option ℕ → Option ℕ → List Interface → List Match
with_match vendor product [] = []
with_match vendor product (i ∷ is) =
    add_match i.name (asked_of vendor product i.devices) (with_match vendor product is)

-- The devices of every interface can be enumerated.
abbrev pub AllKnown : List Interface → Type 0
AllKnown [] = Unit {0}
AllKnown (i ∷ is) = ((ds : List ConnectedInfo) × (i.devices ≡ some ds)) × AllKnown is

-- The choice among the interfaces that have a match.
abbrev pub only : List Match → Bool × Selected
only [] = (false, none)
only (m ∷ []) = (true, some m)
only (m ∷ m' ∷ ms) = (false, some m)

second_round :
    (name : List ℕ) (m : Match) (o : List ConnectedInfo) (ms : List Match) (next : Bool × Selected)
    (first : List ConnectedInfo → Bool × Selected)
    → next ≡ only (m ∷ ms)
    → select_round 1 (some m) (some o) next first ≡ only (m ∷ add_match name (some o) ms)
second_round name m [] ms next first e = e
second_round name m (d ∷ ds) ms next first e = refl

first_round :
    (name : List ℕ) (o : List ConnectedInfo) (ms : List Match) (next : Bool × Selected)
    (first : List ConnectedInfo → Bool × Selected)
    → next ≡ only ms
    → ((x : List ConnectedInfo) → first x ≡ only ((name, x) ∷ ms))
    → select_round 0 none (some o) next first ≡ only (add_match name (some o) ms)
first_round name [] ms next first e f = e
first_round name (d ∷ ds) ms next first e f = f (d ∷ ds)

select_second :
    (vendor product : Option ℕ) (m : Match) (is : List Interface)
    → AllKnown is
    → select_loop vendor product 1 (some m) is ≡ only (m ∷ with_match vendor product is)
unfolding select_loop
select_second vendor product m [] h = refl
select_second vendor product m (i ∷ is) h =
    let ms = with_match vendor product is in
    let next = select_loop vendor product 1 (some m) is in
    let first : List ConnectedInfo → Bool × Selected =
      λ x. select_loop vendor product 2 (some (i.name, x)) is in
    subst
      (λ o.
        select_round 1 (some m) (matches_of vendor product o) next first
        ≡ only (m ∷ add_match i.name (asked_of vendor product o) ms))
      (sym h.0.1)
      (second_round i.name m (matching_devices vendor product h.0.0) ms next first
          (select_second vendor product m is h.1)
        ∙ ap (λ l. only (m ∷ add_match i.name (some l) ms))
            (matching_devices-asked_for vendor product h.0.0))

-- If the devices of every interface can be enumerated, an interface is chosen exactly if it is the
-- only one with a device that has the vendor and the product asked for, each if it is asked for,
-- and then with all those devices of it; with more such interfaces the call fails and leaves the
-- first one.
pub auto_select_interface-only :
    (vendor product : Option ℕ) (is : List Interface)
    → AllKnown is
    → auto_select_interface vendor product is ≡ only (with_match vendor product is)
unfolding auto_select_interface select_loop
auto_select_interface-only vendor product [] h = refl
auto_select_interface-only vendor product (i ∷ is) h =
    let ms = with_match vendor product is in
    let next = select_loop vendor product 0 none is in
    let first : List ConnectedInfo → Bool × Selected =
      λ x. select_loop vendor product 1 (some (i.name, x)) is in
    subst
      (λ o.
        select_round 0 none (matches_of vendor product o) next first
        ≡ only (add_match i.name (asked_of vendor product o) ms))
      (sym h.0.1)
      (first_round i.name (matching_devices vendor product h.0.0) ms next first
          (auto_select_interface-only vendor product is h.1)
          (λ x. select_second vendor product (i.name, x) is h.1)
        ∙ ap (λ l. only (add_match i.name (some l) ms))
            (matching_devices-asked_for vendor product h.0.0))
