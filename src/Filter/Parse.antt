-- ===== src/Filter/Parse.antt =====
-- `USBPcapInitAddressFilter` of USBPcapCMD/iocontrol.c against a reading of the list by itself.
use mathlib.Core.Option
use usbpcap_ai.Base.{
  ℕ, zero, suc, ◌+◌, ◌-◌, ◌*◌, ◌≤◌, ◌<◌, ◌≡◌, refl, ap, Bool, true, false, ◌&&◌, ◌||◌, Option, none,
  some, List, [], ◌∷◌, length, ltb, leb, ◌==◌, if◌then◌else◌, arith, Bool-cases, inl, inr,
}
use usbpcap_ai.Filter.{
  pos, AddressFilter, zero_filter, get_address_range_and_index, is_device_filtered,
  set_device_filtered, is_digit, number_from, atoi, skip_digits, init_loop, init_address_filter,
}
use usbpcap_ai.Filter.Mask.{
  IsFilter, set_device_filtered-IsFilter, set_device_filtered_lem, is_device_filtered-zero,
}

-- The numbers of a list, read byte by byte: digits extend the number at hand, a comma ends it, and
-- any other byte makes the list malformed.
unfoldable pub numbers : Option ℕ → List ℕ → Option (List ℕ)
numbers none [] = some []
numbers (some n) [] = some (n ∷ [])
numbers none (c ∷ cs) =
    if is_digit c then numbers (some (c - b'0')) cs else if c == b',' then numbers none cs else none
numbers (some n) (c ∷ cs) =
    if is_digit c
    then numbers (some (n * 10 + (c - b'0'))) cs
    else if c == b','
    then Option.map (λ ns. n ∷ ns) (numbers none cs)
    else none

-- All numbers put into a filter, if all are addresses.
pub filter_all_of : AddressFilter → List ℕ → Option AddressFilter
filter_all_of f [] = some f
filter_all_of f (n ∷ ns) =
    let rest = filter_all_of (set_device_filtered f (pos n)).1 ns in
    if ltb 127 n then none else rest

pub filter_of : AddressFilter → Option (List ℕ) → Option AddressFilter
filter_of f none = none
filter_of f (some ns) = filter_all_of f ns

-- A number at hand goes on with the digits and is followed by what the rest of the list has.
numbers-skip_digits :
    (n : ℕ) (cs : List ℕ)
    → numbers (some n) cs ≡ Option.map (λ ns. number_from n cs ∷ ns) (numbers none (skip_digits cs))
unfolding numbers number_from skip_digits
numbers-skip_digits n [] = refl
numbers-skip_digits n (c ∷ cs) = elim (Bool-cases (is_digit c)) [
  | inl digit ↦ rw digit (numbers-skip_digits (n * 10 + (c - b'0')) cs)
  | inr other ↦ rw other (
      rw other
        (elim (Bool-cases (c == b',')) [ inl comma ↦ rw comma refl | inr bad ↦ rw bad refl ]))
]

length-skip_digits : (cs : List ℕ) → length (skip_digits cs) ≤ length cs
unfolding skip_digits
length-skip_digits [] = omega arith
length-skip_digits (c ∷ cs) = ground (arith, length-skip_digits cs)

-- What the loop does with a number: `atoi` gives it, or something else that is no address.
set_atoi :
    (f : AddressFilter) (text : List ℕ)
    → set_device_filtered f (atoi text) ≡ (
        if ltb 127 (number_from 0 text)
        then (false, f)
        else (true, (set_device_filtered f (pos (number_from 0 text))).1))
unfolding set_device_filtered atoi get_address_range_and_index
set_atoi f text = ground arith

filter_of-cons :
    (f : AddressFilter) (n : ℕ) (o : Option (List ℕ))
    → filter_of f (Option.map (λ ns. n ∷ ns) o)
      ≡ (if ltb 127 n then none else filter_of (set_device_filtered f (pos n)).1 o)
unfolding filter_of filter_all_of
filter_of-cons f n none = ground arith
filter_of-cons f n (some ns) = refl

number_from_digit :
    (c : ℕ) (cs : List ℕ) → is_digit c ≡ true → number_from 0 (c ∷ cs) ≡ number_from (c - b'0') cs
unfolding number_from
number_from_digit c cs digit = rw digit (ap (λ n. number_from n cs) (omega arith))

-- The loop reads the numbers and puts them into the filter.
init_loop_lem :
    (fuel : ℕ) (tmp : AddressFilter) (text : List ℕ)
    → length text < fuel
    → init_loop fuel tmp text ≡ some (filter_of tmp (numbers none text))
unfolding init_loop numbers
init_loop_lem zero tmp text h = absurd (omega arith)
init_loop_lem (suc fuel) tmp [] h = unfold filter_of filter_all_of in refl
init_loop_lem (suc fuel) tmp (c ∷ cs) h = elim (Bool-cases (is_digit c)) [
  | inl digit ↦
      let n = number_from 0 (c ∷ cs) in
      let tmp' = (set_device_filtered tmp (pos n)).1 in
      let value = number_from_digit c cs digit in
      let rest = init_loop_lem fuel tmp' (skip_digits cs) (omega (arith, length-skip_digits cs)) in
      rw
        (
          digit,
          set_atoi tmp (c ∷ cs),
          numbers-skip_digits (c - b'0') cs,
          ← value,
          filter_of-cons tmp n (numbers none (skip_digits cs)),
        )
        (elim (Bool-cases (ltb 127 n)) [ inl big ↦ rw big refl | inr fine ↦ rw fine rest ])
  | inr other ↦ rw other (elim (Bool-cases (c == b',')) [
    | inl comma ↦ rw comma (init_loop_lem fuel tmp cs (omega arith))
    | inr bad ↦ rw bad (unfold filter_of in refl)
  ])
]

-- The list's numbers are put into a filter, or the filter is as it was.
init_address_filter_lem :
    (f : AddressFilter) (text : List ℕ) (all : ℕ)
    → init_address_filter (some f) (some text) all
      ≡ elim (filter_of (record zero_filter { filter_all = all }) (numbers none text)) [
        | none ↦ some (false, some f)
        | some g ↦ some (true, some g)
      ]
unfolding init_address_filter
init_address_filter_lem f text all =
    let start = record zero_filter { filter_all = all } in
    rw (init_loop_lem (suc (length text)) start text (omega arith), init_address_filter)
      (ground arith)

-- Whether an address stands in a list.
pub is_listed : ℕ → List ℕ → Bool
is_listed a [] = false
is_listed a (n ∷ ns) = n == a || is_listed a ns

filter_all_of_lem :
    (f g : AddressFilter) (ns : List ℕ) (a : ℕ)
    → IsFilter f
    → filter_all_of f ns ≡ some g
    → a ≤ 127
    → is_device_filtered g (pos a) ≡ (is_device_filtered f (pos a) || is_listed a ns)
unfolding filter_all_of is_listed
filter_all_of_lem f g [] a v e h = ground arith
filter_all_of_lem f g (n ∷ ns) a v e h = elim (Bool-cases (ltb 127 n)) [
  | inl big ↦ ground arith
  | inr fine ↦ ground (
    arith,
    filter_all_of_lem (set_device_filtered f (pos n)).1 g ns a
        (set_device_filtered-IsFilter f (pos n) v),
    set_device_filtered_lem f n a v h,
  )
]

-- The filter that a list gives filters exactly the listed addresses, or all of them if it is told
-- to.
init_address_filter_members :
    (f g : AddressFilter) (text ns : List ℕ) (all a : ℕ)
    → init_address_filter (some f) (some text) all ≡ some (true, some g)
    → numbers none text ≡ some ns
    → a ≤ 127
    → is_device_filtered g (pos a) ≡ (all == 1 || is_listed a ns)
init_address_filter_members f g text ns all a e parsed h =
    let start = record zero_filter { filter_all = all } in
    ground (
      arith,
      init_address_filter_lem f text all,
      ap (filter_of start) parsed,
      filter_of_some start ns,
      filter_all_of_lem start g ns a refl,
      is_device_filtered-zero all a h,
    )
  where
    filter_of_some : (t : AddressFilter) (ms : List ℕ) → filter_of t (some ms) ≡ filter_all_of t ms
    filter_of_some t ms = unfold filter_of in refl

-- The numbers of a list, if all are addresses.
abbrev pub are_addresses : List ℕ → Bool
are_addresses [] = true
are_addresses (n ∷ ns) = leb n 127 && are_addresses ns

abbrev pub addresses_of : Option (List ℕ) → Option (List ℕ)
addresses_of none = none
addresses_of (some ns) = if are_addresses ns then some ns else none

filter_all_of-some :
    (f : AddressFilter) (ns : List ℕ)
    → are_addresses ns ≡ true
    → (g : AddressFilter) × (filter_all_of f ns ≡ some g)
unfolding filter_all_of
filter_all_of-some f [] e = (f, refl)
filter_all_of-some f (n ∷ ns) e =
    let fine : ltb 127 n ≡ false = ground (arith, e) in
    let (g, made) = filter_all_of-some (set_device_filtered f (pos n)).1 ns (ground (arith, e)) in
    (g, rw fine made)

filter_all_of-none :
    (f : AddressFilter) (ns : List ℕ) → are_addresses ns ≡ false → filter_all_of f ns ≡ none
unfolding filter_all_of
filter_all_of-none f [] e = absurd (ground (arith, e))
filter_all_of-none f (n ∷ ns) e = elim (Bool-cases (ltb 127 n)) [
  | inl big ↦ rw big refl
  | inr fine ↦
      rw fine (filter_all_of-none (set_device_filtered f (pos n)).1 ns (ground (arith, e, fine)))
]

-- What the reading comes to: FALSE and the filter from before, or TRUE and a filter that filters the
-- addresses of the list, or all of them if it is told to, and no other.
abbrev pub ReadAs :
    Option (List ℕ) → AddressFilter → ℕ → Option (Bool × Option AddressFilter) → Type 0
ReadAs none f all run = run ≡ some (false, some f)
ReadAs (some ns) f all run =
    (g : AddressFilter) × (run ≡ some (true, some g))
    × ((a : ℕ) → a ≤ 127 → is_device_filtered g (pos a) ≡ (all == 1 || is_listed a ns))

-- `USBPcapInitAddressFilter` at a filter and a list that are not NULL always ends. It succeeds exactly
-- when the list is digits and commas and every number is at most 127; then an address is filtered
-- exactly if it is in the list or all are asked for, and otherwise the filter is as it was.
pub init_address_filter-ReadAs :
    (f : AddressFilter) (text : List ℕ) (all : ℕ)
    → ReadAs (addresses_of (numbers none text)) f all (init_address_filter (some f) (some text) all)
init_address_filter-ReadAs f text all = by_numbers (numbers none text) refl
  where
    start : AddressFilter
    start = record zero_filter { filter_all = all }

    filter_of-some :
        (ns : List ℕ)
        → numbers none text ≡ some ns
        → filter_of start (numbers none text) ≡ filter_all_of start ns
    filter_of-some ns e = unfold filter_of in ap (λ o. filter_of start o) e

    filter_of-none : numbers none text ≡ none → filter_of start (numbers none text) ≡ none
    filter_of-none e = unfold filter_of in ap (λ o. filter_of start o) e

    by_numbers :
        (o : Option (List ℕ))
        → numbers none text ≡ o
        → ReadAs (addresses_of o) f all (init_address_filter (some f) (some text) all)
    by_numbers none e = ground (arith, init_address_filter_lem f text all, filter_of-none e)
    by_numbers (some ns) e = elim (Bool-cases (are_addresses ns)) [
      | inr bad ↦
          let run : init_address_filter (some f) (some text) all ≡ some (false, some f) = ground (
            arith,
            init_address_filter_lem f text all,
            filter_of-some ns e,
            filter_all_of-none start ns bad,
          ) in
          rw bad run
      | inl good ↦
          let (g, made) = filter_all_of-some start ns good in
          let run : init_address_filter (some f) (some text) all ≡ some (true, some g) =
            ground (arith, init_address_filter_lem f text all, filter_of-some ns e, made) in
          rw good (g, run, λ a h. init_address_filter_members f g text ns all a run e h)
    ]
