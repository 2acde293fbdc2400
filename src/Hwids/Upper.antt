-- ===== src/Hwids/Upper.antt =====
-- USBPcapCMD/filters.c: `is_usbpcap_upper_filter_installed`, its search for USBPcap in the list of the
-- upper filters. The registry calls that bring the list, the memory for it and its length in bytes are
-- not modelled: the search ends with the list.
use usbpcap_ai.Base.{
  ℕ, ◌≡◌, ◌≢◌, refl, ◌∙◌, Bool, true, false, List, [], ◌∷◌, ◌++◌, ◌==◌, if◌then◌else◌, arith,
  Bool-cases, inl, inr,
}
use usbpcap_ai.Hwids.Multi.{build_multi_sz}

abbrev pub name : List ℕ
name = b'U' ∷ b'S' ∷ b'B' ∷ b'P' ∷ b'c' ∷ b'a' ∷ b'p' ∷ []

-- `lookup` from `j` on is `left`, the text from `i` on is `text`.
unfoldable pub search_name : List ℕ → List ℕ → Bool
search_name left [] = false
search_name [] (c ∷ cs) = true
search_name (l ∷ []) (c ∷ cs) =
    let again = search_name (0 ∷ name ++ 0 ∷ []) cs in if c == l then true else again
search_name (l ∷ m ∷ ms) (c ∷ cs) =
    let again = search_name (0 ∷ name ++ 0 ∷ []) cs in
    let next = search_name (m ∷ ms) cs in if c == l then next else again

-- The search in `is_usbpcap_upper_filter_installed`, which begins with `j = 1`.
unfoldable pub is_usbpcap_upper_filter_installed : List ℕ → Bool
is_usbpcap_upper_filter_installed multi_sz = search_name (name ++ 0 ∷ []) multi_sz

-- How an entry compares with the name: it is the name, a part of its beginning, or another text.
pub data Entry : Type 0 where
  whole beginning another : Entry

abbrev pub compare_entry : List ℕ → List ℕ → Entry
compare_entry [] [] = Entry.whole
compare_entry [] (c ∷ cs) = Entry.another
compare_entry (n ∷ ns) [] = Entry.beginning
compare_entry (n ∷ ns) (c ∷ cs) = if c == n then compare_entry ns cs else Entry.another

-- No character of the text is the terminating one.
abbrev pub ZeroFree : List ℕ → Type 0
ZeroFree [] = Unit {0}
ZeroFree (c ∷ cs) = (c ≢ 0) × ZeroFree cs

-- The entries in turn, of which one behind a beginning of the name, empty or not, that was looked at
-- is skipped: whether one that is looked at is the name.
unfoldable pub found_after : Entry → List (List ℕ) → Bool
found_after e [] = false
found_after Entry.beginning (t ∷ ts) = found_after Entry.another ts
found_after e (t ∷ ts) = elim (compare_entry name t) [
  | Entry.whole ↦ true
  | Entry.beginning ↦ found_after Entry.beginning ts
  | Entry.another ↦ found_after Entry.another ts
]

-- From the beginning of `lookup`, a text has no zero to match.
search_zero :
    (t rest : List ℕ)
    → ZeroFree t
    → search_name (0 ∷ name ++ 0 ∷ []) (t ++ 0 ∷ rest) ≡ search_name (name ++ 0 ∷ []) rest
unfolding search_name
search_zero [] rest h = refl
search_zero (c ∷ t) rest h =
    let other : (c == 0) ≡ false = ground (arith, h.0) in rw other (search_zero t rest h.1)

abbrev after_entry : Entry → List ℕ → Bool
after_entry Entry.whole rest = true
after_entry Entry.beginning rest = search_name (0 ∷ name ++ 0 ∷ []) rest
after_entry Entry.another rest = search_name (name ++ 0 ∷ []) rest

-- From within the name on, a text ends the search or leaves it at a beginning.
search_entry :
    (ns t rest : List ℕ)
    → ZeroFree ns
    → ZeroFree t
    → search_name (ns ++ 0 ∷ []) (t ++ 0 ∷ rest) ≡ after_entry (compare_entry ns t) rest
unfolding search_name
search_entry [] [] rest n h = refl
search_entry [] (c ∷ t) rest n h =
    let other : (c == 0) ≡ false = ground (arith, h.0) in rw other (search_zero t rest h.1)
search_entry (l ∷ []) [] rest n h =
    let other : (0 == l) ≡ false = ground (arith, n.0) in rw other refl
search_entry (l ∷ m ∷ ns) [] rest n h =
    let other : (0 == l) ≡ false = ground (arith, n.0) in rw other refl
search_entry (l ∷ []) (c ∷ t) rest n h = elim (Bool-cases (c == l)) [
  | inl e ↦ rw e (search_entry [] t rest n.1 h.1)
  | inr e ↦ rw e (search_zero t rest h.1)
]
search_entry (l ∷ m ∷ ns) (c ∷ t) rest n h = elim (Bool-cases (c == l)) [
  | inl e ↦ rw e (search_entry (m ∷ ns) t rest n.1 h.1)
  | inr e ↦ rw e (search_zero t rest h.1)
]

abbrev pub AllZeroFree : List (List ℕ) → Type 0
AllZeroFree [] = Unit {0}
AllZeroFree (t ∷ ts) = ZeroFree t × AllZeroFree ts

name-ZeroFree : ZeroFree name
name-ZeroFree = ground arith

-- The state of the search before an entry.
abbrev search_after : Entry → List ℕ → Bool
search_after Entry.beginning rest = search_name (0 ∷ name ++ 0 ∷ []) rest
search_after _ rest = search_name (name ++ 0 ∷ []) rest

by_entry :
    (v : Entry) (ts : List (List ℕ))
    → search_after Entry.beginning (build_multi_sz ts) ≡ found_after Entry.beginning ts
    → search_after Entry.another (build_multi_sz ts) ≡ found_after Entry.another ts
    → after_entry v (build_multi_sz ts) ≡ elim v [
      | Entry.whole ↦ true
      | Entry.beginning ↦ found_after Entry.beginning ts
      | Entry.another ↦ found_after Entry.another ts
    ]
by_entry Entry.whole ts p q = refl
by_entry Entry.beginning ts p q = p
by_entry Entry.another ts p q = q

search_texts :
    (e : Entry) (ts : List (List ℕ))
    → AllZeroFree ts
    → search_after e (build_multi_sz ts) ≡ found_after e ts
unfolding search_name build_multi_sz found_after
search_texts Entry.whole [] h = refl
search_texts Entry.beginning [] h = refl
search_texts Entry.another [] h = refl
search_texts Entry.beginning (t ∷ ts) h =
    search_zero t (build_multi_sz ts) h.0 ∙ search_texts Entry.another ts h.1
search_texts Entry.whole (t ∷ ts) h =
    search_entry name t (build_multi_sz ts) name-ZeroFree h.0
    ∙ by_entry (compare_entry name t) ts (search_texts Entry.beginning ts h.1)
        (search_texts Entry.another ts h.1)
search_texts Entry.another (t ∷ ts) h =
    search_entry name t (build_multi_sz ts) name-ZeroFree h.0
    ∙ by_entry (compare_entry name t) ts (search_texts Entry.beginning ts h.1)
        (search_texts Entry.another ts h.1)

-- For texts without zeros, which the search looks at in turn: a text that is looked at and begins the
-- name, also an empty one, without being it makes the search skip the next one. The search says that
-- USBPcap is installed exactly if one of the texts that are looked at is the name.
pub is_usbpcap_upper_filter_installed-found_after :
    (ts : List (List ℕ))
    → AllZeroFree ts
    → is_usbpcap_upper_filter_installed (build_multi_sz ts) ≡ found_after Entry.another ts
unfolding is_usbpcap_upper_filter_installed
is_usbpcap_upper_filter_installed-found_after ts h = search_texts Entry.another ts h
