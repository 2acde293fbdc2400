-- ===== src/Hwids/Known.antt =====
-- The ids that USBPcapCMD/roothubs.c lists are known to USBPcapDriver/USBPcapHelperFunctions.c.
use usbpcap_ai.Base.{
  ℕ, suc, ◌+◌, ◌*◌, ◌≡◌, ◌≢◌, ◌≤◌, refl, sym, ap, ◌∙◌, true, false, Option, some, List, [], ◌∷◌,
  ◌++◌, append-nil, append_assoc, length, length-append, ◌==◌, Bool-cases, inl, inr, arith,
}
use usbpcap_ai.Hwids.{
  RegistryValue, has_root_hub_id, is_hwid_non_standard_root_hub, is_standard_hwid, query_all,
  query_compare_hwid, same, split_ids,
}
use usbpcap_ai.Hwids.Multi.{build_multi_sz, has_standard, is_known, multi_sz_length}
use usbpcap_ai.Hwids.Upper.{AllZeroFree, ZeroFree}

-- No text is empty.
abbrev pub AllNonEmpty : List (List ℕ) → Type 0
AllNonEmpty [] = Unit {0}
AllNonEmpty (t ∷ ts) = (t ≢ []) × AllNonEmpty ts

-- The characters of a text after those that were read.
split_text :
    (id w : ℕ) (ws t rest : List ℕ)
    → ZeroFree t
    → split_ids id (w ∷ ws) (t ++ 0 ∷ rest) ≡ split_ids id (w ∷ ws ++ t) (0 ∷ rest)
unfolding split_ids
split_text id w ws [] rest h = ap (λ x. split_ids id (w ∷ x) (0 ∷ rest)) (sym (append-nil ws))
split_text id w ws (c ∷ t) rest h =
    let other : (c == 0) ≡ false = ground (arith, h.0) in
    rw other (
      split_text id w (ws ++ c ∷ []) t rest h.1
      ∙ ap (λ x. split_ids id (w ∷ x) (0 ∷ rest)) (append_assoc ws (c ∷ []) t))

-- At most 64 texts, none of them empty and without zeros, that are put into a row are read back by the
-- driver as they are.
pub split_ids-build_multi_sz :
    (id : ℕ) (ts : List (List ℕ))
    → AllZeroFree ts
    → AllNonEmpty ts
    → id + length ts ≤ 64
    → split_ids id [] (build_multi_sz ts) ≡ some ts
unfolding split_ids build_multi_sz
split_ids-build_multi_sz id [] h n small = refl
split_ids-build_multi_sz id ([] ∷ ts) h n small = absurd (n.0 refl)
split_ids-build_multi_sz id ((c ∷ t) ∷ ts) h n small =
    let other : (c == 0) ≡ false = ground (arith, h.0.0) in
    let room : (id == 64) ≡ false = ground arith in
    let rest = split_ids-build_multi_sz (suc id) ts h.1 n.1 (omega arith) in
    rw other (split_text id c [] t (build_multi_sz ts) h.0.1 ∙ rw (room, rest) refl)

-- The length that is computed for the row is that of the row.
multi_sz_length-build_multi_sz :
    (n : ℕ) (ts : List (List ℕ)) → multi_sz_length n ts + 1 ≡ n + length (build_multi_sz ts)
unfolding multi_sz_length build_multi_sz
multi_sz_length-build_multi_sz n [] = omega arith
multi_sz_length-build_multi_sz n (t ∷ ts) = omega (
  arith,
  multi_sz_length-build_multi_sz (n + (length t + 1)) ts,
  length-append t (0 ∷ build_multi_sz ts),
)

same_refl : (t : List ℕ) → same t t ≡ true
unfolding same
same_refl [] = refl
same_refl (c ∷ t) = let e : (c == c) ≡ true = ground arith in rw e (same_refl t)

-- The values that the registry hands on for a list of texts.
abbrev pub values_of : List (List ℕ) → List RegistryValue
values_of [] = []
values_of (t ∷ ts) = record { is_sz = true; text = t } ∷ values_of ts

query_true : (hwid : List ℕ) (vs : List RegistryValue) → query_all hwid true vs ≡ true
unfolding query_all query_compare_hwid
query_true hwid [] = refl
query_true hwid (v ∷ vs) = query_true hwid vs

skip_empty :
    (ts : List (List ℕ)) (d : ℕ) (ds : List ℕ)
    → is_known ([] ∷ ts) (d ∷ ds) ≡ true
    → is_known ts (d ∷ ds) ≡ true
unfolding is_known same
skip_empty ts d ds e = e

compare_text :
    (c : ℕ) (t hwid : List ℕ)
    → query_compare_hwid hwid false (record { is_sz = true; text = c ∷ t }) ≡ same (c ∷ t) hwid
unfolding query_compare_hwid
compare_text c t hwid =
    let long : (2 * (length (c ∷ t) + 1) == 2) ≡ false = ground arith in rw long refl

-- The driver's look into the registry finds what the client's list knows.
query_known :
    (ts : List (List ℕ)) (hwid : List ℕ)
    → hwid ≢ []
    → is_known ts hwid ≡ true
    → query_all hwid false (values_of ts) ≡ true
unfolding query_all query_compare_hwid is_known
query_known [] hwid n e = ground (arith, e)
query_known ([] ∷ ts) [] n e = absurd (n refl)
query_known ([] ∷ ts) (d ∷ ds) n e = query_known ts (d ∷ ds) n (skip_empty ts d ds e)
query_known ((c ∷ t) ∷ ts) hwid n e = elim (Bool-cases (same (c ∷ t) hwid)) [
  | inl s ↦
      ap (λ b. query_all hwid b (values_of ts)) (compare_text c t hwid ∙ s)
      ∙ query_true hwid (values_of ts)
  | inr s ↦
      ap (λ b. query_all hwid b (values_of ts)) (compare_text c t hwid ∙ s)
      ∙ query_known ts hwid n (rw s at e)
]

-- A root hub is known by the driver, by a standard id or by one that is in the list.
has_standard-true : (ts : List (List ℕ)) → has_standard true ts ≡ true
unfolding has_standard
has_standard-true [] = refl
has_standard-true (t ∷ ts) = elim (Bool-cases (is_standard_hwid t)) [
  | inl s ↦ rw s (has_standard-true ts)
  | inr s ↦ rw s (has_standard-true ts)
]

pub standard_found :
    (registry : Option (List RegistryValue)) (ts : List (List ℕ))
    → has_standard false ts ≡ true
    → has_root_hub_id registry ts ≡ true
unfolding has_standard has_root_hub_id
standard_found registry [] e = ground (arith, e)
standard_found registry (t ∷ ts) e = elim (Bool-cases (is_standard_hwid t)) [
  | inl s ↦ rw s (ground arith)
  | inr s ↦ rw (standard_found registry ts (rw s at e)) refl
]

pub first_found :
    (known : List (List ℕ)) (hwid : List ℕ) (ts : List (List ℕ))
    → hwid ≢ []
    → is_known known hwid ≡ true
    → has_root_hub_id (some (values_of known)) (hwid ∷ ts) ≡ true
unfolding has_root_hub_id is_hwid_non_standard_root_hub
first_found known hwid ts n e = rw (query_known known hwid n e) (ground arith)

-- A list that grows keeps what it knows, and knows what is added.
pub is_known-append :
    (ts : List (List ℕ)) (t hwid : List ℕ)
    → is_known ts hwid ≡ true
    → is_known (ts ++ t ∷ []) hwid ≡ true
unfolding is_known
is_known-append [] t hwid e = ground (arith, e)
is_known-append (u ∷ ts) t hwid e = elim (Bool-cases (same u hwid)) [
  | inl s ↦ rw s refl
  | inr s ↦ rw s (is_known-append ts t hwid (rw s at e))
]

pub is_known-added : (ts : List (List ℕ)) (hwid : List ℕ) → is_known (ts ++ hwid ∷ []) hwid ≡ true
unfolding is_known
is_known-added [] hwid = rw (same_refl hwid) refl
is_known-added (u ∷ ts) hwid = elim (Bool-cases (same u hwid)) [
  | inl s ↦ rw s refl
  | inr s ↦ rw s (is_known-added ts hwid)
]
