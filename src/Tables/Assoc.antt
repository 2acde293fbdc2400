-- ===== src/Tables/Assoc.antt =====
-- A list as the system's generic table: the laws that `Generic` asks for can hold.
use usbpcap_ai.Base.{
  ℕ, ◌≤◌, ◌<◌, ◌≡◌, refl, ap, Bool, Bool-cases, Option, none, some, List, [], ◌∷◌, length, ◌==◌,
  if◌then◌else◌, arith, inl, inr,
}
use usbpcap_ai.Tables.Generic.{GenericTable, compare_keys, is_equal}

module _ {A : Type 0} (key : A → ℕ) where
  unfoldable pub list_lookup : List A → ℕ → Option A
  list_lookup [] k = none
  list_lookup (a ∷ t) k = if key a == k then some a else list_lookup t k

  unfoldable pub list_insert : Bool → List A → A → List A
  list_insert room [] a = if room then a ∷ [] else []
  list_insert room (b ∷ t) a = if key b == key a then b ∷ t else b ∷ list_insert room t a

  unfoldable pub list_delete : List A → ℕ → List A
  list_delete [] k = []
  list_delete (a ∷ t) k = if key a == k then list_delete t k else a ∷ list_delete t k

  unfoldable pub list_modify : List A → ℕ → (A → A) → List A
  list_modify [] k f = []
  list_modify (a ∷ t) k f = (if key a == k then f a else a) ∷ list_modify t k f

  unfoldable pub list_first : List A → Option A
  list_first [] = none
  list_first (a ∷ t) = some a

  key_or : Option A → ℕ
  key_or none = 0
  key_or (some a) = key a

  key_of : (x y : Option A) → x ≡ y → key_or x ≡ key_or y
  key_of x y e = ap key_or e

  pub lookup-key : (t : List A) (k : ℕ) (a : A) → list_lookup t k ≡ some a → key a ≡ k
  unfolding list_lookup key_or
  lookup-key [] k a e = absurd (ground arith)
  lookup-key (b ∷ t) k a e = elim (Bool-cases (key b == k)) [
    | inl here ↦ ground (arith, here, e, ap_key)
    | inr further ↦ lookup-key t k a (ground (arith, further, e))
  ]
    where
      ap_key : some b ≡ some a → key b ≡ key a
      ap_key same = key_of (some b) (some a) same

  pub lookup-insert :
      (room : Bool) (t : List A) (a : A) (k : ℕ)
      → list_lookup (list_insert room t a) k ≡ (
          if is_equal (compare_keys (key a) k)
          then (elim (list_lookup t k) [ none ↦ if room then some a else none | some b ↦ some b ])
          else list_lookup t k)
  unfolding list_lookup list_insert compare_keys
  lookup-insert room [] a k = ground arith
  lookup-insert room (b ∷ t) a k = ground (arith, lookup-insert room t a k)

  pub lookup-delete :
      (t : List A) (j k : ℕ)
      → list_lookup (list_delete t j) k
        ≡ (if is_equal (compare_keys j k) then none else list_lookup t k)
  unfolding list_lookup list_delete compare_keys
  lookup-delete [] j k = ground arith
  lookup-delete (b ∷ t) j k = ground (arith, lookup-delete t j k)

  pub lookup-modify :
      (t : List A) (j : ℕ) (f : A → A) (k : ℕ)
      → ((a : A) → key (f a) ≡ key a)
      → list_lookup (list_modify t j f) k ≡ (
          if is_equal (compare_keys j k)
          then (elim (list_lookup t k) [ none ↦ none | some b ↦ some (f b) ])
          else list_lookup t k)
  unfolding list_lookup list_modify compare_keys
  lookup-modify [] j f k same = ground arith
  lookup-modify (b ∷ t) j f k same = ground (arith, same b, lookup-modify t j f k same)

  delete-shorter : (t : List A) (k : ℕ) → length (list_delete t k) ≤ length t
  unfolding list_delete
  delete-shorter [] k = omega arith
  delete-shorter (b ∷ t) k = ground (arith, delete-shorter t k)

  pub first-shorter :
      (t : List A) (a : A) → list_first t ≡ some a → length (list_delete t (key a)) < length t
  unfolding list_first list_delete key_or
  first-shorter [] a e = absurd (ground arith)
  first-shorter (b ∷ t) a e = ground (arith, delete-shorter t (key a), key_of (some b) (some a) e)

  pub first-nothing : (t : List A) → list_first t ≡ none → (k : ℕ) → list_lookup t k ≡ none
  unfolding list_first list_lookup
  first-nothing [] e k = refl
  first-nothing (b ∷ t) e k = absurd (ground arith)

  unfoldable pub list_table : GenericTable A key
  unfolding list_lookup list_delete list_first compare_keys
  list_table = record {
    Table = List A;
    empty = [];
    lookup = list_lookup;
    insert = list_insert;
    delete = list_delete;
    modify = list_modify;
    first = list_first;
    count = length;
    lookup-empty = λ k. refl;
    lookup-key = lookup-key;
    lookup-insert = lookup-insert;
    lookup-delete = lookup-delete;
    lookup-modify = lookup-modify;
    count_first = first-shorter;
    first_none = first-nothing;
  }
