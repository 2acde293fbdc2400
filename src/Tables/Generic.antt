-- ===== src/Tables/Generic.antt =====
-- The system's generic table, as USBPcapDriver/USBPcapTables.c relies on it.
use usbpcap_ai.Base.{ℕ, ◌≡◌, ◌<◌, Bool, true, false, Option, none, some, ltb, ◌==◌, if◌then◌else◌}

-- The result of a compare routine.
pub data CompareResult : Type 0 where
  less_than greater_than equal : CompareResult

-- `USBPcapCompareEndpointInfo` and `USBPcapCompareURBIRPInfo`, over the keys of two elements.
unfoldable pub compare_keys : ℕ → ℕ → CompareResult
compare_keys left right =
    if ltb left right
    then CompareResult.less_than
    else if left == right
    then CompareResult.equal
    else CompareResult.greater_than

abbrev pub is_equal : CompareResult → Bool
is_equal CompareResult.equal = true
is_equal _ = false

-- RTL_GENERIC_TABLE with elements `A` whose key is `key`, ordered by `compare_keys`.
-- `insert` is RtlInsertElementGenericTable: an element with an equal key stays as it is, and
-- otherwise a copy goes in, unless the allocation fails (`room`). `modify` is the write through the
-- pointer to an element that is there, which leaves the keys; `count` is the number of elements
-- and `first` RtlGetElementGenericTable(table, 0).
pub record GenericTable (A : Type 0) (key : A → ℕ) : Type 1 where
  pub Table : Type 0
  pub empty : Table
  pub lookup : Table → ℕ → Option A
  pub insert : Bool → Table → A → Table
  pub delete : Table → ℕ → Table
  pub modify : Table → ℕ → (A → A) → Table
  pub first : Table → Option A
  pub count : Table → ℕ
  pub lookup-empty : (k : ℕ) → lookup empty k ≡ none
  pub lookup-key : (t : Table) (k : ℕ) (a : A) → lookup t k ≡ some a → key a ≡ k
  pub lookup-insert :
      (room : Bool) (t : Table) (a : A) (k : ℕ)
      → lookup (insert room t a) k ≡ (
          if is_equal (compare_keys (key a) k)
          then (elim (lookup t k) [ none ↦ if room then some a else none | some b ↦ some b ])
          else lookup t k)
  pub lookup-delete :
      (t : Table) (j k : ℕ)
      → lookup (delete t j) k ≡ (if is_equal (compare_keys j k) then none else lookup t k)
  pub lookup-modify :
      (t : Table) (j : ℕ) (f : A → A) (k : ℕ)
      → ((a : A) → key (f a) ≡ key a)
      → lookup (modify t j f) k ≡ (
          if is_equal (compare_keys j k)
          then (elim (lookup t k) [ none ↦ none | some b ↦ some (f b) ])
          else lookup t k)
  pub count_first : (t : Table) (a : A) → first t ≡ some a → count (delete t (key a)) < count t
  pub first_none : (t : Table) → first t ≡ none → (k : ℕ) → lookup t k ≡ none
