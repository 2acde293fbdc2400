-- ===== src/Tables/UrbIrp.antt =====
-- The table of URBs on their way to the bus driver, of USBPcapDriver/USBPcapTables.c.
use usbpcap_ai.Base.{
  ℕ, zero, suc, ◌≡◌, ◌<◌, refl, sym, ◌∙◌, if◌then◌else◌, Bool, true, Option, none, some, arith,
  Option-cases, inl, inr,
}
use usbpcap_ai.Tables.Generic.{GenericTable, compare_keys}

-- `USBPCAP_URB_IRP_INFO`
pub record UrbIrpInfo : Type 0 where
  pub irp : ℕ
  pub timestamp : ℕ
  pub status : ℕ
  pub function : ℕ
  pub info : ℕ
  pub bus : ℕ
  pub device : ℕ

abbrev pub urb_irp_key : UrbIrpInfo → ℕ
urb_irp_key e = e.irp

module _ (T : GenericTable UrbIrpInfo urb_irp_key) where
  open T use {
    Table, empty, lookup, insert, delete, first, count, lookup-insert, lookup-delete, count_first,
  }

  -- `USBPcapAddURBIRPInfo`
  unfoldable pub add_urb_irp_info : Bool → Table → UrbIrpInfo → Table
  add_urb_irp_info room t entry = insert room t entry

  -- `USBPcapRemoveURBIRPInfo`
  unfoldable pub remove_urb_irp_info : Table → ℕ → Table
  remove_urb_irp_info t irp = delete t irp

  -- `USBPcapGetURBIRPInfo`
  abbrev pub get_urb_irp_info : Table → ℕ → Option UrbIrpInfo
  get_urb_irp_info t irp = lookup t irp

  -- `USBPcapInitializeURBIRPInfoTable`; `room` is whether the allocation of the table succeeds.
  unfoldable pub initialize_urb_irp_info_table : Bool → Option Table
  initialize_urb_irp_info_table room = if room then some empty else none

  -- `USBPcapObtainURBIRPInfo`: what it finds, and the table after.
  unfoldable pub obtain_urb_irp_info : Table → ℕ → Option UrbIrpInfo × Table
  obtain_urb_irp_info t irp = elim (get_urb_irp_info t irp) [
    | none ↦ (none, t)
    | some found ↦ (some found, remove_urb_irp_info t irp)
  ]

  -- The loop of `USBPcapFreeURBIRPInfoTable`; `none` is the end of the fuel.
  unfoldable pub free_urb_irp_info_table : ℕ → Table → Option Table
  free_urb_irp_info_table zero t = none
  free_urb_irp_info_table (suc fuel) t = elim (first t) [
    | none ↦ some t
    | some e ↦ free_urb_irp_info_table fuel (delete t e.irp)
  ]

  -- An entry that was added, with memory at hand, while its IRP had none, is obtained as it was
  -- added, and the table then finds for every IRP what it found before.
  pub obtain-add_urb_irp_info :
      (t : Table) (entry : UrbIrpInfo) (other : ℕ)
      → lookup t entry.irp ≡ none
      → ((obtain_urb_irp_info (add_urb_irp_info true t entry) entry.irp).0 ≡ some entry)
        × (lookup (obtain_urb_irp_info (add_urb_irp_info true t entry) entry.irp).1 other
            ≡ lookup t other)
  unfolding obtain_urb_irp_info add_urb_irp_info remove_urb_irp_info compare_keys
  obtain-add_urb_irp_info t entry other absent =
      rw (there, obtain_urb_irp_info, add_urb_irp_info)
        (
          refl,
          ground (
            arith,
            lookup-delete (insert true t entry) entry.irp other,
            lookup-insert true t entry other,
            found,
          ),
        )
    where
      there : lookup (insert true t entry) entry.irp ≡ some entry
      there = ground (arith, absent, lookup-insert true t entry entry.irp)

      found : entry.irp ≡ other → lookup t other ≡ none
      found e = rw (sym e) absent

  -- In a new table, with memory at hand, an IRP's entry is obtained once: then no entry is found.
  pub initialize-obtain_urb_irp_info :
      (entry : UrbIrpInfo) (other : ℕ)
      → (t : Table) × (initialize_urb_irp_info_table true ≡ some t)
        × ((obtain_urb_irp_info (add_urb_irp_info true t entry) entry.irp).0 ≡ some entry)
        × (lookup (obtain_urb_irp_info (add_urb_irp_info true t entry) entry.irp).1 other ≡ none)
  unfolding initialize_urb_irp_info_table
  initialize-obtain_urb_irp_info entry other =
      let (found, after) = obtain-add_urb_irp_info empty entry other (T.lookup-empty entry.irp) in
      (empty, refl, found, after ∙ T.lookup-empty other)

  -- With more fuel than elements the loop ends, and nothing is left to be found.
  pub free_urb_irp_info_table_lem :
      (fuel : ℕ) (t : Table)
      → count t < fuel
      → (left : Table) × (free_urb_irp_info_table fuel t ≡ some left)
        × ((k : ℕ) → lookup left k ≡ none)
  unfolding free_urb_irp_info_table
  free_urb_irp_info_table_lem zero t h = absurd (omega arith)
  free_urb_irp_info_table_lem (suc fuel) t h = elim (Option-cases (first t)) [
    | inl e ↦ rw (e, free_urb_irp_info_table) (t, refl, T.first_none t e)
    | inr (a, e) ↦
        rw (e, free_urb_irp_info_table)
          (free_urb_irp_info_table_lem fuel (delete t a.irp) (omega (arith, count_first t a e)))
  ]
