-- ===== src/Queue.antt =====
-- USBPcapDriver/USBPcapQueue.c: the cancel-safe queue of pended read requests of a control device.
-- The list is `lePendIrp`, oldest first. `IoCsqInsertIrp` and `IoCsqRemoveNextIrp` are the
-- system's: they call the routines below with the queue's lock held, the second as a peek and,
-- if that found a request, a removal. Cancellation of a queued request by the system is not
-- modelled.
pub mod CleanUp
mod Tests
use usbpcap_ai.Base.{
  ℕ, zero, suc, Bool, true, false, Option, none, some, List, [], ◌∷◌, ◌++◌, length, ◌==◌,
  if◌then◌else◌,
}

-- An IRP: its address, the file object of its stack location, and its MDL: the byte count if the
-- MDL can be mapped, `none` if `MmGetSystemAddressForMdlSafe` fails.
pub record Irp : Type 0 where
  pub irp : ℕ
  pub file_object : ℕ
  pub mdl : Option ℕ

-- `DkCsqInsertIrp`
unfoldable pub csq_insert_irp : List Irp → Irp → List Irp
csq_insert_irp queue p = queue ++ (p ∷ [])

-- `DkCsqRemoveIrp`: the entry is unlinked from wherever it stands.
unfoldable pub csq_remove_irp : List Irp → ℕ → List Irp
csq_remove_irp [] p = []
csq_remove_irp (q ∷ queue) p = if q.irp == p then queue else q ∷ csq_remove_irp queue p

-- The test of `DkCsqPeekNextIrp`: any request, or one of the file object `ctx`.
abbrev pub csq_matches : Option ℕ → Irp → Bool
csq_matches none q = true
csq_matches (some ctx) q = q.file_object == ctx

-- `DkCsqPeekNextIrp`, over the entries behind `pIrp` (all of them if `pIrp` is NULL).
unfoldable pub csq_peek_next_irp : List Irp → Option ℕ → Option Irp
csq_peek_next_irp [] ctx = none
csq_peek_next_irp (q ∷ queue) ctx =
    if csq_matches ctx q then some q else csq_peek_next_irp queue ctx

-- `IoCsqRemoveNextIrp`
unfoldable pub csq_remove_next_irp : List Irp → Option ℕ → Option (Irp × List Irp)
csq_remove_next_irp queue ctx = elim (csq_peek_next_irp queue ctx) [
  | none ↦ none
  | some p ↦ some (p, csq_remove_irp queue p.irp)
]

-- `DkCsqCleanUpQueue`: the requests that are completed as cancelled, in order, and the queue that
-- is left. The fuel bounds the rounds of `while (TRUE)`.
pub csq_clean_up_rounds : ℕ → List Irp → ℕ → Option (List Irp × List Irp)
csq_clean_up_rounds zero queue ctx = none
csq_clean_up_rounds (suc fuel) queue ctx = elim (csq_remove_next_irp queue (some ctx)) [
  | none ↦ some ([], queue)
  | some (p, rest) ↦ elim (csq_clean_up_rounds fuel rest ctx) [
    | none ↦ none
    | some (cancelled, left) ↦ some (p ∷ cancelled, left)
  ]
]

pub csq_clean_up_queue : List Irp → ℕ → Option (List Irp × List Irp)
csq_clean_up_queue queue ctx = csq_clean_up_rounds (suc (length queue)) queue ctx
