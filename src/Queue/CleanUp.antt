-- ===== src/Queue/CleanUp.antt =====
-- What `DkCsqCleanUpQueue` of USBPcapDriver/USBPcapQueue.c does to the queue.
use usbpcap_ai.Base.{
  ℕ, zero, suc, ◌<◌, ◌≡◌, ◌≢◌, refl, sym, Option, none, some, List, [], ◌∷◌, ◌++◌, arith, length,
  ◌==◌, if◌then◌else◌, Bool-cases, Option-cases, inl, inr,
}
use usbpcap_ai.Queue.{
  Irp, csq_insert_irp, csq_remove_irp, csq_matches, csq_peek_next_irp, csq_remove_next_irp,
  csq_clean_up_rounds, csq_clean_up_queue,
}

-- The requests of a file object, and the others, in order.
pub owned : ℕ → List Irp → List Irp
owned ctx [] = []
owned ctx (q ∷ queue) = if q.file_object == ctx then q ∷ owned ctx queue else owned ctx queue

pub others : ℕ → List Irp → List Irp
others ctx [] = []
others ctx (q ∷ queue) = if q.file_object == ctx then others ctx queue else q ∷ others ctx queue

-- No request stands in the queue twice.
abbrev pub Absent : ℕ → List Irp → Type 0
Absent p [] = Unit {0}
Absent p (q ∷ queue) = (q.irp ≢ p) × Absent p queue

abbrev pub Distinct : List Irp → Type 0
Distinct [] = Unit {0}
Distinct (q ∷ queue) = Absent q.irp queue × Distinct queue

Absent-remove : (p r : ℕ) (queue : List Irp) → Absent p queue → Absent p (csq_remove_irp queue r)
unfolding csq_remove_irp
Absent-remove p r [] a = tt
Absent-remove p r (q ∷ queue) a = elim (Bool-cases (q.irp == r)) [
  | inl hit ↦ rw hit (a.1)
  | inr miss ↦ rw miss (a.0, Absent-remove p r queue a.1)
]

remove-Distinct : (r : ℕ) (queue : List Irp) → Distinct queue → Distinct (csq_remove_irp queue r)
unfolding csq_remove_irp
remove-Distinct r [] d = tt
remove-Distinct r (q ∷ queue) d = elim (Bool-cases (q.irp == r)) [
  | inl hit ↦ rw hit (d.1)
  | inr miss ↦ rw miss (Absent-remove q.irp r queue d.0, remove-Distinct r queue d.1)
]

-- What one round takes off a queue.
record Removes (ctx : ℕ) (queue : List Irp) (p : Irp) (rest : List Irp) : Type 0 where
  first : owned ctx queue ≡ p ∷ owned ctx rest
  keep : others ctx rest ≡ others ctx queue
  shorter : length queue ≡ suc (length rest)

Absent-peek :
    (p : ℕ) (queue : List Irp) (ctx : Option ℕ) (r : Irp)
    → Absent p queue
    → csq_peek_next_irp queue ctx ≡ some r
    → r.irp ≢ p
unfolding csq_peek_next_irp
Absent-peek p [] ctx r a e = cc
Absent-peek p (q ∷ queue) ctx r a e = elim (Bool-cases (csq_matches ctx q)) [
  | inl hit ↦ ground arith
  | inr miss ↦ Absent-peek p queue ctx r a.1 (ground arith)
]

peek-Removes :
    (ctx : ℕ) (queue : List Irp) (p : Irp)
    → Distinct queue
    → csq_peek_next_irp queue (some ctx) ≡ some p
    → Removes ctx queue p (csq_remove_irp queue p.irp)
unfolding csq_peek_next_irp csq_remove_irp owned others
peek-Removes ctx [] p d e = cc
peek-Removes ctx (q ∷ queue) p d e = elim (Bool-cases (q.file_object == ctx)) [
  | inl hit ↦ ground arith
  | inr miss ↦
      ground (arith, Absent-peek q.irp queue (some ctx) p d.0, peek-Removes ctx queue p d.1)
]

peek-none :
    (ctx : ℕ) (queue : List Irp)
    → csq_peek_next_irp queue (some ctx) ≡ none
    → (owned ctx queue ≡ []) × (others ctx queue ≡ queue)
unfolding csq_peek_next_irp owned others
peek-none ctx [] e = (refl, refl)
peek-none ctx (q ∷ queue) e = ground (arith, peek-none ctx queue)

clean_up_rounds :
    (fuel : ℕ) (queue : List Irp) (ctx : ℕ)
    → Distinct queue
    → length queue < fuel
    → csq_clean_up_rounds fuel queue ctx ≡ some (owned ctx queue, others ctx queue)
unfolding csq_clean_up_rounds csq_remove_next_irp
clean_up_rounds zero queue ctx d h = absurd (omega arith)
clean_up_rounds (suc fuel) queue ctx d h =
    elim (Option-cases (csq_peek_next_irp queue (some ctx))) [
      | inl e ↦ ground (arith, peek-none ctx queue e)
      | inr (p, e) ↦ ground (
        arith,
        peek-Removes ctx queue p d e,
        remove-Distinct p.irp queue d,
        clean_up_rounds fuel (csq_remove_irp queue p.irp) ctx (remove-Distinct p.irp queue d),
      )
    ]

-- The loop ends; it cancels every request of the file object, in the order in which they were
-- queued, and leaves the requests of other file objects queued in their order. No request may
-- stand in the queue twice.
pub csq_clean_up_queue_lem :
    (queue : List Irp) (ctx : ℕ)
    → Distinct queue
    → csq_clean_up_queue queue ctx ≡ some (owned ctx queue, others ctx queue)
unfolding csq_clean_up_queue
csq_clean_up_queue_lem queue ctx d = clean_up_rounds (suc (length queue)) queue ctx d (omega arith)

-- Without a file object the oldest request is taken.
pub remove_next_nil : csq_remove_next_irp [] none ≡ none
unfolding csq_remove_next_irp csq_peek_next_irp
remove_next_nil = refl

pub remove_next_cons :
    (p : Irp) (rest : List Irp) → csq_remove_next_irp (p ∷ rest) none ≡ some (p, rest)
unfolding csq_remove_next_irp csq_peek_next_irp csq_remove_irp
remove_next_cons p rest = ground arith

-- Taking out the requests of a file object, and adding a new one, keep them different.
Absent-others : (p ctx : ℕ) (queue : List Irp) → Absent p queue → Absent p (others ctx queue)
unfolding others
Absent-others p ctx [] a = tt
Absent-others p ctx (q ∷ queue) a = elim (Bool-cases (q.file_object == ctx)) [
  | inl hit ↦ rw hit (Absent-others p ctx queue a.1)
  | inr miss ↦ rw miss (a.0, Absent-others p ctx queue a.1)
]

pub others-Distinct : (ctx : ℕ) (queue : List Irp) → Distinct queue → Distinct (others ctx queue)
unfolding others
others-Distinct ctx [] d = tt
others-Distinct ctx (q ∷ queue) d = elim (Bool-cases (q.file_object == ctx)) [
  | inl hit ↦ rw hit (others-Distinct ctx queue d.1)
  | inr miss ↦ rw miss (Absent-others q.irp ctx queue d.0, others-Distinct ctx queue d.1)
]

Absent-append :
    (r : ℕ) (queue : List Irp) (p : Irp) → Absent r queue → p.irp ≢ r → Absent r (queue ++ (p ∷ []))
Absent-append r [] p a n = (n, tt)
Absent-append r (q ∷ queue) p a n = (a.0, Absent-append r queue p a.1 n)

append-Distinct :
    (queue : List Irp) (p : Irp)
    → Distinct queue
    → Absent p.irp queue
    → Distinct (queue ++ (p ∷ []))
append-Distinct [] p d a = (tt, tt)
append-Distinct (q ∷ queue) p d a =
    (Absent-append q.irp queue p d.0 (λ e. a.0 (sym e)), append-Distinct queue p d.1 a.1)

pub insert-Distinct :
    (queue : List Irp) (p : Irp)
    → Distinct queue
    → Absent p.irp queue
    → Distinct (csq_insert_irp queue p)
unfolding csq_insert_irp
insert-Distinct queue p d a = append-Distinct queue p d a
