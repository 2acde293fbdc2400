-- ===== src/Queue/Tests.antt =====
-- The theorem on USBPcapDriver/USBPcapQueue.c at a concrete queue.
use usbpcap_ai.Base.{ℕ, ◌≡◌, none, some, List, [], ◌∷◌, arith}
use usbpcap_ai.Queue.{Irp, csq_clean_up_queue}
use usbpcap_ai.Queue.CleanUp.{Distinct, csq_clean_up_queue_lem, others, owned}

abbrev pended : ℕ → ℕ → Irp
pended address file = record { irp = address; file_object = file; mdl = none }

abbrev queue : List Irp
queue = pended 1 5 ∷ pended 2 6 ∷ pended 3 5 ∷ []

queue-Distinct : Distinct queue
queue-Distinct = (
  ((λ e. absurd (omega arith)), ((λ e. absurd (omega arith)), tt)),
  (((λ e. absurd (omega arith)), tt), (tt, tt)),
)

csq_clean_up_queue_example : csq_clean_up_queue queue 5 ≡ some (owned 5 queue, others 5 queue)
csq_clean_up_queue_example = csq_clean_up_queue_lem queue 5 queue-Distinct
