-- ===== src/Control/Tests.antt =====
-- The theorems on the control device at concrete requests.
use usbpcap_ai.Base.{ℕ, ◌≡◌, refl, none, some, [], ◌∷◌, arith, inr, if◌then◌else◌, has_bit}
use usbpcap_ai.Queue.{Irp}
use usbpcap_ai.Queue.CleanUp.{others, owned}
use usbpcap_ai.Filter.{zero_filter}
use usbpcap_ai.Buffer.{NtStatus, RingData}
use usbpcap_ai.Buffer.Fifo.{contents}
use usbpcap_ai.Buffer.Setup.{remove_buffer}
use usbpcap_ai.Control.{
  Control, DeviceMagic, Handled, Outcome, clean_up_request, complete, create, create_request,
  handle, read_request, wants_read,
}
use usbpcap_ai.Control.Exclusive.{
  bystander_outcome, bystander_request, create_exclusive, handle_all,
}
use usbpcap_ai.Control.Inv.{IsControl, clean_up_lem, handle-IsControl}

abbrev no_ring : RingData
no_ring = record {
  buffer = none;
  buffer_size = 0;
  read_offset = 0;
  write_offset = 0;
  snaplen = 65535;
}

abbrev irp : ℕ → ℕ → Irp
irp address file = record { irp = address; file_object = file; mdl = some 64 }

-- File object 5 holds the capture and has a read pended.
abbrev state : Control
state = record {
  capture_object = some 5;
  hub = record { ring = no_ring; pend_irps = irp 1 5 ∷ irp 2 6 ∷ [] };
  filter = zero_filter;
}

state-IsControl : IsControl state
state-IsControl = record {
  ring = inr (refl, refl, refl);
  distinct = (((λ e. absurd (omega arith)), tt), (tt, tt));
  filter = refl;
}

still : handle_all state (create_request 6 1 ∷ []) ≡ some state
unfolding handle_all handle create has_bit
still = refl

create_exclusive_example :
    handle NtStatus.success DeviceMagic.control state (create_request 7 131073)
    ≡ some (complete (if wants_read 131073 then NtStatus.access_denied else NtStatus.success) state)
create_exclusive_example =
    create_exclusive state (create_request 6 1 ∷ []) 5 state 7 131073 refl (refl, tt) still

bystander_request_example :
    handle NtStatus.success DeviceMagic.control state (read_request (irp 9 8) 64)
    ≡ some (record {
      outcome = bystander_outcome (read_request (irp 9 8) 64);
      cancelled = [];
      after = state;
    })
bystander_request_example = bystander_request state (read_request (irp 9 8) 64) refl refl

handle-IsControl_example :
    (h : Handled) × (handle NtStatus.success DeviceMagic.control state (read_request (irp 9 5) 64)
      ≡ some h)
    × IsControl h.after
handle-IsControl_example =
    handle-IsControl NtStatus.success DeviceMagic.control state (read_request (irp 9 5) 64)
      state-IsControl ((λ e. absurd (omega arith)), ((λ e. absurd (omega arith)), tt))

clean_up_example :
    (handle NtStatus.success DeviceMagic.control state (clean_up_request 5)
      ≡ some (record {
        outcome = Outcome.completed NtStatus.success [];
        cancelled = owned 5 state.hub.pend_irps;
        after = record {
          capture_object = some 5;
          hub = record { ring = remove_buffer no_ring; pend_irps = others 5 state.hub.pend_irps };
          filter = zero_filter;
        };
      }))
    × ((remove_buffer no_ring).buffer ≡ none)
    × (contents (remove_buffer no_ring) ≡ [])
clean_up_example = clean_up_lem state 5 state-IsControl refl
