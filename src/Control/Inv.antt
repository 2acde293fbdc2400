-- ===== src/Control/Inv.antt =====
-- Every request to the control device of USBPcapDriver/USBPcapGenReq.c and
-- USBPcapDriver/USBPcapDeviceControl.c is handled, and leaves a valid state.
use usbpcap_ai.Base.{ℕ, ◌≡◌, refl, Option, none, some, List, [], arith, Bool-cases, inl, inr}
use usbpcap_ai.Queue.{Irp}
use usbpcap_ai.Queue.CleanUp.{
  Absent, Distinct, owned, others, others-Distinct, csq_clean_up_queue_lem,
}
use usbpcap_ai.Filter.{zero_filter}
use usbpcap_ai.Filter.Mask.{IsFilter}
use usbpcap_ai.Buffer.{NtStatus, nt_success}
use usbpcap_ai.Buffer.Fifo.{contents}
use usbpcap_ai.Buffer.Setup.{remove_buffer}
use usbpcap_ai.Buffer.Setup.Resize.{IsBuffer, IsAlloc, remove_buffer_lem}
use usbpcap_ai.Buffer.Irp.Keeps.{handle_read-IsBuffer, handle_read-Distinct}
use usbpcap_ai.Buffer.Setup.Keeps.{set_up_buffer-IsBuffer, set_snaplen_size-IsBuffer}
use usbpcap_ai.Control.{
  Control, DeviceMagic, Handled, IoctlRequest, Outcome, Request, clean_up, close, create,
  create_request, clean_up_request, close_request, device_control, dispatch, handle,
  handle_capture_ioctl, handle_control_ioctl, filter_at, ioctl_request, is_object, read,
  read_request, word_at, write_request,
}

-- A valid buffer or none, pended reads that are all different, and a filter of four words.
pub record IsControl (c : Control) : Type 0 where
  pub ring : IsBuffer c.hub.ring
  pub distinct : Distinct c.hub.pend_irps
  pub filter : IsFilter c.filter

-- A request that the system can send: a read request is not in the queue already, and an
-- allocation returns memory of the size that was asked for.
abbrev pub IsRequest : Control → Request → Type 0
IsRequest c (read_request p n) = Absent p.irp c.hub.pend_irps
IsRequest c (ioctl_request interfaces file r) = (size : ℕ) → IsAlloc size (r.alloc size)
IsRequest c _ = Unit {0}

read-IsControl :
    (c : Control) (p : Irp) (n : ℕ)
    → IsControl c
    → Absent p.irp c.hub.pend_irps
    → IsControl (read c p n).after
unfolding read
read-IsControl c p n v a = elim (Bool-cases (is_object c.capture_object p.file_object)) [
  | inl mine ↦
      rw (mine, read)
        (record {
          ring = handle_read-IsBuffer c.hub p n v.ring;
          distinct = handle_read-Distinct c.hub p n v.distinct a;
          filter = v.filter;
        })
  | inr other ↦ rw (other, read) v
]

ioctl-IsControl :
    (interfaces : Option (List ℕ)) (c : Control) (file : ℕ) (r : IoctlRequest)
    → IsControl c
    → ((size : ℕ) → IsAlloc size (r.alloc size))
    → IsControl (device_control interfaces c file r).after
unfolding device_control handle_control_ioctl handle_capture_ioctl filter_at
ioctl-IsControl interfaces c file r v a = ground (
  arith,
  v,
  set_up_buffer-IsBuffer c.hub.ring (word_at r.input 0) (r.alloc (word_at r.input 0)) v.ring
      (a (word_at r.input 0)),
  set_snaplen_size-IsBuffer c.hub.ring (word_at r.input 0) v.ring,
)

clean_up-IsControl :
    (c : Control) (file : ℕ)
    → IsControl c
    → (h : Handled) × (clean_up c file ≡ some h) × IsControl h.after
unfolding clean_up
clean_up-IsControl c file v = elim (Bool-cases (is_object c.capture_object file)) [
  | inl mine ↦
      rw (mine, clean_up, csq_clean_up_queue_lem c.hub.pend_irps file v.distinct)
        (
          _,
          refl,
          record {
            ring = (remove_buffer_lem c.hub.ring v.ring).0;
            distinct = others-Distinct file c.hub.pend_irps v.distinct;
            filter = refl;
          },
        )
  | inr other ↦ rw (other, clean_up) (_, refl, v)
]

create-IsControl :
    (c : Control) (file access : ℕ) → IsControl c → IsControl (create c file access).after
unfolding create
create-IsControl c file access v = ground (arith, v)

dispatch-IsControl :
    (lock : NtStatus) (magic : DeviceMagic) (c : Control) (o : Option Handled)
    → IsControl c
    → ((h : Handled) × (o ≡ some h) × IsControl h.after)
    → (h : Handled) × (dispatch lock magic c o ≡ some h) × IsControl h.after
dispatch-IsControl lock magic c o v hyp = elim (Bool-cases (nt_success lock)) [
  | inr refused ↦ rw (refused, dispatch) (_, refl, v)
  | inl granted ↦ rw (granted, dispatch) (by_magic magic)
]
  where
    by_magic :
        (m : DeviceMagic)
        → (h : Handled) × (dispatch NtStatus.success m c o ≡ some h) × IsControl h.after
    by_magic DeviceMagic.control = hyp
    by_magic DeviceMagic.roothub = (_, refl, v)
    by_magic DeviceMagic.device = (_, refl, v)
    by_magic DeviceMagic.unknown = (_, refl, v)

-- Every request is handled, whatever the lock and the kind of device: no loop runs out of fuel,
-- and the state after it is valid again.
pub handle-IsControl :
    (lock : NtStatus) (magic : DeviceMagic) (c : Control) (r : Request)
    → IsControl c
    → IsRequest c r
    → (h : Handled) × (handle lock magic c r ≡ some h) × IsControl h.after
unfolding handle close
handle-IsControl lock magic c (create_request file access) v a =
    dispatch-IsControl lock magic c _ v (_, refl, create-IsControl c file access v)
handle-IsControl lock magic c (clean_up_request file) v a =
    dispatch-IsControl lock magic c _ v (clean_up-IsControl c file v)
handle-IsControl lock magic c (close_request file) v a =
    dispatch-IsControl lock magic c _ v
      (_, refl, record { ring = v.ring; distinct = v.distinct; filter = v.filter })
handle-IsControl lock magic c (read_request p n) v a =
    dispatch-IsControl lock magic c _ v (_, refl, read-IsControl c p n v a)
handle-IsControl lock magic c (write_request file) v a =
    dispatch-IsControl lock magic c _ v (_, refl, v)
handle-IsControl lock magic c (ioctl_request interfaces file r) v a =
    dispatch-IsControl lock magic c _ v (_, refl, ioctl-IsControl interfaces c file r v a)

-- Cleaning up the handle that holds the capture cancels its pended reads in their order and no
-- other's, frees the buffer with all that waits in it, and filters no device any more. The
-- capture is held until the handle is closed.
pub clean_up_lem :
    (c : Control) (file : ℕ)
    → IsControl c
    → c.capture_object ≡ some file
    → (handle NtStatus.success DeviceMagic.control c (clean_up_request file)
        ≡ some (record {
          outcome = Outcome.completed NtStatus.success [];
          cancelled = owned file c.hub.pend_irps;
          after = record {
            capture_object = some file;
            hub = record {
              ring = remove_buffer c.hub.ring;
              pend_irps = others file c.hub.pend_irps;
            };
            filter = zero_filter;
          };
        }))
      × ((remove_buffer c.hub.ring).buffer ≡ none)
      × (contents (remove_buffer c.hub.ring) ≡ [])
unfolding handle clean_up
clean_up_lem c file v e = (
  ground (arith, e, csq_clean_up_queue_lem c.hub.pend_irps file v.distinct),
  (remove_buffer_lem c.hub.ring v.ring).1,
  (remove_buffer_lem c.hub.ring v.ring).2,
)
