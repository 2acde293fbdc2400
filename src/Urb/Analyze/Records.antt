-- ===== src/Urb/Analyze/Records.antt =====
-- The stream that complete packets make in the buffer of USBPcapDriver/USBPcapBuffer.c, as records
-- of a capture.
use usbpcap_ai.Base.{
  ℕ, ◌≡◌, refl, sym, ◌∙◌, ap₂, List, [], ◌∷◌, ◌++◌, append-nil, Bool-cases, inl, inr, arith,
}
use usbpcap_ai.Format.{PacketHeader}
use usbpcap_ai.Buffer.{RingData, nt_success}
use usbpcap_ai.Buffer.Packet.{PayloadEntry, initialize_pcap_header, store_packet}
use usbpcap_ai.Buffer.Packet.Store.{packet_bytes, record_header}
use usbpcap_ai.Buffer.Packet.Framing.{record_framing}
use usbpcap_ai.Buffer.Irp.{Hub}
use usbpcap_ai.Buffer.Irp.Stream.{AreCalls, Call, logged, logs, reads, run, step}
use usbpcap_ai.Client.Parser.Records.{
  AreRecords-append, stream-append, AreRecords, CaptureRecord, IsRecord, record_bytes, stream,
}
use usbpcap_ai.Urb.Packets.Complete.{IsComplete}
use usbpcap_ai.Urb.Analyze.Complete.{AreCompleteCalls}

pub AreCompleteCalls-AreCalls : (cs : List Call) → AreCompleteCalls cs → AreCalls cs
AreCompleteCalls-AreCalls [] v = tt
AreCompleteCalls-AreCalls (reads p n ∷ cs) v = (tt, AreCompleteCalls-AreCalls cs v.1)
AreCompleteCalls-AreCalls (logs t h p ∷ cs) v = (v.0.packet, AreCompleteCalls-AreCalls cs v.1)

abbrev record_of : RingData → ℕ → PacketHeader → List PayloadEntry → CaptureRecord
record_of s timestamp header payload = record {
  header = record_header s timestamp header;
  packet = packet_bytes s timestamp header payload;
}

-- The record of a complete packet is a record.
record_of-IsRecord :
    (s : RingData) (timestamp : ℕ) (header : PacketHeader) (payload : List PayloadEntry)
    → IsComplete header payload
    → IsRecord (record_of s timestamp header payload)
unfolding initialize_pcap_header
record_of-IsRecord s timestamp header payload v =
    let framing =
      record_framing s timestamp header payload v.packet (omega (arith, v.bounded))
        (omega (arith, v.complete)) in
    record {
      header_valid = record {
        ts_sec_lt = omega arith;
        ts_usec_lt = omega arith;
        incl_len_lt = ground arith;
        orig_len_lt = omega arith;
      };
      incl = sym framing.0;
      small = ground (arith, framing.0, framing.1, framing.2, v.bounded);
    }

-- Bytes that are a sequence of whole records.
pub record IsRecords (bytes : List ℕ) : Type 0 where
  pub records : List CaptureRecord
  pub valid : AreRecords records
  pub bytes_stream : bytes ≡ stream records []

logged-IsRecords :
    (h : Hub) (timestamp : ℕ) (header : PacketHeader) (payload : List PayloadEntry)
    → IsComplete header payload
    → IsRecords (logged h timestamp header payload)
unfolding logged stream record_bytes
logged-IsRecords h timestamp header payload v =
    elim (Bool-cases (nt_success (store_packet h.ring timestamp header payload).0)) [
      | inl ok ↦
          rw (ok, logged)
            (record {
              records = record_of h.ring timestamp header payload ∷ [];
              valid = (record_of-IsRecord h.ring timestamp header payload v, tt);
              bytes_stream = sym (append-nil _);
            })
      | inr refused ↦
          rw (refused, logged) (record { records = []; valid = tt; bytes_stream = refl })
    ]

-- What a history of reads and complete packets adds to the stream is a sequence of whole records.
pub run-IsRecords : (h : Hub) (cs : List Call) → AreCompleteCalls cs → IsRecords (run h cs).0
unfolding run step stream
run-IsRecords h [] v = record { records = []; valid = tt; bytes_stream = refl }
run-IsRecords h (reads p n ∷ cs) v = run-IsRecords (step h (reads p n)).2 cs v.1
run-IsRecords h (logs timestamp header payload ∷ cs) v =
    let first = logged-IsRecords h timestamp header payload v.0 in
    let others = run-IsRecords (step h (logs timestamp header payload)).2 cs v.1 in
    record {
      records = first.records ++ others.records;
      valid = AreRecords-append first.records others.records first.valid others.valid;
      bytes_stream =
          ap₂ (λ s t. s ++ t) first.bytes_stream others.bytes_stream
          ∙ sym (stream-append first.records others.records);
    }
