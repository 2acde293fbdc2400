-- ===== src/Client/Parser.antt =====
-- USBPcapCMD/thread.c: `process_data`, which cuts the bytes read from the driver into records and
-- writes those that match, with `ensure_pending_capacity`, `app_packet_matches`,
-- `begin_output_stream` and `write_data`.
-- The system's calls are parameters (`Outside`): whether the output file opens, what `WriteFile`
-- does, whether `realloc` succeeds. `pending_len` and `buf_written` are lengths of lists. Flushing
-- the file and the messages to stderr are not modelled.
pub mod More
pub mod Works
pub mod Chunks
pub mod Records
pub mod Capacity
pub mod Reads
pub mod Endless
mod Tests
use usbpcap_ai.Base.{
  ℕ, zero, suc, ◌+◌, ◌-◌, ◌*◌, ◌%◌, min, Bool, true, false, not, ◌&&◌, ◌||◌, Option, none, some,
  List, [], ◌∷◌, ◌++◌, length, get_or, take, drop, ltb, leb, ◌==◌, if◌then◌else◌, add32, u32_mod,
  of_le16,
}
use usbpcap_ai.Format.{
  pcap_hdr_size, pcaprec_hdr_size, packet_header_size, pcap_magic, dlt_usbpcap, read_pcap_hdr,
  read_pcaprec_hdr,
}

-- `struct app_capture_filter`
pub record AppFilter : Type 0 where
  pub enabled : Bool
  pub has_vendor_id : Bool
  pub has_product_id : Bool
  pub has_endpoint : Bool
  pub has_transfer_type : Bool
  pub vendor_id : ℕ
  pub product_id : ℕ
  pub endpoint : ℕ
  pub transfer_type : ℕ

-- `struct device_metadata`
pub record DeviceMetadata : Type 0 where
  pub present : Bool
  pub vendor : ℕ
  pub product : ℕ

-- `store_mode`
pub data StoreMode : Type 0 where
  immediate on_match : StoreMode

-- The fields of `struct thread_data` that do not change while data is processed.
pub record Options : Type 0 where
  pub app_filter : AppFilter
  pub device_metadata : List DeviceMetadata
  pub store_mode : StoreMode
  pub descriptors : List ℕ

-- What became of a `WriteFile`: done at once; pending and then finished with a number of bytes;
-- pending, with no result to be had, and a number of bytes in the file; or failed.
pub data WriteResult : Type 0 where
  at_once failed : WriteResult
  finished no_result : ℕ → WriteResult

-- The system's answers: to opening the output file, to writing bytes after those that are in the
-- file already, and to a `realloc` of a size.
pub record Outside : Type 0 where
  pub open_output : Bool
  pub write_file : List ℕ → List ℕ → WriteResult
  pub room : ℕ → Bool

-- The fields that change, of `struct thread_data` and of `packet_parser_context`; `written` is the
-- content of the output file and `output_open` whether its handle is valid.
pub record Session : Type 0 where
  pub process : Bool
  pub output_open : Bool
  pub triggered : Bool
  pub dropped_packets : ℕ
  pub written : List ℕ
  pub buf : List ℕ
  pub pending : List ℕ
  pub have_pcap_header : Bool
  pub wrote_pcap_header : Bool
  pub pcap_header : List ℕ

pub record Parser : Type 0 where
  pub pending_capacity : ℕ
  pub session : Session

abbrev pub is_immediate : StoreMode → Bool
is_immediate StoreMode.immediate = true
is_immediate StoreMode.on_match = false

-- The loop of `ensure_pending_capacity`; the multiplication wraps.
unfoldable pub grow_capacity : ℕ → ℕ → ℕ → Option ℕ
grow_capacity zero capacity required = none
grow_capacity (suc fuel) capacity required =
    let grown = grow_capacity fuel (capacity * 2 % u32_mod) required in
    if ltb capacity required then grown else some capacity

-- `ensure_pending_capacity`: the result and the capacity after, or `none` at the end of the fuel.
unfoldable pub ensure_pending_capacity : (ℕ → Bool) → ℕ → ℕ → ℕ → Option (Bool × ℕ)
ensure_pending_capacity room capacity pending_len additional =
    let required = add32 pending_len additional in
    let grown = if capacity == 0 then some required else grow_capacity 32 capacity required in
    if leb required capacity
    then some (true, capacity)
    else elim grown [ none ↦ none | some larger ↦ some (room larger, larger) ]

-- `header->device`, `header->endpoint` and `header->transfer` of a packet's bytes.
abbrev pub device_at : List ℕ → ℕ
device_at packet = of_le16 (get_or packet 19 0) (get_or packet 20 0)

abbrev pub endpoint_at : List ℕ → ℕ
endpoint_at packet = get_or packet 21 0

abbrev pub transfer_at : List ℕ → ℕ
transfer_at packet = get_or packet 22 0

abbrev pub no_metadata : DeviceMetadata
no_metadata = record { present = false; vendor = 0; product = 0 }

-- `app_packet_matches`, at the packet's bytes and their number.
unfoldable pub app_packet_matches : Options → List ℕ → ℕ → Bool
app_packet_matches c packet bytes =
    let filter = c.app_filter in
    let metadata = get_or c.device_metadata (device_at packet) no_metadata in
    if not filter.enabled
    then true
    else if ltb bytes packet_header_size
    then false
    else if leb 128 (device_at packet)
    then false
    else if filter.has_vendor_id
        && (not metadata.present || not (metadata.vendor == filter.vendor_id))
    then false
    else if filter.has_product_id
        && (not metadata.present || not (metadata.product == filter.product_id))
    then false
    else if filter.has_endpoint && not (endpoint_at packet == filter.endpoint)
    then false
    else if filter.has_transfer_type && not (transfer_at packet == filter.transfer_type)
    then false
    else true

-- `write_data`
unfoldable pub write_data : Outside → Session → List ℕ → Session
write_data o s bytes = elim (o.write_file s.written bytes) [
  | WriteResult.at_once ↦ record s { written = s.written ++ bytes }
  | WriteResult.failed ↦ record s { process = false }
  | WriteResult.finished n ↦ record s {
    written = s.written ++ take n bytes;
    process = s.process && (n == length bytes);
  }
  | WriteResult.no_result n ↦ record s { written = s.written ++ take n bytes }
]

-- The test for the header of a USBPcap stream.
abbrev pub is_usbpcap_header : List ℕ → Bool
is_usbpcap_header bytes = elim (read_pcap_hdr bytes) [
  | none ↦ false
  | some h ↦ h.magic_number == pcap_magic && h.network == dlt_usbpcap
]

-- The header and, behind it, the descriptors.
unfoldable pub write_start : Outside → Options → Session → List ℕ → Session
write_start o c s header =
    let s' = write_data o s header in
    if is_usbpcap_header header && ltb 0 (length c.descriptors)
    then write_data o s' c.descriptors
    else s'

-- `begin_output_stream`: the result and the state after.
unfoldable pub begin_output_stream : Outside → Options → Session → Bool × Session
begin_output_stream o c s =
    let s' = write_start o c (record s { output_open = true }) s.pcap_header in
    if not s.have_pcap_header
    then (false, s)
    else if s.wrote_pcap_header
    then (true, s)
    else if s.output_open || o.open_output
    then (true, record s' { wrote_pcap_header = true; triggered = true })
    else (false, record s { process = false })

-- A round of the loop of `process_data`: it returns, or goes on.
pub data Round : Type 0 where
  return next : Session → Round

-- The first part of a round: the global header. The flag is false where the function returns.
unfoldable pub take_pcap_header : Outside → Options → Session → Bool × Session
take_pcap_header o c s =
    let s' = record s {
      pcap_header = take pcap_hdr_size s.pending;
      pending = drop pcap_hdr_size s.pending;
      have_pcap_header = true;
    } in
    if not s.have_pcap_header && leb pcap_hdr_size (length s.pending)
    then (if is_immediate c.store_mode then begin_output_stream o c s' else (true, s'))
    else (true, s)

-- A record that matches, of `total_length` bytes at the front of `pending`.
unfoldable pub store_match : Outside → Options → Session → ℕ → Bool × Session
store_match o c s total_length =
    let now = is_immediate c.store_mode in
    let (go, s1) = if not now && not s.triggered then begin_output_stream o c s else (true, s) in
    let (go', s2) =
      if now && not s1.wrote_pcap_header then begin_output_stream o c s1 else (true, s1) in
    if not go
    then (false, s1)
    else if now || s1.triggered
    then (if go' then (true, write_data o s2 (take total_length s2.pending)) else (false, s2))
    else (true, s1)

-- The second part: the record at the front, whose header says `incl_len`.
unfoldable pub take_record : Outside → Options → Session → ℕ → Round
take_record o c s incl_len =
    let total_length = add32 pcaprec_hdr_size incl_len in
    let matched = app_packet_matches c (drop pcaprec_hdr_size s.pending) incl_len in
    let (go, s') =
      if matched
      then store_match o c s total_length
      else (true, record s { dropped_packets = add32 s.dropped_packets 1 }) in
    if ltb (length s.pending) total_length
    then return s
    else if go
    then next (record s' { pending = drop total_length s'.pending })
    else return s'

unfoldable pub round : Outside → Options → Session → Round
round o c s =
    let (go, s') = take_pcap_header o c s in
    if not s.process
    then return s
    else if not go
    then return s'
    else if not s'.have_pcap_header
    then return s'
    else elim (read_pcaprec_hdr s'.pending) [
      | none ↦ return s'
      | some h ↦ take_record o c s' h.incl_len
    ]

-- The loop, on fuel.
unfoldable pub drain : Outside → Options → ℕ → Session → Option Session
drain o c zero s = none
drain o c (suc fuel) s = elim (round o c s) [ return t ↦ some t | next t ↦ drain o c fuel t ]

-- The branch of `process_data` without a filter in immediate mode: the bytes pass through, with
-- the descriptors put in behind the global header.
unfoldable pub pass_through : Outside → Options → Session → List ℕ → Session
pass_through o c s bytes =
    let to_write = min (pcap_hdr_size - length s.buf) (length bytes) in
    let s1 = record s { buf = s.buf ++ take to_write bytes } in
    let s2 = if length s1.buf == pcap_hdr_size then write_start o c s1 s1.buf else s1 in
    let rest = drop to_write bytes in
    if ltb (length s.buf) pcap_hdr_size
    then (if length rest == 0 then s2 else write_data o s2 rest)
    else write_data o s bytes

-- `process_data`, with fuel for its loop.
unfoldable pub process_data : Outside → Options → ℕ → Parser → List ℕ → Option Parser
process_data o c fuel p bytes =
    let s = p.session in
    let drained = drain o c fuel (record s { pending = s.pending ++ bytes }) in
    if not c.app_filter.enabled && is_immediate c.store_mode
    then some (record p { session = pass_through o c s bytes })
    else elim (ensure_pending_capacity o.room p.pending_capacity (length s.pending)
        (length bytes)) [
          | none ↦ none
          | some (false, capacity) ↦
              some (record { pending_capacity = capacity; session = record s { process = false } })
          | some (true, capacity) ↦ elim drained [
            | none ↦ none
            | some t ↦ some (record { pending_capacity = capacity; session = t })
          ]
        ]

-- The reads of `read_thread`, one after the other.
unfoldable pub process_all : Outside → Options → ℕ → Parser → List (List ℕ) → Option Parser
process_all o c fuel p [] = some p
process_all o c fuel p (bytes ∷ more) = elim (process_data o c fuel p bytes) [
  | none ↦ none
  | some q ↦ process_all o c fuel q more
]

-- `memset(&parser, 0, …)`, and the fields of a new `struct thread_data`.
abbrev pub fresh_session : Session
fresh_session = record {
  process = true;
  output_open = false;
  triggered = false;
  dropped_packets = 0;
  written = [];
  buf = [];
  pending = [];
  have_pcap_header = false;
  wrote_pcap_header = false;
  pcap_header = [];
}

abbrev pub fresh_parser : Parser
fresh_parser = record { pending_capacity = 0; session = fresh_session }
