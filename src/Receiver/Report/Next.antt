-- ===== src/Receiver/Report/Next.antt =====
-- `report_builder_next` and `report_builder_pending`. The time that `k_uptime_get` returns is the
-- argument `now`.
use smol_wi_fi_receiver.Base.{
  ℕ, zero, suc, ◌+◌, ◌-◌, ◌*◌, ◌%◌, ◌^◌, List, [], ◌∷◌, Bool, true, Option, none, some, ◌&&◌, ◌||◌,
  not, leb, ◌==◌, ◌!=◌, if◌then◌else◌, set, replicate, length,
}
use smol_wi_fi_receiver.Base.Bytes.{byte_at, copy_at}
use smol_wi_fi_receiver.Base.Int.{pos}
use smol_wi_fi_receiver.Receiver.Report.{
  SmolRecord, Builder, advance, slot, next_registration, registration_due,
}

abbrev pub data_records : ℕ
data_records = 3

abbrev pub record_size : ℕ
record_size = 16

abbrev pub report_size : ℕ
report_size = 64

-- The loop that takes records off the queue, with the places left.
unfoldable pub take_records : ℕ → Builder → List SmolRecord × Builder
take_records zero b = ([], b)
take_records (suc left) b =
    let rest = take_records left (record b { read_index = advance b.read_index }) in
    if b.read_index == b.write_index then ([], b) else (slot b.queue b.read_index ∷ rest.0, rest.1)

-- The records' bytes, one after the other from place `index` on.
unfoldable pub copy_records : List SmolRecord → ℕ → List ℕ → List ℕ
copy_records [] index output = output
copy_records (r ∷ rest) index output =
    copy_records rest (index + 1) (copy_at output (index * record_size) r.bytes)

unfoldable pub count_data : List SmolRecord → ℕ
count_data [] = 0
count_data (r ∷ rest) =
    let others = count_data rest in if leb (byte_at r.bytes 0) 223 then others + 1 else others

-- The loop that fills the places left with registrations, until there is none.
unfoldable pub fill_registrations : ℕ → ℕ → List ℕ → Builder → Bool → List ℕ × Builder × Bool
fill_registrations zero index output b due = (output, b, due)
fill_registrations (suc left) index output b due = elim (next_registration b) [
  | none ↦ (output, b, due)
  | some (text, b') ↦
      fill_registrations left (index + 1) (copy_at output (index * record_size) text) b' true
]

-- The loop over the records' metadata; `base` is `metadata[5 + slot * 3]` in the report.
unfoldable pub write_tuples : List SmolRecord → ℕ → List ℕ → List ℕ
write_tuples [] base output = output
write_tuples (r ∷ rest) base output =
    write_tuples rest (base + 3)
      (set (set (set output base r.sequence) (base + 1) r.rssi) (base + 2) r.flags)

unfoldable pub write_metadata : List SmolRecord → List ℕ → List ℕ
unfolding write_tuples count_data
write_metadata records output =
    let metadata = data_records * record_size in
    let kind = set output metadata 250 in
    let marker = set kind (metadata + 1) 255 in
    let magic = set marker (metadata + 2) 0xd6 in
    let version = set magic (metadata + 3) 1 in
    let counted = set version (metadata + 4) (count_data records % 2 ^ 8) in
    let tuples = write_tuples records (metadata + 5) counted in set tuples (metadata + 15) 0x6d

-- What follows once there is something to send.
unfoldable pub build_report : ℕ → List SmolRecord → Bool → Builder → List ℕ × Builder
unfolding copy_records fill_registrations write_metadata
build_report now records due b =
    let queued = length records in
    let copied = copy_records records 0 (replicate report_size 0) in
    let (filled, b', due') = fill_registrations (data_records - queued) queued copied b due in
    (
      write_metadata records filled,
      (if due' then record b' { last_registration_ms = pos now } else b'),
    )

-- What is returned once the records are off the queue.
unfoldable pub send_report : ℕ → List SmolRecord × Builder → Option (List ℕ) × Builder
unfolding build_report
send_report now (records, b) =
    let due = registration_due now b in
    let report = build_report now records due b in
    if length records == 0 && not due then (none, b) else (some report.0, report.1)

-- `none` is the return value false, on which `output` is left as it was.
unfoldable pub report_builder_next : ℕ → Builder → Option (List ℕ) × Builder
unfolding take_records send_report
report_builder_next now b = send_report now (take_records data_records b)

unfoldable pub report_builder_pending : ℕ → Builder → Bool
report_builder_pending now b = b.read_index != b.write_index || registration_due now b
