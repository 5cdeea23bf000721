-- ===== src/Receiver/Report.antt =====
-- firmware/nrf54l15/src/report_builder.c: the ring of tracker records, the registration schedule
-- and the 64-byte report. The file-scope variables are one record; the functions run under the
-- spinlock and are atomic here.
pub mod Ring
pub mod Enqueue
pub mod Fresh
pub mod Next
pub mod Delivery
pub mod Addresses
pub mod Size
use smol_wi_fi_receiver.Base.{
  ℕ, zero, suc, ◌+◌, ◌-◌, ◌*◌, ◌%◌, ◌^◌, bit_and, List, [], ◌∷◌, Bool, true, false, Option, none,
  some, ◌&&◌, ◌||◌, not, leb, ◌==◌, ◌!=◌, if◌then◌else◌, get_or, set, take, replicate, length,
}
use smol_wi_fi_receiver.Base.Bytes.{byte_at, copy_at, le48}
use smol_wi_fi_receiver.Base.Int.{ℤ, pos, negsuc, elapsed}

abbrev pub max_trackers : ℕ
max_trackers = 32

abbrev pub report_queue_size : ℕ
report_queue_size = 128

abbrev pub registration_period_ms : ℕ
registration_period_ms = 100

-- `DEVICE_ADDRESS_MASK`
abbrev pub address_mask : ℕ
address_mask = 2 ^ 48 - 1

-- `struct sv_smol_record` with its metadata
pub record SmolRecord : Type 0 where
  pub bytes : List ℕ
  pub sequence : ℕ
  pub rssi : ℕ
  pub flags : ℕ

abbrev pub zero_record : SmolRecord
zero_record = record { bytes = replicate 16 0; sequence = 0; rssi = 0; flags = 0 }

pub record Builder : Type 0 where
  pub queue : List SmolRecord
  pub read_index : ℕ
  pub write_index : ℕ
  pub tracker_addresses : List ℕ
  pub registration_cursor : ℕ
  pub last_registration_ms : ℤ
  pub drops : ℕ

abbrev pub advance : ℕ → ℕ
advance index = (index + 1) % report_queue_size % 2 ^ 16

-- `queue[index]`
abbrev pub slot : List SmolRecord → ℕ → SmolRecord
slot queue index = get_or queue index zero_record

unfoldable pub report_builder_init : Builder → Builder
report_builder_init b = record b {
  read_index = 0;
  write_index = 0;
  registration_cursor = 0;
  last_registration_ms = negsuc (registration_period_ms - 1);
  drops = 0;
}

unfoldable pub report_builder_set_tracker : ℕ → ℕ → Builder → Builder
report_builder_set_tracker id address b =
    if leb max_trackers id
    then b
    else record b { tracker_addresses = set b.tracker_addresses id (bit_and address address_mask) }

unfoldable pub report_builder_clear_trackers : Builder → Builder
report_builder_clear_trackers b = record b {
  tracker_addresses = replicate max_trackers 0;
  read_index = 0;
  write_index = 0;
  registration_cursor = 0;
}

-- The record that `report_builder_enqueue` builds; callers pass at least 16 bytes.
unfoldable pub make_record : List ℕ → ℕ → ℕ → ℕ → SmolRecord
make_record bytes rssi sequence flags =
    let copied = copy_at (replicate 16 0) 0 (take 16 bytes) in
    record {
      bytes = if byte_at bytes 0 != 1 && byte_at bytes 0 != 4 then set copied 15 rssi else copied;
      sequence = sequence;
      rssi = rssi;
      flags = flags;
    }

-- A queued sensor record of tracker `id`.
abbrev pub is_sensor_of : ℕ → SmolRecord → Bool
is_sensor_of id r = leb (byte_at r.bytes 0) 223 && byte_at r.bytes 1 == id

pub data Scan : Type 0 where
  found : ℕ → Scan
  absent exhausted : Scan

-- The `for` loop over the queue, with fuel; `exhausted` means that the fuel ran out.
unfoldable pub scan : ℕ → List SmolRecord → ℕ → ℕ → ℕ → Scan
scan zero queue cursor write_index id = exhausted
scan (suc fuel) queue cursor write_index id = elim (cursor == write_index) [
  | true ↦ absent
  | false ↦ elim (is_sensor_of id (slot queue cursor)) [
    | true ↦ found cursor
    | false ↦ scan fuel queue (advance cursor) write_index id
  ]
]

-- The part behind the loop: append, or count a drop.
unfoldable pub append_record : SmolRecord → Builder → Builder
append_record r b =
    let next = advance b.write_index in
    if next == b.read_index
    then record b { drops = (b.drops + 1) % 2 ^ 32 }
    else record b { queue = set b.queue b.write_index r; write_index = next }

-- What is done with the place that the loop found, if any.
unfoldable pub store_record : SmolRecord → Builder → Scan → Builder
unfolding append_record
store_record r b (found cursor) = record b { queue = set b.queue cursor r }
store_record r b absent = append_record r b
store_record r b exhausted = b

-- 128 rounds of fuel are enough on indices in range (`Enqueue.scan-sensor_at`).
unfoldable pub report_builder_enqueue : List ℕ → ℕ → ℕ → ℕ → Bool → Builder → Builder
unfolding make_record scan store_record
report_builder_enqueue bytes rssi sequence flags replace_sensor_data b =
    let r = make_record bytes rssi sequence flags in
    if replace_sensor_data
    then store_record r b
        (scan report_queue_size b.queue b.read_index b.write_index (byte_at bytes 1))
    else append_record r b

-- The loop of `next_registration`, with the rounds left: the record, and the next cursor.
unfoldable pub registration_from : ℕ → ℕ → List ℕ → ℕ → Option (List ℕ × ℕ)
registration_from zero offset tracker_addresses registration_cursor = none
registration_from (suc left) offset tracker_addresses registration_cursor =
    let id = (registration_cursor + offset) % max_trackers % 2 ^ 8 in
    let address = byte_at tracker_addresses id in
    let later = registration_from left (offset + 1) tracker_addresses registration_cursor in
    if address == 0
    then later
    else some (
      copy_at (set (set (replicate 16 0) 0 255) 1 id) 2 (le48 address),
      (id + 1) % max_trackers % 2 ^ 8,
    )

unfoldable pub next_registration : Builder → Option (List ℕ × Builder)
unfolding registration_from
next_registration b =
    elim (registration_from max_trackers 0 b.tracker_addresses b.registration_cursor) [
      | none ↦ none
      | some (output, cursor) ↦ some (output, record b { registration_cursor = cursor })
    ]

-- Over the addresses left.
unfoldable pub any_registration : List ℕ → Bool
any_registration [] = false
any_registration (address ∷ rest) = address != 0 || any_registration rest

unfoldable pub has_registration : Builder → Bool
unfolding any_registration
has_registration b = any_registration (take max_trackers b.tracker_addresses)

unfoldable pub registration_due : ℕ → Builder → Bool
unfolding has_registration
registration_due now b =
    has_registration b && elapsed now b.last_registration_ms registration_period_ms
