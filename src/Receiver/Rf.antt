-- ===== src/Receiver/Rf.antt =====
-- firmware/nrf54l15/src/rf_receiver.c: the pairing table, the radio's events and the configuration
-- calls. The driver of Enhanced ShockBurst, Zephyr's CRCs and the NVS are parameters. The radio's
-- interrupt and the calls under the mutex are atomic steps.
pub mod Radio
pub mod Config
pub mod Table
pub mod Invariant
pub mod Payload
pub mod Filter
pub mod Reach
pub mod Init
use smol_wi_fi_receiver.Base.{
  ℕ, zero, suc, ◌+◌, ◌%◌, ◌^◌, bit_and, List, [], ◌∷◌, ◌++◌, Bool, true, false, Option, none, some,
  ltb, leb, not, ◌&&◌, ◌||◌, ◌==◌, ◌!=◌, if◌then◌else◌, length, set, take, drop, replicate,
}
use smol_wi_fi_receiver.Base.Bytes.{byte_at, copy_at, le48, read_le48, read_le32}
use smol_wi_fi_receiver.Base.Int.{ℤ, pos}
use smol_wi_fi_receiver.Receiver.Errno.{eperm, einval, eaddrinuse, succeeded, first_error}
use smol_wi_fi_receiver.Receiver.Report.{
  Builder, max_trackers, address_mask, report_builder_set_tracker, report_builder_clear_trackers,
  report_builder_enqueue,
}
use smol_wi_fi_receiver.Receiver.Storage.{
  Nvs, Storage, receiver_storage_set_group, receiver_storage_set_tracker,
  receiver_storage_set_tracker_count, receiver_storage_clear_trackers,
}

abbrev pub rf_v2_packet_size : ℕ
rf_v2_packet_size = 28

abbrev pub rf_v2_version : ℕ
rf_v2_version = 2

abbrev pub rf_v2_crc_seed : ℕ
rf_v2_crc_seed = 0x93a409eb

abbrev pub discovery_base_addr_0 : List ℕ
discovery_base_addr_0 = 0x62 ∷ 0x39 ∷ 0x8a ∷ 0xf2 ∷ []

abbrev pub discovery_prefixes : List ℕ
discovery_prefixes = 0xfe ∷ 0xff ∷ 0x29 ∷ 0x27 ∷ 0x09 ∷ 0x02 ∷ 0xb2 ∷ 0xd6 ∷ []

-- The calls of the radio driver.
pub data EsbCall : Type 0 where
  esb_init esb_start_rx esb_stop_rx esb_disable : EsbCall
  esb_set_base_address_0 esb_set_base_address_1 esb_set_prefixes : List ℕ → EsbCall
  esb_enable_pipes : ℕ → EsbCall
  esb_write_payload : List ℕ → EsbCall

-- `struct esb_payload`
pub record EsbPayload : Type 0 where
  pub length : ℕ
  pub pipe : ℕ
  pub rssi : ℕ
  pub bytes : List ℕ

-- `struct pairing_persist_record`
pub record PersistRecord : Type 0 where
  pub id : ℕ
  pub tracker_count : ℕ
  pub address : ℕ
  pub generation : ℕ

abbrev pub persist_queue_size : ℕ
persist_queue_size = 8

-- The file-scope variables, the states of the two modules that the functions call, and the
-- driver's state, of type `E`.
pub record Rf (S E : Type 0) : Type 0 where
  pub receiver_id : ℕ
  pub group_id : ℕ
  pub tracker_addresses : List ℕ
  pub tracker_count : ℕ
  pub primary : Bool
  pub pairing : Bool
  pub radio_enabled : Bool
  pub esb_initialized : Bool
  pub received_packets : ℕ
  pub crc_errors : ℕ
  pub config_generation : ℕ
  pub persist_queue : List PersistRecord
  pub storage : Storage S
  pub builder : Builder
  pub esb : E

-- A byte of the base address: not 0x00, 0x55 or 0xaa, on which the radio would lose the preamble.
unfoldable pub derive_byte : ℕ → ℕ → ℕ
derive_byte low high =
    let sum = (low + high) % 2 ^ 8 in
    if sum == 0x00 || sum == 0x55 || sum == 0xaa then (sum + 8) % 2 ^ 8 else sum

unfoldable pub derive_addresses : ℕ → List ℕ
unfolding derive_byte
derive_addresses group =
    let bytes = le48 group in
    let last = byte_at bytes 4 in
    derive_byte (byte_at bytes 0) last
    ∷ derive_byte (byte_at bytes 1) last
    ∷ derive_byte (byte_at bytes 2) last
    ∷ derive_byte (byte_at bytes 3) last
    ∷ []

-- The loop of `handle_pair_request`: the place of `address` among the first `left` behind
-- `cursor`, or `otherwise`.
unfoldable pub find_tracker : ℕ → ℕ → List ℕ → ℕ → ℕ → ℕ
find_tracker zero cursor tracker_addresses address otherwise = otherwise
find_tracker (suc left) cursor tracker_addresses address otherwise =
    let later = find_tracker left (cursor + 1) tracker_addresses address otherwise in
    if byte_at tracker_addresses cursor == address then cursor else later

module _ {S E : Type 0} where
  -- What `add_tracker` returns.
  unfoldable pub refusal : ℕ → ℕ → Rf S E → ℤ
  refusal id address rf =
      let kept = bit_and address address_mask in
      let old = byte_at rf.tracker_addresses id in
      if leb max_trackers id || kept == 0
      then einval
      else if old != 0 && old != kept
      then eaddrinuse
      else pos 0

  -- What `add_tracker` stores when it returns 0.
  unfoldable pub keep_tracker : ℕ → ℕ → Rf S E → Rf S E
  keep_tracker id address rf =
      let kept = bit_and address address_mask in
      record rf {
        tracker_addresses = set rf.tracker_addresses id kept;
        tracker_count = if leb rf.tracker_count id then (id + 1) % 2 ^ 8 else rf.tracker_count;
        builder = report_builder_set_tracker id kept rf.builder;
      }

  unfoldable pub add_tracker : ℕ → ℕ → Rf S E → ℤ × Rf S E
  unfolding refusal keep_tracker
  add_tracker id address rf =
      let result = refusal id address rf in
      (result, if succeeded result then keep_tracker id address rf else rf)

  -- The diagnostic record of a packet with a wrong checksum.
  unfoldable pub count_crc_error : EsbPayload → Rf S E → Rf S E
  count_crc_error payload rf = record rf {
    crc_errors = (rf.crc_errors + 1) % 2 ^ 32;
    builder =
        report_builder_enqueue (251 ∷ 255 ∷ replicate 14 0) payload.rssi (byte_at payload.bytes 22)
          2 false rf.builder;
  }

  -- The end of `handle_rf_v2`.
  unfoldable pub accept_packet : EsbPayload → Rf S E → Rf S E
  accept_packet payload rf = record rf {
    received_packets = (rf.received_packets + 1) % 2 ^ 32;
    builder =
        report_builder_enqueue payload.bytes payload.rssi (byte_at payload.bytes 22) 7 true
          rf.builder;
  }

  -- From the tracker's ID and address on.
  unfoldable pub admit_packet : EsbPayload → ℕ → ℕ → Rf S E → Rf S E
  unfolding accept_packet add_tracker
  admit_packet payload id address rf =
      let known = not (leb rf.tracker_count id) && byte_at rf.tracker_addresses id == address in
      let (result, added) = add_tracker id address rf in
      if leb max_trackers id || ltb 223 (byte_at payload.bytes 0) || address == 0
      then rf
      else if rf.primary
      then (if known then accept_packet payload rf else rf)
      else (if succeeded result then accept_packet payload added else rf)

  -- `crc32_k_4_2_update` with the seed, over as many bytes as the list has.
  unfoldable pub handle_rf_v2 : (ℕ → List ℕ → ℕ) → EsbPayload → Rf S E → Rf S E
  unfolding count_crc_error admit_packet
  handle_rf_v2 crc32_k_4_2_update payload rf =
      let bytes = payload.bytes in
      let address = bit_and (read_le48 (drop 16 bytes)) address_mask in
      if byte_at bytes 23 != rf_v2_version
      then rf
      else if read_le32 (drop 24 bytes) != crc32_k_4_2_update rf_v2_crc_seed (take 24 bytes)
      then count_crc_error payload rf
      else admit_packet payload (byte_at bytes 1) address rf
