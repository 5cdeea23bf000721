-- ===== src/Receiver/Rf/Radio.antt =====
-- The pairing handshake, the radio's event handler, and starting and stopping the radio.
use smol_wi_fi_receiver.Base.{
  ℕ, bit_and, List, [], ◌∷◌, ◌++◌, true, false, leb, not, ◌||◌, ◌==◌, ◌!=◌, if◌then◌else◌, length,
  take, drop,
}
use smol_wi_fi_receiver.Base.Bytes.{byte_at, le48, read_le48}
use smol_wi_fi_receiver.Base.Int.{ℤ, pos}
use smol_wi_fi_receiver.Receiver.Errno.{succeeded}
use smol_wi_fi_receiver.Receiver.Report.{max_trackers, address_mask}
use smol_wi_fi_receiver.Receiver.Storage.{
  Nvs, Storage, receiver_storage_set_tracker, receiver_storage_set_tracker_count,
}
use smol_wi_fi_receiver.Receiver.Rf.{
  Rf, EsbCall, esb_init, esb_start_rx, esb_stop_rx, esb_disable, esb_set_base_address_0,
  esb_set_base_address_1, esb_set_prefixes, esb_enable_pipes, esb_write_payload, EsbPayload,
  PersistRecord, persist_queue_size, rf_v2_packet_size, discovery_base_addr_0, discovery_prefixes,
  derive_addresses, find_tracker, add_tracker, handle_rf_v2,
}

-- The driver: a call gives its result, or 0 where it has none, and the next state.
abbrev pub Esb : Type 0 → Type 0
Esb E = EsbCall → E → ℤ × E

-- The reply: checksum, ID and the receiver's address.
abbrev pub pair_reply : ℕ → ℕ → ℕ → List ℕ
pair_reply checksum id receiver_id = checksum ∷ id ∷ le48 receiver_id

-- The calls in turn, up to the first that fails.
unfoldable pub call_in_turn : {E : Type 0} → Esb E → List EsbCall → E → ℤ × E
call_in_turn esb [] e = (pos 0, e)
call_in_turn esb (c ∷ rest) e =
    let called = esb c e in
    let later = call_in_turn esb rest called.1 in if succeeded called.0 then later else called

module _ {S : Type 0} where
  -- What `persist_pairing_work_handler` does with one record.
  unfoldable pub persist_tracker : Nvs S → PersistRecord → Storage S → Storage S
  persist_tracker nvs r st =
      let (result, stored) = receiver_storage_set_tracker nvs r.id r.address st in
      let (counted, whole) = receiver_storage_set_tracker_count nvs r.tracker_count stored in
      if succeeded result then whole else stored

  -- The loop over the records that wait.
  unfoldable pub persist_records : Nvs S → List PersistRecord → ℕ → Storage S → Storage S
  unfolding persist_tracker
  persist_records nvs [] generation st = st
  persist_records nvs (r ∷ rest) generation st =
      persist_records nvs rest generation
        (if r.generation == generation then persist_tracker nvs r st else st)

module _ {S E : Type 0} where
  unfoldable pub persist_pairing_work_handler : Nvs S → Rf S E → Rf S E
  unfolding persist_records
  persist_pairing_work_handler nvs rf = record rf {
    persist_queue = [];
    storage = persist_records nvs rf.persist_queue rf.config_generation rf.storage;
  }

  -- The part of `handle_pair_request` behind the table: the record for the storage, and the reply
  -- unless the queue is full.
  unfoldable pub answer_pairing : Esb E → ℕ → ℕ → ℕ → Rf S E → Rf S E
  answer_pairing esb checksum id address rf =
      let r : PersistRecord = record {
        id = id;
        tracker_count = rf.tracker_count;
        address = address;
        generation = rf.config_generation;
      } in
      if leb persist_queue_size (length rf.persist_queue) then rf else record rf {
        persist_queue = rf.persist_queue ++ (r ∷ []);
        esb = (esb (esb_write_payload (pair_reply checksum id rf.receiver_id)) rf.esb).1;
      }

  -- From the address on.
  unfoldable pub pair_tracker : Esb E → ℕ → ℕ → Rf S E → Rf S E
  unfolding answer_pairing add_tracker find_tracker
  pair_tracker esb checksum address rf =
      let id = find_tracker rf.tracker_count 0 rf.tracker_addresses address rf.tracker_count in
      let (result, added) = add_tracker id address rf in
      if address == 0 || leb max_trackers id || not (succeeded result)
      then rf
      else answer_pairing esb checksum id address added

  -- `crc8_ccitt` with the start value 7, over as many bytes as the list has.
  unfoldable pub handle_pair_request : Esb E → (ℕ → List ℕ → ℕ) → EsbPayload → Rf S E → Rf S E
  unfolding pair_tracker
  handle_pair_request esb crc8_ccitt payload rf =
      let bytes = payload.bytes in
      let crc = crc8_ccitt 7 (take 6 (drop 2 bytes)) in
      let checksum = if crc == 0 then 8 else crc in
      if not rf.primary || not rf.pairing || payload.length != 8 || byte_at bytes 1 != 0
      then rf
      else if checksum != byte_at bytes 0
      then rf
      else pair_tracker esb checksum (bit_and (read_le48 (drop 2 bytes)) address_mask) rf

  -- What `receiver_esb_event_handler` does with one payload.
  unfoldable pub handle_payload :
      Esb E → (ℕ → List ℕ → ℕ) → (ℕ → List ℕ → ℕ) → EsbPayload → Rf S E → Rf S E
  unfolding handle_pair_request handle_rf_v2
  handle_payload esb crc8_ccitt crc32_k_4_2_update payload rf =
      if payload.pipe == 0
      then handle_pair_request esb crc8_ccitt payload rf
      else if payload.length == rf_v2_packet_size
      then handle_rf_v2 crc32_k_4_2_update payload rf
      else rf

  unfoldable pub stop_radio : Esb E → Rf S E → Rf S E
  stop_radio esb rf =
      if rf.esb_initialized
      then record rf {
        esb_initialized = false;
        esb = (esb esb_disable (esb esb_stop_rx rf.esb).1).1;
      }
      else rf

  -- The calls with which `start_radio` sets the driver up.
  abbrev pub start_calls : Rf S E → List EsbCall
  start_calls rf =
      esb_init
      ∷ esb_set_base_address_0 discovery_base_addr_0
      ∷ esb_set_base_address_1 (derive_addresses rf.group_id)
      ∷ esb_set_prefixes discovery_prefixes
      ∷ esb_enable_pipes (if rf.pairing then 3 else 2)
      ∷ esb_start_rx
      ∷ []

  unfoldable pub start_radio : Esb E → Rf S E → ℤ × Rf S E
  unfolding call_in_turn derive_addresses
  start_radio esb rf =
      let (result, e) = call_in_turn esb (start_calls rf) rf.esb in
      if not rf.radio_enabled || rf.esb_initialized
      then (pos 0, rf)
      else if succeeded result
      then (result, record rf { esb_initialized = true; esb = e })
      else (result, record rf { esb = (esb esb_disable e).1 })
