-- ===== src/Receiver/Rf/Config.antt =====
-- The calls of rf_receiver.h.
use smol_wi_fi_receiver.Base.{
  ℕ, zero, suc, ◌+◌, ◌%◌, ◌^◌, bit_and, [], Bool, true, false, ltb, not, ◌&&◌, ◌==◌, if◌then◌else◌,
  set, replicate,
}
use smol_wi_fi_receiver.Base.Bytes.{byte_at}
use smol_wi_fi_receiver.Base.Int.{ℤ, pos}
use smol_wi_fi_receiver.Receiver.Errno.{eperm, einval, succeeded, first_error}
use smol_wi_fi_receiver.Receiver.Report.{
  max_trackers, address_mask, report_builder_set_tracker, report_builder_clear_trackers,
}
use smol_wi_fi_receiver.Receiver.Storage.{
  Nvs, receiver_storage_init, receiver_storage_tracker, receiver_storage_set_group,
  receiver_storage_clear_trackers,
}
use smol_wi_fi_receiver.Receiver.Rf.{Rf}
use smol_wi_fi_receiver.Receiver.Rf.Radio.{Esb, stop_radio, start_radio}

module _ {S E : Type 0} where
  -- The loop of `rf_receiver_init`, with the rounds left.
  unfoldable pub restore_trackers : ℕ → ℕ → Rf S E → Rf S E
  restore_trackers zero id rf = rf
  restore_trackers (suc left) id rf =
      let address = receiver_storage_tracker id rf.storage in
      restore_trackers left (id + 1) (record rf {
        tracker_addresses = set rf.tracker_addresses id address;
        builder = report_builder_set_tracker id address rf.builder;
      })

  -- What `rf_receiver_init` makes of the storage, up to the start of the clock and the radio.
  unfoldable pub restore : ℕ → Rf S E → Rf S E
  unfolding restore_trackers
  restore receiver_id rf =
      let group = rf.storage.group_id in
      let group_id = if group == 0 then receiver_id else group in
      let primary = group_id == receiver_id in
      let count = rf.storage.tracker_count in
      let restored = restore_trackers count 0 (record rf {
        receiver_id = receiver_id;
        group_id = group_id;
        primary = primary;
        tracker_count = count;
      }) in
      record restored { pairing = primary && count == 0 }

  -- `rf_receiver_init`. The device's address, whether the flash is ready and what `start_hf_clock`
  -- returns are arguments.
  unfoldable pub rf_receiver_init : Nvs S → Esb E → ℕ → Bool → ℤ → Rf S E → ℤ × Rf S E
  unfolding restore start_radio receiver_storage_init
  rf_receiver_init nvs esb device ready clock rf =
      let receiver_id = bit_and device address_mask in
      let (result, storage) = receiver_storage_init nvs ready rf.storage in
      let restored = restore receiver_id (record rf { storage = storage }) in
      let started = if succeeded clock then start_radio esb restored else (clock, restored) in
      if succeeded result
      then started
      else (result, record rf { receiver_id = receiver_id; storage = storage })

  unfoldable pub rf_receiver_tracker : ℕ → Rf S E → ℕ
  rf_receiver_tracker id rf = if ltb id rf.tracker_count then byte_at rf.tracker_addresses id else 0

  -- The end of `rf_receiver_set_group`, when the storage was written.
  unfoldable pub forget_trackers : Rf S E → Rf S E
  forget_trackers rf = record rf {
    persist_queue = [];
    tracker_addresses = replicate max_trackers 0;
    tracker_count = 0;
    builder = report_builder_clear_trackers rf.builder;
  }

  -- The changes that are made first, whether the storage can be written or not.
  unfoldable pub choose_group : Esb E → Bool → ℕ → Rf S E → Rf S E
  unfolding stop_radio
  choose_group esb secondary requested rf =
      let stopped = stop_radio esb rf in
      record stopped {
        config_generation = (rf.config_generation + 1) % 2 ^ 32;
        group_id = if secondary then requested else rf.receiver_id;
        primary = not secondary;
        pairing = false;
      }

  -- The way back, when the storage could not be written.
  unfoldable pub undo_group : Nvs S → Esb E → Rf S E → Rf S E → Rf S E
  unfolding start_radio
  undo_group nvs esb previous rf =
      let group = if previous.primary then 0 else previous.group_id in
      (start_radio esb (record rf {
        group_id = previous.group_id;
        primary = previous.primary;
        pairing = previous.pairing;
        storage = (receiver_storage_set_group nvs group rf.storage).1;
      })).1

  unfoldable pub rf_receiver_set_group : Nvs S → Esb E → Bool → ℕ → Rf S E → ℤ × Rf S E
  unfolding choose_group undo_group forget_trackers
  rf_receiver_set_group nvs esb secondary requested_group rf =
      let requested = bit_and requested_group address_mask in
      let chosen = choose_group esb secondary requested rf in
      let written =
        receiver_storage_set_group nvs (if secondary then chosen.group_id else 0) chosen.storage in
      let cleared = receiver_storage_clear_trackers nvs written.1 in
      let result = first_error written.0 cleared.0 in
      let stored = record chosen { storage = cleared.1 } in
      if secondary && requested == 0
      then (einval, rf)
      else if succeeded result
      then (pos 0, forget_trackers stored)
      else (result, undo_group nvs esb rf stored)

  unfoldable pub rf_receiver_start_pairing : Esb E → Rf S E → ℤ × Rf S E
  rf_receiver_start_pairing esb rf =
      if not rf.primary
      then (eperm, rf)
      else start_radio esb (record (stop_radio esb rf) { pairing = true })

  unfoldable pub rf_receiver_stop_pairing : Esb E → Rf S E → ℤ × Rf S E
  rf_receiver_stop_pairing esb rf = start_radio esb (record (stop_radio esb rf) { pairing = false })

  unfoldable pub rf_receiver_clear_trackers : Nvs S → Esb E → Rf S E → ℤ × Rf S E
  rf_receiver_clear_trackers nvs esb rf =
      let stopped = stop_radio esb rf in
      let (result, storage) = receiver_storage_clear_trackers nvs rf.storage in
      let (radio_result, started) = start_radio esb (record (forget_trackers stopped) {
        config_generation = (rf.config_generation + 1) % 2 ^ 32;
        storage = storage;
        pairing = rf.primary;
      }) in
      (first_error result radio_result, started)

  unfoldable pub rf_receiver_set_enabled : Esb E → Bool → Rf S E → ℤ × Rf S E
  rf_receiver_set_enabled esb enabled rf =
      start_radio esb (record (stop_radio esb rf) { radio_enabled = enabled })
