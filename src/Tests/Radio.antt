-- ===== src/Tests/Radio.antt =====
-- The radio's payloads and the storage at concrete states.
use smol_wi_fi_receiver.Base.{
  subst, sym, ap, some, none, ◌==◌, if◌then◌else◌, zero, suc, ◌∙◌, ℕ, ◌≤◌, List, [], ◌∷◌, ◌++◌,
  true, false, ◌≡◌, ◌⊎◌, refl, arith, replicate,
}
use smol_wi_fi_receiver.Base.Bytes.{byte_at}
use smol_wi_fi_receiver.Base.Int.{ℤ, pos}
use smol_wi_fi_receiver.Receiver.Errno.{succeeded}
use smol_wi_fi_receiver.Receiver.Report.{report_builder_enqueue}
use smol_wi_fi_receiver.Receiver.Storage.{
  Storage, blank, receiver_storage_init, receiver_storage_set_group, receiver_storage_set_tracker,
  receiver_storage_set_tracker_count, load, read_or_zero, load_trackers,
}
use smol_wi_fi_receiver.Receiver.Storage.Stored.{save_tracker}
use smol_wi_fi_receiver.Receiver.Storage.Reload.{
  Saves, first, group, tracker, receiver_storage_init-Saves,
}
use smol_wi_fi_receiver.Receiver.Rf.{Rf, EsbPayload, handle_rf_v2}
use smol_wi_fi_receiver.Receiver.Rf.Radio.{handle_payload}
use smol_wi_fi_receiver.Receiver.Rf.Invariant.{IsRf}
use smol_wi_fi_receiver.Receiver.Rf.Table.{IsTable, IsDistinct, byte_at-zeros}
use smol_wi_fi_receiver.Receiver.Rf.Filter.{IsIntact, IsDamaged, IsKnown, handle_rf_v2-primary}
use smol_wi_fi_receiver.Receiver.Rf.Config.{rf_receiver_init}
use smol_wi_fi_receiver.Receiver.Rf.Init.{rf_receiver_init-IsRf}
use smol_wi_fi_receiver.Receiver.Rf.Reach.{payload, Step-IsRf}
use smol_wi_fi_receiver.Tests.Fixtures.{
  Flash, erased, flash_nvs, flash_nvs_laws, erased_lem, counting, one_paired, no_reports,
}

-- Checksums that are the same for all bytes.
abbrev crc8 : ℕ → List ℕ → ℕ
crc8 seed bytes = 9

abbrev crc32 : ℕ → List ℕ → ℕ
crc32 seed bytes = seed

-- A pairing request of the tracker 0x060504030201.
abbrev pair_request : EsbPayload
pair_request = record {
  length = 8;
  pipe = 0;
  rssi = 50;
  bytes = 9 ∷ 0 ∷ 1 ∷ 2 ∷ 3 ∷ 4 ∷ 5 ∷ 6 ∷ [];
}

-- Sensor data of the tracker 0.
abbrev sensor_data : EsbPayload
sensor_data = record {
  length = 28;
  pipe = 1;
  rssi = 50;
  bytes =
      1 ∷ 0 ∷ replicate 14 0
      ++ (0xf5 ∷ 0xa5 ∷ 0xe8 ∷ 0x6f ∷ 0x04 ∷ 0xa5 ∷ 3 ∷ 2 ∷ 0xeb ∷ 0x09 ∷ 0xa4 ∷ 0x93 ∷ []);
}

one-IsDistinct : IsDistinct (0xa5046fe8a5f5 ∷ replicate 31 0)
one-IsDistinct zero zero used same = refl
one-IsDistinct zero (suc j) used same = absurd (used (same ∙ byte_at-zeros 31 j))
one-IsDistinct (suc i) j used same = absurd (used (byte_at-zeros 31 i))

none_behind_one : (id : ℕ) → 1 ≤ id → byte_at (0xa5046fe8a5f5 ∷ replicate 31 0) id ≡ 0
none_behind_one zero behind = absurd (omega arith)
none_behind_one (suc id) behind = byte_at-zeros 31 id

one_paired-IsRf : IsRf one_paired
one_paired-IsRf = record {
  table = record {
    size = refl;
    count_in = omega arith;
    addresses_in = omega arith;
    none_behind = none_behind_one;
  };
  announced = refl;
  distinct = λ _. one-IsDistinct;
  pairs = λ _. refl;
  queue_in = omega arith;
}

Step-IsRf_example : IsRf (handle_payload counting crc8 crc32 pair_request one_paired)
Step-IsRf_example =
    Step-IsRf flash_nvs counting crc8 crc32 (payload pair_request one_paired) one_paired-IsRf

handle_rf_v2-primary_example :
    let after = handle_rf_v2 crc32 sensor_data one_paired in
    (IsIntact crc32 sensor_data
      × IsKnown sensor_data one_paired
      × (after ≡ record one_paired {
        received_packets = 1;
        builder = report_builder_enqueue sensor_data.bytes 50 3 7 true one_paired.builder;
      }))
    ⊎ (IsDamaged crc32 sensor_data
        × (after ≡ record one_paired {
          crc_errors = 1;
          builder =
              report_builder_enqueue (251 ∷ 255 ∷ replicate 14 0) 50 3 2 false one_paired.builder;
        }))
    ⊎ (¬ (IsIntact crc32 sensor_data × IsKnown sensor_data one_paired)
        × ¬ (IsDamaged crc32 sensor_data)
        × (after ≡ one_paired))
handle_rf_v2-primary_example = handle_rf_v2-primary crc32 sensor_data one_paired refl

-- The group, and then a tracker.
abbrev grouped : Storage Flash
grouped = (receiver_storage_set_group flash_nvs 0x112233 (blank erased)).1

abbrev with_tracker : Storage Flash
with_tracker = (save_tracker flash_nvs flash_nvs_laws 0 0xa5046fe8a5f5 1 grouped).1

with_tracker-Saves : Saves flash_nvs flash_nvs_laws erased with_tracker
unfolding receiver_storage_set_group receiver_storage_set_tracker receiver_storage_set_tracker_count
with_tracker-Saves =
    tracker 0 0xa5046fe8a5f5 1 {st = grouped} (omega arith) (omega arith) (omega arith) refl refl
      (group 0x112233 {st = blank erased} refl (first erased_lem))

receiver_storage_init-Saves_example :
    receiver_storage_init flash_nvs true (blank with_tracker.fs) ≡ (pos 0, with_tracker)
receiver_storage_init-Saves_example =
    receiver_storage_init-Saves flash_nvs flash_nvs_laws erased with_tracker-Saves refl

-- A flash with one tracker, and the receiver before its start.
abbrev paired_flash : Flash
paired_flash id = if id == 2 then some 1 else if id == 16 then some 0xa5046fe8a5f5 else none

abbrev reset_receiver : Rf Flash ℕ
reset_receiver = record one_paired {
  tracker_addresses = replicate 32 0;
  tracker_count = 0;
  builder = no_reports;
  storage = blank paired_flash;
}

mounts : receiver_storage_init flash_nvs true (blank paired_flash) ≡ (
  pos 0,
  record {
    fs = paired_flash;
    group_id = 0;
    trackers = 0xa5046fe8a5f5 ∷ replicate 31 0;
    tracker_count = 1;
  },
)
unfolding receiver_storage_init load read_or_zero load_trackers
mounts = refl

mounted : succeeded (receiver_storage_init flash_nvs true (blank paired_flash)).0 ≡ true
mounted = ap (λ (out : ℤ × Storage Flash). succeeded out.0) mounts

one-behind : (id : ℕ) → 1 ≤ id → byte_at (0xa5046fe8a5f5 ∷ replicate 31 0) id ≡ 0
one-behind zero behind = absurd (omega arith)
one-behind (suc i) behind = byte_at-zeros 31 i

rf_receiver_init-IsRf_example :
    let (result, st) = receiver_storage_init flash_nvs true (blank paired_flash) in
    let (ok, after) =
      rf_receiver_init flash_nvs counting 0x665544332211 true (pos 0) reset_receiver in
    IsRf after × ((i : ℕ) → byte_at after.tracker_addresses i ≡ byte_at st.trackers i)
rf_receiver_init-IsRf_example =
    rf_receiver_init-IsRf flash_nvs counting 0x665544332211 true (pos 0) reset_receiver mounted
      (subst (λ (out : ℤ × Storage Flash). IsTable out.1.trackers out.1.tracker_count) (sym mounts)
        (record {
          size = refl;
          count_in = omega arith;
          addresses_in = omega arith;
          none_behind = one-behind;
        }))
      (subst (λ (out : ℤ × Storage Flash). IsDistinct out.1.trackers) (sym mounts) one-IsDistinct)
      refl refl refl
