-- ===== src/Receiver/Storage.antt =====
-- firmware/nrf54l15/src/receiver_storage.c: the group and the paired trackers in RAM and in the
-- non-volatile storage. Zephyr's NVS is a parameter: a file system of type `S`, and functions that
-- give what the calls return.
pub mod Stored
pub mod Reload
use smol_wi_fi_receiver.Base.{
  ℕ, zero, suc, ◌+◌, ◌%◌, ◌^◌, bit_and, List, [], ◌∷◌, Bool, true, false, ltb, leb, not, ◌&&◌,
  if◌then◌else◌, set, replicate,
}
use smol_wi_fi_receiver.Base.Bytes.{byte_at}
use smol_wi_fi_receiver.Base.Int.{ℤ, pos, negsuc}
use smol_wi_fi_receiver.Receiver.Errno.{enoent, enodev, einval, same, succeeded, settle}
use smol_wi_fi_receiver.Receiver.Report.{max_trackers, address_mask}

-- `nvs_mount`, `nvs_read`, `nvs_write` and `nvs_delete`, on the numbers that the variables hold:
-- the last argument of the read is the variable before the call.
pub record Nvs (S : Type 0) : Type 0 where
  pub nvs_mount : S → ℤ × S
  pub nvs_read : S → ℕ → ℕ → ℤ × ℕ
  pub nvs_write : S → ℕ → ℕ → ℤ × S
  pub nvs_delete : S → ℕ → ℤ × S

abbrev pub storage_id_group : ℕ
storage_id_group = 1

abbrev pub storage_id_tracker_count : ℕ
storage_id_tracker_count = 2

abbrev pub storage_id_tracker_base : ℕ
storage_id_tracker_base = 16

-- The file-scope variables.
pub record Storage (S : Type 0) : Type 0 where
  pub fs : S
  pub group_id : ℕ
  pub trackers : List ℕ
  pub tracker_count : ℕ

-- As after a reset.
abbrev pub blank : {S : Type 0} → S → Storage S
blank fs = record { fs = fs; group_id = 0; trackers = replicate max_trackers 0; tracker_count = 0 }

unfoldable pub receiver_storage_tracker : {S : Type 0} → ℕ → Storage S → ℕ
receiver_storage_tracker id st = if ltb id st.tracker_count then byte_at st.trackers id else 0

module _ {S : Type 0} (nvs : Nvs S) where
  -- The variable after the call; no caller looks at the result.
  unfoldable pub read_or_zero : S → ℕ → ℕ → ℕ
  read_or_zero fs id variable =
      let (result, value) = nvs.nvs_read fs id variable in if same result enoent then 0 else value

  -- The loop over the IDs, with the rounds left.
  unfoldable pub load_trackers : ℕ → ℕ → S → List ℕ → List ℕ
  unfolding read_or_zero
  load_trackers zero id fs trackers = trackers
  load_trackers (suc left) id fs trackers = load_trackers left (id + 1) fs (
      set trackers id (
        bit_and (read_or_zero fs ((storage_id_tracker_base + id) % 2 ^ 16) (byte_at trackers id))
          address_mask))

  -- What follows a successful mount.
  unfoldable pub load : Storage S → Storage S
  unfolding read_or_zero load_trackers
  load st =
      let group = read_or_zero st.fs storage_id_group st.group_id in
      let count = read_or_zero st.fs storage_id_tracker_count st.tracker_count in
      let kept = if ltb max_trackers count then 0 else count in
      record {
        fs = st.fs;
        group_id = bit_and group address_mask;
        trackers = load_trackers kept 0 st.fs st.trackers;
        tracker_count = kept;
      }

  -- `ready`: the flash device answers `device_is_ready` and `flash_get_page_info_by_offs`.
  unfoldable pub receiver_storage_init : Bool → Storage S → ℤ × Storage S
  unfolding load
  receiver_storage_init ready st =
      let (result, fs) = nvs.nvs_mount st.fs in
      if not ready
      then (enodev, st)
      else if succeeded result
      then (pos 0, load (record st { fs = fs }))
      else (result, record st { fs = fs })

  unfoldable pub receiver_storage_set_group : ℕ → Storage S → ℤ × Storage S
  receiver_storage_set_group group st =
      let kept = bit_and group address_mask in
      let (result, fs) = nvs.nvs_write st.fs storage_id_group kept in
      (settle result, record st { fs = fs; group_id = kept })

  unfoldable pub receiver_storage_set_tracker : ℕ → ℕ → Storage S → ℤ × Storage S
  receiver_storage_set_tracker id address st =
      let kept = bit_and address address_mask in
      let (result, fs) = nvs.nvs_write st.fs ((storage_id_tracker_base + id) % 2 ^ 16) kept in
      if leb max_trackers id
      then (einval, st)
      else (settle result, record st { fs = fs; trackers = set st.trackers id kept })

  unfoldable pub receiver_storage_set_tracker_count : ℕ → Storage S → ℤ × Storage S
  receiver_storage_set_tracker_count count st =
      let (result, fs) = nvs.nvs_write st.fs storage_id_tracker_count count in
      if ltb max_trackers count
      then (einval, st)
      else (settle result, record st { fs = fs; tracker_count = count })

  -- The loop of `receiver_storage_clear_trackers`, with the rounds left.
  unfoldable pub delete_trackers : ℕ → ℕ → S → ℤ × S
  delete_trackers zero id fs = (pos 0, fs)
  delete_trackers (suc left) id fs =
      let deleted = nvs.nvs_delete fs ((storage_id_tracker_base + id) % 2 ^ 16) in
      let rest = delete_trackers left (id + 1) deleted.1 in
      if not (succeeded deleted.0) && not (same deleted.0 enoent) then deleted else rest

  unfoldable pub receiver_storage_clear_trackers : Storage S → ℤ × Storage S
  unfolding delete_trackers receiver_storage_set_tracker_count
  receiver_storage_clear_trackers st =
      let (result, fs) = delete_trackers st.tracker_count 0 st.fs in
      if succeeded result
      then receiver_storage_set_tracker_count 0
          (record st { fs = fs; trackers = replicate max_trackers 0 })
      else (result, record st { fs = fs })
