-- ===== src/Receiver/Control.antt =====
-- firmware/nrf54l15/src/receiver_control.c: the commands of the ESP, and the replay cache in front
-- of them. The numbers are those of protocol/bridge_protocol.h and
-- protocol/receiver_control_protocol.h.
pub mod Command
pub mod Once
pub mod Response
pub mod Pages
use smol_wi_fi_receiver.Base.{
  ℕ, zero, suc, ◌+◌, ◌-◌, ◌*◌, ◌%◌, ◌^◌, bit_or, List, [], ◌∷◌, ◌++◌, Bool, true, false, Option,
  none, some, ltb, leb, not, ◌&&◌, ◌||◌, ◌==◌, ◌!=◌, if◌then◌else◌, length, set, take, drop,
}
use smol_wi_fi_receiver.Base.Bytes.{byte_at, copy_at, le16, le32, le48, read_le48}
use smol_wi_fi_receiver.Base.Int.{ℤ, pos}
use smol_wi_fi_receiver.Protocol.Bridge.Kind
use smol_wi_fi_receiver.Protocol.Bridge.{BridgeMessage, flag_error}
use smol_wi_fi_receiver.Protocol.Replay.{
  ReplayCache, zero_message, sv_command_replay_init, sv_command_replay_find,
  sv_command_replay_store,
}
use smol_wi_fi_receiver.Receiver.Errno.{eperm, enoent, ebusy, einval, same}
use smol_wi_fi_receiver.Receiver.Storage.{Nvs}
use smol_wi_fi_receiver.Receiver.Rf.{Rf}
use smol_wi_fi_receiver.Receiver.Rf.Radio.{Esb}
use smol_wi_fi_receiver.Receiver.Rf.Config.{
  rf_receiver_tracker, rf_receiver_set_group, rf_receiver_start_pairing, rf_receiver_stop_pairing,
  rf_receiver_clear_trackers, rf_receiver_set_enabled,
}

abbrev pub status_ok : ℕ
status_ok = 0

abbrev pub status_bad_request : ℕ
status_bad_request = 1

abbrev pub status_not_allowed : ℕ
status_not_allowed = 2

abbrev pub status_not_found : ℕ
status_not_found = 3

abbrev pub status_busy : ℕ
status_busy = 4

abbrev pub status_internal_error : ℕ
status_internal_error = 5

abbrev pub tracker_page_size : ℕ
tracker_page_size = 8

abbrev pub set_group_size : ℕ
set_group_size = 8

-- The cache, the receiver that the commands change, and whether the reboot is scheduled.
pub record Control (S E : Type 0) : Type 0 where
  pub cache : ReplayCache
  pub rf : Rf S E
  pub reboot_scheduled : Bool

unfoldable pub status_from_errno : ℤ → ℕ
status_from_errno error =
    if same error (pos 0)
    then status_ok
    else if same error einval
    then status_bad_request
    else if same error eperm
    then status_not_allowed
    else if same error enoent
    then status_not_found
    else if same error ebusy
    then status_busy
    else status_internal_error

unfoldable pub basic_response : ℕ → ℤ → BridgeMessage → BridgeMessage
unfolding status_from_errno
basic_response command result response = record response {
  payload = set (set response.payload 0 command) 1 (status_from_errno result);
  payload_length = 2;
  flags = if same result (pos 0) then response.flags else bit_or response.flags flag_error % 2 ^ 8;
}

-- The entries of `get_tracker_page` as bytes, laid out one after the other.
unfoldable pub entry_bytes : List (ℕ × ℕ) → List ℕ
entry_bytes [] = []
entry_bytes ((id, address) ∷ rest) = (id ∷ le48 address) ++ entry_bytes rest

-- The response before a command fills it in.
abbrev pub blank_response : BridgeMessage → BridgeMessage
blank_response request = record zero_message {
  kind = Kind.command_response;
  request_id = request.request_id;
}

-- The test that schedules the reboot.
unfoldable pub must_reboot : BridgeMessage → BridgeMessage → Bool
must_reboot request response =
    let command = byte_at request.payload 0 in
    ltb 0 request.payload_length
    && (command == Command.reboot || command == Command.set_group)
    && ltb 1 response.payload_length
    && byte_at response.payload 1 == status_ok

module _ {S E : Type 0} where
  unfoldable pub receiver_control_init : Control S E → Control S E
  receiver_control_init ctl = record ctl { cache = sv_command_replay_init }

  -- `struct sv_receiver_status_response`
  unfoldable pub status_bytes : ℕ → ℕ → Rf S E → List ℕ
  status_bytes now spi_crc_errors rf =
      let flags =
        (if rf.primary then 1 else 0)
        + (if rf.pairing then 2 else 0)
        + (if rf.radio_enabled then 4 else 0) in
      (Command.get_status ∷ status_ok ∷ 1 ∷ flags ∷ [])
      ++ le48 rf.receiver_id
      ++ le48 rf.group_id
      ++ le16 rf.tracker_count
      ++ le32 now
      ++ le32 rf.received_packets
      ++ le32 rf.crc_errors
      ++ le32 rf.builder.drops
      ++ le32 spi_crc_errors

  unfoldable pub get_status : ℕ → ℕ → Rf S E → BridgeMessage → BridgeMessage
  unfolding status_bytes
  get_status now spi_crc_errors rf response =
      let status = status_bytes now spi_crc_errors rf in
      record response {
        payload = copy_at response.payload 0 status;
        payload_length = length status;
      }

  -- The loop of `get_tracker_page`: `left` IDs from `id` on, and room for `room` entries.
  unfoldable pub collect_trackers : ℕ → ℕ → ℕ → Rf S E → List (ℕ × ℕ)
  collect_trackers zero id room rf = []
  collect_trackers (suc left) id room rf =
      let address = rf_receiver_tracker id rf in
      let skipped = collect_trackers left (id + 1) room rf in
      let taken = collect_trackers left (id + 1) (room - 1) rf in
      if room == 0 then [] else if address == 0 then skipped else (id, address) ∷ taken

  unfoldable pub get_tracker_page : BridgeMessage → Rf S E → BridgeMessage → BridgeMessage
  unfolding collect_trackers entry_bytes
  get_tracker_page request rf response =
      let page = if leb 2 request.payload_length then byte_at request.payload 1 else 0 in
      let start = page * tracker_page_size % 2 ^ 8 in
      let entries = collect_trackers (rf.tracker_count - start) start tracker_page_size rf in
      let result =
        (Command.get_tracker_page ∷ status_ok ∷ page ∷ length entries ∷ [])
        ++ entry_bytes entries in
      record response {
        payload = copy_at response.payload 0 result;
        payload_length = 4 + 7 * tracker_page_size;
      }

  -- A call's result as the basic response, and the receiver after it.
  abbrev answer : ℕ → BridgeMessage → ℤ × Rf S E → BridgeMessage × Rf S E
  answer command response (result, rf) = (basic_response command result response, rf)

  -- The `switch`; the conditions are in the order of its cases.
  unfoldable pub execute : Nvs S → Esb E → ℕ → ℕ → BridgeMessage → Rf S E → BridgeMessage × Rf S E
  unfolding basic_response get_status get_tracker_page
  execute nvs esb now spi_crc_errors request rf =
      let response = blank_response request in
      let command = byte_at request.payload 0 in
      let size = request.payload_length in
      if size == 0
      then answer 0 response (einval, rf)
      else if command == Command.get_status
      then (get_status now spi_crc_errors rf response, rf)
      else if command == Command.get_tracker_page
      then (get_tracker_page request rf response, rf)
      else if command == Command.set_group
      then (if ltb size set_group_size
          then answer command response (einval, rf)
          else answer command response (
              rf_receiver_set_group nvs esb (byte_at request.payload 1 != 0)
                (read_le48 (drop 2 request.payload)) rf))
      else if command == Command.start_pairing
      then answer command response (rf_receiver_start_pairing esb rf)
      else if command == Command.stop_pairing
      then answer command response (rf_receiver_stop_pairing esb rf)
      else if command == Command.clear_trackers
      then answer command response (rf_receiver_clear_trackers nvs esb rf)
      else if command == Command.set_radio_enabled
      then (if leb 2 size
          then answer command response
              (rf_receiver_set_enabled esb (byte_at request.payload 1 != 0) rf)
          else answer command response (einval, rf))
      else if command == Command.reboot
      then answer command response (pos 0, rf)
      else answer command response (einval, rf)

  unfoldable pub receiver_control_handle :
      Nvs S → Esb E → ℕ → ℕ → BridgeMessage → Control S E → BridgeMessage × Control S E
  unfolding execute must_reboot
  receiver_control_handle nvs esb now spi_crc_errors request ctl =
      elim (sv_command_replay_find ctl.cache request.request_id) [
        | some response ↦ (response, ctl)
        | none ↦
            let (response, rf) = execute nvs esb now spi_crc_errors request ctl.rf in
            (
              response,
              record {
                cache = sv_command_replay_store ctl.cache request.request_id response;
                rf = rf;
                reboot_scheduled = ctl.reboot_scheduled || must_reboot request response;
              },
            )
      ]
