-- ===== src/Esp/ReceiverStatus.antt =====
-- `struct sv_receiver_status_response` of protocol/receiver_control_protocol.h as the ESP reads it,
-- in `query_receiver` of firmware/esp32c5/main/status_metrics.c and in `status_handler` of
-- firmware/esp32c5/main/web_portal.c.
pub mod Shown
use smol_wi_fi_receiver.Base.{
  ℕ, ◌+◌, bit_and, List, [], ◌∷◌, Bool, true, false, Option, none, some, leb, ◌&&◌, ◌==◌, ◌!=◌,
  if◌then◌else◌, length, take, drop, replicate,
}
use smol_wi_fi_receiver.Base.Bytes.{byte_at, read_le16, read_le32}
use smol_wi_fi_receiver.Protocol.Id48.{sv_id48_format, id48_text_size}
use smol_wi_fi_receiver.Receiver.Control.Command
use smol_wi_fi_receiver.Receiver.Control.{status_ok}
use smol_wi_fi_receiver.Esp.BridgeSpi.{
  EspErr, esp_ok, esp_fail, esp_err_timeout, esp_err_invalid_arg, esp_err_invalid_size,
}

abbrev pub status_response_size : ℕ
status_response_size = 38

-- `SV_RECEIVER_CONTROL_VERSION`
abbrev pub receiver_control_version : ℕ
receiver_control_version = 1

pub record StatusResponse : Type 0 where
  pub command : ℕ
  pub status : ℕ
  pub protocol_version : ℕ
  pub flags : ℕ
  pub receiver_id : List ℕ
  pub group_id : List ℕ
  pub stored_trackers : ℕ
  pub uptime_ms : ℕ
  pub rf_received : ℕ
  pub rf_crc_errors : ℕ
  pub report_queue_drops : ℕ
  pub spi_crc_errors : ℕ

-- `memcpy` into the packed structure.
unfoldable pub read_status : List ℕ → StatusResponse
read_status bytes = record {
  command = byte_at bytes 0;
  status = byte_at bytes 1;
  protocol_version = byte_at bytes 2;
  flags = byte_at bytes 3;
  receiver_id = take 6 (drop 4 bytes);
  group_id = take 6 (drop 10 bytes);
  stored_trackers = read_le16 (drop 16 bytes);
  uptime_ms = read_le32 (drop 18 bytes);
  rf_received = read_le32 (drop 22 bytes);
  rf_crc_errors = read_le32 (drop 26 bytes);
  report_queue_drops = read_le32 (drop 30 bytes);
  spi_crc_errors = read_le32 (drop 34 bytes);
}

abbrev pub is_esp_ok : EspErr → Bool
is_esp_ok esp_ok = true
is_esp_ok esp_fail = false
is_esp_ok esp_err_timeout = false
is_esp_ok esp_err_invalid_arg = false
is_esp_ok esp_err_invalid_size = false

-- What a response of `bridge_spi_command` is to the callers: its bytes, if the call succeeded.
abbrev pub answered_with : EspErr × Option (List ℕ) → Option (List ℕ)
answered_with (code, response) = if is_esp_ok code then response else none

-- The status, if the response is long enough.
unfoldable pub received_status : EspErr × Option (List ℕ) → Option StatusResponse
received_status answer = elim (answered_with answer) [
  | none ↦ none
  | some bytes ↦ if leb status_response_size (length bytes) then some (read_status bytes) else none
]

-- `query_receiver`, by what `bridge_spi_command` returned.
unfoldable pub query_receiver : EspErr × Option (List ℕ) → Option StatusResponse
unfolding received_status
query_receiver answer = elim (received_status answer) [
  | none ↦ none
  | some status ↦
      if status.command == Command.get_status
        && status.status == status_ok
        && status.protocol_version == receiver_control_version
      then some status
      else none
]

-- The loop of `status_task` waits for these milliseconds after a query.
abbrev pub status_delay_ms : Option StatusResponse → ℕ
status_delay_ms none = 2000
status_delay_ms (some status) = 30000

-- The text of an address in the JSON, without the terminator.
abbrev pub id_text : List ℕ → List ℕ
id_text little_endian = take 12 (sv_id48_format (replicate id48_text_size 0) little_endian)

-- The object "receiver" of `status_handler`.
pub record ReceiverObject : Type 0 where
  pub receiver_id : List ℕ
  pub group_id : List ℕ
  pub primary : Bool
  pub pairing : Bool
  pub radio_enabled : Bool
  pub trackers : ℕ
  pub rf_received : ℕ
  pub rf_crc_errors : ℕ
  pub queue_drops : ℕ
  pub spi_crc_errors : ℕ
  pub uptime_ms : ℕ

unfoldable pub receiver_object : StatusResponse → ReceiverObject
receiver_object status = record {
  receiver_id = id_text status.receiver_id;
  group_id = id_text status.group_id;
  primary = bit_and status.flags 1 != 0;
  pairing = bit_and status.flags 2 != 0;
  radio_enabled = bit_and status.flags 4 != 0;
  trackers = status.stored_trackers;
  rf_received = status.rf_received;
  rf_crc_errors = status.rf_crc_errors;
  queue_drops = status.report_queue_drops;
  spi_crc_errors = status.spi_crc_errors;
  uptime_ms = status.uptime_ms;
}

-- The part of `status_handler` that is about the receiver: none without an answer that is long
-- enough.
unfoldable pub status_receiver : EspErr × Option (List ℕ) → Option ReceiverObject
unfolding received_status receiver_object
status_receiver answer = elim (received_status answer) [
  | none ↦ none
  | some status ↦ some (receiver_object status)
]
