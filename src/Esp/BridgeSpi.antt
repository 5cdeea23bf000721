-- ===== src/Esp/BridgeSpi.antt =====
-- firmware/esp32c5/main/bridge_spi.c: the one command in flight, the transfers and the queue of
-- reports. The tasks share the state under a mutex, so each part here is atomic. The SPI driver's
-- result and the received bytes are arguments. A tick is a millisecond (`CONFIG_FREERTOS_HZ`).
pub mod Exchange
pub mod Frame
pub mod Attempts
pub mod Answer
pub mod Poll
use smol_wi_fi_receiver.Base.{
  ℕ, ◌+◌, ◌-◌, ◌%◌, ◌^◌, bit_and, List, [], ◌∷◌, ◌++◌, Bool, true, false, Option, none, some, ltb,
  leb, ◌&&◌, ◌||◌, ◌==◌, ◌!=◌, if◌then◌else◌, length, take,
}
use smol_wi_fi_receiver.Base.Bytes.{copy_at}
use smol_wi_fi_receiver.Protocol.Bridge.Kind
use smol_wi_fi_receiver.Protocol.Bridge.{
  BridgeMessage, bridge_payload_size, flag_error, flag_more_pending, sv_bridge_encode,
  sv_bridge_decode,
}
use smol_wi_fi_receiver.Protocol.Gateway.{smol_report_size}
use smol_wi_fi_receiver.Protocol.Replay.{zero_message}

abbrev pub command_retry_ticks : ℕ
command_retry_ticks = 50

abbrev pub command_max_attempts : ℕ
command_max_attempts = 3

abbrev pub report_queue_length : ℕ
report_queue_length = 128

-- The results of `esp_err_t` that the file returns.
pub data EspErr : Type 0 where
  esp_ok esp_fail esp_err_timeout esp_err_invalid_arg esp_err_invalid_size : EspErr

-- `enum bridge_transfer_result`
pub data TransferResult : Type 0 where
  transfer_error complete more_pending : TransferResult

-- The anonymous structure `command`.
pub record PendingCommand : Type 0 where
  pub active : Bool
  pub request_id : ℕ
  pub payload : List ℕ
  pub payload_length : ℕ
  pub response : List ℕ
  pub response_length : ℕ
  pub attempts : ℕ
  pub next_attempt : ℕ
  pub result : EspErr

-- `struct bridge_stats`
pub record BridgeStats : Type 0 where
  pub transfers : ℕ
  pub transfer_errors : ℕ
  pub reports : ℕ
  pub decode_errors : ℕ
  pub queue_drops : ℕ
  pub command_timeouts : ℕ

-- The file-scope variables; `command_done` is the binary semaphore.
pub record Link : Type 0 where
  pub command : PendingCommand
  pub command_done : Bool
  pub report_queue : List (List ℕ)
  pub tx_sequence : ℕ
  pub next_request_id : ℕ
  pub stats : BridgeStats

abbrev pub count : ℕ → ℕ
count n = (n + 1) % 2 ^ 32

-- `(int32_t)(now - next) >= 0`
abbrev pub tick_reached : ℕ → ℕ → Bool
tick_reached now next = ltb ((now + 2 ^ 32 - next) % 2 ^ 32) (2 ^ 31)

-- Whether `prepare_command` sends.
unfoldable pub must_send : ℕ → PendingCommand → Bool
must_send now command =
    command.active
    && ltb command.attempts command_max_attempts
    && (command.attempts == 0 || tick_reached now command.next_attempt)

unfoldable pub prepare_command : ℕ → BridgeMessage → PendingCommand → BridgeMessage × PendingCommand
unfolding must_send
prepare_command now message command =
    if must_send now command
    then (
      record message {
        kind = Kind.command;
        request_id = command.request_id;
        payload_length = command.payload_length;
        payload = copy_at message.payload 0 (take command.payload_length command.payload);
      },
      record command {
        attempts = command.attempts + 1;
        next_attempt = (now + command_retry_ticks) % 2 ^ 32;
      },
    )
    else (message, command)

unfoldable pub accept_response : BridgeMessage → Link → Link
accept_response message link =
    let command = link.command in
    if command.active && message.request_id == command.request_id
    then record link {
      command = record command {
        response_length = message.payload_length;
        response = copy_at command.response 0 (take message.payload_length message.payload);
        result = if bit_and message.flags flag_error != 0 then esp_fail else esp_ok;
        active = false;
      };
      command_done = true;
    }
    else link

-- `transact` up to the transfer: `tx_buffer`, and the state.
unfoldable pub outgoing : ℕ → Link → List ℕ × Link
unfolding prepare_command
outgoing now link =
    let blank = record zero_message { sequence = link.tx_sequence } in
    let (message, command) = prepare_command now blank link.command in
    (
      sv_bridge_encode message,
      record link { command = command; tx_sequence = (link.tx_sequence + 1) % 2 ^ 16 },
    )

-- What is done with a message that was decoded.
unfoldable pub dispatch : BridgeMessage → Link → Link
unfolding accept_response
dispatch incoming link =
    let stats = link.stats in
    if incoming.kind == Kind.receiver_report && incoming.payload_length == smol_report_size
    then (if leb report_queue_length (length link.report_queue)
        then record link { stats = record stats { queue_drops = count stats.queue_drops } }
        else record link {
          report_queue = link.report_queue ++ (incoming.payload ∷ []);
          stats = record stats { reports = count stats.reports };
        })
    else if incoming.kind == Kind.command_response
    then accept_response incoming link
    else link

-- `transact` from the transfer on: whether the driver succeeded, and `rx_buffer`.
unfoldable pub received : Bool → List ℕ → Link → TransferResult × Link
unfolding dispatch
received transmitted rx_buffer link =
    let stats = link.stats in
    let done = record link { stats = record stats { transfers = count stats.transfers } } in
    if transmitted
    then elim (sv_bridge_decode rx_buffer) [
      | none ↦ (
        complete,
        record done {
          stats = record done.stats { decode_errors = count done.stats.decode_errors };
        },
      )
      | some incoming ↦ (
        (if bit_and incoming.flags flag_more_pending != 0 then more_pending else complete),
        dispatch incoming done,
      )
    ]
    else (
      transfer_error,
      record link { stats = record stats { transfer_errors = count stats.transfer_errors } },
    )

-- `bridge_spi_receive_report` without waiting.
unfoldable pub bridge_spi_receive_report : Link → Option (List ℕ) × Link
bridge_spi_receive_report link = elim link.report_queue [
  | [] ↦ (none, link)
  | report ∷ rest ↦ (some report, record link { report_queue = rest })
]

-- `bridge_spi_command` up to the wait for the response, once it has the command mutex; the pointers
-- are not null. The request is copied over the start of the payload.
unfoldable pub begin_command : List ℕ → Link → EspErr × Link
begin_command request link =
    let command = link.command in
    if length request == 0 || ltb bridge_payload_size (length request)
    then (esp_err_invalid_arg, link)
    else (
      esp_ok,
      record link {
        command_done = false;
        next_request_id = (link.next_request_id + 1) % 2 ^ 16;
        command = record command {
          active = true;
          request_id = link.next_request_id;
          payload_length = length request;
          payload = copy_at command.payload 0 request;
          response_length = 0;
          attempts = 0;
          result = esp_err_timeout;
        };
      },
    )

-- `bridge_spi_command` from the wait on: the semaphore is taken, or the time is over. The response
-- is none where the caller's buffer, of `capacity` bytes, is left as it was.
unfoldable pub finish_command : ℕ → Link → EspErr × Option (List ℕ) × Link
finish_command capacity link =
    let command = link.command in
    let stats = link.stats in
    if link.command_done
    then (if ltb capacity command.response_length
        then (esp_err_invalid_size, none, record link { command_done = false })
        else (
          command.result,
          some (take command.response_length command.response),
          record link { command_done = false },
        ))
    else (
      esp_err_timeout,
      none,
      record link {
        command = record command { active = false };
        stats = record stats { command_timeouts = count stats.command_timeouts };
      },
    )
