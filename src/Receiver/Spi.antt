-- ===== src/Receiver/Spi.antt =====
-- firmware/nrf54l15/src/spi_bridge.c: what the SPI thread sends, and what it does with what it
-- receives. Arming the peripheral and the READY line are input and output.
pub mod Response
use smol_wi_fi_receiver.Base.{
  ℕ, ◌+◌, ◌%◌, ◌^◌, bit_or, List, Bool, true, false, Option, none, some, ◌||◌, ◌==◌, if◌then◌else◌,
}
use smol_wi_fi_receiver.Protocol.Bridge.Kind
use smol_wi_fi_receiver.Protocol.Bridge.{
  BridgeMessage, flag_more_pending, bridge_payload_size, sv_bridge_encode, sv_bridge_decode,
}
use smol_wi_fi_receiver.Protocol.Replay.{zero_message}
use smol_wi_fi_receiver.Receiver.Report.{Builder}
use smol_wi_fi_receiver.Receiver.Report.Next.{report_builder_next, report_builder_pending}
use smol_wi_fi_receiver.Receiver.Storage.{Nvs}
use smol_wi_fi_receiver.Receiver.Rf.{Rf}
use smol_wi_fi_receiver.Receiver.Rf.Radio.{Esb}
use smol_wi_fi_receiver.Receiver.Control.{Control, receiver_control_handle}

-- The file-scope variables, and the state of receiver_control.c and of what it calls.
pub record Spi (S E : Type 0) : Type 0 where
  pub control : Control S E
  pub pending_response : BridgeMessage
  pub response_pending : Bool
  pub tx_sequence : ℕ
  pub crc_errors : ℕ

module _ {S E : Type 0} where
  -- The message without its last flag, and what it leaves behind.
  unfoldable pub choose_message : ℕ → Spi S E → BridgeMessage × Spi S E
  choose_message now spi =
      let rf = spi.control.rf in
      let numbered = record spi { tx_sequence = (spi.tx_sequence + 1) % 2 ^ 16 } in
      if spi.response_pending
      then (
        record spi.pending_response { sequence = spi.tx_sequence },
        record numbered { response_pending = false },
      )
      else let (taken, builder) = report_builder_next now rf.builder in
        elim taken [
          | none ↦ (record zero_message { sequence = spi.tx_sequence }, numbered)
          | some report ↦ (
            record zero_message {
              sequence = spi.tx_sequence;
              payload = report;
              kind = Kind.receiver_report;
              payload_length = bridge_payload_size;
            },
            record numbered {
              control = record spi.control { rf = record rf { builder = builder } };
            },
          )
        ]

  -- `tx_buffer`, and the state after.
  unfoldable pub prepare_tx : ℕ → Spi S E → List ℕ × Spi S E
  unfolding choose_message
  prepare_tx now spi =
      let (message, after) = choose_message now spi in
      let more = report_builder_pending now after.control.rf.builder || after.response_pending in
      (
        sv_bridge_encode (record message {
          flags = if more then bit_or message.flags flag_more_pending % 2 ^ 8 else message.flags;
        }),
        after,
      )

  unfoldable pub process_rx : Nvs S → Esb E → ℕ → List ℕ → Spi S E → Spi S E
  process_rx nvs esb now rx_buffer spi = elim (sv_bridge_decode rx_buffer) [
    | none ↦ record spi { crc_errors = (spi.crc_errors + 1) % 2 ^ 32 }
    | some request ↦
        let (response, control) =
          receiver_control_handle nvs esb now spi.crc_errors request spi.control in
        if request.kind == Kind.command
        then record spi { control = control; pending_response = response; response_pending = true }
        else spi
  ]
