-- ===== src/Wires/Damage.antt =====
-- What the receiver does with a frame, and what its own frames hold.
use smol_wi_fi_receiver.Base.{
  ℕ, ◌+◌, ◌^◌, ◌≤◌, List, false, Option, none, some, ◌≡◌, inl, inr, ap, ◌∙◌, arith, length,
  Option-cases, ◌&&◌, ◌==◌, if◌then◌else◌, ◌%◌, subst,
}
use smol_wi_fi_receiver.Protocol.Bridge.Kind
use smol_wi_fi_receiver.Protocol.Bridge.{BridgeMessage, sv_bridge_decode, sv_bridge_encode}
use smol_wi_fi_receiver.Protocol.Bridge.RoundTrip.{IsMessage, sv_bridge_decode-encode}
use smol_wi_fi_receiver.Receiver.Storage.{Nvs}
use smol_wi_fi_receiver.Receiver.Rf.Radio.{Esb}
use smol_wi_fi_receiver.Receiver.Report.Next.{report_builder_next}
use smol_wi_fi_receiver.Receiver.Report.Size.{IsReportSize, report_builder_next-IsReportSize}
use smol_wi_fi_receiver.Receiver.Spi.{Spi, choose_message, prepare_tx, process_rx}
use smol_wi_fi_receiver.Receiver.Spi.Response.{IsSpi}
use smol_wi_fi_receiver.Wires.{Passage, whole, damaged}

-- The response to a request ID that a frame holds, if it does.
abbrev pub chosen : ℕ → Option BridgeMessage → Option BridgeMessage
chosen id decoded = elim decoded [
  | none ↦ none
  | some m ↦ if m.kind == Kind.command_response && m.request_id == id then some m else none
]

abbrev pub reply_of : ℕ → List ℕ → Option BridgeMessage
reply_of id frame = chosen id (sv_bridge_decode frame)

-- Damage is detected: other bytes arrive only if they do not decode.
abbrev pub IsDetected : Passage → Type 0
IsDetected whole = Unit {0}
IsDetected (damaged bytes) = sv_bridge_decode bytes ≡ none

-- A frame with a message of another kind is no response.
reply_of-encode :
    (id : ℕ) (m : BridgeMessage)
    → IsMessage m
    → m.kind ≤ 2
    → reply_of id (sv_bridge_encode m) ≡ none
reply_of-encode id m v other = ap (chosen id) (sv_bridge_decode-encode m v) ∙ ground arith

module _ {S E : Type 0} where
  -- After a frame is prepared, no response waits.
  pub prepare_tx_empties :
      (now : ℕ) (spi : Spi S E) → (prepare_tx now spi).1.response_pending ≡ false
  unfolding prepare_tx
  prepare_tx_empties now spi = ground arith

  -- It leaves the commands' side alone but for the reports.
  pub prepare_tx-cache :
      (now : ℕ) (spi : Spi S E) → (prepare_tx now spi).1.control.cache ≡ spi.control.cache
  unfolding prepare_tx
  prepare_tx-cache now spi = ground arith

  choose_message-IsMessage :
      (now : ℕ) (spi : Spi S E)
      → IsSpi spi
      → spi.response_pending ≡ false
      → IsMessage (choose_message now spi).0 × ((choose_message now spi).0.kind ≤ 1)
  unfolding choose_message
  choose_message-IsMessage now spi v quiet =
      elim (Option-cases (report_builder_next now spi.control.rf.builder).0) [
        | inl nothing ↦ rw (nothing, choose_message) (rw quiet (omega (arith, v.sequence_in)))
        | inr (report, some_report) ↦
            let size : length report ≡ 64 =
              subst IsReportSize some_report
                (report_builder_next-IsReportSize now spi.control.rf.builder) in
            rw (some_report, choose_message) (rw quiet (omega (arith, v.sequence_in, size)))
      ]

  -- With no response waiting, it is a report or an idle message.
  pub prepare_tx_quiet :
      (id now : ℕ) (spi : Spi S E)
      → IsSpi spi
      → spi.response_pending ≡ false
      → reply_of id (prepare_tx now spi).0 ≡ none
  unfolding prepare_tx
  prepare_tx_quiet id now spi v quiet =
      let (shape, other) = choose_message-IsMessage now spi v quiet in
      reply_of-encode id _
        (record {
          kind_in = shape.kind_in;
          sequence_in = shape.sequence_in;
          request_id_in = shape.request_id_in;
          payload_size = shape.payload_size;
        })
        (omega (arith, other))

  module _ (nvs : Nvs S) (esb : Esb E) where
    -- A frame that does not decode is counted.
    pub process_rx_damaged :
        (now : ℕ) (rx : List ℕ) (spi : Spi S E)
        → sv_bridge_decode rx ≡ none
        → process_rx nvs esb now rx spi ≡ record spi { crc_errors = (spi.crc_errors + 1) % 2 ^ 32 }
    unfolding process_rx
    process_rx_damaged now rx spi bad = rw (bad, process_rx)

    -- One that is no command changes nothing.
    pub process_rx_other :
        (now : ℕ) (rx : List ℕ) (spi : Spi S E) {m : BridgeMessage}
        → sv_bridge_decode rx ≡ some m
        → (m.kind == Kind.command) ≡ false
        → process_rx nvs esb now rx spi ≡ spi
    unfolding process_rx
    process_rx_other now rx spi ok other = rw (ok, process_rx) (rw other)
