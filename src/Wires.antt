-- ===== src/Wires.antt =====
-- The two firmwares joined by the SPI wires: a transfer carries a frame each way at once, and either
-- may be damaged. firmware/esp32c5/main/bridge_spi.c sends what `outgoing` makes;
-- firmware/nrf54l15/src/spi_bridge.c has its frame ready before the transfer, processes what it
-- received after it, and makes the next frame ready.
pub mod Damage
pub mod Stage
pub mod Processed
pub mod Step
pub mod Course
pub mod Once
pub mod Attempt
pub mod Delivery
use smol_wi_fi_receiver.Base.{ℕ, List, [], ◌∷◌, Bool}
use smol_wi_fi_receiver.Receiver.Storage.{Nvs}
use smol_wi_fi_receiver.Receiver.Rf.{Rf}
use smol_wi_fi_receiver.Receiver.Rf.Radio.{Esb}
use smol_wi_fi_receiver.Receiver.Spi.{Spi, prepare_tx, process_rx}
use smol_wi_fi_receiver.Esp.BridgeSpi.{Link}
use smol_wi_fi_receiver.Esp.BridgeSpi.Exchange.{Exchange, exchange}

-- What becomes of a frame on its way: it arrives, or other bytes do.
pub data Passage : Type 0 where
  whole : Passage
  damaged : List ℕ → Passage

abbrev pub arrives : Passage → List ℕ → List ℕ
arrives whole frame = frame
arrives (damaged bytes) frame = bytes

-- Both states, and the receiver's `tx_buffer`.
pub record Both (S E : Type 0) : Type 0 where
  pub link : Link
  pub spi : Spi S E
  pub tx_buffer : List ℕ

-- The peripheral could not be armed with the frame that was prepared: what the radio does to the
-- receiver until the next one is prepared, and the uptime then.
pub record ArmFailure (S E : Type 0) : Type 0 where
  pub radio : Rf S E → Rf S E
  pub prepared_at : ℕ

-- What a transfer meets: the ESP's ticks and its driver's result, the two passages, the receiver's
-- uptimes when it processes and prepares, what the radio does to the receiver while it waits for the
-- transfer, and between processing and preparing, and how often the peripheral cannot be armed for
-- the next transfer.
pub record Transfer (S E : Type 0) : Type 0 where
  pub now : ℕ
  pub transmitted : Bool
  pub up : Passage
  pub down : Passage
  pub processed_at : ℕ
  pub prepared_at : ℕ
  pub radio_armed : Rf S E → Rf S E
  pub radio : Rf S E → Rf S E
  pub arm_failures : List (ArmFailure S E)

module _ {S E : Type 0} where
  -- The ESP's view of a transfer.
  abbrev pub seen : Transfer S E → Both S E → Exchange
  seen t b = record {
    now = t.now;
    transmitted = t.transmitted;
    rx_buffer = arrives t.down b.tx_buffer;
  }

  abbrev pub frame_up : Transfer S E → Both S E → List ℕ
  frame_up t b = arrives t.up (exchange (seen t b) b.link).0

  -- The radio's work between two steps of the thread.
  abbrev pub meanwhile : (Rf S E → Rf S E) → Spi S E → Spi S E
  meanwhile radio spi = record spi { control = record spi.control { rf = radio spi.control.rf } }

  -- The rounds of `spi_thread` that arm nothing: each prepares another frame.
  unfoldable pub rearm : List (ArmFailure S E) → List ℕ × Spi S E → List ℕ × Spi S E
  rearm [] prepared = prepared
  rearm (f ∷ rest) (tx_buffer, spi) = rearm rest (prepare_tx f.prepared_at (meanwhile f.radio spi))

  module _ (nvs : Nvs S) (esb : Esb E) where
    -- The peripheral is armed: the round of `spi_thread` from there on, and the following ones up to
    -- where it is armed again.
    unfoldable pub transfer : Transfer S E → Both S E → Both S E
    unfolding rearm
    transfer t b =
        let armed = meanwhile t.radio_armed b.spi in
        let heard = process_rx nvs esb t.processed_at (frame_up t b) armed in
        let (tx_buffer, spi) =
          rearm t.arm_failures (prepare_tx t.prepared_at (meanwhile t.radio heard)) in
        record { link = (exchange (seen t b) b.link).1; spi = spi; tx_buffer = tx_buffer }

    unfoldable pub transfers : List (Transfer S E) → Both S E → Both S E
    transfers [] b = b
    transfers (t ∷ rest) b = transfers rest (transfer t b)
