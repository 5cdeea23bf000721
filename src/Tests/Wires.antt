-- ===== src/Tests/Wires.antt =====
-- Both sides at concrete transfers, some of them damaged.
use smol_wi_fi_receiver.Base.{ℕ, List, [], ◌∷◌, true, replicate}
use smol_wi_fi_receiver.Esp.BridgeSpi.Exchange.{initial}
use smol_wi_fi_receiver.Esp.BridgeSpi.Exchange
use smol_wi_fi_receiver.Wires.{Both, Transfer, whole, damaged}
use smol_wi_fi_receiver.Tests.Fixtures.{Flash}
use smol_wi_fi_receiver.Tests.Control.{waiting}

abbrev noise : List ℕ
noise = replicate 80 0

-- Both sides after start-up, with a buffer of zeros.
abbrev idle : Both Flash ℕ
idle = record { link = initial; spi = waiting; tx_buffer = noise }

-- A transfer that nothing survives, an attempt that arrives, and the transfer behind it.
abbrev lost : Transfer Flash ℕ
lost = record {
  now = 10;
  transmitted = true;
  up = damaged noise;
  down = damaged noise;
  processed_at = 10;
  prepared_at = 10;
  radio_armed = λ rf. rf;
  radio = λ rf. rf;
  arm_failures = record { radio = λ rf. rf; prepared_at = 15 } ∷ [];
}

abbrev attempt : Transfer Flash ℕ
attempt = record lost { now = 70; up = whole; arm_failures = [] }

abbrev answer : Transfer Flash ℕ
answer = record lost { now = 71; up = whole; down = whole }
