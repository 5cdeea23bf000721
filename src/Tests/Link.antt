-- ===== src/Tests/Link.antt =====
-- The ESP's side of the SPI link at concrete transfers.
use smol_wi_fi_receiver.Base.{
  ℕ, ◌≤◌, List, [], ◌∷◌, true, false, Option, some, ◌≡◌, ◌⊎◌, refl, arith, replicate, length,
  get_or, All,
}
use smol_wi_fi_receiver.Base.Bytes.{read_le16, read_le32}
use smol_wi_fi_receiver.Protocol.Crc32.{sv_crc32_ieee}
use smol_wi_fi_receiver.Protocol.Bridge.{sv_bridge_decode}
use smol_wi_fi_receiver.Esp.BridgeSpi.{EspErr, esp_ok, begin_command, finish_command}
use smol_wi_fi_receiver.Esp.BridgeSpi.Exchange.{Exchange, IsExchange, run, initial, start}
use smol_wi_fi_receiver.Esp.BridgeSpi.Answer.{first_reply, outcome, finish_command-run}
use smol_wi_fi_receiver.Esp.BridgeSpi.Attempts.{
  carries, send_times, Spaced, IsIdleOrRequest, run-attempts,
}
use smol_wi_fi_receiver.Tests.Protocol.{golden_command, golden_command-IsBytes}

-- A transfer that fails, and one that brings a frame which is no response.
abbrev failed : Exchange
failed = record { now = 10; transmitted = false; rx_buffer = replicate 80 0 }

abbrev other : Exchange
other = record { now = 70; transmitted = true; rx_buffer = golden_command }

-- A response under the request ID 1.
abbrev reply_frame : List ℕ
reply_frame =
    83 ∷ 86 ∷ 66 ∷ 49 ∷ 1 ∷ 3 ∷ 0 ∷ 2 ∷ 5 ∷ 0 ∷ 1 ∷ 0 ∷ 1 ∷ 0 ∷ 0 ∷ 0 ∷ 0 ∷ 0 ∷ 0 ∷ 0 ∷ 0 ∷ 0 ∷ 0
    ∷ 0 ∷ 0 ∷ 0 ∷ 0 ∷ 0 ∷ 0 ∷ 0 ∷ 0 ∷ 0 ∷ 0 ∷ 0 ∷ 0 ∷ 0 ∷ 0 ∷ 0 ∷ 0 ∷ 0 ∷ 0 ∷ 0 ∷ 0 ∷ 0 ∷ 0 ∷ 0 ∷ 0
    ∷ 0 ∷ 0 ∷ 0 ∷ 0 ∷ 0 ∷ 0 ∷ 0 ∷ 0 ∷ 0 ∷ 0 ∷ 0 ∷ 0 ∷ 0 ∷ 0 ∷ 0 ∷ 0 ∷ 0 ∷ 0 ∷ 0 ∷ 0 ∷ 0 ∷ 0 ∷ 0 ∷ 0
    ∷ 0 ∷ 0 ∷ 0 ∷ 0 ∷ 0 ∷ 166 ∷ 241 ∷ 165 ∷ 90 ∷ []

abbrev answered : Exchange
answered = record { now = 70; transmitted = true; rx_buffer = reply_frame }

pub accepted : (begin_command (1 ∷ []) initial).0 ≡ esp_ok
unfolding begin_command
accepted = refl

-- The response's bytes reach the caller.
brought : outcome 64 (first_reply 1 (failed ∷ other ∷ answered ∷ [])) ≡ (esp_ok, some (1 ∷ 0 ∷ []))
unfolding sv_bridge_decode sv_crc32_ieee read_le16 read_le32
brought = refl

frames : All IsExchange (failed ∷ other ∷ answered ∷ [])
frames = ((omega arith, refl), ((golden_command-IsBytes, refl), ((omega arith, refl), tt)))

finish_command-run_example :
    let (code, response, _) =
      finish_command 64
        (run (failed ∷ other ∷ answered ∷ []) (begin_command (1 ∷ []) initial).1).1 in
    ◌≡◌ {A = EspErr × Option (List ℕ)}
      (code, response)
      (outcome 64 (first_reply 1 (failed ∷ other ∷ answered ∷ [])))
finish_command-run_example =
    finish_command-run 64 (1 ∷ []) (failed ∷ other ∷ answered ∷ []) start frames accepted

run-attempts_example :
    let frames = (run (failed ∷ other ∷ []) (begin_command (1 ∷ []) initial).1).0 in
    All (IsIdleOrRequest 1 (1 ∷ [])) frames
    × (length (send_times (failed ∷ other ∷ []) frames) ≤ 3)
    × Spaced (send_times (failed ∷ other ∷ []) frames)
    × ((failed ∷ other ∷ [] ≡ []) ⊎ (carries (get_or frames 0 []) ≡ true))
run-attempts_example = run-attempts (1 ∷ []) (failed ∷ other ∷ []) start (omega arith) accepted
