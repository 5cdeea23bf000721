-- ===== src/Tests/Control.antt =====
-- Commands at a concrete receiver, and the theorems on them.
use smol_wi_fi_receiver.Base.{
  List, set, length, ◌≤◌, zero, suc, ◌++◌, ℕ, [], ◌∷◌, false, none, some, take, ◌≡◌, refl, arith,
  replicate,
}
use smol_wi_fi_receiver.Protocol.Bridge.{BridgeMessage, sv_bridge_decode}
use smol_wi_fi_receiver.Protocol.Bridge.RoundTrip.{on_wire}
use smol_wi_fi_receiver.Protocol.Replay.{
  zero_message, sv_command_replay_find, sv_command_replay_init,
}
use smol_wi_fi_receiver.Protocol.Replay.Window.{sv_command_replay_init-IsCache}
use smol_wi_fi_receiver.Receiver.Rf.{Rf}
use smol_wi_fi_receiver.Receiver.Rf.Config.{rf_receiver_tracker}
use smol_wi_fi_receiver.Receiver.Control.Pages.{
  Lists, Full, listing, get_tracker_page-Full, get_tracker_page_twice,
}
use smol_wi_fi_receiver.Receiver.Control.{
  get_tracker_page, blank_response, execute, receiver_control_handle,
}
use smol_wi_fi_receiver.Receiver.Control.Once.{Arrival, handle, handle_all, handle-repeated}
use smol_wi_fi_receiver.Receiver.Control.Response.{IsResponse, execute-IsResponse}
use smol_wi_fi_receiver.Receiver.Spi.{Spi, prepare_tx, process_rx}
use smol_wi_fi_receiver.Receiver.Spi.Response.{
  IsReply, start, elsewhere, framed, booted, prepare_tx-process_rx,
}
use smol_wi_fi_receiver.Receiver.Rf.Config.{rf_receiver_stop_pairing}
use smol_wi_fi_receiver.Receiver.Rf.Radio.{start_radio, stop_radio}
use smol_wi_fi_receiver.Tests.Protocol.{
  golden_command, set_radio, decode_golden, golden_command-IsBytes,
}
use smol_wi_fi_receiver.Tests.Fixtures.{Flash, flash_nvs, counting, one_paired, fresh_control}

abbrev request_of : ℕ → ℕ → BridgeMessage
request_of id command = record zero_message {
  kind = 2;
  request_id = id;
  payload_length = 1;
  payload = command ∷ replicate 63 0;
}

abbrev stop : Arrival
stop = record { now = 5; spi_crc_errors = 0; request = request_of 7 5 }

abbrev status : Arrival
status = record { now = 6; spi_crc_errors = 0; request = request_of 8 1 }

-- CLEAR_TRACKERS, but under the ID of `stop`.
abbrev clear_again : Arrival
clear_again = record { now = 9; spi_crc_errors = 0; request = request_of 7 6 }

nothing_held : sv_command_replay_find sv_command_replay_init 7 ≡ none
unfolding sv_command_replay_find sv_command_replay_init
nothing_held = refl

-- The receiver stops pairing, and says so.
stopped :
    let out = handle flash_nvs counting stop fresh_control in
    (out.1.rf.pairing ≡ false) × (take 2 out.0.payload ≡ 5 ∷ 0 ∷ [])
unfolding receiver_control_handle execute sv_command_replay_find sv_command_replay_init
    rf_receiver_stop_pairing start_radio stop_radio
stopped = (refl, refl)

handle-repeated_example :
    let first = receiver_control_handle flash_nvs counting 5 0 (request_of 7 5) fresh_control in
    let later = handle_all flash_nvs counting (status ∷ []) first.1 in
    receiver_control_handle flash_nvs counting 9 0 (request_of 7 6) later ≡ (first.0, later)
handle-repeated_example =
    handle-repeated flash_nvs counting stop (status ∷ []) clear_again fresh_control
      sv_command_replay_init-IsCache nothing_held (omega arith, tt) (omega arith) refl

abbrev page_request : BridgeMessage
page_request = record (request_of 7 2) { payload_length = 2 }

one-Full : Full one_paired 0 1
unfolding rf_receiver_tracker
one-Full zero from inside used = omega (arith, used)
one-Full (suc j) from inside used = omega (arith, inside)

-- A secondary receiver that has heard the trackers 0 and 8 alone.
abbrev with_gap : Rf Flash ℕ
with_gap = record one_paired {
  tracker_addresses = 1 ∷ replicate 7 0 ++ (2 ∷ replicate 23 0);
  tracker_count = 9;
  primary = false;
  pairing = false;
}

gap_empty : rf_receiver_tracker 3 with_gap ≡ 0
unfolding rf_receiver_tracker
gap_empty = refl

behind_used : rf_receiver_tracker 8 with_gap ≡ 2
unfolding rf_receiver_tracker
behind_used = refl

execute-IsResponse_example :
    IsResponse (request_of 7 6) (execute flash_nvs counting 5 0 (request_of 7 6) one_paired).0
execute-IsResponse_example = execute-IsResponse flash_nvs counting 5 0 (request_of 7 6) one_paired

abbrev pub silent : Spi Flash ℕ
silent = record {
  control = fresh_control;
  pending_response = zero_message;
  response_pending = false;
  tx_sequence = 0;
  crc_errors = 0;
}

abbrev pub waiting : Spi Flash ℕ
waiting = booted flash_nvs counting silent

prepare_tx-process_rx_example :
    let response = (receiver_control_handle flash_nvs counting 3 0 set_radio waiting.control).0 in
    let after =
      elsewhere flash_nvs counting one_paired
        (process_rx flash_nvs counting 3 golden_command waiting) in
    IsReply 0x1234 response
    × (after.tx_sequence ≡ 0)
    × (sv_bridge_decode (prepare_tx 4 after).0 ≡ some (on_wire (framed 4 after response)))
    × ((prepare_tx 4 after).1.response_pending ≡ false)
prepare_tx-process_rx_example =
    prepare_tx-process_rx flash_nvs counting 3 4 golden_command one_paired set_radio (start silent)
      golden_command-IsBytes refl decode_golden refl

-- The first tracker's page.
get_tracker_page-Full_example :
    get_tracker_page page_request one_paired (blank_response page_request)
    ≡ listing page_request 0 ((0, rf_receiver_tracker 0 one_paired) ∷ [])
get_tracker_page-Full_example =
    get_tracker_page-Full one_paired page_request 0 (omega arith) refl (omega arith) one-Full

-- The second page.
abbrev next_request : BridgeMessage
next_request = record page_request { payload = set page_request.payload 1 1 }

get_tracker_page_twice_example :
    ((entries : List (ℕ × ℕ)) × (length entries ≤ 8)
      × (get_tracker_page page_request with_gap (blank_response page_request)
          ≡ listing page_request 0 entries)
      × Lists (8, rf_receiver_tracker 8 with_gap) entries)
    × ((entries : List (ℕ × ℕ)) × (length entries ≤ 8)
        × (get_tracker_page next_request with_gap (blank_response next_request)
            ≡ listing next_request 1 entries)
        × Lists (8, rf_receiver_tracker 8 with_gap) entries)
get_tracker_page_twice_example =
    get_tracker_page_twice with_gap page_request next_request 0 3 (omega arith) refl (omega arith)
      refl (omega arith) (omega arith) (omega arith) gap_empty (omega (arith, behind_used))
