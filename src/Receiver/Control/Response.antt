-- ===== src/Receiver/Control/Response.antt =====
-- What every response of `execute` looks like.
use smol_wi_fi_receiver.Base.{
  Bool, List, ◌!=◌, drop, ℕ, ◌≤◌, ◌≡◌, arith, ◌==◌, if◌then◌else◌, length, if_holds, replicate, ◌*◌,
  ◌-◌, ◌^◌, ◌%◌, leb, ltb,
}
use smol_wi_fi_receiver.Base.Bytes.{byte_at, length-copy_at}
use smol_wi_fi_receiver.Base.Int.{ℤ, pos}
use smol_wi_fi_receiver.Protocol.Bridge.{BridgeMessage}
use smol_wi_fi_receiver.Receiver.Errno.{einval}
use smol_wi_fi_receiver.Receiver.Storage.{Nvs}
use smol_wi_fi_receiver.Receiver.Rf.{Rf}
use smol_wi_fi_receiver.Receiver.Rf.Radio.{Esb}
use smol_wi_fi_receiver.Receiver.Control.Command
use smol_wi_fi_receiver.Base.Bytes.{read_le48}
use smol_wi_fi_receiver.Receiver.Rf.Config.{
  rf_receiver_set_group, rf_receiver_start_pairing, rf_receiver_stop_pairing,
  rf_receiver_clear_trackers, rf_receiver_set_enabled,
}
use smol_wi_fi_receiver.Receiver.Control.{
  blank_response, basic_response, get_status, get_tracker_page, execute, answer, entry_bytes,
  collect_trackers, tracker_page_size, set_group_size,
}

-- A response to a request: its kind and ID, two to 64 bytes of a 64-byte array, and the error flag
-- exactly with a status byte other than 0.
pub record IsResponse (request response : BridgeMessage) : Type 0 where
  pub kind_is : response.kind ≡ 3
  pub id_is : response.request_id ≡ request.request_id
  pub sequence_is : response.sequence ≡ 0
  pub array_size : length response.payload ≡ 64
  pub long_enough : 2 ≤ response.payload_length
  pub short_enough : response.payload_length ≤ 64
  pub flags_are : response.flags ≡ (if byte_at response.payload 1 == 0 then 0 else 2)

basic_response-IsResponse :
    (command : ℕ) (result : ℤ) (request : BridgeMessage)
    → IsResponse request (basic_response command result (blank_response request))
unfolding basic_response
basic_response-IsResponse command result request = ground arith

module _ {S E : Type 0} where
  get_status-IsResponse :
      (now errors : ℕ) (rf : Rf S E) (request : BridgeMessage)
      → IsResponse request (get_status now errors rf (blank_response request))
  unfolding get_status
  get_status-IsResponse now errors rf request = omega arith

  -- The entries that `get_tracker_page` writes behind four bytes.
  abbrev entries : Rf S E → BridgeMessage → List ℕ
  entries rf request =
      let page = if leb 2 request.payload_length then byte_at request.payload 1 else 0 in
      let start = page * tracker_page_size % 2 ^ 8 in
      entry_bytes (collect_trackers (rf.tracker_count - start) start tracker_page_size rf)

  get_tracker_page-IsResponse :
      (rf : Rf S E) (request : BridgeMessage)
      → IsResponse request (get_tracker_page request rf (blank_response request))
  unfolding get_tracker_page
  get_tracker_page-IsResponse rf request =
      omega (arith, length-copy_at (replicate 60 0) 0 (entries rf request))

  record Answers (request : BridgeMessage) (out : BridgeMessage × Rf S E) : Type 0 where
    answered : IsResponse request out.0

  execute-Answers :
      (nvs : Nvs S) (esb : Esb E) (now errors : ℕ) (request : BridgeMessage) (rf : Rf S E)
      → Answers request (execute nvs esb now errors request rf)
  unfolding execute
  execute-Answers nvs esb now errors request rf = split (size == 0) _ _ (basic 0 (einval, rf)) (
      split (command == Command.get_status) _ _
        (record { answered = get_status-IsResponse now errors rf request })
        (split (command == Command.get_tracker_page) _ _
          (record { answered = get_tracker_page-IsResponse rf request })
          (split (command == Command.set_group) _ _
            (split (ltb size set_group_size) _ _ (basic command (einval, rf)) (
              basic command (
                rf_receiver_set_group nvs esb (operand != 0) (read_le48 (drop 2 request.payload))
                  rf)))
            (split (command == Command.start_pairing) _ _
              (basic command (rf_receiver_start_pairing esb rf))
              (split (command == Command.stop_pairing) _ _
                (basic command (rf_receiver_stop_pairing esb rf))
                (split (command == Command.clear_trackers) _ _
                  (basic command (rf_receiver_clear_trackers nvs esb rf))
                  (split (command == Command.set_radio_enabled) _ _
                    (split (leb 2 size) _ _
                      (basic command (rf_receiver_set_enabled esb (operand != 0) rf))
                      (basic command (einval, rf)))
                    (split (command == Command.reboot) _ _ (basic command (pos 0, rf))
                      (basic command (einval, rf))))))))))
    where
      command : ℕ
      command = byte_at request.payload 0

      operand : ℕ
      operand = byte_at request.payload 1

      size : ℕ
      size = request.payload_length

      basic :
          (command : ℕ) (result : ℤ × Rf S E)
          → Answers request (answer command (blank_response request) result)
      basic number result = record { answered = basic_response-IsResponse number result.0 request }

      split :
          (b : Bool) (x y : BridgeMessage × Rf S E)
          → Answers request x
          → Answers request y
          → Answers request (if b then x else y)
      split = if_holds (Answers request)

  -- Whatever the request says, the response carries its ID, two to 64 bytes of a 64-byte array,
  -- and the error flag exactly when its status byte is not 0.
  pub execute-IsResponse :
      (nvs : Nvs S) (esb : Esb E) (now errors : ℕ) (request : BridgeMessage) (rf : Rf S E)
      → IsResponse request (execute nvs esb now errors request rf).0
  execute-IsResponse nvs esb now errors request rf =
      (execute-Answers nvs esb now errors request rf).answered
