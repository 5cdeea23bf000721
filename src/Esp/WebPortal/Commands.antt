-- ===== src/Esp/WebPortal/Commands.antt =====
-- The handlers of web_portal.c that send a command to the receiver. What `bridge_spi_command`
-- returned is an argument.
use smol_wi_fi_receiver.Base.{
  ℕ, zero, suc, ◌+◌, ◌*◌, ◌%◌, ◌^◌, List, [], ◌∷◌, Bool, Option, none, some, ltb, if◌then◌else◌,
  length, take, drop, replicate, min,
}
use smol_wi_fi_receiver.Base.Bytes.{byte_at, copy_at}
use smol_wi_fi_receiver.Protocol.Id48.{sv_id48_parse}
use smol_wi_fi_receiver.Receiver.Control.Command
use smol_wi_fi_receiver.Esp.BridgeSpi.{EspErr}
use smol_wi_fi_receiver.Esp.ReceiverStatus.{answered_with, is_esp_ok, id_text}
use smol_wi_fi_receiver.Esp.WebPortal.{
  Recv, Json, secondary_field, group_id_field, Refusal, Step, refused, passed, expected_group,
  group_rejected, command_failed, query_failed, receive_json,
}

module _ {J I D : Type 0} (json : Json J I D) where
  -- `struct sv_receiver_set_group_request`, if the fields are there.
  unfoldable pub group_command : J → Option (List ℕ)
  group_command document = elim (json.bool_of (json.item document secondary_field)) [
    | none ↦ none
    | some secondary ↦ elim (json.string_of (json.item document group_id_field)) [
      | none ↦ none
      | some group ↦
          let (parsed, group_id) = sv_id48_parse (replicate 6 0) group in
          if parsed
          then some (Command.set_group ∷ (if secondary then 1 else 0) ∷ group_id)
          else none
    ]
  ]

  -- `group_handler`: the command, if one is sent, and by the answer to it the error, if any.
  unfoldable pub group_handler :
      {R : Type 0}
      → Recv R
      → Bool
      → ℕ
      → R
      → (List ℕ → EspErr)
      → Option (Option (List ℕ) × Option Refusal)
  unfolding group_command
  group_handler recv allocated content_len r bridge_spi_command =
      elim (receive_json recv json allocated content_len r).0 [
        | none ↦ none
        | some (refused why) ↦ some (none, some why)
        | some (passed document) ↦ elim (group_command document) [
          | none ↦ some (none, some expected_group)
          | some command ↦ some (
            some command,
            if is_esp_ok (bridge_spi_command command) then none else some group_rejected,
          )
        ]
      ]

-- `receiver_action_handler`: the command, by the context that the page was registered with.
abbrev pub action_command : ℕ → List ℕ
action_command user_ctx = user_ctx % 2 ^ 8 ∷ []

unfoldable pub receiver_action_handler : ℕ → (List ℕ → EspErr) → Option Refusal
receiver_action_handler user_ctx bridge_spi_command =
    if is_esp_ok (bridge_spi_command (action_command user_ctx)) then none else some command_failed

-- `trackers_handler`: the command, by the number that `strtoul` read.
abbrev pub page_command : ℕ → List ℕ
page_command page = Command.get_tracker_page ∷ page % 2 ^ 8 ∷ []

-- The page in JSON: its number, and the trackers' IDs and addresses.
pub record TrackerPage : Type 0 where
  pub page : ℕ
  pub trackers : List (ℕ × List ℕ)

-- The entries of the structure from one on, seven bytes each.
unfoldable pub page_entries : ℕ → ℕ → List ℕ → List (ℕ × List ℕ)
page_entries zero i structure = []
page_entries (suc left) i structure =
    let entry = drop (4 + i * 7) structure in
    (byte_at entry 0, id_text (take 6 (drop 1 entry))) ∷ page_entries left (i + 1) structure

-- `struct sv_receiver_tracker_page_response` over a response of at least four bytes.
unfoldable pub trackers_handler : EspErr × Option (List ℕ) → Step TrackerPage
unfolding page_entries
trackers_handler answer = elim (answered_with answer) [
  | none ↦ refused query_failed
  | some response ↦
      let structure = copy_at (replicate 60 0) 0 (take 60 response) in
      if ltb (length response) 4
      then refused query_failed
      else passed (record {
        page = byte_at structure 2;
        trackers = page_entries (min (byte_at structure 3) 8) 0 structure;
      })
]
