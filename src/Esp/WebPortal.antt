-- ===== src/Esp/WebPortal.antt =====
-- firmware/esp32c5/main/web_portal.c: the requests of the set-up page. The HTTP server, cJSON and
-- its doubles are parameters; a text is its bytes without the terminator. The captive DNS of the
-- file is in CaptiveDns.antt.
pub mod Body
pub mod Config
pub mod Outcome
pub mod Commands
pub mod Group
pub mod Country
use smol_wi_fi_receiver.Base.{
  ℕ, zero, suc, ◌+◌, ◌-◌, List, [], ◌∷◌, ◌++◌, Bool, true, false, Option, none, some, ltb, leb,
  ◌&&◌, ◌||◌, ◌==◌, ◌!=◌, not, if◌then◌else◌, length, take,
}
use smol_wi_fi_receiver.Base.Bytes.{byte_at}

-- `httpd_req_recv` with the room left: none if it returns 0 or less, otherwise what it stored.
abbrev pub Recv : Type 0 → Type 0
Recv R = ℕ → R → Option (List ℕ) × R

-- The keys that the handlers ask for.
pub data Field : Type 0 where
  ssid_field password_field country_field server_field server_port_field : Field
  secondary_field group_id_field : Field

-- cJSON on a document `J` with items `I`: the string, number or truth value of an item is none if the
-- item is of another type or missing (`cJSON_IsString` and its like are false on NULL).
pub record Json (J I D : Type 0) : Type 0 where
  pub parse : List ℕ → Option J
  pub item : J → Field → I
  pub string_of : I → Option (List ℕ)
  pub number_of : I → Option D
  pub bool_of : I → Option Bool

-- `double`: `d < n`, `d > n` and `d == n` for an integer n, and the conversion to `uint16_t`.
pub record Doubles (D : Type 0) : Type 0 where
  pub below : D → ℕ → Bool
  pub above : D → ℕ → Bool
  pub equals : D → ℕ → Bool
  pub to_uint16 : D → ℕ

-- What is sent with an error status.
pub data Refusal : Type 0 where
  invalid_body_length out_of_memory incomplete_body invalid_json : Refusal
  missing_fields invalid_value unsupported_country not_saved : Refusal
  expected_group group_rejected command_failed query_failed : Refusal

-- Whether a step of a handler goes on.
pub data Step (A : Type 0) : Type 0 where
  refused : Refusal → Step A
  passed : A → Step A

-- The end of `receive_json`.
abbrev pub parse_body : {J I D : Type 0} → Json J I D → Step (List ℕ) → Step J
parse_body json (refused why) = refused why
parse_body json (passed body) = elim (json.parse body) [
  | none ↦ refused invalid_json
  | some document ↦ passed document
]

module _ {R : Type 0} (recv : Recv R) where
  -- The loop of `receive_json`, with the bytes left and the body so far; none out of fuel.
  unfoldable pub receive_loop : ℕ → ℕ → List ℕ → R → Option (Step (List ℕ)) × R
  receive_loop zero left body r = (none, r)
  receive_loop (suc fuel) left body r =
      if left == 0
      then (some (passed body), r)
      else let (chunk, after) = recv left r in
        elim chunk [
          | none ↦ (some (refused incomplete_body), after)
          | some bytes ↦ receive_loop fuel (left - length bytes) (body ++ bytes) after
        ]

  -- `calloc` may fail.
  unfoldable pub receive_json : {J I D : Type 0} → Json J I D → Bool → ℕ → R → Option (Step J) × R
  receive_json json allocated content_len r =
      let (body, after) = receive_loop (content_len + 1) content_len [] r in
      if content_len == 0 || ltb 1024 content_len
      then (some (refused invalid_body_length), r)
      else if allocated
      then (elim body [ none ↦ none | some step ↦ some (parse_body json step) ], after)
      else (some (refused out_of_memory), r)
