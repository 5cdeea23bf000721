-- ===== src/Esp/BridgeSpi/Answer.antt =====
-- What `bridge_spi_command` returns, by what was received while it waited.
use smol_wi_fi_receiver.Base.{
  ℕ, ◌≤◌, List, [], ◌∷◌, true, false, none, some, Option, ◌≡◌, sym, ap, ◌∙◌, arith, length, bit_and,
  if◌then◌else◌, Option-cases, Bool-cases, inl, inr, ◌&&◌, ◌==◌, ◌!=◌, ltb, take, All, length-take,
}
use smol_wi_fi_receiver.Base.Bytes.{take-copy_at}
use smol_wi_fi_receiver.Protocol.Bridge.Kind
use smol_wi_fi_receiver.Protocol.Bridge.{BridgeMessage, sv_bridge_decode, flag_error}
use smol_wi_fi_receiver.Protocol.Bridge.RoundTrip.{sv_bridge_decode-IsMessage}
use smol_wi_fi_receiver.Esp.BridgeSpi.{
  Link, EspErr, esp_ok, esp_fail, esp_err_timeout, esp_err_invalid_size, outgoing, received,
  dispatch, begin_command, finish_command,
}
use smol_wi_fi_receiver.Esp.BridgeSpi.Exchange.{
  Exchange, IsExchange, exchange, run, IsLink, transferred, exchange-IsLink, begin_command-IsLink,
  outgoing-IsLink, Reach, Reach-IsLink,
}

-- The response to a request ID that a transfer brings, if it does.
abbrev pub reply_in : ℕ → Exchange → Option BridgeMessage
reply_in id x =
    if x.transmitted
    then elim (sv_bridge_decode x.rx_buffer) [
      | none ↦ none
      | some m ↦ if m.kind == Kind.command_response && m.request_id == id then some m else none
    ]
    else none

abbrev pub first_reply : ℕ → List Exchange → Option BridgeMessage
first_reply id [] = none
first_reply id (x ∷ rest) = elim (reply_in id x) [ none ↦ first_reply id rest | some m ↦ some m ]

-- The code of a response.
abbrev pub code_of : BridgeMessage → EspErr
code_of m = if bit_and m.flags flag_error != 0 then esp_fail else esp_ok

-- What the caller gets, by the first response.
abbrev pub outcome : ℕ → Option BridgeMessage → EspErr × Option (List ℕ)
outcome capacity none = (esp_err_timeout, none)
outcome capacity (some m) =
    if ltb capacity m.payload_length
    then (esp_err_invalid_size, none)
    else (code_of m, some (take m.payload_length m.payload))

-- A command waits for its response.
pub record Waiting (id : ℕ) (link : Link) : Type 0 where
  pub active : link.command.active ≡ true
  pub id_is : link.command.request_id ≡ id
  pub open_still : link.command_done ≡ false

-- The response is here.
pub record Answered (m : BridgeMessage) (link : Link) : Type 0 where
  pub inactive : link.command.active ≡ false
  pub is_done : link.command_done ≡ true
  pub length_is : link.command.response_length ≡ m.payload_length
  pub response_is : take m.payload_length link.command.response ≡ take m.payload_length m.payload
  pub result_is : link.command.result ≡ code_of m

pub outgoing-Waiting :
    (id now : ℕ) (link : Link) → Waiting id link → Waiting id (outgoing now link).1
unfolding outgoing
outgoing-Waiting id now link w = ground arith

pub outgoing-Answered :
    (m : BridgeMessage) (now : ℕ) (link : Link) → Answered m link → Answered m (outgoing now link).1
unfolding outgoing
outgoing-Answered m now link w = ground arith

dispatch-Answered :
    (m n : BridgeMessage) (link : Link) → Answered m link → Answered m (dispatch n link)
unfolding dispatch
dispatch-Answered m n link a = ground arith

-- A message that is no response for the ID leaves the command waiting.
dispatch-Waiting :
    (id : ℕ) (n : BridgeMessage) (link : Link)
    → Waiting id link
    → (n.kind == Kind.command_response && n.request_id == id) ≡ false
    → Waiting id (dispatch n link)
unfolding dispatch
dispatch-Waiting id n link w other = ground arith

dispatch-Answers :
    (id : ℕ) (n : BridgeMessage) (link : Link)
    → Waiting id link
    → (n.kind == Kind.command_response && n.request_id == id) ≡ true
    → n.payload_length ≤ length link.command.response
    → n.payload_length ≤ length n.payload
    → Answered n (dispatch n link)
unfolding dispatch
dispatch-Answers id n link w mine p q = ground (
  arith,
  take-copy_at link.command.response (take n.payload_length n.payload) n.payload_length
      (omega (arith, length-take n.payload_length n.payload)) p,
)

pub received-Waiting :
    (id : ℕ) (x : Exchange) (link : Link)
    → Waiting id link
    → reply_in id x ≡ none
    → Waiting id (received x.transmitted x.rx_buffer link).1
unfolding received
received-Waiting id x link w silent = elim (Bool-cases x.transmitted) [
  | inr failed ↦ rw (failed, received) (ground arith)
  | inl passed ↦ elim (Option-cases (sv_bridge_decode x.rx_buffer)) [
    | inl bad ↦ rw (passed, bad, received) (ground arith)
    | inr (m, ok) ↦
        rw (passed, ok, received)
          (dispatch-Waiting id m (transferred link) (ground arith) (ground arith))
  ]
]

pub reply_in-some :
    (id : ℕ) (x : Exchange) (m : BridgeMessage)
    → reply_in id x ≡ some m
    → (x.transmitted ≡ true)
      × (sv_bridge_decode x.rx_buffer ≡ some m)
      × ((m.kind == Kind.command_response && m.request_id == id) ≡ true)
reply_in-some id x m hit = ground arith

-- A response that is received is the command's, if it fits the array.
pub received-Answers_by :
    (id : ℕ) (x : Exchange) (m : BridgeMessage) (link : Link)
    → IsLink link
    → m.payload_length ≤ 64
    → length m.payload ≡ 64
    → Waiting id link
    → reply_in id x ≡ some m
    → Answered m (received x.transmitted x.rx_buffer link).1
unfolding received
received-Answers_by id x m link v fits size w hit =
    let (passed, ok, mine) = reply_in-some id x m hit in
    rw (passed, ok, received)
      (dispatch-Answers id m (transferred link)
        (record { active = w.active; id_is = w.id_is; open_still = w.open_still }) mine
        (omega (arith, fits, v.response_size)) (omega (arith, fits, size)))

received-Answers :
    (id : ℕ) (x : Exchange) (m : BridgeMessage) (link : Link)
    → IsLink link
    → IsExchange x
    → Waiting id link
    → reply_in id x ≡ some m
    → Answered m (received x.transmitted x.rx_buffer link).1
received-Answers id x m link v frame w hit =
    let shape =
      sv_bridge_decode-IsMessage x.rx_buffer frame.0 frame.1 (reply_in-some id x m hit).1 in
    received-Answers_by id x m link v shape.1 shape.0.payload_size w hit

pub received-Answered :
    (m : BridgeMessage) (x : Exchange) (link : Link)
    → Answered m link
    → Answered m (received x.transmitted x.rx_buffer link).1
unfolding received
received-Answered m x link a = elim (Bool-cases x.transmitted) [
  | inr failed ↦ rw (failed, received) (ground arith)
  | inl passed ↦ elim (Option-cases (sv_bridge_decode x.rx_buffer)) [
    | inl bad ↦ rw (passed, bad, received) (ground arith)
    | inr (n, ok) ↦
        rw (passed, ok, received) (dispatch-Answered m n (transferred link) (ground arith))
  ]
]

run-Answered :
    (m : BridgeMessage) (xs : List Exchange) (link : Link)
    → Answered m link
    → Answered m (run xs link).1
run-Answered m [] link a = a
run-Answered m (x ∷ rest) link a =
    run-Answered m rest (exchange x link).1
      (received-Answered m x (outgoing x.now link).1 (outgoing-Answered m x.now link a))

-- The result of the wait, once the transfers are over.
pub finish_command-Answered :
    (capacity : ℕ) (m : BridgeMessage) (link : Link)
    → Answered m link
    → let (code, response, _) = finish_command capacity link in
      ◌≡◌ {A = EspErr × Option (List ℕ)} (code, response) (outcome capacity (some m))
unfolding finish_command
finish_command-Answered capacity m link a = ground arith

pub finish_command-Waiting :
    (capacity id : ℕ) (link : Link)
    → Waiting id link
    → let (code, response, _) = finish_command capacity link in
      ◌≡◌ {A = EspErr × Option (List ℕ)} (code, response) (outcome capacity none)
unfolding finish_command
finish_command-Waiting capacity id link w = ground arith

first_reply_later :
    (id : ℕ) (x : Exchange) (rest : List Exchange)
    → reply_in id x ≡ none
    → first_reply id (x ∷ rest) ≡ first_reply id rest
first_reply_later id x rest silent = ground arith

first_reply_here :
    (id : ℕ) (x : Exchange) (rest : List Exchange) (m : BridgeMessage)
    → reply_in id x ≡ some m
    → first_reply id (x ∷ rest) ≡ some m
first_reply_here id x rest m hit = ground arith

run-outcome :
    (capacity id : ℕ) (xs : List Exchange) (link : Link)
    → IsLink link
    → All IsExchange xs
    → Waiting id link
    → let (code, response, _) = finish_command capacity (run xs link).1 in
      ◌≡◌ {A = EspErr × Option (List ℕ)} (code, response) (outcome capacity (first_reply id xs))
run-outcome capacity id [] link v frames w = finish_command-Waiting capacity id link w
run-outcome capacity id (x ∷ rest) link v frames w = elim (Option-cases (reply_in id x)) [
  | inl silent ↦
      run-outcome capacity id rest (exchange x link).1 (exchange-IsLink x link v) frames.1
        (received-Waiting id x (outgoing x.now link).1 (outgoing-Waiting id x.now link w) silent)
      ∙ ap (outcome capacity) (sym (first_reply_later id x rest silent))
  | inr (m, hit) ↦
      finish_command-Answered capacity m (run (x ∷ rest) link).1 (
        run-Answered m rest (exchange x link).1 (
          received-Answers id x m (outgoing x.now link).1 (outgoing-IsLink x.now link v) frames.0
            (outgoing-Waiting id x.now link w) hit))
      ∙ ap (outcome capacity) (sym (first_reply_here id x rest m hit))
]

pub begin_command-Waiting :
    (request : List ℕ) (link : Link)
    → (begin_command request link).0 ≡ esp_ok
    → Waiting link.next_request_id (begin_command request link).1
unfolding begin_command
begin_command-Waiting request link ok = ground arith

-- However the link's state was reached, when a command is accepted and any transfers follow, what
-- `bridge_spi_command` returns is decided by the first of them that succeeds and brings a command
-- response for the command's request ID, if any: without one, a time-out and no response; with one
-- that the caller's buffer cannot hold, the size error and no response; otherwise the response's
-- bytes, and failure exactly if it has the error flag. Responses for other IDs, damaged frames and
-- later responses make no difference.
pub finish_command-run :
    (capacity : ℕ) (request : List ℕ) (xs : List Exchange) {link : Link}
    → Reach link
    → All IsExchange xs
    → (begin_command request link).0 ≡ esp_ok
    → let (code, response, _) = finish_command capacity (run xs (begin_command request link).1).1 in
      ◌≡◌ {A = EspErr × Option (List ℕ)}
        (code, response)
        (outcome capacity (first_reply link.next_request_id xs))
finish_command-run capacity request xs {link} r frames ok =
    run-outcome capacity link.next_request_id xs (begin_command request link).1
      (begin_command-IsLink request link (Reach-IsLink r)) frames
      (begin_command-Waiting request link ok)
