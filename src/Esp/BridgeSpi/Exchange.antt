-- ===== src/Esp/BridgeSpi/Exchange.antt =====
-- One transfer of `transact` after the other, and what every state of the link satisfies.
use smol_wi_fi_receiver.Base.{
  ℕ, ◌^◌, ◌<◌, ◌≤◌, List, [], ◌∷◌, Bool, true, false, ◌≡◌, arith, length, replicate, Option-cases,
  inl, inr, take, length-append,
}
use smol_wi_fi_receiver.Base.Bytes.{IsBytes, length-copy_at}
use smol_wi_fi_receiver.Protocol.Bridge.{BridgeMessage, sv_bridge_decode}
use smol_wi_fi_receiver.Esp.BridgeSpi.{
  Link, esp_err_timeout, outgoing, received, dispatch, begin_command, finish_command,
  bridge_spi_receive_report, count,
}

-- What a transfer meets: the tick count, the driver's result and the bytes received.
pub record Exchange : Type 0 where
  pub now : ℕ
  pub transmitted : Bool
  pub rx_buffer : List ℕ

abbrev pub IsExchange : Exchange → Type 0
IsExchange x = IsBytes x.rx_buffer × (length x.rx_buffer ≡ 80)

-- `transact`: the state after it, and what it sent.
abbrev pub exchange : Exchange → Link → List ℕ × Link
exchange x link =
    let (frame, sent) = outgoing x.now link in (frame, (received x.transmitted x.rx_buffer sent).1)

-- The frames sent, and the state after.
abbrev pub run : List Exchange → Link → List (List ℕ) × Link
run [] link = ([], link)
run (x ∷ rest) link =
    let (frame, after) = exchange x link in
    let (frames, final) = run rest after in (frame ∷ frames, final)

-- The file's variables before the first use.
abbrev pub initial : Link
initial = record {
  command = record {
    active = false;
    request_id = 0;
    payload = replicate 64 0;
    payload_length = 0;
    response = replicate 64 0;
    response_length = 0;
    attempts = 0;
    next_attempt = 0;
    result = esp_err_timeout;
  };
  command_done = false;
  report_queue = [];
  tx_sequence = 0;
  next_request_id = 1;
  stats = record {
    transfers = 0;
    transfer_errors = 0;
    reports = 0;
    decode_errors = 0;
    queue_drops = 0;
    command_timeouts = 0;
  };
}

-- The sizes and ranges of the C variables, and a report queue of at most 128 reports.
pub record IsLink (link : Link) : Type 0 where
  pub payload_size : length link.command.payload ≡ 64
  pub response_size : length link.command.response ≡ 64
  pub payload_fits : link.command.payload_length ≤ 64
  pub request_id_in : link.command.request_id < 2 ^ 16
  pub next_id_in : link.next_request_id < 2 ^ 16
  pub sequence_in : link.tx_sequence < 2 ^ 16
  pub queue_in : length link.report_queue ≤ 128

pub outgoing-IsLink : (now : ℕ) (link : Link) → IsLink link → IsLink (outgoing now link).1
unfolding outgoing
outgoing-IsLink now link v = ground arith

dispatch-IsLink : (m : BridgeMessage) (link : Link) → IsLink link → IsLink (dispatch m link)
unfolding dispatch
dispatch-IsLink m link v = ground (
  arith,
  length-copy_at link.command.response 0 (take m.payload_length m.payload),
  length-append link.report_queue (m.payload ∷ []),
)

-- The state once the driver has succeeded.
abbrev pub transferred : Link → Link
transferred link = record link {
  stats = record link.stats { transfers = count link.stats.transfers };
}

received-IsLink :
    (transmitted : Bool) (rx : List ℕ) (link : Link)
    → IsLink link
    → IsLink (received transmitted rx link).1
unfolding received
received-IsLink false rx link v = ground arith
received-IsLink true rx link v = elim (Option-cases (sv_bridge_decode rx)) [
  | inl bad ↦ rw (bad, received) (ground arith)
  | inr (m, ok) ↦ rw (ok, received) (dispatch-IsLink m (transferred link) (ground arith))
]

pub exchange-IsLink : (x : Exchange) (link : Link) → IsLink link → IsLink (exchange x link).1
exchange-IsLink x link v =
    received-IsLink x.transmitted x.rx_buffer (outgoing x.now link).1 (outgoing-IsLink x.now link v)

pub run-IsLink : (xs : List Exchange) (link : Link) → IsLink link → IsLink (run xs link).1
run-IsLink [] link v = v
run-IsLink (x ∷ rest) link v = run-IsLink rest (exchange x link).1 (exchange-IsLink x link v)

pub begin_command-IsLink :
    (request : List ℕ) (link : Link) → IsLink link → IsLink (begin_command request link).1
unfolding begin_command
begin_command-IsLink request link v = ground (arith, length-copy_at link.command.payload 0 request)

pub finish_command-IsLink :
    (capacity : ℕ) (link : Link) → IsLink link → IsLink (finish_command capacity link).2
unfolding finish_command
finish_command-IsLink capacity link v = ground arith

bridge_spi_receive_report-IsLink :
    (link : Link) → IsLink link → IsLink (bridge_spi_receive_report link).1
unfolding bridge_spi_receive_report
bridge_spi_receive_report-IsLink link v = ground arith

-- What the tasks do with the link, in any order.
pub data Reach : Link → Type 0 where
  start : Reach initial
  exchanged : (x : Exchange) {link : Link} → Reach link → Reach (exchange x link).1
  begun : (request : List ℕ) {link : Link} → Reach link → Reach (begin_command request link).1
  finished : (capacity : ℕ) {link : Link} → Reach link → Reach (finish_command capacity link).2
  taken : {link : Link} → Reach link → Reach (bridge_spi_receive_report link).1

-- Every state that the tasks reach, whatever the receiver sends, has its arrays whole, its counts
-- and IDs in range and at most 128 reports queued.
pub Reach-IsLink : {link : Link} → Reach link → IsLink link
Reach-IsLink start = omega arith
Reach-IsLink (exchanged x {link} r) = exchange-IsLink x link (Reach-IsLink r)
Reach-IsLink (begun request {link} r) = begin_command-IsLink request link (Reach-IsLink r)
Reach-IsLink (finished capacity {link} r) = finish_command-IsLink capacity link (Reach-IsLink r)
Reach-IsLink (taken {link} r) = bridge_spi_receive_report-IsLink link (Reach-IsLink r)
