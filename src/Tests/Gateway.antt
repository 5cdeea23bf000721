-- ===== src/Tests/Gateway.antt =====
-- Rounds of the gateway's task at concrete states.
use smol_wi_fi_receiver.Base.{
  ap, ℕ, ◌+◌, ◌%◌, ◌^◌, ◌<◌, List, [], ◌∷◌, true, false, none, some, ◌≡◌, ◌≢◌, ◌⊎◌, inl, refl,
  arith, replicate, length,
}
use smol_wi_fi_receiver.Base.Int.{pos}
use smol_wi_fi_receiver.Protocol.Gateway.{sv_gateway_encode, sv_gateway_decode}
use smol_wi_fi_receiver.Esp.GatewayUdp.{
  Address, Gateway, Session, received, would_block, Sendto, Round, ServerConfig, round,
  receive_control, find_server, greet_server, check_ack, forward_reports, send_reports,
  send_message, ticks_since, discard_pending_reports, collect_reports,
}
use smol_wi_fi_receiver.Esp.GatewayUdp.Reports.{IsDatagramSend, accounted}
use smol_wi_fi_receiver.Esp.GatewayUdp.Connection.{IsAck, round-connected}
use smol_wi_fi_receiver.Esp.GatewayUdp.Task.{
  Turn, Task, TaskEvent, turned, arrived, open_session, task_turn, task_step, run_task, put_in,
  blank_gateway,
}
use smol_wi_fi_receiver.Esp.GatewayUdp.Task.Runs.{run_task-accounted}
use smol_wi_fi_receiver.Esp.GatewayUdp.Batch.{IsGateway, batch_of, send_reports_batch}

abbrev host : Address
host = record { sin_addr = 0x0a000001; sin_port = 6969 }

-- Every datagram goes out.
abbrev sendto : Sendto
sendto to bytes = pos (length bytes)

-- Connected, with nine reports in the queue.
abbrev gateway : Gateway
gateway = record {
  gateway_id = 1 ∷ 2 ∷ 3 ∷ 4 ∷ 5 ∷ 6 ∷ [];
  boot_id = 0x78563412;
  sequence = 4;
  stats = record {
    server_connected = true;
    datagrams_sent = 4;
    reports_sent = 0;
    reports_discarded = 0;
    receive_errors = 0;
    last_ack_age_ms = 1;
  };
  last_ack = 5000;
  report_queue = replicate 9 (replicate 64 7);
  outbox = [];
}

abbrev session : Session
session = record { server = host; server_known = true; last_discover = 0; last_hello = 4500 }

abbrev config : ServerConfig
config = record { fixed_server = false; server_port = 6969; broadcast = 0xffffffff }

abbrev quiet : Round
quiet = record {
  now = 5001;
  acked = 5001;
  incoming = would_block;
  resolved = none;
  sendto = sendto;
}

sendto-IsDatagramSend : IsDatagramSend sendto
sendto-IsDatagramSend to bytes = inl refl

still_connected : (round config quiet gateway session).0.stats.server_connected ≡ true
unfolding round receive_control find_server greet_server check_ack forward_reports send_reports
    send_message
still_connected = ground arith

gateway-IsGateway : IsGateway gateway
gateway-IsGateway = record {
  id_size = refl;
  boot_id_in = omega arith;
  sequence_in = omega arith;
  reports = omega arith;
}

abbrev bytes : List ℕ
bytes = replicate 64 7

-- A round that sends, another report, the loss of the Wi-Fi, two more reports that are discarded in
-- the outage, and a new session.
abbrev online : Turn
online = record {
  is_connected = true;
  socket_opened = true;
  on_stack = host;
  resolved = none;
  in_round = quiet;
}

abbrev offline : Turn
offline = record online { is_connected = false }

abbrev events : List TaskEvent
events =
    turned online
    ∷ arrived bytes
    ∷ turned offline
    ∷ arrived bytes
    ∷ arrived bytes
    ∷ turned offline
    ∷ turned online
    ∷ []

abbrev task : Task
task = record { gateway = gateway; session = some session }

three_come : put_in config events task ≡ 3
unfolding put_in task_step task_turn round receive_control find_server greet_server check_ack
    forward_reports send_reports send_message open_session discard_pending_reports collect_reports
    sv_gateway_encode
three_come = refl

run_task-accounted_example :
    accounted (run_task config events task).gateway ≡ (9 + put_in config events task) % 2 ^ 32
run_task-accounted_example = run_task-accounted config events task (
  sendto-IsDatagramSend,
  (tt, (sendto-IsDatagramSend, (tt, (tt, (sendto-IsDatagramSend, (sendto-IsDatagramSend, tt)))))),
)

round-connected_example :
    let after = (round config quiet gateway session).0 in
    (ticks_since 5001 after.last_ack < 3000)
    × (((true ≡ true) × (after.last_ack ≡ 5000))
        ⊎ (IsAck gateway session would_block × (after.last_ack ≡ 5001)))
round-connected_example = round-connected config quiet gateway session still_connected

nine_wait : gateway.report_queue ≢ []
nine_wait e = omega (arith, ap length e)

send_reports_batch_example :
    (bytes : List ℕ) × ((send_reports sendto host gateway).outbox ≡ (host, bytes) ∷ [])
    × (sv_gateway_decode bytes ≡ some (batch_of gateway))
    × ((send_reports sendto host gateway).report_queue ≡ replicate 64 7 ∷ [])
send_reports_batch_example = send_reports_batch sendto host gateway gateway-IsGateway nine_wait

-- An acknowledgement for the identity 11:22:33:44:55:66.
abbrev ack_bytes : List ℕ
ack_bytes =
    0x53 ∷ 0x56 ∷ 0x57 ∷ 0x31 ∷ 0x01 ∷ 0x04 ∷ 0x00 ∷ 0x00 ∷ 0x11 ∷ 0x22 ∷ 0x33 ∷ 0x44 ∷ 0x55 ∷ 0x66
    ∷ 0x00 ∷ 0x00 ∷ 0x12 ∷ 0x34 ∷ 0x56 ∷ 0x78 ∷ 0x00 ∷ 0x00 ∷ 0x00 ∷ 0x00 ∷ 0x00 ∷ 0x00 ∷ 0x1c
    ∷ 0x00 ∷ 0x5a ∷ 0x5f ∷ 0x6e ∷ 0x1d ∷ []

-- A session with a configured host is opened, and its first round takes the acknowledgement.
abbrev fixed : ServerConfig
fixed = record config { fixed_server = true }

abbrev opening : Turn
opening = record online { resolved = some host.sin_addr }

abbrev answered : Turn
answered = record online { in_round = record quiet { incoming = received ack_bytes host } }

abbrev before_start : Task
before_start = record {
  gateway = record blank_gateway {
    gateway_id = 0x11 ∷ 0x22 ∷ 0x33 ∷ 0x44 ∷ 0x55 ∷ 0x66 ∷ [];
    boot_id = 0x78563412;
  };
  session = none;
}

abbrev opened : Task
opened = task_step fixed (turned opening) before_start

abbrev acknowledged : Task
acknowledged = task_step fixed (turned answered) opened
