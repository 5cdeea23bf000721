-- ===== src/Esp/GatewayUdp/Task.antt =====
-- `gateway_task` around its rounds: the outages, the sockets and the sessions.
pub mod Runs
pub mod Acknowledged
use smol_wi_fi_receiver.Base.{
  ℕ, zero, ◌+◌, List, [], ◌∷◌, ◌++◌, Bool, false, Option, none, some, not, leb, if◌then◌else◌,
  length, replicate, true,
}
use smol_wi_fi_receiver.Esp.BridgeSpi.{report_queue_length}
use smol_wi_fi_receiver.Esp.GatewayUdp.{
  Address, Gateway, Session, Round, ServerConfig, resolve_server, discard_pending_reports, round,
}

-- What the task meets when it looks at the Wi-Fi next: whether it is connected and whether a socket
-- can be opened, the stack's bytes that `server` lies on, what the resolver finds, and the round.
pub record Turn : Type 0 where
  pub is_connected : Bool
  pub socket_opened : Bool
  pub on_stack : Address
  pub resolved : Option ℕ
  pub in_round : Round

-- The task's state, with the session while its socket is open.
pub record Task : Type 0 where
  pub gateway : Gateway
  pub session : Option Session

-- The variables of a session whose socket was opened.
unfoldable pub open_session : ServerConfig → Address → Option ℕ → Gateway → Task
open_session config on_stack resolved g =
    let s : Session = record {
      server = on_stack;
      server_known = false;
      last_discover = 0;
      last_hello = 0;
    } in
    record {
      gateway = record g { last_ack = 0; stats = record g.stats { server_connected = false } };
      session = some (if config.fixed_server then resolve_server config resolved s else s);
    }

-- `gateway_task` up to where it looks at the Wi-Fi again.
unfoldable pub task_turn : ServerConfig → Turn → Gateway → Option Session → Task
unfolding open_session discard_pending_reports round
task_turn config t g none =
    if not t.is_connected
    then record { gateway = discard_pending_reports g; session = none }
    else if t.socket_opened
    then open_session config t.on_stack t.resolved g
    else record { gateway = g; session = none }
task_turn config t g (some s) =
    let (after, s1) = round config t.in_round g s in
    if t.is_connected
    then record { gateway = after; session = some s1 }
    else record { gateway = g; session = none }

-- The task's turns, and the reports that the SPI link's task puts into the queue between them.
pub data TaskEvent : Type 0 where
  turned : Turn → TaskEvent
  arrived : List ℕ → TaskEvent

-- Whether `xQueueSend` has room.
abbrev pub has_room : Gateway → Bool
has_room g = not (leb report_queue_length (length g.report_queue))

unfoldable pub task_step : ServerConfig → TaskEvent → Task → Task
unfolding task_turn
task_step config (turned t) k = task_turn config t k.gateway k.session
task_step config (arrived report) k =
    if has_room k.gateway
    then record k {
      gateway = record k.gateway { report_queue = k.gateway.report_queue ++ (report ∷ []) };
    }
    else k

unfoldable pub run_task : ServerConfig → List TaskEvent → Task → Task
unfolding task_step
run_task config [] k = k
run_task config (e ∷ rest) k = run_task config rest (task_step config e k)

-- How many reports an event puts into the queue.
abbrev pub puts : TaskEvent → Gateway → ℕ
puts (turned t) g = 0
puts (arrived report) g = if has_room g then 1 else 0

unfoldable pub put_in : ServerConfig → List TaskEvent → Task → ℕ
unfolding task_step
put_in config [] k = 0
put_in config (e ∷ rest) k = puts e k.gateway + put_in config rest (task_step config e k)

-- `gateway_udp_init`: whether it returns `ESP_OK`. The MAC, if it can be read, the random number, and
-- whether the task could be created are arguments.
unfoldable pub gateway_udp_init : Option (List ℕ) → ℕ → Bool → Gateway → Bool × Gateway
gateway_udp_init none random created g = (false, g)
gateway_udp_init (some mac) random created g =
    (created, record g { gateway_id = mac; boot_id = random })

-- The static variables and the empty queue.
abbrev pub blank_gateway : Gateway
blank_gateway = record {
  gateway_id = replicate 6 0;
  boot_id = 0;
  sequence = 0;
  stats = record {
    server_connected = false;
    datagrams_sent = 0;
    reports_sent = 0;
    reports_discarded = 0;
    receive_errors = 0;
    last_ack_age_ms = 0;
  };
  last_ack = 0;
  report_queue = [];
  outbox = [];
}
