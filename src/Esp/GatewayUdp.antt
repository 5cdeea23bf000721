-- ===== src/Esp/GatewayUdp.antt =====
-- firmware/esp32c5/main/gateway_udp.c: the session with the host, and the reports that are sent to
-- it. The sockets are the lwIP library's: what `recvfrom` and `getaddrinfo` bring is an argument,
-- and so is the function that gives what `sendto` returns. A tick is a millisecond.
pub mod Reports
pub mod Connection
pub mod Batch
pub mod Task
use smol_wi_fi_receiver.Base.{
  ℕ, zero, suc, ◌+◌, ◌-◌, ◌*◌, ◌%◌, ◌^◌, List, [], ◌∷◌, ◌++◌, Bool, true, false, Option, none, some,
  leb, not, ◌&&◌, ◌||◌, ◌==◌, ◌!=◌, if◌then◌else◌, length, take, replicate,
}
use smol_wi_fi_receiver.Base.Bytes.{copy_at, same_bytes}
use smol_wi_fi_receiver.Base.Int.{ℤ, pos, negsuc}
use smol_wi_fi_receiver.Receiver.Errno.{same}
use smol_wi_fi_receiver.Protocol.Gateway.Kind
use smol_wi_fi_receiver.Protocol.Gateway.{
  GatewayMessage, gateway_max_reports, gateway_max_payload, smol_report_size, sv_gateway_encode,
  sv_gateway_decode,
}

abbrev pub discover_interval_ms : ℕ
discover_interval_ms = 1000

abbrev pub hello_interval_ms : ℕ
hello_interval_ms = 1000

abbrev pub ack_timeout_ms : ℕ
ack_timeout_ms = 3000

-- `struct sockaddr_in`
pub record Address : Type 0 where
  pub sin_addr : ℕ
  pub sin_port : ℕ

-- `struct gateway_udp_stats`
pub record GatewayStats : Type 0 where
  pub server_connected : Bool
  pub datagrams_sent : ℕ
  pub reports_sent : ℕ
  pub reports_discarded : ℕ
  pub receive_errors : ℕ
  pub last_ack_age_ms : ℕ

-- The file-scope variables, the queue behind `bridge_spi_receive_report`, and the calls of `sendto`
-- so far, the oldest first.
pub record Gateway : Type 0 where
  pub gateway_id : List ℕ
  pub boot_id : ℕ
  pub sequence : ℕ
  pub stats : GatewayStats
  pub last_ack : ℕ
  pub report_queue : List (List ℕ)
  pub outbox : List (Address × List ℕ)

-- The variables of `gateway_task` for one socket.
pub record Session : Type 0 where
  pub server : Address
  pub server_known : Bool
  pub last_discover : ℕ
  pub last_hello : ℕ

-- What `recvfrom` brings: no datagram yet, another error, or a datagram and its source.
pub data Incoming : Type 0 where
  would_block receive_failed : Incoming
  received : List ℕ → Address → Incoming

abbrev pub Sendto : Type 0
Sendto = Address → List ℕ → ℤ

-- The ticks from `before` to `now`.
abbrev pub ticks_since : ℕ → ℕ → ℕ
ticks_since now before = (now + 2 ^ 32 - before) % 2 ^ 32

abbrev pub message_of : ℕ → List ℕ → ℕ → Gateway → GatewayMessage
message_of kind reports report_count g = record {
  kind = kind;
  flags = 0;
  report_count = report_count;
  gateway_id = g.gateway_id;
  boot_id = g.boot_id;
  sequence = g.sequence;
  payload_length = report_count * smol_report_size;
  payload =
      copy_at (replicate gateway_max_payload 0) 0 (take (report_count * smol_report_size) reports);
}

-- The counters after a datagram went out whole.
abbrev pub count_sent : ℕ → GatewayStats → GatewayStats
count_sent report_count stats = record stats {
  datagrams_sent = (stats.datagrams_sent + 1) % 2 ^ 32;
  reports_sent = (stats.reports_sent + report_count) % 2 ^ 32;
}

abbrev pub discard : ℕ → Gateway → Gateway
discard count g = record g {
  stats = record g.stats { reports_discarded = (g.stats.reports_discarded + count) % 2 ^ 32 };
}

unfoldable pub send_message : Sendto → Address → ℕ → List ℕ → ℕ → Gateway → ℤ × Gateway
send_message sendto destination kind reports report_count g =
    let numbered = record g { sequence = (g.sequence + 1) % 2 ^ 32 } in
    elim (sv_gateway_encode (message_of kind reports report_count g)) [
      | none ↦ (negsuc 0, numbered)
      | some bytes ↦
          let sent = sendto destination bytes in
          (
            sent,
            record numbered {
              outbox = g.outbox ++ ((destination, bytes) ∷ []);
              stats =
                  if same sent (pos (length bytes))
                  then count_sent report_count g.stats
                  else g.stats;
            },
          )
    ]

-- What `receive_control` does with a message for this gateway; `acked` is the tick count then.
unfoldable pub accept_control :
    Sendto → ℕ → GatewayMessage → Address → Gateway → Session → Gateway × Session
unfolding send_message
accept_control sendto acked message source g s =
    if message.kind == Kind.offer
    then (
      (send_message sendto source Kind.hello [] 0 g).1,
      record s { server = source; server_known = true },
    )
    else if message.kind == Kind.ack && s.server_known && source.sin_addr == s.server.sin_addr
    then (record g { last_ack = acked; stats = record g.stats { server_connected = true } }, s)
    else (g, s)

abbrev pub count_receive_error : Gateway → Gateway
count_receive_error g = record g {
  stats = record g.stats { receive_errors = (g.stats.receive_errors + 1) % 2 ^ 32 };
}

unfoldable pub receive_control : Sendto → ℕ → Incoming → Gateway → Session → Gateway × Session
unfolding accept_control
receive_control sendto acked would_block g s = (g, s)
receive_control sendto acked receive_failed g s = (count_receive_error g, s)
receive_control sendto acked (received bytes source) g s = elim (sv_gateway_decode bytes) [
  | none ↦ (count_receive_error g, s)
  | some message ↦
      if not (same_bytes message.gateway_id g.gateway_id) || message.boot_id != g.boot_id
      then (g, s)
      else accept_control sendto acked message source g s
]

unfoldable pub discard_pending_reports : Gateway → Gateway
discard_pending_reports g = record (discard (length g.report_queue) g) { report_queue = [] }

-- The loop that fills `reports`, with the room left: the bytes, their count, and the queue after.
unfoldable pub collect_reports : ℕ → List (List ℕ) → List ℕ × ℕ × List (List ℕ)
collect_reports zero queue = ([], 0, queue)
collect_reports (suc left) [] = ([], 0, [])
collect_reports (suc left) (report ∷ queue) =
    let (reports, count, rest) = collect_reports left queue in (report ++ reports, count + 1, rest)

-- `sent < 0`
abbrev pub negative : ℤ → Bool
negative (pos n) = false
negative (negsuc n) = true

-- The part of the loop that is reached while the host acknowledges.
unfoldable pub send_reports : Sendto → Address → Gateway → Gateway
unfolding collect_reports send_message
send_reports sendto server g =
    let (reports, count, rest) = collect_reports gateway_max_reports g.report_queue in
    let taken = record g { report_queue = rest } in
    let (sent, after) = send_message sendto server Kind.report_batch reports count taken in
    if count == 0 then taken else if negative sent then discard count after else after

-- What one round of the inner loop meets. `resolved` is the server's address, for a configured one.
pub record Round : Type 0 where
  pub now : ℕ
  pub acked : ℕ
  pub incoming : Incoming
  pub resolved : Option ℕ
  pub sendto : Sendto

-- The configuration.
pub record ServerConfig : Type 0 where
  pub fixed_server : Bool
  pub server_port : ℕ
  pub broadcast : ℕ

abbrev pub resolve_server : ServerConfig → Option ℕ → Session → Session
resolve_server config none s = record s {
  server = record { sin_addr = 0; sin_port = config.server_port };
  server_known = false;
}
resolve_server config (some address) s = record s {
  server = record { sin_addr = address; sin_port = config.server_port };
  server_known = true;
}

unfoldable pub find_server : ServerConfig → Round → Gateway → Session → Gateway × Session
unfolding send_message
find_server config r g s =
    let broadcast : Address = record {
      sin_addr = config.broadcast;
      sin_port = config.server_port;
    } in
    if not s.server_known && leb discover_interval_ms (ticks_since r.now s.last_discover)
    then (if config.fixed_server
        then (g, record (resolve_server config r.resolved s) { last_discover = r.now })
        else (
          (send_message r.sendto broadcast Kind.discover [] 0 g).1,
          record s { last_discover = r.now },
        ))
    else (g, s)

unfoldable pub greet_server : Round → Gateway → Session → Gateway × Session
unfolding send_message
greet_server r g s =
    if s.server_known && leb hello_interval_ms (ticks_since r.now s.last_hello)
    then ((send_message r.sendto s.server Kind.hello [] 0 g).1, record s { last_hello = r.now })
    else (g, s)

unfoldable pub check_ack : ServerConfig → ℕ → Gateway → Session → Gateway × Session
check_ack config now g s =
    if g.stats.server_connected && leb ack_timeout_ms (ticks_since now g.last_ack)
    then (
      record g { stats = record g.stats { server_connected = false } },
      record s { server_known = config.fixed_server && s.server_known },
    )
    else (g, s)

unfoldable pub forward_reports : Round → Gateway → Session → Gateway
unfolding send_reports discard_pending_reports
forward_reports r g s =
    let forwarded =
      if g.stats.server_connected
      then send_reports r.sendto s.server g
      else discard_pending_reports g in
    record forwarded {
      stats = record forwarded.stats {
        last_ack_age_ms = if g.last_ack == 0 then 2 ^ 32 - 1 else ticks_since r.now g.last_ack;
      };
    }

-- One round of the inner loop of `gateway_task`.
unfoldable pub round : ServerConfig → Round → Gateway → Session → Gateway × Session
unfolding receive_control find_server greet_server check_ack forward_reports
round config r g s =
    let (controlled, s1) = receive_control r.sendto r.acked r.incoming g s in
    let (searched, s2) = find_server config r controlled s1 in
    let (greeted, s3) = greet_server r searched s2 in
    let (checked, s4) = check_ack config r.now greeted s3 in (forward_reports r checked s4, s4)
