-- ===== src/Esp/GatewayUdp/Reports.antt =====
-- Every report that comes from the queue is sent or counted as discarded.
use smol_wi_fi_receiver.Base.{
  ℕ, zero, suc, ◌+◌, ◌%◌, ◌^◌, List, [], ◌∷◌, true, false, not, ◌&&◌, ◌||◌, ◌==◌, ◌!=◌,
  if◌then◌else◌, length, ◌≡◌, ◌⊎◌, inl, inr, refl, ap, ◌∙◌, arith, if_holds, Option-cases,
}
use smol_wi_fi_receiver.Base.Bytes.{same_bytes}
use smol_wi_fi_receiver.Base.Int.{ℤ, pos}
use smol_wi_fi_receiver.Protocol.Gateway.Kind
use smol_wi_fi_receiver.Protocol.Gateway.{sv_gateway_encode, sv_gateway_decode, GatewayMessage}
use smol_wi_fi_receiver.Esp.GatewayUdp.{
  Address, Gateway, Session, Incoming, would_block, receive_failed, received, Sendto, Round,
  ServerConfig, message_of, send_message, accept_control, receive_control, discard_pending_reports,
  collect_reports, send_reports, find_server, greet_server, check_ack, forward_reports, round,
  negative, discard,
}

-- What lwIP's `sendto` returns for a datagram: its length, or a negative number.
abbrev pub IsDatagramSend : Sendto → Type 0
IsDatagramSend sendto =
    (to : Address) (bytes : List ℕ)
    → (sendto to bytes ≡ pos (length bytes)) ⊎ (negative (sendto to bytes) ≡ true)

-- All reports so far, on the counters' 32 bits: sent, discarded and waiting.
abbrev pub accounted : Gateway → ℕ
accounted g = (g.stats.reports_sent + g.stats.reports_discarded + length g.report_queue) % 2 ^ 32

-- What a message does to the counters.
record Sends (count : ℕ) (before after : Gateway) (result : ℤ) : Type 0 where
  same_queue : after.report_queue ≡ before.report_queue
  same_discarded : after.stats.reports_discarded ≡ before.stats.reports_discarded
  counted :
      ((negative result ≡ true) × (after.stats.reports_sent ≡ before.stats.reports_sent))
      ⊎ ((negative result ≡ false)
          × (after.stats.reports_sent ≡ (before.stats.reports_sent + count) % 2 ^ 32))

send_message-Sends :
    (sendto : Sendto) (to : Address) (kind : ℕ) (reports : List ℕ) (count : ℕ) (g : Gateway)
    → IsDatagramSend sendto
    → Sends count g
        (send_message sendto to kind reports count g).1
        (send_message sendto to kind reports count g).0
unfolding send_message
send_message-Sends sendto to kind reports count g law =
    elim (Option-cases (sv_gateway_encode (message_of kind reports count g))) [
      | inl refused ↦ rw (refused, send_message) (ground arith)
      | inr (bytes, written) ↦ elim (law to bytes) [
        | inl whole ↦ rw (written, whole, send_message) (ground arith)
        | inr failed ↦ rw (written, send_message) (ground (arith, failed))
      ]
    ]

collect_reports_count :
    (left : ℕ) (queue : List (List ℕ))
    → (collect_reports left queue).1 + length (collect_reports left queue).2 ≡ length queue
unfolding collect_reports
collect_reports_count zero queue = omega arith
collect_reports_count (suc left) [] = refl
collect_reports_count (suc left) (report ∷ queue) = omega (arith, collect_reports_count left queue)

-- The end of `send_reports`: what was taken from the queue is in one of the counters.
settled :
    (count : ℕ) (taken after : Gateway) (sent : ℤ)
    → Sends count taken after sent
    → accounted (if count == 0 then taken else if negative sent then discard count after else after)
      ≡ (taken.stats.reports_sent
          + taken.stats.reports_discarded
          + (count + length taken.report_queue))
        % 2 ^ 32
settled count taken after sent s = elim s.counted [
  | inl lost ↦ ground (arith, s.same_queue, s.same_discarded, lost)
  | inr kept ↦ ground (arith, s.same_queue, s.same_discarded, kept)
]

send_reports-accounted :
    (sendto : Sendto) (server : Address) (g : Gateway)
    → IsDatagramSend sendto
    → accounted (send_reports sendto server g) ≡ accounted g
unfolding send_reports
send_reports-accounted sendto server g law =
    let (reports, count, rest) = collect_reports 8 g.report_queue in
    let taken = record g { report_queue = rest } in
    let (sent, after) = send_message sendto server Kind.report_batch reports count taken in
    settled count taken after sent (send_message-Sends sendto server 5 reports count taken law)
    ∙ ap (λ n. (g.stats.reports_sent + g.stats.reports_discarded + n) % 2 ^ 32)
        (collect_reports_count 8 g.report_queue)

-- A message without reports.
send_message-accounted :
    (sendto : Sendto) (to : Address) (kind : ℕ) (g : Gateway)
    → IsDatagramSend sendto
    → accounted (send_message sendto to kind [] 0 g).1 ≡ accounted g
send_message-accounted sendto to kind g law =
    let s = send_message-Sends sendto to kind [] 0 g law in
    elim s.counted [
      | inl lost ↦ omega (arith, ap length s.same_queue, s.same_discarded, lost.1)
      | inr kept ↦ omega (arith, ap length s.same_queue, s.same_discarded, kept.1)
    ]

-- What is kept through a part of a round.
abbrev Keeps : Gateway → Gateway × Session → Type 0
Keeps g (after, _) = accounted after ≡ accounted g

accept_control-Keeps :
    (sendto : Sendto) (acked : ℕ) (m : GatewayMessage) (source : Address) (g : Gateway)
    (s : Session)
    → IsDatagramSend sendto
    → Keeps g (accept_control sendto acked m source g s)
unfolding accept_control
accept_control-Keeps sendto acked m source g s law =
    if_holds (Keeps g) (m.kind == Kind.offer) _ _
      (send_message-accounted sendto source Kind.hello g law)
      (if_holds (Keeps g)
        (m.kind == Kind.ack && s.server_known && source.sin_addr == s.server.sin_addr) _ _ refl
        refl)

receive_control-Keeps :
    (sendto : Sendto) (acked : ℕ) (incoming : Incoming) (g : Gateway) (s : Session)
    → IsDatagramSend sendto
    → Keeps g (receive_control sendto acked incoming g s)
unfolding receive_control
receive_control-Keeps sendto acked would_block g s law = refl
receive_control-Keeps sendto acked receive_failed g s law = refl
receive_control-Keeps sendto acked (received bytes source) g s law =
    elim (Option-cases (sv_gateway_decode bytes)) [
      | inl bad ↦ rw (bad, receive_control) refl
      | inr (m, ok) ↦
          rw (ok, receive_control)
            (if_holds (Keeps g)
              (not (same_bytes m.gateway_id g.gateway_id) || m.boot_id != g.boot_id) _ _ refl
              (accept_control-Keeps sendto acked m source g s law))
    ]

find_server-Keeps :
    (config : ServerConfig) (r : Round) (g : Gateway) (s : Session)
    → IsDatagramSend r.sendto
    → Keeps g (find_server config r g s)
unfolding find_server
find_server-Keeps config r g s law =
    if_holds (Keeps g) _ _ _
      (if_holds (Keeps g) config.fixed_server _ _ refl
        (send_message-accounted r.sendto _ Kind.discover g law))
      refl

greet_server-Keeps :
    (r : Round) (g : Gateway) (s : Session) → IsDatagramSend r.sendto → Keeps g (greet_server r g s)
unfolding greet_server
greet_server-Keeps r g s law =
    if_holds (Keeps g) _ _ _ (send_message-accounted r.sendto s.server Kind.hello g law) refl

check_ack-Keeps :
    (config : ServerConfig) (now : ℕ) (g : Gateway) (s : Session)
    → Keeps g (check_ack config now g s)
unfolding check_ack
check_ack-Keeps config now g s = if_holds (Keeps g) _ _ _ refl refl

pub discard_pending_reports-accounted :
    (g : Gateway) → accounted (discard_pending_reports g) ≡ accounted g
unfolding discard_pending_reports
discard_pending_reports-accounted g = omega arith

forward_reports-accounted :
    (r : Round) (g : Gateway) (s : Session)
    → IsDatagramSend r.sendto
    → accounted (forward_reports r g s) ≡ accounted g
unfolding forward_reports
forward_reports-accounted r g s law =
    if_holds (λ after. accounted after ≡ accounted g) g.stats.server_connected _ _
      (send_reports-accounted r.sendto s.server g law) (discard_pending_reports-accounted g)

-- If `sendto` sends datagrams whole or not at all, then a round of the gateway's task, whatever it
-- meets, loses no report: the sum, on 32 bits, of the reports sent, the reports discarded and the
-- reports that wait is the same after it.
pub round-accounted :
    (config : ServerConfig) (r : Round) (g : Gateway) (s : Session)
    → IsDatagramSend r.sendto
    → accounted (round config r g s).0 ≡ accounted g
unfolding round
round-accounted config r g s law =
    let (controlled, s1) = receive_control r.sendto r.acked r.incoming g s in
    let (searched, s2) = find_server config r controlled s1 in
    let (greeted, s3) = greet_server r searched s2 in
    let (checked, s4) = check_ack config r.now greeted s3 in
    forward_reports-accounted r checked s4 law
    ∙ check_ack-Keeps config r.now greeted s3
    ∙ greet_server-Keeps r searched s2 law
    ∙ find_server-Keeps config r controlled s1 law
    ∙ receive_control-Keeps r.sendto r.acked r.incoming g s law
