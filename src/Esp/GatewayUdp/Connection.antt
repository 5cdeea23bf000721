-- ===== src/Esp/GatewayUdp/Connection.antt =====
-- When the host counts as connected.
use smol_wi_fi_receiver.Base.{
  ℕ, ◌<◌, List, [], Bool, true, some, not, ◌&&◌, ◌||◌, ◌==◌, ◌!=◌, ◌≡◌, ◌⊎◌, inl, inr, refl, ◌∙◌,
  arith, Option-cases, Bool-cases, if_holds, if_holds_by, sym,
}
use smol_wi_fi_receiver.Base.Bytes.{same_bytes}
use smol_wi_fi_receiver.Protocol.Gateway.Kind
use smol_wi_fi_receiver.Protocol.Gateway.{sv_gateway_encode, sv_gateway_decode, GatewayMessage}
use smol_wi_fi_receiver.Esp.GatewayUdp.{
  Address, Gateway, Session, Incoming, would_block, receive_failed, received, Sendto, Round,
  ServerConfig, message_of, send_message, accept_control, receive_control, discard_pending_reports,
  collect_reports, send_reports, find_server, greet_server, check_ack, forward_reports, round,
  ticks_since,
}

-- The datagram is an acknowledgement for this gateway, since its start, from the known host.
pub record IsAck (g : Gateway) (s : Session) (incoming : Incoming) : Type 0 where
  pub bytes : List ℕ
  pub source : Address
  pub message : GatewayMessage
  pub incoming_is : incoming ≡ received bytes source
  pub decoded : sv_gateway_decode bytes ≡ some message
  pub kind_is : message.kind ≡ 4
  pub boot_is : message.boot_id ≡ g.boot_id
  pub id_is : same_bytes message.gateway_id g.gateway_id ≡ true
  pub known : s.server_known ≡ true
  pub from_server : source.sin_addr ≡ s.server.sin_addr

abbrev connected : Gateway → Bool
connected g = g.stats.server_connected

send_message-connected :
    (sendto : Sendto) (to : Address) (kind : ℕ) (reports : List ℕ) (count : ℕ) (g : Gateway)
    → (connected (send_message sendto to kind reports count g).1 ≡ connected g)
      × ((send_message sendto to kind reports count g).1.last_ack ≡ g.last_ack)
unfolding send_message
send_message-connected sendto to kind reports count g =
    elim (Option-cases (sv_gateway_encode (message_of kind reports count g))) [
      | inl refused ↦ rw (refused, send_message) (ground arith)
      | inr (bytes, written) ↦ rw (written, send_message) (ground arith)
    ]

-- The connection, and when it was last acknowledged, are left alone.
abbrev Leaves : Gateway → Gateway × Session → Type 0
Leaves g (after, _) = (connected after ≡ connected g) × (after.last_ack ≡ g.last_ack)

-- The connection and the acknowledgement's time, by what arrives.
record Controls (acked : ℕ) (incoming : Incoming) (g : Gateway) (s : Session) (after : Gateway)
    : Type 0 where
  outcome :
      ((connected after ≡ connected g) × (after.last_ack ≡ g.last_ack))
      ⊎ (IsAck g s incoming × (after.last_ack ≡ acked) × (connected after ≡ true))

find_server-Leaves :
    (config : ServerConfig) (r : Round) (g : Gateway) (s : Session)
    → Leaves g (find_server config r g s)
unfolding find_server
find_server-Leaves config r g s =
    if_holds (Leaves g) _ _ _
      (if_holds (Leaves g) config.fixed_server _ _ (refl, refl)
        (send_message-connected r.sendto _ Kind.discover [] 0 g))
      (refl, refl)

greet_server-Leaves : (r : Round) (g : Gateway) (s : Session) → Leaves g (greet_server r g s)
unfolding greet_server
greet_server-Leaves r g s =
    if_holds (Leaves g) _ _ _ (send_message-connected r.sendto s.server Kind.hello [] 0 g)
      (refl, refl)

-- The same for the parts that leave the session alone.
abbrev LeavesIt : Gateway → Gateway → Type 0
LeavesIt g after = (connected after ≡ connected g) × (after.last_ack ≡ g.last_ack)

send_reports-LeavesIt :
    (sendto : Sendto) (server : Address) (g : Gateway) → LeavesIt g (send_reports sendto server g)
unfolding send_reports
send_reports-LeavesIt sendto server g =
    let (reports, count, rest) = collect_reports 8 g.report_queue in
    let taken = record g { report_queue = rest } in
    let kept = send_message-connected sendto server Kind.report_batch reports count taken in
    if_holds (LeavesIt g) (count == 0) _ _ (refl, refl) (if_holds (LeavesIt g) _ _ _ kept kept)

forward_reports-LeavesIt :
    (r : Round) (g : Gateway) (s : Session) → LeavesIt g (forward_reports r g s)
unfolding forward_reports discard_pending_reports
forward_reports-LeavesIt r g s =
    if_holds (LeavesIt g) g.stats.server_connected _ _ (send_reports-LeavesIt r.sendto s.server g)
      (refl, refl)

accept_control-Controls :
    (sendto : Sendto) (acked : ℕ) (bytes : List ℕ) (source : Address) (m : GatewayMessage)
    (g : Gateway) (s : Session)
    → sv_gateway_decode bytes ≡ some m
    → m.boot_id ≡ g.boot_id
    → same_bytes m.gateway_id g.gateway_id ≡ true
    → Controls acked (received bytes source) g s (accept_control sendto acked m source g s).0
unfolding accept_control
accept_control-Controls sendto acked bytes source m g s ok boot id =
    if_holds_by (λ (out : Gateway × Session). Controls acked (received bytes source) g s out.0)
      (m.kind == Kind.offer) _ _
      (λ offered. record { outcome = inl (send_message-connected sendto source Kind.hello [] 0 g) })
      (λ other.
        if_holds_by (λ (out : Gateway × Session). Controls acked (received bytes source) g s out.0)
          (m.kind == Kind.ack && s.server_known && source.sin_addr == s.server.sin_addr) _ _
          (λ ack. record {
            outcome = inr (
              record {
                bytes = bytes;
                source = source;
                message = m;
                incoming_is = refl;
                decoded = ok;
                kind_is = ground (arith, ack);
                boot_is = boot;
                id_is = id;
                known = ground (arith, ack);
                from_server = ground (arith, ack);
              },
              refl,
              refl,
            );
          })
          (λ none_such. record { outcome = inl (refl, refl) }))

receive_control-Controls :
    (sendto : Sendto) (acked : ℕ) (incoming : Incoming) (g : Gateway) (s : Session)
    → Controls acked incoming g s (receive_control sendto acked incoming g s).0
unfolding receive_control
receive_control-Controls sendto acked would_block g s = record { outcome = inl (refl, refl) }
receive_control-Controls sendto acked receive_failed g s = record { outcome = inl (refl, refl) }
receive_control-Controls sendto acked (received bytes source) g s =
    elim (Option-cases (sv_gateway_decode bytes)) [
      | inl bad ↦ rw (bad, receive_control) (record { outcome = inl (refl, refl) })
      | inr (m, ok) ↦
          elim (Bool-cases (not (same_bytes m.gateway_id g.gateway_id) || m.boot_id != g.boot_id)) [
            | inl foreign ↦
                rw (ok, foreign, receive_control) (record { outcome = inl (refl, refl) })
            | inr mine ↦
                rw (ok, mine, receive_control)
                  (accept_control-Controls sendto acked bytes source m g s ok (ground (arith, mine))
                    (ground (arith, mine)))
          ]
    ]

check_ack-connected :
    (config : ServerConfig) (now : ℕ) (g : Gateway) (s : Session)
    → let after = (check_ack config now g s).0 in
      connected after ≡ true
      → (connected g ≡ true) × (after.last_ack ≡ g.last_ack) × (ticks_since now g.last_ack < 3000)
unfolding check_ack
check_ack-connected config now g s still = ground arith

-- If the host counts as connected after a round of the gateway's task, then its last
-- acknowledgement is less than 3000 ms old, on the 32-bit tick counter; and either it was connected
-- before, with the same last acknowledgement, or the round's datagram is an acknowledgement: a
-- valid one of that kind, with this gateway's identity and boot number, from the known host's
-- address; then the time of the last one is that of its arrival.
pub round-connected :
    (config : ServerConfig) (r : Round) (g : Gateway) (s : Session)
    → (round config r g s).0.stats.server_connected ≡ true
    → let after = (round config r g s).0 in
      (ticks_since r.now after.last_ack < 3000)
      × (((g.stats.server_connected ≡ true) × (after.last_ack ≡ g.last_ack))
          ⊎ (IsAck g s r.incoming × (after.last_ack ≡ r.acked)))
unfolding round
round-connected config r g s still =
    let (controlled, s1) = receive_control r.sendto r.acked r.incoming g s in
    let (searched, s2) = find_server config r controlled s1 in
    let (greeted, s3) = greet_server r searched s2 in
    let (checked, s4) = check_ack config r.now greeted s3 in
    let sent = forward_reports-LeavesIt r checked s4 in
    let (held, same_time, fresh) =
      check_ack-connected config r.now greeted s3 (sym sent.0 ∙ still) in
    let hello = greet_server-Leaves r searched s2 in
    let search = find_server-Leaves config r controlled s1 in
    let last = sent.1 ∙ same_time ∙ hello.1 ∙ search.1 in
    (
      omega (arith, fresh, sent.1, same_time),
      elim (receive_control-Controls r.sendto r.acked r.incoming g s).outcome [
        | inl left ↦ inl (sym left.0 ∙ sym search.0 ∙ sym hello.0 ∙ held, last ∙ left.1)
        | inr (ack, at, now_connected) ↦ inr (ack, last ∙ at)
      ],
    )
