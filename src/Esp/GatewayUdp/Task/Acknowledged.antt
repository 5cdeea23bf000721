-- ===== src/Esp/GatewayUdp/Task/Acknowledged.antt =====
-- When the host counts as connected in a session.
use smol_wi_fi_receiver.Base.{ℕ, true, none, some, ◌≡◌, ◌≢◌}
use smol_wi_fi_receiver.Esp.GatewayUdp.{Gateway, Session, ServerConfig}
use smol_wi_fi_receiver.Esp.GatewayUdp.Connection.{IsAck}
use smol_wi_fi_receiver.Esp.GatewayUdp.Task.{Turn, Task, TaskEvent, turned, task_step}

abbrev SameSession : Task → Task → Type 0
SameSession k after =
    (after.session ≡ k.session)
    × (after.gateway.stats.server_connected ≡ k.gateway.stats.server_connected)
    × (after.gateway.last_ack ≡ k.gateway.last_ack)

module _ (config : ServerConfig) where
  -- What the task reaches from its start.
  pub data TaskReach : Task → Type 0 where
    start : (g : Gateway) → TaskReach (record { gateway = g; session = none })
    step : (e : TaskEvent) (k : Task) → TaskReach k → TaskReach (task_step config e k)

  -- In the session that is open, a round took an acknowledgement at this tick, and the session was not
  -- closed since.
  pub data AckedAt (at : ℕ) : Task → Type 0 where
    acknowledged :
        (t : Turn) (g : Gateway) (s : Session)
        → t.is_connected ≡ true
        → IsAck g s t.in_round.incoming
        → t.in_round.acked ≡ at
        → AckedAt at (task_step config (turned t) (record { gateway = g; session = some s }))
    since :
        (e : TaskEvent) (k : Task)
        → AckedAt at k
        → (task_step config e k).session ≢ none
        → AckedAt at (task_step config e k)

  -- What is shown of a state.
  abbrev Shown : Task → Type 0
  Shown k =
      k.session ≢ none → k.gateway.stats.server_connected ≡ true → AckedAt k.gateway.last_ack k
