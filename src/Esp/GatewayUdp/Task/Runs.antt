-- ===== src/Esp/GatewayUdp/Task/Runs.antt =====
-- What holds of the gateway's task over its whole run.
use smol_wi_fi_receiver.Base.{
  ◌+◌, ◌%◌, ◌^◌, List, [], ◌∷◌, ◌++◌, Option, none, some, not, length, ◌≡◌, refl, ◌∙◌, arith,
  if_holds, length-append, All,
}
use smol_wi_fi_receiver.Esp.GatewayUdp.{Gateway, Session, ServerConfig}
use smol_wi_fi_receiver.Esp.GatewayUdp.Reports.{
  IsDatagramSend, accounted, round-accounted, discard_pending_reports-accounted,
}
use smol_wi_fi_receiver.Esp.GatewayUdp.Task.{
  Turn, Task, open_session, task_turn, TaskEvent, turned, arrived, task_step, run_task, puts,
  put_in,
}

abbrev pub IsDatagramTurn : TaskEvent → Type 0
IsDatagramTurn (turned t) = IsDatagramSend t.in_round.sendto
IsDatagramTurn (arrived report) = Unit {0}

abbrev Accounts : Gateway → Task → Type 0
Accounts g k = accounted k.gateway ≡ accounted g

task_turn-accounted :
    (config : ServerConfig) (t : Turn) (g : Gateway) (s : Option Session)
    → IsDatagramSend t.in_round.sendto
    → accounted (task_turn config t g s).gateway ≡ accounted g
unfolding task_turn open_session
task_turn-accounted config t g none law =
    if_holds (Accounts g) (not t.is_connected) _ _ (discard_pending_reports-accounted g)
      (if_holds (Accounts g) t.socket_opened _ _ refl refl)
task_turn-accounted config t g (some s) law =
    if_holds (Accounts g) t.is_connected _ _ (round-accounted config t.in_round g s law) refl

task_step-accounted :
    (config : ServerConfig) (e : TaskEvent) (k : Task)
    → IsDatagramTurn e
    → accounted (task_step config e k).gateway ≡ (accounted k.gateway + puts e k.gateway) % 2 ^ 32
unfolding task_step
task_step-accounted config (turned t) k law =
    let same = task_turn-accounted config t k.gateway k.session law in omega (arith, same)
task_step-accounted config (arrived report) k law =
    let grown : length (k.gateway.report_queue ++ (report ∷ []))
        ≡ length k.gateway.report_queue + 1 =
      length-append k.gateway.report_queue (report ∷ []) in
    ground (arith, grown)

-- If `sendto` sends datagrams whole or not at all, then no run of the gateway's task, over outages,
-- failed sockets, sessions and rounds, with reports that arrive at any time, loses a report: on 32
-- bits, the reports sent, the reports discarded and the reports that wait are those of the start and
-- the reports that were put into the queue.
pub run_task-accounted :
    (config : ServerConfig) (es : List TaskEvent) (k : Task)
    → All IsDatagramTurn es
    → accounted (run_task config es k).gateway ≡ (accounted k.gateway + put_in config es k) % 2 ^ 32
unfolding run_task put_in
run_task-accounted config [] k law = omega arith
run_task-accounted config (e ∷ rest) k (law, laws) =
    let later = run_task-accounted config rest (task_step config e k) laws in
    let now = task_step-accounted config e k law in later ∙ (omega (arith, now))
