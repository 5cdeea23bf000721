-- ===== src/Protocol/Bridge/Kind.antt =====
-- `enum sv_bridge_kind` of protocol/bridge_protocol.h.
use smol_wi_fi_receiver.Base.{ℕ}

abbrev pub idle : ℕ
idle = 0

abbrev pub receiver_report : ℕ
receiver_report = 1

abbrev pub command : ℕ
command = 2

abbrev pub command_response : ℕ
command_response = 3

abbrev pub status_event : ℕ
status_event = 4
