-- ===== src/Protocol/Gateway/Kind.antt =====
-- `enum sv_gateway_kind` of protocol/gateway_protocol.h.
use smol_wi_fi_receiver.Base.{ℕ}

abbrev pub discover : ℕ
discover = 1

abbrev pub offer : ℕ
offer = 2

abbrev pub hello : ℕ
hello = 3

abbrev pub ack : ℕ
ack = 4

abbrev pub report_batch : ℕ
report_batch = 5
