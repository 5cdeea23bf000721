-- ===== src/Wires/Delivery.antt =====
-- A command whose frame arrives, before a transfer that succeeds, gets its response.
