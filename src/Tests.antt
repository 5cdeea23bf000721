-- ===== src/Tests.antt =====
-- Tests, and the theorems at concrete inputs.
mod Fixtures
mod Protocol
mod Receiver
mod Control
mod Radio
mod Link
mod Wires
mod Portal
mod Wifi
mod Gateway
mod Dns
