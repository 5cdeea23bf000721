-- ===== src/Receiver.antt =====
-- The nRF54L15 application of firmware/nrf54l15/src: one module for each C file.
pub mod Errno
pub mod Report
pub mod Storage
pub mod Rf
pub mod Control
pub mod Spi
