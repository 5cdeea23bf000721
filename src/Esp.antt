-- ===== src/Esp.antt =====
-- The ESP32 application of firmware/esp32c5/main: the SPI link, the UDP link to the host, and the
-- captive DNS of the set-up page.
pub mod BridgeSpi
pub mod GatewayUdp
pub mod CaptiveDns
pub mod AppConfig
pub mod WebPortal
pub mod ReceiverStatus
pub mod WifiManager
