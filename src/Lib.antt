-- ===== src/Lib.antt =====
-- The firmware of the Smol Wi-Fi receiver: two microcontrollers that take the packets of SlimeVR
-- trackers off the air and hand them to a host.
--
-- The nRF54L15 (firmware/nrf54l15/src) is the radio's side. rf_receiver.c keeps the pairing table,
-- takes pairing requests and data packets from the radio and puts records into the queue of
-- report_builder.c, which packs them into reports of 64 bytes. receiver_storage.c keeps the group
-- and the pairings in flash. spi_bridge.c answers each SPI transfer with a report, a response or
-- nothing, and gives each command that arrives to receiver_control.c, where a replay cache
-- (protocol/command_replay_cache.c) stands in front of the commands.
-- The ESP32 (firmware/esp32c5/main) is the host's side. bridge_spi.c runs the transfers, queues
-- the reports and sends one command at a time, with repetitions. gateway_udp.c looks for the host
-- and sends it the queued reports in batches. app_config.c keeps the configuration, wifi_manager.c
-- joins the network or opens the access point for the set-up, web_portal.c serves the page that
-- changes the configuration and commands the receiver, and the DNS that leads to it, and
-- status_metrics.c watches the link.
-- The frames on the SPI link and the datagrams to the host are those of protocol/.
--
-- Files:
--   Base, Base/*               lists, bytes, bits, integers and Boolean tests that all parts share
--   Protocol/Crc32, Bridge     protocol/bridge_protocol.c: sv_crc32_ieee, sv_bridge_encode, _decode
--   Protocol/Gateway           protocol/gateway_protocol.c and smol_report.h
--   Protocol/Id48              protocol/id48_codec.c
--   Protocol/Replay            protocol/command_replay_cache.c
--   Receiver/Report            firmware/nrf54l15/src/report_builder.c
--   Receiver/Storage           firmware/nrf54l15/src/receiver_storage.c
--   Receiver/Rf                firmware/nrf54l15/src/rf_receiver.c: Radio has the events and the
--                              radio, Config the calls of rf_receiver.h
--   Receiver/Control           firmware/nrf54l15/src/receiver_control.c
--   Receiver/Spi               firmware/nrf54l15/src/spi_bridge.c
--   Receiver/Errno             the error numbers and the tests on results
--   Esp/BridgeSpi              firmware/esp32c5/main/bridge_spi.c
--   Esp/GatewayUdp             firmware/esp32c5/main/gateway_udp.c: one round of gateway_task; Task
--                              has the start and the loops around the rounds
--   Esp/CaptiveDns             dns_task of firmware/esp32c5/main/web_portal.c
--   Esp/AppConfig              firmware/esp32c5/main/app_config.c
--   Esp/WebPortal              the request handlers of firmware/esp32c5/main/web_portal.c: Body
--                              receives, Config has config_handler, Commands the others
--   Esp/ReceiverStatus         query_receiver of firmware/esp32c5/main/status_metrics.c, and the
--                              receiver's part of status_handler
--   Esp/WifiManager            firmware/esp32c5/main/wifi_manager.c
--   Wires                      both firmwares joined: the rounds of spi_thread, some of which arm
--                              nothing, against transact, over wires that lose and damage frames
--   Tests/*                    runs, and each theorem at a concrete input
-- A file's child modules hold the lemmas and theorems on it, and are named for what they prove.
--
-- Correspondence. The file-scope variables of a C file are a record (Builder, Storage, Rf, Control,
-- Spi, Link, Gateway, Configured, Wifi), and a function is the function of the same name from the
-- state to its result and the next state. A module's record holds the records of the modules that it
-- calls, as Rf holds Storage and Builder. Bytes and machine integers are natural numbers with the wrap-around written
-- out; errors are negative integers as in C, or the constructors of EspErr. What runs under a mutex
-- or in an interrupt is one atomic step; the orders in which steps happen are the indexed types
-- Reach, Step and Saves.
--
-- Parameters: Zephyr's NVS (Nvs, with its documented laws in NvsLaws), the radio driver (Esb),
-- Zephyr's CRCs, the clocks (an argument of each function that reads one), and what the SPI driver
-- and the socket bring; ESP-IDF's NVS (ConfigNvs, with its documented laws in ConfigNvsLaws), its
-- Wi-Fi driver (WifiDriver), its HTTP server's receiving (Recv, Receives), cJSON (Json) and the
-- comparisons of doubles (Doubles, DoublesLaws). That the decoder notices the damage on the wires is
-- a hypothesis (IsDetected): a CRC-32 does not notice all.
--
-- Bounds. Loops over tables recurse on the rounds that are left. The loop over a DNS name has one
-- more unit of fuel than the query has bytes, which is enough, since each round advances by at
-- least one. The loop that receives a body has one more than the body has bytes, since each call
-- stores at least one. The sequence numbers and request IDs have 16 bits, the counters and ticks 32.
--
-- Not modelled: the set-up of the SPI peripherals, the clock request of rf_receiver_init, the
-- printing of JSON and of log lines, the registration of the HTTP handlers, the start of tasks, and
-- the page's text; the host's program in bridge/. The kernel's, ESP-IDF's and the radio's code is
-- not part of the repository.
pub mod Base
pub mod Protocol
pub mod Receiver
pub mod Esp
pub mod Wires
mod Tests
