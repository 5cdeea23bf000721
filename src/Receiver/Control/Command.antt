-- ===== src/Receiver/Control/Command.antt =====
-- The commands of `enum sv_bridge_command`.
use smol_wi_fi_receiver.Base.{ℕ}

abbrev pub get_status : ℕ
get_status = 1

abbrev pub get_tracker_page : ℕ
get_tracker_page = 2

abbrev pub set_group : ℕ
set_group = 3

abbrev pub start_pairing : ℕ
start_pairing = 4

abbrev pub stop_pairing : ℕ
stop_pairing = 5

abbrev pub clear_trackers : ℕ
clear_trackers = 6

abbrev pub reboot : ℕ
reboot = 7

abbrev pub set_radio_enabled : ℕ
set_radio_enabled = 8
