-- ===== src/Tests/Wifi.antt =====
-- The Wi-Fi manager at a concrete start: the network of the configuration is not there in time.
use smol_wi_fi_receiver.Base.{ℕ, suc, List, [], ◌∷◌, true, false, refl}
use smol_wi_fi_receiver.Esp.AppConfig.{AppConfig}
use smol_wi_fi_receiver.Esp.WifiManager.{
  WifiDriver, Wifi, WifiSizes, sta_disconnected, all_checked, and_then, tear_down, event_handler,
  start_setup_ap, start_station, setup_ssid_of, connection_supervisor, wifi_manager_init,
}
use smol_wi_fi_receiver.Esp.WifiManager.Sides.{IsWifi}
use smol_wi_fi_receiver.Esp.WifiManager.Invariant.{
  Reach, started_up, supervised, happened, Reach-IsWifi,
}

-- A driver without errors that counts its calls.
abbrev calls : WifiDriver ℕ
calls call n = (true, suc n)

abbrev sizes : WifiSizes
sizes = record { sta_ssid = 32; sta_password = 64; ap_ssid = 32 }

abbrev home : AppConfig
home = record {
  configured = true;
  ssid = b'a' ∷ b'b' ∷ [];
  password = [];
  country = b'J' ∷ b'P' ∷ [];
  server = [];
  server_port = 6969;
}

abbrev mac : List ℕ
mac = 2 ∷ 0 ∷ 0 ∷ 0 ∷ 0x1f ∷ 0xa0 ∷ []

abbrev off : Wifi ℕ
off = record {
  connected = false;
  sta_netif = false;
  ap_netif = false;
  setup_ap = false;
  wifi_started = false;
  setup_ssid = [];
  esp = 0;
}

-- Five calls of the start, the interface and six more of the station.
abbrev station : Wifi ℕ
station = record off { sta_netif = true; wifi_started = true; esp = 12 }

-- A try to connect again, four calls that tear the station down and seven for the access point.
abbrev set_up : Wifi ℕ
set_up = record off {
  ap_netif = true;
  setup_ap = true;
  wifi_started = true;
  setup_ssid =
      b'S' ∷ b'm' ∷ b'o' ∷ b'l' ∷ b'R' ∷ b'e' ∷ b'c' ∷ b'e' ∷ b'i' ∷ b'v' ∷ b'e' ∷ b'r' ∷ b'-'
      ∷ b'S' ∷ b'e' ∷ b't' ∷ b'u' ∷ b'p' ∷ b'-' ∷ b'1' ∷ b'F' ∷ b'A' ∷ b'0' ∷ [];
  esp = 24;
}

gives_up : Reach calls sizes set_up
unfolding wifi_manager_init start_station connection_supervisor start_setup_ap tear_down
    event_handler all_checked and_then setup_ssid_of
gives_up =
    supervised home mac false
      (happened sta_disconnected
        (started_up true true home off true {after = station} refl refl refl))
      refl

Reach-IsWifi_example : IsWifi set_up
Reach-IsWifi_example = Reach-IsWifi calls gives_up
