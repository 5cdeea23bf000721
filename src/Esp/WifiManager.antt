-- ===== src/Esp/WifiManager.antt =====
-- firmware/esp32c5/main/wifi_manager.c: the station and the access point of the set-up. The Wi-Fi
-- driver, the network interfaces and the receiver's link are a parameter: a call, and whether it
-- returned without an error.
pub mod Sides
pub mod Invariant
use smol_wi_fi_receiver.Base.{
  ℕ, ◌/◌, ◌%◌, ◌+◌, ◌-◌, List, [], ◌∷◌, ◌++◌, Bool, true, false, Option, none, some, not, ltb,
  if◌then◌else◌, take,
}
use smol_wi_fi_receiver.Base.Bytes.{byte_at}
use smol_wi_fi_receiver.Esp.AppConfig.{AppConfig}

-- The calls, with the arguments that vary.
pub data WifiCall : Type 0 where
  netif_init event_loop_create wifi_init register_wifi_events register_ip_events : WifiCall
  create_wifi_sta create_wifi_ap destroy_wifi_sta read_mac radio_off : WifiCall
  set_country_code : List ℕ → WifiCall
  set_mode_sta set_mode_ap start stop band_2g_only band_5g_only connect : WifiCall
  set_config_sta : List ℕ → List ℕ → WifiCall
  set_config_ap : List ℕ → WifiCall

abbrev pub WifiDriver : Type 0 → Type 0
WifiDriver E = WifiCall → E → Bool × E

-- The file-scope variables, the bit of the event group, and the driver's state. A handle is whether
-- it is there.
pub record Wifi (E : Type 0) : Type 0 where
  pub connected : Bool
  pub sta_netif : Bool
  pub ap_netif : Bool
  pub setup_ap : Bool
  pub wifi_started : Bool
  pub setup_ssid : List ℕ
  pub esp : E

-- The events that `event_handler` is registered for.
pub data WifiEvent : Type 0 where
  sta_disconnected sta_got_ip other_wifi_event : WifiEvent

-- The sizes of the arrays in the driver's `wifi_config_t`, which `strlcpy` leaves a byte of for the
-- terminator.
pub record WifiSizes : Type 0 where
  pub sta_ssid : ℕ
  pub sta_password : ℕ
  pub ap_ssid : ℕ

-- "%02X"
abbrev pub upper_hex : ℕ → ℕ
upper_hex d = if ltb d 10 then b'0' + d else b'A' + d % 10

-- "SmolReceiver-Setup-%02X%02X"
unfoldable pub setup_ssid_of : List ℕ → List ℕ
setup_ssid_of mac =
    (b'S' ∷ b'm' ∷ b'o' ∷ b'l' ∷ b'R' ∷ b'e' ∷ b'c' ∷ b'e' ∷ b'i' ∷ b'v' ∷ b'e' ∷ b'r' ∷ b'-' ∷ b'S'
      ∷ b'e' ∷ b't' ∷ b'u' ∷ b'p' ∷ b'-' ∷ [])
    ++ (upper_hex (byte_at mac 4 / 16)
        ∷ upper_hex (byte_at mac 4 % 16)
        ∷ upper_hex (byte_at mac 5 / 16)
        ∷ upper_hex (byte_at mac 5 % 16)
        ∷ [])

module _ {E : Type 0} (driver : WifiDriver E) where
  -- A call whose result is not looked at.
  abbrev pub unchecked : WifiCall → Wifi E → Wifi E
  unchecked call w = record w { esp = (driver call w.esp).1 }

  -- Calls under `ESP_ERROR_CHECK`: none if one fails, which aborts.
  unfoldable pub all_checked : List WifiCall → Wifi E → Option (Wifi E)
  all_checked [] w = some w
  all_checked (call ∷ calls) w =
      let rest = all_checked calls (unchecked call w) in
      if (driver call w.esp).0 then rest else none

  -- An assignment and further calls, unless it aborted before.
  unfoldable pub and_then : (Wifi E → Wifi E) → List WifiCall → Option (Wifi E) → Option (Wifi E)
  and_then assign calls none = none
  and_then assign calls (some w) = all_checked calls (assign w)

  unfoldable pub event_handler : WifiEvent → Wifi E → Wifi E
  event_handler sta_disconnected w =
      let lost = record w { connected = false } in
      if not w.setup_ap then unchecked connect lost else lost
  event_handler sta_got_ip w = record w { connected = true }
  event_handler other_wifi_event w = w

  -- What `start_setup_ap` tears down.
  unfoldable pub tear_down : Wifi E → Wifi E
  tear_down w =
      let paused = unchecked radio_off (record w { setup_ap = true }) in
      let stopped =
        if w.wifi_started
        then record (unchecked stop (unchecked band_2g_only paused)) { wifi_started = false }
        else paused in
      if w.sta_netif
      then record (unchecked destroy_wifi_sta stopped) { sta_netif = false }
      else stopped

  -- `start_setup_ap`: none if it aborts, otherwise whether it returns `ESP_OK`.
  unfoldable pub start_setup_ap : WifiSizes → AppConfig → List ℕ → Wifi E → Option (Bool × Wifi E)
  start_setup_ap sizes config mac w =
      let down = tear_down w in
      let created = (driver create_wifi_ap down.esp).0 in
      let with_ap = record (unchecked create_wifi_ap down) { ap_netif = created } in
      let ssid = setup_ssid_of mac in
      let named =
        and_then (λ x. record x { setup_ssid = ssid })
          (set_country_code config.country
            ∷ set_mode_ap
            ∷ set_config_ap (take (sizes.ap_ssid - 1) ssid)
            ∷ start
            ∷ [])
          (all_checked (read_mac ∷ []) with_ap) in
      let up = and_then (λ x. record x { wifi_started = true }) (band_2g_only ∷ []) named in
      if created
      then elim up [ none ↦ none | some done ↦ some (true, done) ]
      else some (false, with_ap)

  -- `connection_supervisor` after its wait, by whether the bit was set in time.
  unfoldable pub connection_supervisor :
      WifiSizes → AppConfig → List ℕ → Bool → Wifi E → Option (Wifi E)
  connection_supervisor sizes config mac in_time w =
      let set_up : Option (Wifi E) = elim (start_setup_ap sizes config mac w) [
        | none ↦ none
        | some (ok, after) ↦ some after
      ] in
      if not config.configured then set_up else if in_time then some w else set_up

  -- The station's part of `wifi_manager_init`.
  unfoldable pub start_station : WifiSizes → AppConfig → Wifi E → Option (Bool × Wifi E)
  start_station sizes config w =
      let created = (driver create_wifi_sta w.esp).0 in
      let with_sta = record (unchecked create_wifi_sta w) { sta_netif = created } in
      let configured =
        all_checked
          (set_country_code config.country
            ∷ set_mode_sta
            ∷ set_config_sta (take (sizes.sta_ssid - 1) config.ssid)
                (take (sizes.sta_password - 1) config.password)
            ∷ start
            ∷ [])
          with_sta in
      let up =
        and_then (λ x. record x { wifi_started = true }) (band_5g_only ∷ connect ∷ []) configured in
      if created
      then elim up [ none ↦ none | some done ↦ some (true, done) ]
      else some (false, with_sta)

  -- `wifi_manager_init`: whether the event group and the task could be created are arguments.
  unfoldable pub wifi_manager_init :
      WifiSizes → Bool → Bool → AppConfig → Wifi E → Option (Bool × Wifi E)
  wifi_manager_init sizes events_created task_created config w =
      let begun : Option (Bool × Wifi E) =
        elim (all_checked
          (netif_init ∷ event_loop_create ∷ wifi_init ∷ register_wifi_events ∷ register_ip_events
            ∷ [])
          w) [
            | none ↦ none
            | some ready ↦
                if config.configured then start_station sizes config ready else some (true, ready)
          ] in
      if events_created
      then elim begun [
        | none ↦ none
        | some (ok, after) ↦ some ((if ok then task_created else false), after)
      ]
      else some (false, w)

-- `wifi_manager_is_connected` and `wifi_manager_is_setup_ap`, once the event group is there.
abbrev pub wifi_manager_is_connected : {E : Type 0} → Wifi E → Bool
wifi_manager_is_connected w = w.connected

abbrev pub wifi_manager_is_setup_ap : {E : Type 0} → Wifi E → Bool
wifi_manager_is_setup_ap w = w.setup_ap
