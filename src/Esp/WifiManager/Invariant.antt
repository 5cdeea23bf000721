-- ===== src/Esp/WifiManager/Invariant.antt =====
-- The station and the access point are never on together.
use smol_wi_fi_receiver.Base.{ℕ, List, Bool, false, some, ◌≡◌, subst}
use smol_wi_fi_receiver.Esp.AppConfig.{AppConfig}
use smol_wi_fi_receiver.Esp.WifiManager.{
  WifiDriver, Wifi, WifiSizes, WifiEvent, event_handler, connection_supervisor, wifi_manager_init,
}
use smol_wi_fi_receiver.Esp.WifiManager.Sides.{
  IsWifi, Holds, Leaves, event_handler-IsWifi, wifi_manager_init-IsWifi,
  connection_supervisor-IsWifi,
}

module _ {E : Type 0} (driver : WifiDriver E) where
  -- What happens to the manager, in any order.
  pub data Reach (sizes : WifiSizes) : Wifi E → Type 0 where
    started_up :
        (events_created task_created : Bool) (config : AppConfig) (w : Wifi E) (ok : Bool)
        {after : Wifi E}
        → w.setup_ap ≡ false
        → w.wifi_started ≡ false
        → wifi_manager_init driver sizes events_created task_created config w ≡ some (ok, after)
        → Reach sizes after
    supervised :
        (config : AppConfig) (mac : List ℕ) (in_time : Bool) {w after : Wifi E}
        → Reach sizes w
        → connection_supervisor driver sizes config mac in_time w ≡ some after
        → Reach sizes after
    happened :
        (event : WifiEvent) {w : Wifi E}
        → Reach sizes w
        → Reach sizes (event_handler driver event w)

  -- After start-up, whatever the driver returns and whatever events come, the station's interface is
  -- gone while the access point for the set-up is wanted, and what is started has an interface.
  pub Reach-IsWifi : {sizes : WifiSizes} {w : Wifi E} → Reach sizes w → IsWifi w
  Reach-IsWifi {sizes} (started_up events_created task_created config w ok off idle e) =
      subst (Leaves driver IsWifi) e
        (wifi_manager_init-IsWifi driver sizes events_created task_created config w (off, idle))
  Reach-IsWifi {sizes} (supervised config mac in_time {w} r e) =
      subst (Holds driver IsWifi) e
        (connection_supervisor-IsWifi driver sizes config mac in_time w (Reach-IsWifi r))
  Reach-IsWifi (happened event {w} r) = event_handler-IsWifi driver event w (Reach-IsWifi r)
