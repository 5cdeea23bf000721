-- ===== src/Esp/WifiManager/Sides.antt =====
-- What the functions of wifi_manager.c do to the two interfaces.
use smol_wi_fi_receiver.Base.{
  ℕ, List, [], ◌∷◌, Bool, true, false, Option, none, some, ◌≡◌, ◌⊎◌, inl, inr, refl, ◌∙◌, arith,
  if◌then◌else◌, not, if_holds,
}
use smol_wi_fi_receiver.Esp.AppConfig.{AppConfig}
use smol_wi_fi_receiver.Esp.WifiManager.{
  create_wifi_ap, create_wifi_sta, WifiCall, WifiDriver, Wifi, WifiSizes, WifiEvent,
  sta_disconnected, sta_got_ip, other_wifi_event, unchecked, all_checked, and_then, event_handler,
  tear_down, start_setup_ap, connection_supervisor, start_station, wifi_manager_init,
}

-- In set-up mode the station's interface is gone; and what is started has an interface.
pub record IsWifi {E : Type 0} (w : Wifi E) : Type 0 where
  pub one_side : w.setup_ap ≡ true → w.sta_netif ≡ false
  pub has_side : w.wifi_started ≡ true → (w.sta_netif ≡ true) ⊎ (w.ap_netif ≡ true)

-- The calls change the driver's state alone.
record SameSides {E : Type 0} (v w : Wifi E) : Type 0 where
  same_sta : w.sta_netif ≡ v.sta_netif
  same_ap : w.ap_netif ≡ v.ap_netif
  same_setup : w.setup_ap ≡ v.setup_ap
  same_started : w.wifi_started ≡ v.wifi_started

abbrev Keeps : {E : Type 0} → Wifi E → Option (Wifi E) → Type 0
Keeps v none = Unit {0}
Keeps v (some w) = SameSides v w

module _ {E : Type 0} (driver : WifiDriver E) where
  all_checked-Keeps : (calls : List WifiCall) (w : Wifi E) → Keeps w (all_checked driver calls w)
  unfolding all_checked
  all_checked-Keeps [] w = record {
    same_sta = refl;
    same_ap = refl;
    same_setup = refl;
    same_started = refl;
  }
  all_checked-Keeps (call ∷ calls) w =
      go (driver call w.esp).0 (all_checked driver calls (unchecked driver call w))
        (all_checked-Keeps calls (unchecked driver call w))
    where
      go :
          (ok : Bool) (out : Option (Wifi E))
          → Keeps (unchecked driver call w) out
          → Keeps w (if ok then out else none)
      go true none k = tt
      go true (some v) k = record {
        same_sta = k.same_sta;
        same_ap = k.same_ap;
        same_setup = k.same_setup;
        same_started = k.same_started;
      }
      go false out k = tt

  tear_down_lem :
      (w : Wifi E)
      → ((tear_down driver w).setup_ap ≡ true)
        × ((tear_down driver w).sta_netif ≡ false)
        × ((tear_down driver w).wifi_started ≡ false)
  unfolding tear_down
  tear_down_lem w = ground arith

  pub event_handler-IsWifi :
      (event : WifiEvent) (w : Wifi E) → IsWifi w → IsWifi (event_handler driver event w)
  unfolding event_handler
  event_handler-IsWifi sta_disconnected w v = ground (arith, v.one_side, v.has_side)
  event_handler-IsWifi sta_got_ip w v = record { one_side = v.one_side; has_side = v.has_side }
  event_handler-IsWifi other_wifi_event w v = v

  -- What calls and assignments keep, if the interfaces and flags decide it.
  abbrev OnSides : (Wifi E → Type 0) → Type 0
  OnSides P = (v w : Wifi E) → SameSides v w → P v → P w

  abbrev pub Holds : (Wifi E → Type 0) → Option (Wifi E) → Type 0
  Holds P none = Unit {0}
  Holds P (some w) = P w

  checked-Holds :
      (P : Wifi E → Type 0)
      → OnSides P
      → (calls : List WifiCall) (w : Wifi E) → P w
      → Holds P (all_checked driver calls w)
  checked-Holds P sides calls w p = go (all_checked driver calls w) (all_checked-Keeps calls w)
    where
      go : (out : Option (Wifi E)) → Keeps w out → Holds P out
      go none k = tt
      go (some v) k = sides w v k p

  and_then-Holds :
      (P Q : Wifi E → Type 0) (assign : Wifi E → Wifi E) (calls : List WifiCall)
      (out : Option (Wifi E))
      → OnSides Q
      → ((w : Wifi E) → P w → Q (assign w))
      → Holds P out
      → Holds Q (and_then driver assign calls out)
  unfolding and_then
  and_then-Holds P Q assign calls none sides step h = tt
  and_then-Holds P Q assign calls (some w) sides step h =
      checked-Holds Q sides calls (assign w) (step w h)

  -- With the access point's interface, or nothing started.
  abbrev IsSetup : Wifi E → Type 0
  IsSetup w = (w.setup_ap ≡ true) × (w.sta_netif ≡ false) × (w.ap_netif ≡ true)

  IsSetup-OnSides : OnSides IsSetup
  IsSetup-OnSides v w k p = (k.same_setup ∙ p.0, k.same_sta ∙ p.1, k.same_ap ∙ p.2)

  abbrev IsStation : Wifi E → Type 0
  IsStation w = (w.setup_ap ≡ false) × (w.sta_netif ≡ true)

  IsStation-OnSides : OnSides IsStation
  IsStation-OnSides v w k p = (k.same_setup ∙ p.0, k.same_sta ∙ p.1)

  -- The results of the functions that may abort.
  abbrev pub Leaves : (Wifi E → Type 0) → Option (Bool × Wifi E) → Type 0
  Leaves P none = Unit {0}
  Leaves P (some (ok, w)) = P w

  -- The end of both starts, by whether the interface was created.
  started-Leaves :
      (P Q : Wifi E → Type 0) (created : Bool) (up : Option (Wifi E)) (failed : Wifi E)
      → ((w : Wifi E) → P w → Q w)
      → (created ≡ true → Holds P up)
      → (created ≡ false → Q failed)
      → Leaves Q (
          if created
          then elim up [ none ↦ none | some done ↦ some (true, done) ]
          else some (false, failed))
  started-Leaves P Q true none failed weaken good bad = tt
  started-Leaves P Q true (some w) failed weaken good bad = weaken w (good refl)
  started-Leaves P Q false up failed weaken good bad = bad refl

  IsSetup-IsWifi : (w : Wifi E) → IsSetup w → IsWifi w
  IsSetup-IsWifi w p = record { one_side = λ _. p.1; has_side = λ _. inr p.2 }

  start_setup_ap-IsWifi :
      (sizes : WifiSizes) (config : AppConfig) (mac : List ℕ) (w : Wifi E)
      → Leaves IsWifi (start_setup_ap driver sizes config mac w)
  unfolding start_setup_ap
  start_setup_ap-IsWifi sizes config mac w =
      started-Leaves IsSetup IsWifi created _ _ IsSetup-IsWifi
        (λ is_created.
          and_then-Holds IsSetup IsSetup _ _ _ IsSetup-OnSides (λ x p. p)
            (and_then-Holds IsSetup IsSetup _ _ _ IsSetup-OnSides (λ x p. p)
              (checked-Holds IsSetup IsSetup-OnSides _ _ (down.0, down.1, is_created))))
        (λ missing. record {
          one_side = λ _. down.1;
          has_side = λ on. absurd (ground (arith, on, down.2));
        })
    where
      down :
          ((tear_down driver w).setup_ap ≡ true)
          × ((tear_down driver w).sta_netif ≡ false)
          × ((tear_down driver w).wifi_started ≡ false)
      down = tear_down_lem w

      created : Bool
      created = (driver create_wifi_ap (tear_down driver w).esp).0

  -- Before anything is started.
  abbrev IsOff : Wifi E → Type 0
  IsOff w = (w.setup_ap ≡ false) × (w.wifi_started ≡ false)

  IsOff-OnSides : OnSides IsOff
  IsOff-OnSides v w k p = (k.same_setup ∙ p.0, k.same_started ∙ p.1)

  IsOff-IsWifi : (w : Wifi E) → IsOff w → IsWifi w
  IsOff-IsWifi w p = record {
    one_side = λ on. absurd (ground (arith, on, p.0));
    has_side = λ on. absurd (ground (arith, on, p.1));
  }

  IsStation-IsWifi : (w : Wifi E) → IsStation w → IsWifi w
  IsStation-IsWifi w p = record {
    one_side = λ on. absurd (ground (arith, on, p.0));
    has_side = λ _. inl p.1;
  }

  start_station-IsWifi :
      (sizes : WifiSizes) (config : AppConfig) (w : Wifi E)
      → IsOff w
      → Leaves IsWifi (start_station driver sizes config w)
  unfolding start_station
  start_station-IsWifi sizes config w off =
      started-Leaves IsStation IsWifi (driver create_wifi_sta w.esp).0 _ _ IsStation-IsWifi
        (λ is_created.
          and_then-Holds IsStation IsStation _ _ _ IsStation-OnSides (λ x p. p)
            (checked-Holds IsStation IsStation-OnSides _ _ (off.0, is_created)))
        (λ missing. IsOff-IsWifi _ off)

  pub wifi_manager_init-IsWifi :
      (sizes : WifiSizes) (events_created task_created : Bool) (config : AppConfig) (w : Wifi E)
      → IsOff w
      → Leaves IsWifi (wifi_manager_init driver sizes events_created task_created config w)
  unfolding wifi_manager_init
  wifi_manager_init-IsWifi sizes true task_created config w off =
      go (all_checked driver _ w) (checked-Holds IsOff IsOff-OnSides _ w off)
    where
      ended :
          (out : Option (Bool × Wifi E))
          → Leaves IsWifi out
          → Leaves IsWifi (elim out [
            | none ↦ none
            | some (ok, after) ↦ some ((if ok then task_created else false), after)
          ])
      ended none h = tt
      ended (some (ok, after)) h = h

      go :
          (out : Option (Wifi E))
          → Holds IsOff out
          → let begun : Option (Bool × Wifi E) = elim out [
            | none ↦ none
            | some ready ↦
                if config.configured
                then start_station driver sizes config ready
                else some (true, ready)
          ] in
            Leaves IsWifi (elim begun [
              | none ↦ none
              | some (ok, after) ↦ some ((if ok then task_created else false), after)
            ])
      go none h = tt
      go (some ready) h =
          ended
            (if config.configured
              then start_station driver sizes config ready
              else some (true, ready))
            (if_holds (Leaves IsWifi) config.configured _ _
              (start_station-IsWifi sizes config ready h) (IsOff-IsWifi ready h))
  wifi_manager_init-IsWifi sizes false task_created config w off = IsOff-IsWifi w off

  -- The supervisor's end.
  pub connection_supervisor-IsWifi :
      (sizes : WifiSizes) (config : AppConfig) (mac : List ℕ) (in_time : Bool) (w : Wifi E)
      → IsWifi w
      → Holds IsWifi (connection_supervisor driver sizes config mac in_time w)
  unfolding connection_supervisor
  connection_supervisor-IsWifi sizes config mac in_time w v =
      if_holds (Holds IsWifi) (not config.configured) _ _ set_up
        (if_holds (Holds IsWifi) in_time _ _ v set_up)
    where
      go :
          (out : Option (Bool × Wifi E))
          → Leaves IsWifi out
          → Holds IsWifi (elim out [ none ↦ none | some (ok, after) ↦ some after ])
      go none h = tt
      go (some (ok, after)) h = h

      set_up : Holds IsWifi (elim (start_setup_ap driver sizes config mac w) [
        | none ↦ none
        | some (ok, after) ↦ some after
      ])
      set_up =
          go (start_setup_ap driver sizes config mac w) (start_setup_ap-IsWifi sizes config mac w)
