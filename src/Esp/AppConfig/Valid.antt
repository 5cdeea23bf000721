-- ===== src/Esp/AppConfig/Valid.antt =====
-- Every configuration in memory is one that `app_config_save` would accept.
use smol_wi_fi_receiver.Base.{
  ℕ, ◌<◌, [], true, false, Option, none, some, ◌≡◌, sym, arith, length, Bool-cases, inl, inr, ltb,
  if◌then◌else◌, subst, if_holds,
}
use smol_wi_fi_receiver.Esp.AppConfig.{
  ConfigErr, chain, writes, schema_version_key, ssid_key, password_key, server_key, is_ok,
  ConfigNvs, AppConfig, Configured, defaults, rejects_config, app_config_init, app_config_save,
  read_config, load, repair, migrate, mount, or_else,
}
use smol_wi_fi_receiver.Esp.AppConfig.Flash.{Value, u8, u16, text, Content, as_str, ConfigNvsLaws}
use smol_wi_fi_receiver.Esp.AppConfig.Reboot.{
  from_content, IsAccepted, rejects_config-IsAccepted, load-content,
}

-- A string that was read fits its array.
length-as_str :
    (capacity : ℕ) (value : Option Value)
    → 0 < capacity
    → length (or_else [] (as_str capacity value)) < capacity
length-as_str capacity none room = room
length-as_str capacity (some (u8 n)) room = room
length-as_str capacity (some (u16 n)) room = room
length-as_str capacity (some (text bytes)) room = ground arith

repair-from_content : (m : Content) → IsAccepted (repair (from_content m))
unfolding repair
repair-from_content m = record {
  ssid_fits = omega (arith, length-as_str 33 (m ssid_key) (omega arith));
  password_fits = omega (arith, length-as_str 65 (m password_key) (omega arith));
  country_is = ground arith;
  server_fits = omega (arith, length-as_str 65 (m server_key) (omega arith));
  port_set = ground arith;
}

defaults-IsAccepted : IsAccepted defaults
defaults-IsAccepted = omega arith

module _ {S : Type 0} (nvs : ConfigNvs S) (laws : ConfigNvsLaws nvs) where
  abbrev Accepts : ConfigErr × Configured S → Type 0
  Accepts out = IsAccepted out.1.current

  migrate-IsAccepted :
      (st : Configured S) → IsAccepted st.current → IsAccepted (migrate nvs st).1.current
  unfolding migrate
  migrate-IsAccepted st a =
      ground (arith, a.ssid_fits, a.password_fits, a.country_is, a.server_fits, a.port_set)

  read_config-IsAccepted : (s : S) → IsAccepted (read_config nvs s).1.current
  unfolding read_config
  read_config-IsAccepted s =
      let reading = (nvs.nvs_open false s).1 in
      let read : Configured S = record {
        current = repair (load nvs reading);
        flash = nvs.nvs_close reading;
      } in
      let repaired : IsAccepted (repair (load nvs reading)) =
        subst (λ c. IsAccepted (repair c)) (sym (load-content nvs laws reading))
          (repair-from_content (laws.content reading)) in
      if_holds Accepts (is_ok (nvs.nvs_open false s).0) _ _
        (if_holds Accepts (ltb (or_else 0 (nvs.nvs_get_u8 schema_version_key reading)) 1) _ _
          (migrate-IsAccepted read repaired) repaired)
        defaults-IsAccepted

  -- Whatever the flash holds, and whatever its calls return.
  abbrev Boots : Option (ConfigErr × Configured S) → Type 0
  Boots none = Unit {0}
  Boots (some (error, st)) = IsAccepted st.current

  app_config_init-Boots : (st : Configured S) → Boots (app_config_init nvs st)
  unfolding app_config_init
  app_config_init-Boots st = go (mount nvs st.flash)
    where
      go :
          (mounted : Option (ConfigErr × S))
          → Boots (elim mounted [
            | none ↦ none
            | some (error, s) ↦
                let read = read_config nvs s in
                some
                  (if is_ok error then read else (error, record { current = defaults; flash = s }))
          ])
      go none = tt
      go (some (error, s)) =
          if_holds Accepts (is_ok error) _ _ (read_config-IsAccepted s) defaults-IsAccepted

  app_config_save-IsAccepted :
      (c : AppConfig) (st : Configured S)
      → IsAccepted st.current
      → IsAccepted (app_config_save nvs c st).1.current
  unfolding app_config_save
  app_config_save-IsAccepted c st a =
      let opened = (nvs.nvs_open true st.flash).0 in
      elim (Bool-cases (rejects_config c)) [
        | inl bad ↦ rw (bad, app_config_save) a
        | inr fine ↦
            rw (fine, app_config_save)
              (if_holds Accepts (is_ok opened) _ _
                (if_holds IsAccepted (is_ok (chain (writes nvs c) (nvs.nvs_open true st.flash).1).0)
                  c st.current (rejects_config-IsAccepted c fine) a)
                a)
      ]

  -- What the application does with the configuration.
  pub data Reach : Configured S → Type 0 where
    booted :
        (st : Configured S) (error : ConfigErr) {after : Configured S}
        → app_config_init nvs st ≡ some (error, after)
        → Reach after
    saved : (c : AppConfig) {st : Configured S} → Reach st → Reach (app_config_save nvs c st).1

  -- At every time after start-up, whatever the flash holds or returns, and whatever is saved, with
  -- success or without, the current configuration is one that `app_config_save` accepts: its
  -- strings fit their arrays, the country has two bytes, and the port is not 0.
  pub Reach-IsAccepted : {st : Configured S} → Reach st → IsAccepted st.current
  Reach-IsAccepted (booted st error e) = subst Boots e (app_config_init-Boots st)
  Reach-IsAccepted (saved c {st} r) = app_config_save-IsAccepted c st (Reach-IsAccepted r)
