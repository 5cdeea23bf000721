-- ===== src/Esp/AppConfig/Reboot.antt =====
-- A configuration that was saved is there after a reboot.
use smol_wi_fi_receiver.Base.{
  ◌<◌, ◌≤◌, ◌^◌, [], Bool, true, false, some, ◌≡◌, refl, ap, ◌∙◌, arith, length, All, ◌!=◌,
  if◌then◌else◌,
}
use smol_wi_fi_receiver.Esp.AppConfig.{
  esp_ok, configured_key, ssid_key, password_key, country_key, server_key, server_port_key,
  schema_version_key, ConfigNvs, AppConfig, Configured, chain, writes, rejects_config,
  app_config_init, app_config_save, read_config, load, repair, mount, or_else,
  app_default_server_port,
}
use smol_wi_fi_receiver.Esp.AppConfig.Flash.{text, Content, as_u8, as_u16, as_str, ConfigNvsLaws}
use smol_wi_fi_receiver.Esp.AppConfig.Save.{
  put_all, entries_of, chain-calls, Fits, Saved, app_config_save-Saved,
}

-- What `load` makes of a content.
abbrev pub from_content : Content → AppConfig
from_content m = record {
  configured = or_else 0 (as_u8 (m configured_key)) != 0;
  ssid = or_else [] (as_str 33 (m ssid_key));
  password = or_else [] (as_str 65 (m password_key));
  country = or_else [] (as_str 3 (m country_key));
  server = or_else [] (as_str 65 (m server_key));
  server_port = or_else app_default_server_port (as_u16 (m server_port_key));
}

-- What the guard of `app_config_save` lets pass.
pub record IsAccepted (c : AppConfig) : Type 0 where
  pub ssid_fits : length c.ssid ≤ 32
  pub password_fits : length c.password ≤ 64
  pub country_is : length c.country ≡ 2
  pub server_fits : length c.server ≤ 64
  pub port_set : 0 < c.server_port

pub rejects_config-IsAccepted : (c : AppConfig) → rejects_config c ≡ false → IsAccepted c
rejects_config-IsAccepted c h = ground arith

from_content-entries_of :
    (c : AppConfig) (old : Content) → IsAccepted c → from_content (put_all (entries_of c) old) ≡ c
from_content-entries_of c old a = λ i. record {
  configured = flag c.configured i;
  ssid = ssid_back i;
  password = password_back i;
  country = country_back i;
  server = server_back i;
  server_port = c.server_port;
}
  where
    flag : (b : Bool) → ((if b then 1 else 0) != 0) ≡ b
    flag true = refl
    flag false = refl

    ssid_back : or_else [] (as_str 33 (some (text c.ssid))) ≡ c.ssid
    ssid_back = ground (arith, a.ssid_fits)

    password_back : or_else [] (as_str 65 (some (text c.password))) ≡ c.password
    password_back = ground (arith, a.password_fits)

    country_back : or_else [] (as_str 3 (some (text c.country))) ≡ c.country
    country_back = ground (arith, a.country_is)

    server_back : or_else [] (as_str 65 (some (text c.server))) ≡ c.server
    server_back = ground (arith, a.server_fits)

repair-IsAccepted : (c : AppConfig) → IsAccepted c → repair c ≡ c
unfolding repair
repair-IsAccepted c a = ground (arith, a.country_is, a.port_set)

module _ {S : Type 0} (nvs : ConfigNvs S) (laws : ConfigNvsLaws nvs) where
  pub load-content : (s : S) → load nvs s ≡ from_content (laws.content s)
  unfolding load
  load-content s =
      rw
        (
          laws.u8_is configured_key s,
          laws.str_is ssid_key 33 s,
          laws.str_is password_key 65 s,
          laws.str_is country_key 3 s,
          laws.str_is server_key 65 s,
          laws.u16_is server_port_key s,
        )
        refl

  -- Reading it again.
  read_config-content :
      (c : AppConfig) (old : Content) (s : S)
      → IsAccepted c
      → (nvs.nvs_open false s).0 ≡ esp_ok
      → laws.content s ≡ put_all (entries_of c) old
      → read_config nvs s
        ≡ (esp_ok, record { current = c; flash = nvs.nvs_close (nvs.nvs_open false s).1 })
  unfolding read_config
  read_config-content c old s a opens m =
      rw
        (
          opens,
          laws.u8_is schema_version_key (nvs.nvs_open false s).1,
          load-content (nvs.nvs_open false s).1,
          laws.opened false s,
          m,
          from_content-entries_of c old a,
          repair-IsAccepted c a,
        )
        refl

  mount_started :
      (s : S)
      → (nvs.nvs_flash_init s).0 ≡ esp_ok
      → mount nvs s ≡ some (esp_ok, (nvs.nvs_flash_init s).1)
  unfolding mount
  mount_started s starts = rw (starts, mount) refl

  -- A configuration that `app_config_save` accepts and stores without an error is what is current
  -- then, and after a reboot, whatever the memory held, `app_config_init` succeeds and makes it
  -- current again, provided that NVS initialises and the namespace opens for reading.
  pub app_config_init-save :
      (c : AppConfig) (st : Configured S) (before : AppConfig)
      → c.server_port < 2 ^ 16
      → (app_config_save nvs c st).0 ≡ esp_ok
      → let flash = (app_config_save nvs c st).1.flash in
        let (started, mounted) = nvs.nvs_flash_init flash in
        let (opened, reading) = nvs.nvs_open false mounted in
        started ≡ esp_ok
        → opened ≡ esp_ok
        → ((app_config_save nvs c st).1.current ≡ c)
          × (app_config_init nvs (record { current = before; flash = flash })
              ≡ some (esp_ok, record { current = c; flash = nvs.nvs_close reading }))
  unfolding app_config_init mount
  app_config_init-save c st before small ok starts opens =
      let flash = (app_config_save nvs c st).1.flash in
      (
        v.current_is,
        rw (mount_started flash starts, app_config_init)
            (ap some (
              read_config-content c (laws.content st.flash) (nvs.nvs_flash_init flash).1
                (rejects_config-IsAccepted c v.accepted) opens found)),
      )
    where
      fits : All Fits (entries_of c)
      fits = (ground arith, (tt, (tt, (tt, (tt, (small, (omega arith, tt)))))))

      v : Saved nvs c st
      v = app_config_save-Saved nvs c st ok

      writing : S
      writing = (nvs.nvs_open true st.flash).1

      found :
          laws.content (nvs.nvs_flash_init (app_config_save nvs c st).1.flash).1
          ≡ put_all (entries_of c) (laws.content st.flash)
      found =
          laws.initialised (app_config_save nvs c st).1.flash starts
          ∙ ap laws.durable v.flash_is
          ∙ laws.closed (chain (writes nvs c) writing).1
          ∙ chain-calls nvs laws (entries_of c) writing fits v.writes_all
          ∙ ap (put_all (entries_of c)) (laws.opened true st.flash)
