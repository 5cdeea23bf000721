-- ===== src/Esp/AppConfig.antt =====
-- firmware/esp32c5/main/app_config.c: the configuration in memory and in flash. The NVS library is a
-- parameter. A string is its bytes without the terminator.
pub mod Flash
pub mod Save
pub mod Reboot
pub mod Valid
use smol_wi_fi_receiver.Base.{
  ℕ, List, [], ◌∷◌, Bool, true, false, Option, none, some, ltb, ◌&&◌, ◌||◌, ◌==◌, ◌!=◌,
  if◌then◌else◌, length,
}

-- The values of `esp_err_t` that the file tells apart.
pub data ConfigErr : Type 0 where
  esp_ok invalid_arg nvs_no_free_pages nvs_new_version_found : ConfigErr
  other_error : ℕ → ConfigErr

-- The keys in the namespace `smol-gateway`, by their names.
pub data Key : Type 0 where
  configured_key ssid_key password_key country_key server_key server_port_key schema_version_key :
      Key

-- `nvs.h` and `nvs_flash.h` on that namespace. A handle is open between `nvs_open`, for writing or
-- not, and `nvs_close`; a getter is none unless it returns `ESP_OK`, and has the buffer's capacity.
pub record ConfigNvs (S : Type 0) : Type 0 where
  pub nvs_flash_init : S → ConfigErr × S
  pub nvs_flash_erase : S → ConfigErr × S
  pub nvs_open : Bool → S → ConfigErr × S
  pub nvs_close : S → S
  pub nvs_get_str : Key → ℕ → S → Option (List ℕ)
  pub nvs_get_u8 : Key → S → Option ℕ
  pub nvs_get_u16 : Key → S → Option ℕ
  pub nvs_set_str : Key → List ℕ → S → ConfigErr × S
  pub nvs_set_u8 : Key → ℕ → S → ConfigErr × S
  pub nvs_set_u16 : Key → ℕ → S → ConfigErr × S
  pub nvs_commit : S → ConfigErr × S

-- `struct app_config`
pub record AppConfig : Type 0 where
  pub configured : Bool
  pub ssid : List ℕ
  pub password : List ℕ
  pub country : List ℕ
  pub server : List ℕ
  pub server_port : ℕ

-- `current`, and the flash.
pub record Configured (S : Type 0) : Type 0 where
  pub current : AppConfig
  pub flash : S

-- The copy is made in a critical section.
abbrev pub app_config_get : {S : Type 0} → Configured S → AppConfig
app_config_get st = st.current

abbrev pub app_default_server_port : ℕ
app_default_server_port = 6970

abbrev pub legacy_dynamic_server_port : ℕ
legacy_dynamic_server_port = 6969

abbrev pub config_schema_version : ℕ
config_schema_version = 1

-- "JP"
abbrev pub default_country : List ℕ
default_country = 74 ∷ 80 ∷ []

abbrev pub defaults : AppConfig
defaults = record {
  configured = false;
  ssid = [];
  password = [];
  country = default_country;
  server = [];
  server_port = app_default_server_port;
}

-- The value read, or what the variable was set to before.
abbrev pub or_else : {A : Type 0} → A → Option A → A
or_else old read = elim read [ none ↦ old | some value ↦ value ]

abbrev pub is_ok : ConfigErr → Bool
is_ok esp_ok = true
is_ok invalid_arg = false
is_ok nvs_no_free_pages = false
is_ok nvs_new_version_found = false
is_ok (other_error code) = false

abbrev pub wants_erase : ConfigErr → Bool
wants_erase esp_ok = false
wants_erase invalid_arg = false
wants_erase nvs_no_free_pages = true
wants_erase nvs_new_version_found = true
wants_erase (other_error code) = false

-- Calls in order up to the first that fails.
unfoldable pub chain : {S : Type 0} → List (S → ConfigErr × S) → S → ConfigErr × S
chain [] s = (esp_ok, s)
chain (call ∷ calls) s =
    let (error, after) = call s in
    let rest = chain calls after in if is_ok error then rest else (error, after)

-- The guard of `app_config_save`.
abbrev pub rejects_config : AppConfig → Bool
rejects_config c =
    ltb 32 (length c.ssid)
    || ltb 64 (length c.password)
    || length c.country != 2
    || ltb 64 (length c.server)
    || c.server_port == 0

-- The repairs of `app_config_init` after `nvs_close`.
unfoldable pub repair : AppConfig → AppConfig
repair c = record c {
  country = if length c.country == 2 then c.country else default_country;
  server_port = if c.server_port == 0 then app_default_server_port else c.server_port;
}

-- `migrate_dynamic_port`
abbrev pub migrates : AppConfig → Bool
migrates c = length c.server == 0 && c.server_port == legacy_dynamic_server_port

module _ {S : Type 0} (nvs : ConfigNvs S) where
  abbrev pub read_string : S → Key → ℕ → List ℕ
  read_string s key capacity = or_else [] (nvs.nvs_get_str key capacity s)

  -- What `app_config_init` reads over the defaults, once the namespace is open.
  unfoldable pub load : S → AppConfig
  load s = record {
    configured = or_else 0 (nvs.nvs_get_u8 configured_key s) != 0;
    ssid = read_string s ssid_key 33;
    password = read_string s password_key 65;
    country = read_string s country_key 3;
    server = read_string s server_key 65;
    server_port = or_else app_default_server_port (nvs.nvs_get_u16 server_port_key s);
  }

  -- The branch for an older schema, from its `if` on.
  unfoldable pub migrate : Configured S → ConfigErr × Configured S
  migrate st =
      let moves = migrates st.current in
      let port = if moves then app_default_server_port else st.current.server_port in
      let current = record st.current { server_port = port } in
      let (opened, s) = nvs.nvs_open true st.flash in
      let (error, written) =
        chain
          ((if moves then nvs.nvs_set_u16 server_port_key port else λ x. (esp_ok, x))
            ∷ nvs.nvs_set_u8 schema_version_key config_schema_version
            ∷ nvs.nvs_commit
            ∷ [])
          s in
      if is_ok opened
      then (error, record { current = current; flash = nvs.nvs_close written })
      else (opened, record { current = current; flash = s })

  -- `nvs_flash_init`, a second time after erasing; none if the erasing fails, which aborts.
  unfoldable pub mount : S → Option (ConfigErr × S)
  mount s =
      let (error, tried) = nvs.nvs_flash_init s in
      let (erase_error, erased) = nvs.nvs_flash_erase tried in
      let again = if is_ok erase_error then some (nvs.nvs_flash_init erased) else none in
      if wants_erase error then again else some (error, tried)

  -- From the mounted flash on.
  unfoldable pub read_config : S → ConfigErr × Configured S
  read_config s =
      let (opened, open_flash) = nvs.nvs_open false s in
      let schema_version = or_else 0 (nvs.nvs_get_u8 schema_version_key open_flash) in
      let read : Configured S = record {
        current = repair (load open_flash);
        flash = nvs.nvs_close open_flash;
      } in
      let migrated = migrate read in
      if is_ok opened
      then (if ltb schema_version config_schema_version then migrated else (esp_ok, read))
      else (esp_ok, record { current = defaults; flash = open_flash })

  unfoldable pub app_config_init : Configured S → Option (ConfigErr × Configured S)
  app_config_init st = elim (mount st.flash) [
    | none ↦ none
    | some (error, s) ↦
        let read = read_config s in
        some (if is_ok error then read else (error, record { current = defaults; flash = s }))
  ]

  -- The setters and the commit of `app_config_save`, in its order.
  abbrev pub writes : AppConfig → List (S → ConfigErr × S)
  writes c =
      nvs.nvs_set_u8 configured_key (if c.configured then 1 else 0)
      ∷ nvs.nvs_set_str ssid_key c.ssid
      ∷ nvs.nvs_set_str password_key c.password
      ∷ nvs.nvs_set_str country_key c.country
      ∷ nvs.nvs_set_str server_key c.server
      ∷ nvs.nvs_set_u16 server_port_key c.server_port
      ∷ nvs.nvs_set_u8 schema_version_key config_schema_version
      ∷ nvs.nvs_commit
      ∷ []

  -- The argument is not null.
  unfoldable pub app_config_save : AppConfig → Configured S → ConfigErr × Configured S
  app_config_save c st =
      let (opened, s) = nvs.nvs_open true st.flash in
      let (error, written) = chain (writes c) s in
      let closed = nvs.nvs_close written in
      if rejects_config c
      then (invalid_arg, st)
      else if is_ok opened
      then (error, record { current = if is_ok error then c else st.current; flash = closed })
      else (opened, record st { flash = s })
