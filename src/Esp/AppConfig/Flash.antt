-- ===== src/Esp/AppConfig/Flash.antt =====
-- What ESP-IDF documents of the NVS library, on one namespace.
use smol_wi_fi_receiver.Base.{
  ℕ, ◌<◌, ◌^◌, List, Bool, Option, none, some, ◌≡◌, ltb, ◌==◌, if◌then◌else◌, length,
}
use smol_wi_fi_receiver.Esp.AppConfig.{
  esp_ok, Key, configured_key, ssid_key, password_key, country_key, server_key, server_port_key,
  schema_version_key, ConfigNvs,
}

-- A value keeps the type it was written with.
pub data Value : Type 0 where
  u8 u16 : ℕ → Value
  text : List ℕ → Value

abbrev number : Key → ℕ
number configured_key = 0
number ssid_key = 1
number password_key = 2
number country_key = 3
number server_key = 4
number server_port_key = 5
number schema_version_key = 6

abbrev pub Content : Type 0
Content = Key → Option Value

abbrev pub put : Key → Value → Content → Content
put key value content other = if number other == number key then some value else content other

-- What a getter finds.
abbrev pub as_u8 : Option Value → Option ℕ
as_u8 none = none
as_u8 (some (u8 n)) = some n
as_u8 (some (u16 n)) = none
as_u8 (some (text bytes)) = none

abbrev pub as_u16 : Option Value → Option ℕ
as_u16 none = none
as_u16 (some (u8 n)) = none
as_u16 (some (u16 n)) = some n
as_u16 (some (text bytes)) = none

-- With its terminator the string fits the buffer.
abbrev pub as_str : ℕ → Option Value → Option (List ℕ)
as_str capacity none = none
as_str capacity (some (u8 n)) = none
as_str capacity (some (u16 n)) = none
as_str capacity (some (text bytes)) = if ltb (length bytes) capacity then some bytes else none

-- The setters change what the getters find, and a commit makes that durable: it is what the library
-- finds when it is initialised again.
pub record ConfigNvsLaws {S : Type 0} (nvs : ConfigNvs S) : Type 0 where
  pub content : S → Content
  pub durable : S → Content
  pub u8_is : (k : Key) (s : S) → nvs.nvs_get_u8 k s ≡ as_u8 (content s k)
  pub u16_is : (k : Key) (s : S) → nvs.nvs_get_u16 k s ≡ as_u16 (content s k)
  pub str_is : (k : Key) (n : ℕ) (s : S) → nvs.nvs_get_str k n s ≡ as_str n (content s k)
  pub u8_set :
      (k : Key) (v : ℕ) (s : S)
      → v < 2 ^ 8
      → (nvs.nvs_set_u8 k v s).0 ≡ esp_ok
      → content (nvs.nvs_set_u8 k v s).1 ≡ put k (u8 v) (content s)
  pub u16_set :
      (k : Key) (v : ℕ) (s : S)
      → v < 2 ^ 16
      → (nvs.nvs_set_u16 k v s).0 ≡ esp_ok
      → content (nvs.nvs_set_u16 k v s).1 ≡ put k (u16 v) (content s)
  pub str_set :
      (k : Key) (v : List ℕ) (s : S)
      → (nvs.nvs_set_str k v s).0 ≡ esp_ok
      → content (nvs.nvs_set_str k v s).1 ≡ put k (text v) (content s)
  pub opened : (writing : Bool) (s : S) → content (nvs.nvs_open writing s).1 ≡ content s
  pub committed : (s : S) → (nvs.nvs_commit s).0 ≡ esp_ok → durable (nvs.nvs_commit s).1 ≡ content s
  pub closed : (s : S) → durable (nvs.nvs_close s) ≡ durable s
  pub initialised :
      (s : S) → (nvs.nvs_flash_init s).0 ≡ esp_ok → content (nvs.nvs_flash_init s).1 ≡ durable s
