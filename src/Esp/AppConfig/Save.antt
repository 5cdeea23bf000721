-- ===== src/Esp/AppConfig/Save.antt =====
-- What `app_config_save` leaves in flash when it succeeds.
use smol_wi_fi_receiver.Base.{
  ◌<◌, ◌^◌, List, [], ◌∷◌, Bool, true, false, ◌≡◌, refl, ap, ◌∙◌, sym, arith, All, if◌then◌else◌,
}
use smol_wi_fi_receiver.Esp.AppConfig.{
  ConfigErr, esp_ok, invalid_arg, nvs_no_free_pages, nvs_new_version_found, other_error, is_ok, Key,
  configured_key, ssid_key, password_key, country_key, server_key, server_port_key,
  schema_version_key, ConfigNvs, AppConfig, Configured, chain, writes, rejects_config,
  app_config_save,
}
use smol_wi_fi_receiver.Esp.AppConfig.Flash.{Value, u8, u16, text, Content, put, ConfigNvsLaws}

-- A chain that succeeds went on after its first call.
went_on :
    {S : Type 0} (error : ConfigErr) (after : S) (rest : ConfigErr × S)
    → (if◌then◌else◌ {A = ConfigErr × S} (is_ok error) rest (error, after)).0 ≡ esp_ok
    → (error ≡ esp_ok)
      × ((if◌then◌else◌ {A = ConfigErr × S} (is_ok error) rest (error, after)) ≡ rest)
went_on esp_ok after rest ok = (refl, refl)
went_on invalid_arg after rest ok = absurd (ground (arith, ok))
went_on nvs_no_free_pages after rest ok = absurd (ground (arith, ok))
went_on nvs_new_version_found after rest ok = absurd (ground (arith, ok))
went_on (other_error code) after rest ok = absurd (ground (arith, ok))

pub is_ok-esp_ok : (error : ConfigErr) → is_ok error ≡ true → error ≡ esp_ok
is_ok-esp_ok esp_ok ok = refl
is_ok-esp_ok invalid_arg ok = absurd (ground (arith, ok))
is_ok-esp_ok nvs_no_free_pages ok = absurd (ground (arith, ok))
is_ok-esp_ok nvs_new_version_found ok = absurd (ground (arith, ok))
is_ok-esp_ok (other_error code) ok = absurd (ground (arith, ok))

-- What is written, in order.
abbrev pub Entries : Type 0
Entries = List (Key × Value)

abbrev pub put_all : Entries → Content → Content
put_all [] content = content
put_all ((key, value) ∷ rest) content = put_all rest (put key value content)

abbrev pub Fits : Key × Value → Type 0
Fits (key, u8 n) = n < 2 ^ 8
Fits (key, u16 n) = n < 2 ^ 16
Fits (key, text bytes) = Unit {0}

abbrev pub entries_of : AppConfig → Entries
entries_of c =
    (configured_key, u8 (if c.configured then 1 else 0))
    ∷ (ssid_key, text c.ssid)
    ∷ (password_key, text c.password)
    ∷ (country_key, text c.country)
    ∷ (server_key, text c.server)
    ∷ (server_port_key, u16 c.server_port)
    ∷ (schema_version_key, u8 1)
    ∷ []

module _ {S : Type 0} (nvs : ConfigNvs S) where
  -- What a save that succeeds did.
  pub record Saved (c : AppConfig) (st : Configured S) : Type 0 where
    pub accepted : rejects_config c ≡ false
    pub opens : (nvs.nvs_open true st.flash).0 ≡ esp_ok
    pub writes_all : (chain (writes nvs c) (nvs.nvs_open true st.flash).1).0 ≡ esp_ok
    pub current_is : (app_config_save nvs c st).1.current ≡ c
    pub flash_is :
        (app_config_save nvs c st).1.flash
        ≡ nvs.nvs_close (chain (writes nvs c) (nvs.nvs_open true st.flash).1).1

  -- How the tests of `app_config_save` come out when it succeeds.
  save_outcome :
      (rejects : Bool) (opened error : ConfigErr) (c : AppConfig) (st : Configured S)
      (unopened closed : S)
      → let done : Configured S = record {
        current = if is_ok error then c else st.current;
        flash = closed;
      } in
        let out : ConfigErr × Configured S =
          if rejects
          then (invalid_arg, st)
          else if is_ok opened
          then (error, done)
          else (opened, record st { flash = unopened }) in
        out.0 ≡ esp_ok
        → (rejects ≡ false)
          × (opened ≡ esp_ok)
          × (error ≡ esp_ok)
          × (out ≡ (esp_ok, record { current = c; flash = closed }))
  save_outcome true opened error c st unopened closed ok = absurd (ground (arith, ok))
  save_outcome false opened error c st unopened closed ok =
      let done : Configured S = record {
        current = if is_ok error then c else st.current;
        flash = closed;
      } in
      let (opens, same) = went_on opened (record st { flash = unopened }) (error, done) ok in
      let good : error ≡ esp_ok = ap (λ out. out.0) (sym same) ∙ ok in
      (refl, opens, good, same ∙ rw good refl)

  save_failure :
      (rejects opens : Bool) (error other : ConfigErr) (c : AppConfig) (st : Configured S)
      (unopened closed : S)
      → let done : Configured S = record {
        current = if is_ok error then c else st.current;
        flash = closed;
      } in
        let out : ConfigErr × Configured S =
          if rejects
          then (invalid_arg, st)
          else if opens
          then (error, done)
          else (other, record st { flash = unopened }) in
        is_ok out.0 ≡ false → out.1.current ≡ st.current
  save_failure true opens error other c st unopened closed fails = refl
  save_failure false true error other c st unopened closed fails =
      ap (λ b. if b then c else st.current) fails
  save_failure false false error other c st unopened closed fails = refl

  -- A save that fails changes no memory.
  pub app_config_save_fails :
      (c : AppConfig) (st : Configured S)
      → is_ok (app_config_save nvs c st).0 ≡ false
      → (app_config_save nvs c st).1.current ≡ st.current
  unfolding app_config_save
  app_config_save_fails c st fails =
      let opened = nvs.nvs_open true st.flash in
      let out = chain (writes nvs c) opened.1 in
      save_failure (rejects_config c) (is_ok opened.0) out.0 opened.0 c st opened.1
        (nvs.nvs_close out.1) fails

  pub app_config_save-Saved :
      (c : AppConfig) (st : Configured S) → (app_config_save nvs c st).0 ≡ esp_ok → Saved c st
  unfolding app_config_save
  app_config_save-Saved c st ok =
      let opened = nvs.nvs_open true st.flash in
      let out = chain (writes nvs c) opened.1 in
      let (accepted, opens, writes_all, same) =
        save_outcome (rejects_config c) opened.0 out.0 c st opened.1 (nvs.nvs_close out.1) ok in
      record {
        accepted = accepted;
        opens = opens;
        writes_all = writes_all;
        current_is = ap (λ o. o.1.current) same;
        flash_is = ap (λ o. o.1.flash) same;
      }

module _ {S : Type 0} (nvs : ConfigNvs S) (laws : ConfigNvsLaws nvs) where
  abbrev set_value : Key × Value → S → ConfigErr × S
  set_value (key, u8 n) = nvs.nvs_set_u8 key n
  set_value (key, u16 n) = nvs.nvs_set_u16 key n
  set_value (key, text bytes) = nvs.nvs_set_str key bytes

  -- The setters for the entries, and the commit.
  abbrev pub calls : Entries → List (S → ConfigErr × S)
  calls [] = nvs.nvs_commit ∷ []
  calls (entry ∷ rest) = set_value entry ∷ calls rest

  set_value-content :
      (entry : Key × Value) (s : S)
      → Fits entry
      → (set_value entry s).0 ≡ esp_ok
      → laws.content (set_value entry s).1 ≡ put entry.0 entry.1 (laws.content s)
  set_value-content (key, u8 n) s fits ok = laws.u8_set key n s fits ok
  set_value-content (key, u16 n) s fits ok = laws.u16_set key n s fits ok
  set_value-content (key, text bytes) s fits ok = laws.str_set key bytes s ok

  -- When they all succeed, the entries are durable.
  pub chain-calls :
      (entries : Entries) (s : S)
      → All Fits entries
      → (chain (calls entries) s).0 ≡ esp_ok
      → laws.durable (chain (calls entries) s).1 ≡ put_all entries (laws.content s)
  unfolding chain
  chain-calls [] s fits ok =
      let (good, same) =
        went_on (nvs.nvs_commit s).0 (nvs.nvs_commit s).1 (esp_ok, (nvs.nvs_commit s).1) ok in
      ap (λ out. laws.durable out.1) same ∙ laws.committed s good
  chain-calls (entry ∷ rest) s fits ok =
      let after = (set_value entry s).1 in
      let (good, same) = went_on (set_value entry s).0 after (chain (calls rest) after) ok in
      ap (λ out. laws.durable out.1) same
      ∙ chain-calls rest after fits.1 (ap (λ out. out.0) (sym same) ∙ ok)
      ∙ ap (put_all rest) (set_value-content entry s fits.0 good)
