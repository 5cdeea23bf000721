-- ===== src/Tests/Portal.antt =====
-- The configuration, the page's requests and the status at concrete inputs.
use smol_wi_fi_receiver.Base.{
  ℕ, zero, suc, ◌%◌, ◌^◌, ◌<◌, ◌≤◌, List, [], ◌∷◌, ◌++◌, Bool, true, false, Option, none, some, ◌≡◌,
  ◌⊎◌, refl, arith, length, ltb, ◌==◌, replicate,
}
use smol_wi_fi_receiver.Base.Bytes.{read_le48}
use smol_wi_fi_receiver.Protocol.Id48.{sv_id48_format, sv_id48_parse, hex_value}
use smol_wi_fi_receiver.Protocol.Id48.Canonical.{lower_text}
use smol_wi_fi_receiver.Receiver.Rf.Config.{rf_receiver_set_group}
use smol_wi_fi_receiver.Receiver.Control.{execute, basic_response, blank_response}
use smol_wi_fi_receiver.Esp.BridgeSpi.Frame.{command_message}
use smol_wi_fi_receiver.Esp.AppConfig.{
  country_key, server_port_key, schema_version_key, config_schema_version, default_country,
  app_default_server_port, mount, read_config, load, repair, esp_ok, ConfigNvs, AppConfig,
  Configured, defaults, app_config_init, app_config_save, chain,
}
use smol_wi_fi_receiver.Esp.AppConfig.Flash.{
  Content, put, u8, u16, text, as_u8, as_u16, as_str, ConfigNvsLaws,
}
use smol_wi_fi_receiver.Esp.AppConfig.Reboot.{IsAccepted, app_config_init-save}
use smol_wi_fi_receiver.Esp.AppConfig.Valid.{booted, saved, Reach-IsAccepted}
use smol_wi_fi_receiver.Esp.ReceiverStatus.{
  StatusResponse, query_receiver, receiver_object, status_receiver,
}
use smol_wi_fi_receiver.Esp.ReceiverStatus.Shown.{
  IsCounted, brought, shown, status_receiver-get_status,
}
use smol_wi_fi_receiver.Esp.WebPortal.{
  Recv, Json, Doubles, Field, ssid_field, password_field, country_field, server_field,
  server_port_field, secondary_field, group_id_field, Refusal, refused, passed, invalid_body_length,
  out_of_memory, incomplete_body, receive_json, parse_body,
}
use smol_wi_fi_receiver.Esp.WebPortal.Body.{Receives, Fails, Brings, receive_json-returns}
use smol_wi_fi_receiver.Esp.WebPortal.Config.{Submitted, submitted, config_handler}
use smol_wi_fi_receiver.Esp.WebPortal.Outcome.{DoublesLaws, IsAsked, config_handler-outcome}
use smol_wi_fi_receiver.Esp.WebPortal.Commands.{group_command}
use smol_wi_fi_receiver.Esp.WebPortal.Group.{group_command-execute}
use smol_wi_fi_receiver.Tests.Fixtures.{flash_nvs, counting, one_paired}

-- What the getters find, and what is durable.
abbrev Pages : Type 0
Pages = Content × Content

abbrev nvs : ConfigNvs Pages
nvs = record {
  nvs_flash_init = λ s. (esp_ok, (s.1, s.1));
  nvs_flash_erase = λ s. (esp_ok, ((λ k. none), (λ k. none)));
  nvs_open = λ writing s. (esp_ok, s);
  nvs_close = λ s. s;
  nvs_get_str = λ k capacity s. as_str capacity (s.0 k);
  nvs_get_u8 = λ k s. as_u8 (s.0 k);
  nvs_get_u16 = λ k s. as_u16 (s.0 k);
  nvs_set_str = λ k v s. (esp_ok, (put k (text v) s.0, s.1));
  nvs_set_u8 = λ k v s. (esp_ok, (put k (u8 v) s.0, s.1));
  nvs_set_u16 = λ k v s. (esp_ok, (put k (u16 v) s.0, s.1));
  nvs_commit = λ s. (esp_ok, (s.0, s.0));
}

nvs_laws : ConfigNvsLaws nvs
nvs_laws = record {
  content = λ s. s.0;
  durable = λ s. s.1;
  u8_is = λ k s. refl;
  u16_is = λ k s. refl;
  str_is = λ k n s. refl;
  u8_set = λ k v s small ok. refl;
  u16_set = λ k v s small ok. refl;
  str_set = λ k v s ok. refl;
  opened = λ writing s. refl;
  committed = λ s ok. refl;
  closed = λ s. refl;
  initialised = λ s ok. refl;
}

abbrev unset : Configured Pages
unset = record { current = defaults; flash = ((λ k. none), (λ k. none)) }

-- An SSID "ab" in Japan, on the default port.
abbrev home : AppConfig
home = record defaults { configured = true; ssid = b'a' ∷ b'b' ∷ [] }

home_saved : (app_config_save nvs home unset).0 ≡ esp_ok
unfolding app_config_save chain
home_saved = refl

app_config_init-save_example :
    let flash = (app_config_save nvs home unset).1.flash in
    ((app_config_save nvs home unset).1.current ≡ home)
    × (app_config_init nvs (record { current = defaults; flash = flash })
        ≡ some (esp_ok, record { current = home; flash = (flash.1, flash.1) }))
app_config_init-save_example =
    app_config_init-save nvs nvs_laws home unset defaults (omega arith) home_saved refl refl

-- A flash with a country of three bytes and the port 0, which the start repairs, and a save that is
-- refused.
abbrev ruined_content : Content
ruined_content =
    put country_key (text (b'J' ∷ b'P' ∷ b'N' ∷ []))
      (put server_port_key (u16 0) (put schema_version_key (u8 config_schema_version) (λ k. none)))

abbrev ruined : Configured Pages
ruined = record { current = defaults; flash = (ruined_content, ruined_content) }

abbrev repaired : Configured Pages
repaired = record {
  current = record defaults {
    configured = false;
    ssid = [];
    password = [];
    country = default_country;
    server = [];
    server_port = app_default_server_port;
  };
  flash = (ruined_content, ruined_content);
}

repairs : app_config_init nvs ruined ≡ some (esp_ok, repaired)
unfolding app_config_init mount read_config load repair
repairs = refl

Reach-IsAccepted_example :
    IsAccepted (app_config_save nvs (record home { server_port = 0 }) repaired).1.current
Reach-IsAccepted_example =
    Reach-IsAccepted nvs nvs_laws
      (saved (record home { server_port = 0 }) (booted ruined esp_ok repairs))

-- A body byte by byte.
abbrev stream : Recv (List ℕ)
stream zero bytes = (none, bytes)
stream (suc room) [] = (none, [])
stream (suc room) (byte ∷ bytes) = (some (byte ∷ []), bytes)

stored_byte :
    (room : ℕ) (r : List ℕ) (bytes : List ℕ)
    → (stream room r).0 ≡ some bytes
    → (0 < length bytes) × (length bytes ≤ room)
stored_byte zero r bytes e = absurd (ground (arith, e))
stored_byte (suc room) [] bytes e = absurd (ground (arith, e))
stored_byte (suc room) (byte ∷ rest) bytes e = ground (arith, e)

stream-Receives : Receives stream
stream-Receives = record { stored = stored_byte }

-- A document that has every field.
abbrev texts : Field → Option (List ℕ)
texts ssid_field = some (b'a' ∷ b'b' ∷ [])
texts password_field = some []
texts country_field = some (b'j' ∷ b'p' ∷ [])
texts server_field = some []
texts server_port_field = none
texts secondary_field = none
texts group_id_field = some (b'A' ∷ b'1' ∷ replicate 10 b'0')

abbrev full_json : Json (List ℕ) Field ℕ
full_json = record {
  parse = λ body. some body;
  item = λ document field. field;
  string_of = texts;
  number_of = λ field. some 6970;
  bool_of = λ field. some true;
}

abbrev whole_numbers : Doubles ℕ
whole_numbers = record {
  below = λ d n. ltb d n;
  above = λ d n. ltb n d;
  equals = λ d n. d == n;
  to_uint16 = λ d. d % 2 ^ 16;
}

whole_numbers_laws : DoublesLaws whole_numbers
whole_numbers_laws = record {
  equal_below = λ d n m same. ground (arith, same);
  in_16_bits = λ d. omega arith;
}

receive_json-returns_example :
    let out = (receive_json stream full_json true 2 (b'{' ∷ b'}' ∷ [])).0 in
    (((◌≡◌ {A = ℕ} 2 0) ⊎ (1024 < 2)) × (out ≡ some (refused invalid_body_length)))
    ⊎ ((1 ≤ 2) × (2 ≤ 1024) × (true ≡ false) × (out ≡ some (refused out_of_memory)))
    ⊎ ((1 ≤ 2)
        × (2 ≤ 1024)
        × (true ≡ true)
        × ((Fails stream 2 (b'{' ∷ b'}' ∷ []) × (out ≡ some (refused incomplete_body)))
            ⊎ ((body : List ℕ) × Brings stream 2 (b'{' ∷ b'}' ∷ []) body
                × (out ≡ some (parse_body full_json (passed body))))))
receive_json-returns_example =
    receive_json-returns stream stream-Receives full_json true 2 (b'{' ∷ b'}' ∷ [])

config_handler-outcome_example :
    let out = config_handler full_json whole_numbers stream nvs true 2 (b'{' ∷ b'}' ∷ []) unset in
    ((why : Refusal) × (after : Configured Pages) × (out ≡ some (some why, after))
      × (after.current ≡ defaults))
    ⊎ ((body : List ℕ) × (document : List ℕ) × (s : Submitted ℕ) × (after : Configured Pages) × (out
          ≡ some (none, after))
        × (length body ≡ 2)
        × (some body ≡ some document)
        × (submitted full_json document ≡ some s)
        × IsAsked whole_numbers s after.current
        × (app_config_save nvs after.current unset ≡ (esp_ok, after)))
config_handler-outcome_example =
    config_handler-outcome whole_numbers whole_numbers_laws full_json stream nvs stream-Receives
      true 2 (b'{' ∷ b'}' ∷ []) unset

-- The command for the group a10000000000.
abbrev group_bytes : List ℕ
group_bytes = 3 ∷ 1 ∷ 0 ∷ 0 ∷ 0 ∷ 0 ∷ 0 ∷ 0xa1 ∷ []

group_sent : group_command full_json [] ≡ some group_bytes
unfolding group_command sv_id48_parse hex_value
group_sent = refl

group_command-execute_example :
    let request = command_message 5 group_bytes 0 in
    (secondary : Bool) × (digits : List ℕ) × (id : List ℕ) × (some true ≡ some secondary)
    × (texts group_id_field ≡ some digits)
    × (sv_id48_format (replicate 13 0) id ≡ lower_text digits ++ (0 ∷ []))
    × (let (result, after) =
          rf_receiver_set_group flash_nvs counting secondary (read_le48 id) one_paired in
        execute flash_nvs counting 9 0 request one_paired
        ≡ (basic_response 3 result (blank_response request), after))
group_command-execute_example =
    group_command-execute full_json flash_nvs counting [] group_bytes 9 0 5 0 one_paired group_sent

one_paired-IsCounted : IsCounted 1000 2 one_paired
one_paired-IsCounted = omega arith

status_receiver-get_status_example :
    let request = command_message 5 (1 ∷ []) 0 in
    (status_receiver (brought 1000 2 one_paired request) ≡ some (shown 1000 2 one_paired request))
    × ((status : StatusResponse) × (query_receiver (brought 1000 2 one_paired request)
          ≡ some status)
        × (receiver_object status ≡ shown 1000 2 one_paired request))
status_receiver-get_status_example =
    status_receiver-get_status 1000 2 one_paired (command_message 5 (1 ∷ []) 0) one_paired-IsCounted
