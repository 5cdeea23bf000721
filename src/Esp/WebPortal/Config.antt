-- ===== src/Esp/WebPortal/Config.antt =====
-- `config_handler` of web_portal.c.

use smol_wi_fi_receiver.Base.{
  ℕ, ◌-◌, List, [], ◌∷◌, Bool, Option, none, some, ltb, leb, ◌&&◌, ◌||◌, ◌==◌, ◌!=◌, not,
  if◌then◌else◌, length, take,
}
use smol_wi_fi_receiver.Esp.AppConfig.{ConfigNvs, AppConfig, Configured, is_ok, app_config_save}
use smol_wi_fi_receiver.Esp.WebPortal.{
  Recv, Json, Doubles, ssid_field, password_field, country_field, server_field, server_port_field,
  Refusal, Step, refused, passed, missing_fields, invalid_value, unsupported_country, not_saved,
  receive_json,
}
use smol_wi_fi_receiver.Esp.WebPortal.Country.{supported_country}

-- The fields of a request, of the right types.
pub record Submitted (D : Type 0) : Type 0 where
  pub ssid : List ℕ
  pub password : List ℕ
  pub country : List ℕ
  pub server : List ℕ
  pub port : D

-- `toupper` in the C locale.
abbrev pub toupper : ℕ → ℕ
toupper c = if leb b'a' c && leb c b'z' then c - 32 else c

-- The loop over the country's two letters, and the rest unchanged.
unfoldable pub upper_country : List ℕ → List ℕ
upper_country [] = []
upper_country (first ∷ []) = toupper first ∷ []
upper_country (first ∷ second ∷ rest) = toupper first ∷ toupper second ∷ rest

module _ {J I D : Type 0} (json : Json J I D) where
  -- The types that the handler tests for.
  unfoldable pub submitted : J → Option (Submitted D)
  submitted document = elim (json.string_of (json.item document ssid_field)) [
    | none ↦ none
    | some ssid ↦ elim (json.string_of (json.item document password_field)) [
      | none ↦ none
      | some password ↦ elim (json.string_of (json.item document country_field)) [
        | none ↦ none
        | some country ↦ elim (json.string_of (json.item document server_field)) [
          | none ↦ none
          | some server ↦ elim (json.number_of (json.item document server_port_field)) [
            | none ↦ none
            | some port ↦ some (record {
              ssid = ssid;
              password = password;
              country = country;
              server = server;
              port = port;
            })
          ]
        ]
      ]
    ]
  ]

module _ {D : Type 0} (doubles : Doubles D) where
  -- The condition of "Invalid configuration value".
  unfoldable pub rejects_values : Submitted D → Bool
  rejects_values s =
      length s.ssid == 0
      || ltb 32 (length s.ssid)
      || ltb 64 (length s.password)
      || length s.country != 2
      || ltb 64 (length s.server)
      || doubles.below s.port 1
      || doubles.above s.port 65535
      || not (doubles.equals s.port (doubles.to_uint16 s.port))

  -- `config`, each of whose fields is assigned; `strlcpy` leaves room for the terminator.
  unfoldable pub filled_config : Submitted D → AppConfig
  filled_config s = record {
    configured = length (take 32 s.ssid) != 0;
    ssid = take 32 s.ssid;
    password = take 64 s.password;
    country = upper_country (take 2 s.country);
    server = take 64 s.server;
    server_port = doubles.to_uint16 s.port;
  }

module _ {J I D : Type 0} (json : Json J I D) (doubles : Doubles D) where
  -- From the document to the configuration that is saved.
  unfoldable pub config_of : J → Step AppConfig
  config_of document = elim (submitted json document) [
    | none ↦ refused missing_fields
    | some s ↦
        if rejects_values doubles s
        then refused invalid_value
        else if not (supported_country (filled_config doubles s).country)
        then refused unsupported_country
        else passed (filled_config doubles s)
  ]

  module _ {R S : Type 0} (recv : Recv R) (nvs : ConfigNvs S) where
    -- The error sent, if any, and the configuration after; without an error the reboot is started.
    unfoldable pub config_handler :
        Bool → ℕ → R → Configured S → Option (Option Refusal × Configured S)
    config_handler allocated content_len r st =
        elim (receive_json recv json allocated content_len r).0 [
          | none ↦ none
          | some (refused why) ↦ some (some why, st)
          | some (passed document) ↦ some (elim (config_of document) [
            | refused why ↦ (some why, st)
            | passed config ↦
                let (error, after) = app_config_save nvs config st in
                (if is_ok error then none else some not_saved, after)
          ])
        ]
