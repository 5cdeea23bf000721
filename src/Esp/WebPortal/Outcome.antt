-- ===== src/Esp/WebPortal/Outcome.antt =====
-- What POST /api/config can do to the configuration.
use smol_wi_fi_receiver.Base.{
  zero, suc, ℕ, ◌<◌, ◌≤◌, ◌^◌, List, [], ◌∷◌, Bool, true, false, none, some, ◌≡◌, ◌⊎◌, inl, inr,
  refl, ap, ◌∙◌, sym, arith, length, take, Option-cases, Bool-cases, ltb, subst,
}
use smol_wi_fi_receiver.Esp.AppConfig.{
  esp_ok, is_ok, ConfigNvs, AppConfig, Configured, app_config_save,
}
use smol_wi_fi_receiver.Esp.AppConfig.Save.{
  app_config_save-Saved, app_config_save_fails, is_ok-esp_ok,
}
use smol_wi_fi_receiver.Esp.WebPortal.{
  Recv, Json, Doubles, Refusal, missing_fields, invalid_value, unsupported_country, refused, passed,
  receive_json, parse_body, not_saved, invalid_json,
}
use smol_wi_fi_receiver.Esp.WebPortal.Body.{Receives, receive_json-returns}
use smol_wi_fi_receiver.Esp.WebPortal.Country.{
  supported_country, supported_country-is_among, countries, is_among,
}
use smol_wi_fi_receiver.Esp.WebPortal.Config.{
  Submitted, toupper, upper_country, submitted, rejects_values, filled_config, config_of,
  config_handler,
}

-- What C says of doubles: comparing with an integer they equal is comparing that integer, and the
-- conversion has 16 bits.
pub record DoublesLaws {D : Type 0} (doubles : Doubles D) : Type 0 where
  pub equal_below : (d : D) (n m : ℕ) → doubles.equals d n ≡ true → doubles.below d m ≡ ltb n m
  pub in_16_bits : (d : D) → doubles.to_uint16 d < 2 ^ 16

module _ {D : Type 0} (doubles : Doubles D) where
  -- The configuration that a request asks for, and its limits.
  pub record IsAsked (s : Submitted D) (c : AppConfig) : Type 0 where
    pub configured_is : c.configured ≡ true
    pub ssid_is : c.ssid ≡ s.ssid
    pub ssid_fits : (0 < length c.ssid) × (length c.ssid ≤ 32)
    pub password_is : c.password ≡ s.password
    pub password_fits : length c.password ≤ 64
    pub country_is :
        (first : ℕ) × (second : ℕ) × (s.country ≡ first ∷ second ∷ [])
        × (c.country ≡ toupper first ∷ toupper second ∷ [])
        × (is_among (toupper first) (toupper second) countries ≡ true)
    pub server_is : c.server ≡ s.server
    pub server_fits : length c.server ≤ 64
    pub port_is : doubles.equals s.port c.server_port ≡ true
    pub port_in : (0 < c.server_port) × (c.server_port < 2 ^ 16)

take_all : (n : ℕ) (xs : List ℕ) → length xs ≤ n → take n xs ≡ xs
take_all zero [] h = refl
take_all zero (x ∷ xs) h = absurd (omega (arith, h))
take_all (suc n) [] h = refl
take_all (suc n) (x ∷ xs) h = ap (λ rest. x ∷ rest) (take_all n xs (omega arith))

two_letters :
    (xs : List ℕ) → length xs ≡ 2 → (first : ℕ) × (second : ℕ) × (xs ≡ first ∷ second ∷ [])
two_letters [] h = absurd (omega (arith, h))
two_letters (a ∷ []) h = absurd (omega (arith, h))
two_letters (a ∷ b ∷ []) h = (a, b, refl)
two_letters (a ∷ b ∷ c ∷ xs) h = absurd (omega (arith, h))

module _ {D : Type 0} (doubles : Doubles D) (laws : DoublesLaws doubles) where
  -- What passes the tests.
  limits :
      (s : Submitted D)
      → rejects_values doubles s ≡ false
      → (0 < length s.ssid)
        × (length s.ssid ≤ 32)
        × (length s.password ≤ 64)
        × (length s.country ≡ 2)
        × (length s.server ≤ 64)
        × (doubles.below s.port 1 ≡ false)
        × (doubles.equals s.port (doubles.to_uint16 s.port) ≡ true)
  unfolding rejects_values
  limits s fine = ground arith

  filled_config-IsAsked :
      (s : Submitted D)
      → rejects_values doubles s ≡ false
      → supported_country (filled_config doubles s).country ≡ true
      → IsAsked doubles s (filled_config doubles s)
  unfolding filled_config upper_country
  filled_config-IsAsked s fine supported =
      let (some_ssid, ssid_fits, password_fits, two, server_fits, not_below, same) =
        limits s fine in
      let (first, second, letters) = two_letters s.country two in
      record {
        configured_is = rw (take_all 32 s.ssid ssid_fits) (ground arith);
        ssid_is = take_all 32 s.ssid ssid_fits;
        ssid_fits = rw (take_all 32 s.ssid ssid_fits) (some_ssid, ssid_fits);
        password_is = take_all 64 s.password password_fits;
        password_fits = rw (take_all 64 s.password password_fits) password_fits;
        country_is = (
          first,
          second,
          letters,
          ap (λ c. upper_country (take 2 c)) letters,
          sym (supported_country-is_among (toupper first) (toupper second))
              ∙ ap (λ c. supported_country (upper_country (take 2 c))) (sym letters)
              ∙ supported,
        );
        server_is = take_all 64 s.server server_fits;
        server_fits = rw (take_all 64 s.server server_fits) server_fits;
        port_is = same;
        port_in = (
          ground (arith, laws.equal_below s.port (doubles.to_uint16 s.port) 1 same, not_below),
          laws.in_16_bits s.port,
        );
      }

  module _ {J I R S : Type 0} (json : Json J I D) (recv : Recv R) (nvs : ConfigNvs S) where
    config_of-IsAsked :
        (document : J)
        → ((why : Refusal) × (config_of json doubles document ≡ refused why))
          ⊎ ((s : Submitted D) × (c : AppConfig) × (config_of json doubles document ≡ passed c)
              × (submitted json document ≡ some s)
              × IsAsked doubles s c)
    unfolding config_of
    config_of-IsAsked document = elim (Option-cases (submitted json document)) [
      | inl missing ↦ rw (missing, config_of) (inl (missing_fields, refl))
      | inr (s, found) ↦ elim (Bool-cases (rejects_values doubles s)) [
        | inl bad ↦ rw (found, bad, config_of) (inl (invalid_value, refl))
        | inr fine ↦ elim (Bool-cases (supported_country (filled_config doubles s).country)) [
          | inr unknown ↦ rw (found, fine, unknown, config_of) (inl (unsupported_country, refl))
          | inl known ↦
              rw (found, fine, known, config_of)
                (inr (s, filled_config doubles s, refl, refl, filled_config-IsAsked s fine known))
        ]
      ]
    ]

    -- How the body comes out.
    received_document :
        (receives : Receives recv) (allocated : Bool) (content_len : ℕ) (r : R)
        → let out = (receive_json recv json allocated content_len r).0 in
          ((why : Refusal) × (out ≡ some (refused why)))
          ⊎ ((body : List ℕ) × (document : J) × (out ≡ some (passed document))
              × (length body ≡ content_len)
              × (json.parse body ≡ some document))
    received_document receives allocated content_len r =
        elim (receive_json-returns recv receives json allocated content_len r) [
          | inl (_, e) ↦ inl (_, e)
          | inr (inl (_, _, _, e)) ↦ inl (_, e)
          | inr (inr (_, _, _, inl (_, e))) ↦ inl (_, e)
          | inr (inr (_, _, _, inr (body, (size, _), e))) ↦ elim (Option-cases (json.parse body)) [
            | inl garbled ↦ inl (invalid_json, e ∙ rw (garbled, parse_body) refl)
            | inr (document, parsed) ↦
                inr (body, document, e ∙ rw (parsed, parse_body) refl, size, parsed)
          ]
        ]

    -- POST /api/config always gets an answer. Either it is an error, and the current configuration
    -- is unchanged; or the whole body was received and parsed, its five fields have the right types,
    -- and what is current then, and was saved without an error, is the configuration that they ask
    -- for: marked as configured, with an SSID of 1 to 32 bytes and the other strings within their
    -- arrays as they were sent, a country in upper case that is on the list, and the port that was
    -- sent, which is from 1 to 65535.
    pub config_handler-outcome :
        (receives : Receives recv) (allocated : Bool) (content_len : ℕ) (r : R) (st : Configured S)
        → let out = config_handler json doubles recv nvs allocated content_len r st in
          ((why : Refusal) × (after : Configured S) × (out ≡ some (some why, after))
            × (after.current ≡ st.current))
          ⊎ ((body : List ℕ) × (document : J) × (s : Submitted D) × (after : Configured S) × (out
                ≡ some (none, after))
              × (length body ≡ content_len)
              × (json.parse body ≡ some document)
              × (submitted json document ≡ some s)
              × IsAsked doubles s after.current
              × (app_config_save nvs after.current st ≡ (esp_ok, after)))
    unfolding config_handler
    config_handler-outcome receives allocated content_len r st =
        elim (received_document receives allocated content_len r) [
          | inl (why, e) ↦ rw (e, config_handler) (inl (why, st, refl, refl))
          | inr (body, document, e, size, parsed) ↦ elim (config_of-IsAsked document) [
            | inl (why, denied) ↦ rw (e, denied, config_handler) (inl (why, st, refl, refl))
            | inr (s, c, granted, found, asked) ↦
                elim (Bool-cases (is_ok (app_config_save nvs c st).0)) [
                  | inr fails ↦
                      rw (e, granted, fails, config_handler)
                        (inl (
                          not_saved,
                          (app_config_save nvs c st).1,
                          refl,
                          app_config_save_fails nvs c st fails,
                        ))
                  | inl saves ↦
                      let good = is_ok-esp_ok (app_config_save nvs c st).0 saves in
                      let current_is = (app_config_save-Saved nvs c st good).current_is in
                      rw (e, granted, saves, config_handler)
                        (inr (
                          body,
                          document,
                          s,
                          (app_config_save nvs c st).1,
                          refl,
                          size,
                          parsed,
                          found,
                          subst (IsAsked doubles s) (sym current_is) asked,
                          ap (λ c2. app_config_save nvs c2 st) current_is
                              ∙ (λ i. (good i, (app_config_save nvs c st).1)),
                        ))
                ]
          ]
        ]
