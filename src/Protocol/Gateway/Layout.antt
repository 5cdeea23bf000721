-- ===== src/Protocol/Gateway/Layout.antt =====
-- The datagram as PROTOCOL.md lays it out, and what the encoder writes.
use smol_wi_fi_receiver.Base.{
  ℕ, suc, ◌+◌, ◌-◌, ◌*◌, ◌≤◌, List, [], ◌∷◌, ◌++◌, ◌≡◌, ◌⊎◌, ◌↔◌, none, ap, sym, refl, append_assoc,
  length-append, ◌∙◌, arith, length, take, length-take, replicate,
}
use smol_wi_fi_receiver.Base.Bytes.{
  le16, le32, copy_at, copy_at-zeros, write_le32, write_le32-append,
}
use smol_wi_fi_receiver.Protocol.Crc32.{sv_crc32_ieee}
use smol_wi_fi_receiver.Protocol.Crc32.Laws.{sv_crc32_ieee-append}
use smol_wi_fi_receiver.Protocol.Gateway.{GatewayMessage, datagram, sv_gateway_encode}

-- What PROTOCOL.md allows to be sent: a report batch with 64 bytes for each of at most eight
-- reports, or one of the four other kinds with no payload.
abbrev pub IsSendable : GatewayMessage → Type 0
IsSendable m =
    (m.kind ≡ 5) × (m.report_count ≤ 8) × (m.payload_length ≡ m.report_count * 64)
    ⊎ (1 ≤ m.kind) × (m.kind ≤ 4) × (m.report_count ≡ 0) × (m.payload_length ≡ 0)

-- The encoder refuses exactly the messages that may not be sent.
pub sv_gateway_encode-none_iff :
    (m : GatewayMessage) → (sv_gateway_encode m ≡ none) ↔ (¬ IsSendable m)
unfolding sv_gateway_encode
sv_gateway_encode-none_iff m = ground arith

-- The sizes of the C arrays.
abbrev pub HasArrays : GatewayMessage → Type 0
HasArrays m = (length m.gateway_id ≡ 6) × (length m.payload ≡ 512)

-- The first 28 bytes, and all that the checksum covers.
abbrev pub datagram_header : GatewayMessage → List ℕ → List ℕ
datagram_header m id =
    b'S'
    ∷ b'V'
    ∷ b'W'
    ∷ b'1'
    ∷ 1
    ∷ m.kind
    ∷ m.flags
    ∷ m.report_count
    ∷ (id ++ (0 ∷ 0 ∷ (le32 m.boot_id ++ le32 m.sequence ++ le16 m.payload_length ++ le16 28)))

abbrev pub datagram_body : GatewayMessage → List ℕ
datagram_body m = datagram_header m m.gateway_id ++ take m.payload_length m.payload

abbrev sealed : ℕ → List ℕ → List ℕ
sealed n bytes = write_le32 bytes n (sv_crc32_ieee bytes n)

abbrev past_header : ℕ → ℕ
past_header n = suc (
    suc (
      suc (
        suc (
          suc (
            suc (
              suc (
                suc (
                  suc (
                    suc (
                      suc (
                        suc (
                          suc (
                            suc (
                              suc (
                                suc (
                                  suc (
                                    suc (
                                      suc (
                                        suc (
                                          suc (
                                            suc (
                                              suc (
                                                suc (suc (suc (suc (suc n)))))))))))))))))))))))))))

pub length-text :
    (m : GatewayMessage)
    → length m.payload ≡ 512
    → m.payload_length ≤ 512
    → length (take m.payload_length m.payload) ≡ m.payload_length
length-text m size small = omega (arith, length-take m.payload_length m.payload)

-- The buffer just before the checksum is written, for an identity of six bytes.
abbrev filled : GatewayMessage → List ℕ → List ℕ
filled m id =
    datagram_header m id
    ++ copy_at (replicate (m.payload_length + 4) 0) 0 (take m.payload_length m.payload)

filled-body :
    (m : GatewayMessage) (id : List ℕ)
    → length m.payload ≡ 512
    → m.payload_length ≤ 512
    → filled m id ≡ (datagram_header m id ++ take m.payload_length m.payload) ++ 0 ∷ 0 ∷ 0 ∷ 0 ∷ []
filled-body m id size small =
    ap (◌++◌ (datagram_header m id)) (
      copy_at-zeros (m.payload_length + 4) (take m.payload_length m.payload)
        (omega (arith, length-text m size small))
      ∙ ap (λ k. take m.payload_length m.payload ++ replicate k 0)
          {x = m.payload_length + 4 - length (take m.payload_length m.payload)} {y = 4}
          (omega (arith, length-text m size small)))
    ∙ sym
        (append_assoc (datagram_header m id) (take m.payload_length m.payload) (0 ∷ 0 ∷ 0 ∷ 0 ∷ []))

abbrev LayoutAt : GatewayMessage → List ℕ → Type 0
LayoutAt m id =
    let body = datagram_header m id ++ take m.payload_length m.payload in
    datagram (record m { gateway_id = id }) (28 + m.payload_length + 4)
    ≡ body ++ le32 (sv_crc32_ieee body (28 + m.payload_length))

sealed-layout :
    (m : GatewayMessage) (id : List ℕ)
    → length (datagram_header m id) ≡ 28
    → length m.payload ≡ 512
    → m.payload_length ≤ 512
    → datagram (record m { gateway_id = id }) (28 + m.payload_length + 4)
      ≡ sealed (28 + m.payload_length) (filled m id)
    → LayoutAt m id
sealed-layout m id header size small built =
    built
    ∙ ap (sealed n) (filled-body m id size small)
    ∙ write_le32-append body 0 0 0 0 (sv_crc32_ieee (body ++ 0 ∷ 0 ∷ 0 ∷ 0 ∷ []) n) n whole
    ∙ ap (λ c. body ++ le32 c) (sv_crc32_ieee-append n body (0 ∷ 0 ∷ 0 ∷ 0 ∷ []) whole)
  where
    n : ℕ
    n = 28 + m.payload_length

    body : List ℕ
    body = datagram_header m id ++ take m.payload_length m.payload

    whole : length body ≡ n
    whole = omega (
      arith,
      length-append (datagram_header m id) (take m.payload_length m.payload),
      header,
      length-text m size small,
    )

layout_at :
    (m : GatewayMessage) (id : List ℕ)
    → length id ≡ 6
    → length m.payload ≡ 512
    → m.payload_length ≤ 512
    → LayoutAt m id
unfolding datagram
layout_at m (a ∷ b ∷ c ∷ d ∷ e ∷ f ∷ []) six size small =
    sealed-layout m (a ∷ b ∷ c ∷ d ∷ e ∷ f ∷ []) refl size small (
      ap (datagram (record m { gateway_id = a ∷ b ∷ c ∷ d ∷ e ∷ f ∷ [] }))
        {x = 28 + m.payload_length + 4} {y = past_header (m.payload_length + 4)} (omega arith))
layout_at m _ six size small = absurd (omega arith)

-- The encoder writes the documented header, the payload and the checksum behind them.
pub datagram_layout :
    (m : GatewayMessage)
    → HasArrays m
    → m.payload_length ≤ 512
    → datagram m (28 + m.payload_length + 4)
      ≡ datagram_body m ++ le32 (sv_crc32_ieee (datagram_body m) (28 + m.payload_length))
datagram_layout m arrays small = layout_at m m.gateway_id arrays.0 arrays.1 small
