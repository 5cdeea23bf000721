-- ===== src/Protocol/Gateway/RoundTrip.antt =====
-- What the datagram decoder makes of the encoder's output.
use smol_wi_fi_receiver.Base.{
  ℕ, ◌+◌, ◌^◌, ◌≤◌, ◌<◌, List, [], ◌∷◌, ◌++◌, ◌≡◌, ap, ◌∙◌, some, false, arith, length, take, drop,
  take-append, length-append, replicate, inl, inr,
}
use smol_wi_fi_receiver.Base.Bytes.{
  pad, le16, le32, copy_at, copy_at-zeros, read_le16, read_le16-le16, read_le32-le32,
}
use smol_wi_fi_receiver.Protocol.Crc32.{sv_crc32_ieee}
use smol_wi_fi_receiver.Protocol.Crc32.Field.{append-Sealed}
use smol_wi_fi_receiver.Protocol.Gateway.{
  GatewayMessage, encode_refuses, sv_gateway_encode, sv_gateway_decode, header_rejects,
  body_rejects, gateway_fields, mismatched,
}
use smol_wi_fi_receiver.Protocol.Gateway.Layout.{
  IsSendable, HasArrays, datagram_body, datagram_layout, length-text,
}

-- The ranges of the C fields, the sizes of the arrays, and a shape that may be sent.
pub record IsMessage (m : GatewayMessage) : Type 0 where
  pub boot_id_in : m.boot_id < 2 ^ 32
  pub sequence_in : m.sequence < 2 ^ 32
  pub arrays : HasArrays m
  pub sendable : IsSendable m

abbrev pub on_wire : GatewayMessage → GatewayMessage
on_wire m = record m { payload = pad 512 (take m.payload_length m.payload) }

payload_length_in : (m : GatewayMessage) → IsSendable m → m.payload_length ≤ 512
payload_length_in m (inl s) = omega arith
payload_length_in m (inr s) = omega arith

-- The bytes of `datagram_layout`.
abbrev wire : GatewayMessage → List ℕ
wire m = datagram_body m ++ le32 (sv_crc32_ieee (datagram_body m) (28 + m.payload_length))

abbrev named : GatewayMessage → ℕ → ℕ → ℕ → ℕ → ℕ → ℕ → GatewayMessage
named m a b c d e f = record m { gateway_id = a ∷ b ∷ c ∷ d ∷ e ∷ f ∷ [] }

module _ (m : GatewayMessage) (a b c d e f : ℕ) (v : IsMessage (named m a b c d e f)) where
  abbrev n : ℕ
  n = m.payload_length

  abbrev sent : GatewayMessage
  sent = named m a b c d e f

  abbrev text : List ℕ
  text = take n m.payload

  abbrev check : List ℕ
  check = le32 (sv_crc32_ieee (datagram_body sent) (28 + n))

  small : n ≤ 512
  small = payload_length_in sent v.sendable

  length-body : length (datagram_body sent) ≡ 28 + n
  length-body = omega (arith, length-text m v.arrays.1 small)

  length-wire : length (wire sent) ≡ 28 + n + 4
  length-wire = omega (arith, length-append (datagram_body sent) check, length-body)

  header-accepted : header_rejects (wire sent) ≡ false
  unfolding header_rejects
  header-accepted =
      ground (arith, length-wire, read_le16-le16 28 (text ++ check) (omega arith), v.sendable)

  matched : mismatched m.kind n m.report_count ≡ false
  unfolding mismatched
  matched = ground (arith, v.sendable)

  body-accepted : body_rejects (wire sent) n ≡ false
  unfolding body_rejects
  body-accepted =
      ground (
        arith,
        length-wire,
        small,
        append-Sealed (28 + n) (datagram_body sent) length-body,
        matched,
      )

  measured : read_le16 (drop 24 (wire sent)) ≡ n
  measured = read_le16-le16 n (le16 28 ++ text ++ check) (omega (arith, small))

  fields-wire : gateway_fields (wire sent) n ≡ on_wire sent
  unfolding gateway_fields
  fields-wire = λ i. record {
    kind = m.kind;
    flags = m.flags;
    report_count = m.report_count;
    gateway_id = a ∷ b ∷ c ∷ d ∷ e ∷ f ∷ [];
    boot_id =
        read_le32-le32 m.boot_id (le32 m.sequence ++ le16 n ++ le16 28 ++ text ++ check)
          v.boot_id_in i;
    sequence = read_le32-le32 m.sequence (le16 n ++ le16 28 ++ text ++ check) v.sequence_in i;
    payload_length = n;
    payload = copied i;
  }
    where
      whole : length text ≡ n
      whole = length-text m v.arrays.1 small

      copied : copy_at (replicate 512 0) 0 (take n (text ++ check)) ≡ pad 512 text
      copied =
          ap (copy_at (replicate 512 0) 0) (take-append n text check whole)
          ∙ copy_at-zeros 512 text (omega (arith, whole, small))

  decode-wire : sv_gateway_decode (wire sent) ≡ some (on_wire sent)
  unfolding sv_gateway_decode
  decode-wire = rw (measured, header-accepted, body-accepted) (ap some fields-wire)

abbrev with_id : GatewayMessage → List ℕ → GatewayMessage
with_id m id = record m { gateway_id = id }

-- The same for an identity that is a list of six bytes.
decoded :
    (m : GatewayMessage) (id : List ℕ)
    → IsMessage (with_id m id)
    → sv_gateway_decode (wire (with_id m id)) ≡ some (on_wire (with_id m id))
decoded m (a ∷ b ∷ c ∷ d ∷ e ∷ f ∷ []) v = decode-wire m a b c d e f v
decoded m _ v = absurd (omega (arith, v.arrays.0))

sized :
    (m : GatewayMessage) (id : List ℕ)
    → IsMessage (with_id m id)
    → length (wire (with_id m id)) ≡ 32 + m.payload_length
sized m (a ∷ b ∷ c ∷ d ∷ e ∷ f ∷ []) v = omega (arith, length-wire m a b c d e f v)
sized m _ v = absurd (omega (arith, v.arrays.0))

accepted : (m : GatewayMessage) → IsSendable m → encode_refuses m ≡ false
unfolding encode_refuses
accepted m s = ground arith

-- Every message that may be sent, with fields in range, is encoded to 32 bytes and its payload,
-- and those bytes decode to it, the payload array zeroed behind the payload length.
pub sv_gateway_decode-encode :
    (m : GatewayMessage)
    → IsMessage m
    → (bytes : List ℕ) × (sv_gateway_encode m ≡ some bytes)
      × (length bytes ≡ 32 + m.payload_length)
      × (sv_gateway_decode bytes ≡ some (on_wire m))
unfolding sv_gateway_encode
sv_gateway_decode-encode m v = (wire m, encoded, sized m m.gateway_id v, decoded m m.gateway_id v)
  where
    encoded : sv_gateway_encode m ≡ some (wire m)
    encoded =
        rw (accepted m v.sendable)
          (ap some (datagram_layout m v.arrays (payload_length_in m v.sendable)))
