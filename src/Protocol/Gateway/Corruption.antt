-- ===== src/Protocol/Gateway/Corruption.antt =====
-- What the datagram decoder guarantees of what it accepts, and what it rejects.
use smol_wi_fi_receiver.Base.{
  ℕ, ◌+◌, ◌^◌, ◌*◌, ◌≤◌, ◌<◌, List, ◌≡◌, ◌≢◌, some, none, true, false, arith, length, set, inl, inr,
  drop, length-set, Option-cases, Bool, if◌then◌else◌, subst, refl, ◌∙◌, ◌⊎◌,
}
use smol_wi_fi_receiver.Base.Bytes.{IsBytes, byte_at, read_le16}
use smol_wi_fi_receiver.Protocol.Crc32.Field.{Sealed, Sealed-set_ne}
use smol_wi_fi_receiver.Protocol.Gateway.{
  GatewayMessage, sv_gateway_decode, header_rejects, body_rejects, gateway_fields, mismatched,
}
use smol_wi_fi_receiver.Protocol.Gateway.Layout.{IsSendable}

-- The payload length that the header declares.
abbrev declared : List ℕ → ℕ
declared input = read_le16 (drop 24 input)

-- Two guards in a row, both passed.
passed {ℓ} :
    {A : Type ℓ} (first second : Bool) (x : A) {y : A}
    → (if first then none else if second then none else some x) ≡ some y
    → (first ≡ false) × (second ≡ false) × (x ≡ y)
passed true second x h = cc
passed false true x h = cc
passed false false x h = (refl, refl, ground arith)

decode_passed :
    (input : List ℕ) {m : GatewayMessage}
    → sv_gateway_decode input ≡ some m
    → (header_rejects input ≡ false)
      × (body_rejects input (declared input) ≡ false)
      × (gateway_fields input (declared input) ≡ m)
unfolding sv_gateway_decode
decode_passed input h =
    passed (header_rejects input) (body_rejects input (declared input))
      (gateway_fields input (declared input)) h

body_passed :
    (input : List ℕ) (n : ℕ)
    → body_rejects input n ≡ false
    → (length input ≡ 28 + n + 4)
      × Sealed (28 + n) input
      × (mismatched (byte_at input 5) n (byte_at input 7) ≡ false)
unfolding body_rejects
body_passed input n h = unfold mismatched in ground arith

header_passed :
    (input : List ℕ)
    → header_rejects input ≡ false
    → (1 ≤ byte_at input 5) × (byte_at input 5 ≤ 5) × (byte_at input 7 ≤ 8)
unfolding header_rejects
header_passed input h = ground arith

-- The tests that an accepted datagram has passed.
accepted :
    (input : List ℕ) {m : GatewayMessage}
    → sv_gateway_decode input ≡ some m
    → (length input ≡ 28 + declared input + 4) × Sealed (28 + declared input) input
accepted input h =
    let found = body_passed input (declared input) (decode_passed input h).1 in (found.0, found.1)

-- A datagram of the declared length plus 32 bytes that is not sealed is not accepted.
damaged :
    (input : List ℕ) (n : ℕ)
    → length input ≡ 28 + n + 4
    → ¬ Sealed (28 + n) input
    → sv_gateway_decode input ≡ none
damaged input n size broken = elim (Option-cases (sv_gateway_decode input)) [
  | inl rejected ↦ rejected
  | inr (m, taken) ↦
      let found = accepted input taken in
      let same : declared input ≡ n = omega (arith, found.0, size) in
      absurd (broken (rw same at found.1))
]

-- If a datagram decodes, then after overwriting any one byte, of the header, the payload or the
-- checksum, by another byte value it does not decode.
pub sv_gateway_decode-set_ne :
    (input : List ℕ) (i v : ℕ) {m : GatewayMessage}
    → IsBytes input
    → sv_gateway_decode input ≡ some m
    → i < length input
    → v < 256
    → byte_at input i ≢ v
    → sv_gateway_decode (set input i v) ≡ none
sv_gateway_decode-set_ne input i v bytes ok h hv ne =
    damaged (set input i v) n (length-set input i v ∙ found.0)
      (Sealed-set_ne (28 + n) input i v found.0 bytes (omega (arith, found.0)) hv ne found.1)
  where
    n : ℕ
    n = declared input

    found : (length input ≡ 28 + n + 4) × Sealed (28 + n) input
    found = accepted input ok

read_le16-lt : (bytes : List ℕ) → read_le16 bytes < 2 ^ 16
unfolding read_le16
read_le16-lt bytes = omega arith

-- Whatever the decoder accepts is a message that may be sent: a report batch of at most eight
-- reports with 64 bytes for each, or another kind with no payload; and it came in a datagram of
-- exactly 32 bytes more than the payload.
sv_gateway_decode-IsSendable :
    (input : List ℕ) {m : GatewayMessage}
    → sv_gateway_decode input ≡ some m
    → IsSendable m × (length input ≡ 32 + m.payload_length)
sv_gateway_decode-IsSendable input h =
    let found = decode_passed input h in
    let header = header_passed input found.0 in
    let body = body_passed input (declared input) found.1 in
    subst (λ m. IsSendable m × (length input ≡ 32 + m.payload_length)) found.2
      (unfold gateway_fields in
        (
          shape (byte_at input 5) (declared input) (byte_at input 7) header body.2,
          omega (arith, body.0),
        ))
  where
    shape :
        (kind n count : ℕ)
        → (1 ≤ kind) × (kind ≤ 5) × (count ≤ 8)
        → mismatched kind n count ≡ false
        → (kind ≡ 5) × (count ≤ 8) × (n ≡ count * 64)
          ⊎ (1 ≤ kind) × (kind ≤ 4) × (count ≡ 0) × (n ≡ 0)
    shape kind n count h e = unfold mismatched in ground arith
