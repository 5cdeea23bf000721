-- ===== src/Protocol/Bridge/Layout.antt =====
-- The envelope as PROTOCOL.md lays it out, byte by byte, and what the encoder writes.
use smol_wi_fi_receiver.Base.{
  ℕ, List, [], ◌∷◌, ◌++◌, ◌≡◌, ◌≤◌, ap, ◌∙◌, arith, min, length, take, length-take, replicate,
  if◌then◌else◌, leb,
}
use smol_wi_fi_receiver.Base.Bytes.{
  pad, le16, le32, copy_at, copy_at-zeros, pad-append, length-pad, write_le32, write_le32-append,
}
use smol_wi_fi_receiver.Protocol.Crc32.{sv_crc32_ieee}
use smol_wi_fi_receiver.Protocol.Crc32.Laws.{sv_crc32_ieee-append}
use smol_wi_fi_receiver.Protocol.Bridge.{BridgeMessage, sv_bridge_encode}

-- The number of payload bytes that the envelope carries.
abbrev pub carried : BridgeMessage → ℕ
carried m = min m.payload_length 64

-- Bytes 0 to 75: magic, version, kind, flags, length, sequence, request ID, padded payload.
abbrev pub envelope_body : BridgeMessage → List ℕ
envelope_body m =
    b'S'
    ∷ b'V'
    ∷ b'B'
    ∷ b'1'
    ∷ 1
    ∷ m.kind
    ∷ m.flags
    ∷ carried m
    ∷ (le16 m.sequence ++ le16 m.request_id ++ pad 64 (take (carried m) m.payload))

pub length-carried : (m : BridgeMessage) → length (take (carried m) m.payload) ≤ 64
length-carried m = omega (arith, length-take (carried m) m.payload)

pub length-envelope_body : (m : BridgeMessage) → length (envelope_body m) ≡ 76
length-envelope_body m =
    omega (arith, length-pad 64 (take (carried m) m.payload) (length-carried m))

-- The first twelve bytes for a length byte `n`.
abbrev header : BridgeMessage → ℕ → List ℕ
header m n =
    b'S' ∷ b'V' ∷ b'B' ∷ b'1' ∷ 1 ∷ m.kind ∷ m.flags ∷ n ∷ (le16 m.sequence ++ le16 m.request_id)

-- The buffer just before the checksum is written.
abbrev filled : BridgeMessage → ℕ → List ℕ
filled m n = header m n ++ copy_at (replicate 68 0) 0 (take n m.payload)

abbrev sealed : List ℕ → List ℕ
sealed bytes = write_le32 bytes 76 (sv_crc32_ieee bytes 76)

clamp : (n : ℕ) → (if leb n 64 then n else 64) ≡ min n 64
clamp n = ground arith

encode-sealed : (m : BridgeMessage) → sv_bridge_encode m ≡ sealed (filled m (carried m))
unfolding sv_bridge_encode
encode-sealed m = ap (λ n. sealed (filled m n)) (clamp m.payload_length)

filled-body : (m : BridgeMessage) → filled m (carried m) ≡ envelope_body m ++ 0 ∷ 0 ∷ 0 ∷ 0 ∷ []
filled-body m = ap (◌++◌ (header m (carried m))) (
    copy_at-zeros 68 (take (carried m) m.payload) (omega (arith, length-carried m))
    ∙ pad-append 64 4 (take (carried m) m.payload) (length-carried m))

-- The encoder writes the documented body and its checksum behind it, for every message.
pub sv_bridge_encode_layout :
    (m : BridgeMessage)
    → sv_bridge_encode m ≡ envelope_body m ++ le32 (sv_crc32_ieee (envelope_body m) 76)
sv_bridge_encode_layout m =
    encode-sealed m
    ∙ ap sealed (filled-body m)
    ∙ write_le32-append (envelope_body m) 0 0 0 0
        (sv_crc32_ieee (envelope_body m ++ 0 ∷ 0 ∷ 0 ∷ 0 ∷ []) 76) 76 (length-envelope_body m)
    ∙ ap (λ c. envelope_body m ++ le32 c)
        (sv_crc32_ieee-append 76 (envelope_body m) (0 ∷ 0 ∷ 0 ∷ 0 ∷ []) (length-envelope_body m))
