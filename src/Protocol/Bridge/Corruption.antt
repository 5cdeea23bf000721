-- ===== src/Protocol/Bridge/Corruption.antt =====
-- Damage on the SPI link: what the checksum of an envelope rejects.
use smol_wi_fi_receiver.Base.{ℕ, ◌<◌, List, ◌≡◌, ◌≢◌, some, none, arith, length, set}
use smol_wi_fi_receiver.Base.Bytes.{IsBytes, byte_at}
use smol_wi_fi_receiver.Protocol.Crc32.Field.{Sealed, Sealed-set_ne}
use smol_wi_fi_receiver.Protocol.Bridge.{BridgeMessage, sv_bridge_decode}

accepted-Sealed :
    (input : List ℕ) {m : BridgeMessage} → sv_bridge_decode input ≡ some m → Sealed 76 input
unfolding sv_bridge_decode
accepted-Sealed input h = ground arith

not-Sealed-rejected : (input : List ℕ) → ¬ Sealed 76 input → sv_bridge_decode input ≡ none
unfolding sv_bridge_decode
not-Sealed-rejected input h = ground arith

-- If an 80-byte envelope decodes, then after overwriting any one byte, of the content or of the
-- checksum, by another byte value it does not decode.
pub sv_bridge_decode-set_ne :
    (input : List ℕ) (i v : ℕ) {m : BridgeMessage}
    → IsBytes input
    → length input ≡ 80
    → sv_bridge_decode input ≡ some m
    → i < 80
    → v < 256
    → byte_at input i ≢ v
    → sv_bridge_decode (set input i v) ≡ none
sv_bridge_decode-set_ne input i v bytes size ok h hv ne =
    not-Sealed-rejected (set input i v)
      (Sealed-set_ne 76 input i v size bytes h hv ne (accepted-Sealed input ok))
