-- ===== src/Protocol/Bridge.antt =====
-- protocol/bridge_protocol.h and protocol/bridge_protocol.c: the 80-byte envelope of the SPI link.
pub mod Kind
pub mod Layout
pub mod RoundTrip
pub mod Corruption
use smol_wi_fi_receiver.Base.{
  ℕ, ◌+◌, List, [], ◌∷◌, Bool, Option, none, some, ◌||◌, not, leb, ltb, ◌!=◌, if◌then◌else◌, set,
  take, drop, replicate,
}
use smol_wi_fi_receiver.Base.Bytes.{
  byte_at, copy_at, same_bytes, read_le16, read_le32, write_le16, write_le32,
}
use smol_wi_fi_receiver.Protocol.Crc32.{sv_crc32_ieee}

abbrev pub bridge_version : ℕ
bridge_version = 1

abbrev pub bridge_payload_size : ℕ
bridge_payload_size = 64

abbrev pub bridge_envelope_size : ℕ
bridge_envelope_size = 80

-- `SV_BRIDGE_FLAG_MORE_PENDING` and `SV_BRIDGE_FLAG_ERROR`
abbrev pub flag_more_pending : ℕ
flag_more_pending = 1

abbrev pub flag_error : ℕ
flag_error = 2

-- `struct sv_bridge_message`; `payload` is the whole array of 64 bytes.
pub record BridgeMessage : Type 0 where
  pub kind : ℕ
  pub flags : ℕ
  pub payload_length : ℕ
  pub sequence : ℕ
  pub request_id : ℕ
  pub payload : List ℕ

-- "SVB1"
abbrev pub bridge_magic : List ℕ
bridge_magic = b'S' ∷ b'V' ∷ b'B' ∷ b'1' ∷ []

-- The writes in the order of the source; the buffer is the 80 bytes of `output`.
unfoldable pub sv_bridge_encode : BridgeMessage → List ℕ
unfolding write_le16
sv_bridge_encode message =
    let zeroed = replicate bridge_envelope_size 0 in
    let magic = copy_at zeroed 0 bridge_magic in
    let version = set magic 4 bridge_version in
    let kind = set version 5 message.kind in
    let flags = set kind 6 message.flags in
    let length =
      if leb message.payload_length bridge_payload_size
      then message.payload_length
      else bridge_payload_size in
    let counted = set flags 7 length in
    let numbered = write_le16 counted 8 message.sequence in
    let requested = write_le16 numbered 10 message.request_id in
    let filled = copy_at requested 12 (take (byte_at requested 7) message.payload) in
    write_le32 filled 76 (sv_crc32_ieee filled 76)

-- The test on which `sv_bridge_decode` returns false.
unfoldable pub bridge_rejects : List ℕ → Bool
bridge_rejects input =
    not (same_bytes (take 4 input) bridge_magic)
    || byte_at input 4 != bridge_version
    || ltb Kind.status_event (byte_at input 5)
    || ltb bridge_payload_size (byte_at input 7)
    || read_le32 (drop 76 input) != sv_crc32_ieee input 76

-- What is read into `*message` otherwise.
unfoldable pub bridge_fields : List ℕ → BridgeMessage
bridge_fields input = record {
  kind = byte_at input 5;
  flags = byte_at input 6;
  payload_length = byte_at input 7;
  sequence = read_le16 (drop 8 input);
  request_id = read_le16 (drop 10 input);
  payload = copy_at (replicate bridge_payload_size 0) 0 (take (byte_at input 7) (drop 12 input));
}

-- `none` is the return value false, on which `*message` is left as it was.
unfoldable pub sv_bridge_decode : List ℕ → Option BridgeMessage
unfolding bridge_rejects bridge_fields
sv_bridge_decode input = if bridge_rejects input then none else some (bridge_fields input)
