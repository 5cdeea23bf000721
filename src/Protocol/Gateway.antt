-- ===== src/Protocol/Gateway.antt =====
-- protocol/gateway_protocol.h and protocol/gateway_protocol.c: the UDP datagram between the
-- gateway and the host.
pub mod Kind
pub mod Layout
pub mod RoundTrip
pub mod Corruption
use smol_wi_fi_receiver.Base.{
  ℕ, ◌+◌, ◌*◌, List, [], ◌∷◌, Bool, Option, none, some, ◌||◌, ◌&&◌, not, ltb, ◌==◌, ◌!=◌,
  if◌then◌else◌, set, take, drop, replicate, length,
}
use smol_wi_fi_receiver.Base.Bytes.{
  byte_at, copy_at, same_bytes, read_le16, read_le32, write_le16, write_le32,
}
use smol_wi_fi_receiver.Protocol.Crc32.{sv_crc32_ieee}

abbrev pub gateway_version : ℕ
gateway_version = 1

abbrev pub gateway_header_size : ℕ
gateway_header_size = 28

abbrev pub gateway_max_reports : ℕ
gateway_max_reports = 8

-- `SV_SMOL_REPORT_SIZE` of protocol/smol_report.h
abbrev pub smol_report_size : ℕ
smol_report_size = 64

abbrev pub gateway_max_payload : ℕ
gateway_max_payload = gateway_max_reports * smol_report_size

-- `struct sv_gateway_message`; `gateway_id` and `payload` are the whole arrays.
pub record GatewayMessage : Type 0 where
  pub kind : ℕ
  pub flags : ℕ
  pub report_count : ℕ
  pub gateway_id : List ℕ
  pub boot_id : ℕ
  pub sequence : ℕ
  pub payload_length : ℕ
  pub payload : List ℕ

-- "SVW1"
abbrev pub gateway_magic : List ℕ
gateway_magic = b'S' ∷ b'V' ∷ b'W' ∷ b'1' ∷ []

-- The relation of kind, report count and payload length that both directions refuse.
unfoldable pub mismatched : ℕ → ℕ → ℕ → Bool
mismatched kind payload_length report_count =
    (kind == Kind.report_batch && payload_length != report_count * smol_report_size)
    || (kind != Kind.report_batch && (payload_length != 0 || report_count != 0))

-- The test on which `sv_gateway_encode` returns 0.
unfoldable pub encode_refuses : GatewayMessage → Bool
unfolding mismatched
encode_refuses message =
    ltb message.kind Kind.discover
    || ltb Kind.report_batch message.kind
    || ltb gateway_max_payload message.payload_length
    || ltb gateway_max_reports message.report_count
    || mismatched message.kind message.payload_length message.report_count

-- The writes in the order of the source, over the first `total` bytes of `output`.
unfoldable pub datagram : GatewayMessage → ℕ → List ℕ
unfolding write_le16 write_le32
datagram message total =
    let payload_length = message.payload_length in
    let zeroed = replicate total 0 in
    let magic = copy_at zeroed 0 gateway_magic in
    let version = set magic 4 gateway_version in
    let kind = set version 5 message.kind in
    let flags = set kind 6 message.flags in
    let counted = set flags 7 message.report_count in
    let named = copy_at counted 8 message.gateway_id in
    let booted = write_le32 named 16 message.boot_id in
    let numbered = write_le32 booted 20 message.sequence in
    let measured = write_le16 numbered 24 payload_length in
    let header = write_le16 measured 26 gateway_header_size in
    let filled = copy_at header gateway_header_size (take payload_length message.payload) in
    write_le32 filled (gateway_header_size + payload_length)
      (sv_crc32_ieee filled (gateway_header_size + payload_length))

-- `none` is the return value 0; otherwise the bytes written, as many as the return value says.
unfoldable pub sv_gateway_encode : GatewayMessage → Option (List ℕ)
unfolding encode_refuses datagram
sv_gateway_encode message =
    if encode_refuses message
    then none
    else some (datagram message (gateway_header_size + message.payload_length + 4))

-- The tests on which `sv_gateway_decode` returns false: those on the header alone, which also
-- run if the datagram is too short for the header, and those with the payload length.
unfoldable pub header_rejects : List ℕ → Bool
header_rejects input =
    ltb (length input) (gateway_header_size + 4)
    || not (same_bytes (take 4 input) gateway_magic)
    || byte_at input 4 != gateway_version
    || ltb (byte_at input 5) Kind.discover
    || ltb Kind.report_batch (byte_at input 5)
    || ltb gateway_max_reports (byte_at input 7)
    || read_le16 (drop 26 input) != gateway_header_size

unfoldable pub body_rejects : List ℕ → ℕ → Bool
unfolding mismatched
body_rejects input payload_length =
    ltb gateway_max_payload payload_length
    || length input != gateway_header_size + payload_length + 4
    || read_le32 (drop (gateway_header_size + payload_length) input)
      != sv_crc32_ieee input (gateway_header_size + payload_length)
    || mismatched (byte_at input 5) payload_length (byte_at input 7)

unfoldable pub gateway_fields : List ℕ → ℕ → GatewayMessage
gateway_fields input payload_length = record {
  kind = byte_at input 5;
  flags = byte_at input 6;
  report_count = byte_at input 7;
  gateway_id = take 6 (drop 8 input);
  boot_id = read_le32 (drop 16 input);
  sequence = read_le32 (drop 20 input);
  payload_length = payload_length;
  payload =
      copy_at (replicate gateway_max_payload 0) 0
        (take payload_length (drop gateway_header_size input));
}

-- The list is the `length` bytes of `input`; `none` is the return value false.
unfoldable pub sv_gateway_decode : List ℕ → Option GatewayMessage
unfolding header_rejects body_rejects gateway_fields
sv_gateway_decode input =
    let payload_length = read_le16 (drop 24 input) in
    if header_rejects input
    then none
    else if body_rejects input payload_length
    then none
    else some (gateway_fields input payload_length)
