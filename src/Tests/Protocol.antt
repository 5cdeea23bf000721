-- ===== src/Tests/Protocol.antt =====
-- The golden vectors of protocol/golden_vectors.h, the runs of tests/host/test_protocol.c, and the
-- theorems on the wire formats at concrete inputs.
use smol_wi_fi_receiver.Base.{
  ℕ, ◌≤◌, List, [], ◌∷◌, ◌++◌, true, none, some, ◌≡◌, refl, arith, length, set, take, replicate,
  inr,
}
use smol_wi_fi_receiver.Base.Bytes.{IsBytes, le32, write_le32, read_le16, read_le32}
use smol_wi_fi_receiver.Protocol.Crc32.{sv_crc32_ieee}
use smol_wi_fi_receiver.Protocol.Bridge.{BridgeMessage, sv_bridge_encode, sv_bridge_decode}
use smol_wi_fi_receiver.Protocol.Bridge.Layout.{envelope_body, sv_bridge_encode_layout}
use smol_wi_fi_receiver.Protocol.Bridge.RoundTrip.{
  IsMessage as IsEnvelope, on_wire as on_spi, sv_bridge_decode-encode, sv_bridge_decode-IsMessage,
}
use smol_wi_fi_receiver.Protocol.Bridge.Corruption.{sv_bridge_decode-set_ne}
use smol_wi_fi_receiver.Protocol.Gateway.{GatewayMessage, sv_gateway_encode, sv_gateway_decode}
use smol_wi_fi_receiver.Protocol.Gateway.Layout.{IsSendable, sv_gateway_encode-none_iff}
use smol_wi_fi_receiver.Protocol.Gateway.RoundTrip.{on_wire as on_udp, sv_gateway_decode-encode}
use smol_wi_fi_receiver.Protocol.Gateway.Corruption.{sv_gateway_decode-set_ne}
use smol_wi_fi_receiver.Protocol.Id48.{hex_value, sv_id48_format, sv_id48_parse}
use smol_wi_fi_receiver.Protocol.Id48.Laws.{sv_id48_parse-format}
use smol_wi_fi_receiver.Protocol.Id48.Canonical.{lower_text, sv_id48_format-parse}
use smol_wi_fi_receiver.Protocol.Replay.{
  sv_command_replay_init, sv_command_replay_find, sv_command_replay_store,
}
use smol_wi_fi_receiver.Protocol.Replay.Window.{sv_command_replay_init-IsCache, stores, find-stores}

abbrev pub golden_command : List ℕ
golden_command =
    0x53 ∷ 0x56 ∷ 0x42 ∷ 0x31 ∷ 0x01 ∷ 0x02 ∷ 0x00 ∷ 0x02 ∷ 0xff ∷ 0xff ∷ 0x34 ∷ 0x12 ∷ 0x08 ∷ 0x00
    ∷ 0x00 ∷ 0x00 ∷ 0x00 ∷ 0x00 ∷ 0x00 ∷ 0x00 ∷ 0x00 ∷ 0x00 ∷ 0x00 ∷ 0x00 ∷ 0x00 ∷ 0x00 ∷ 0x00
    ∷ 0x00 ∷ 0x00 ∷ 0x00 ∷ 0x00 ∷ 0x00 ∷ 0x00 ∷ 0x00 ∷ 0x00 ∷ 0x00 ∷ 0x00 ∷ 0x00 ∷ 0x00 ∷ 0x00
    ∷ 0x00 ∷ 0x00 ∷ 0x00 ∷ 0x00 ∷ 0x00 ∷ 0x00 ∷ 0x00 ∷ 0x00 ∷ 0x00 ∷ 0x00 ∷ 0x00 ∷ 0x00 ∷ 0x00
    ∷ 0x00 ∷ 0x00 ∷ 0x00 ∷ 0x00 ∷ 0x00 ∷ 0x00 ∷ 0x00 ∷ 0x00 ∷ 0x00 ∷ 0x00 ∷ 0x00 ∷ 0x00 ∷ 0x00
    ∷ 0x00 ∷ 0x00 ∷ 0x00 ∷ 0x00 ∷ 0x00 ∷ 0x00 ∷ 0x00 ∷ 0x00 ∷ 0x00 ∷ 0x00 ∷ 0xed ∷ 0x9a ∷ 0xe9
    ∷ 0x5e ∷ []

abbrev golden_hello : List ℕ
golden_hello =
    0x53 ∷ 0x56 ∷ 0x57 ∷ 0x31 ∷ 0x01 ∷ 0x03 ∷ 0x00 ∷ 0x00 ∷ 0x11 ∷ 0x22 ∷ 0x33 ∷ 0x44 ∷ 0x55 ∷ 0x66
    ∷ 0x00 ∷ 0x00 ∷ 0x12 ∷ 0x34 ∷ 0x56 ∷ 0x78 ∷ 0xff ∷ 0xff ∷ 0xff ∷ 0xff ∷ 0x00 ∷ 0x00 ∷ 0x1c
    ∷ 0x00 ∷ 0x62 ∷ 0xe7 ∷ 0x0a ∷ 0xf1 ∷ []

-- SET_RADIO_ENABLED off
abbrev pub set_radio : BridgeMessage
set_radio = record {
  kind = 2;
  flags = 0;
  payload_length = 2;
  sequence = 65535;
  request_id = 0x1234;
  payload = 8 ∷ replicate 63 0;
}

abbrev hello : GatewayMessage
hello = record {
  kind = 3;
  flags = 0;
  report_count = 0;
  gateway_id = 0x11 ∷ 0x22 ∷ 0x33 ∷ 0x44 ∷ 0x55 ∷ 0x66 ∷ [];
  boot_id = 0x78563412;
  sequence = 0xffffffff;
  payload_length = 0;
  payload = replicate 512 0;
}

crc_check :
    sv_crc32_ieee (b'1' ∷ b'2' ∷ b'3' ∷ b'4' ∷ b'5' ∷ b'6' ∷ b'7' ∷ b'8' ∷ b'9' ∷ []) 9 ≡ 0xcbf43926
unfolding sv_crc32_ieee
crc_check = refl

encode_golden : sv_bridge_encode set_radio ≡ golden_command
unfolding sv_bridge_encode sv_crc32_ieee write_le32
encode_golden = refl

pub decode_golden : sv_bridge_decode golden_command ≡ some set_radio
unfolding sv_bridge_decode sv_crc32_ieee read_le16 read_le32
decode_golden = refl

encode_hello : sv_gateway_encode hello ≡ some golden_hello
unfolding sv_gateway_encode sv_crc32_ieee
encode_hello = refl

decode_hello : sv_gateway_decode golden_hello ≡ some hello
unfolding sv_gateway_decode sv_crc32_ieee read_le16 read_le32
decode_hello = refl

hello_with_reports : sv_gateway_encode (record hello { report_count = 1 }) ≡ none
unfolding sv_gateway_encode
hello_with_reports = refl

pub golden_command-IsBytes : IsBytes golden_command
golden_command-IsBytes = omega arith

sv_bridge_encode_layout_example :
    sv_bridge_encode set_radio
    ≡ envelope_body set_radio ++ le32 (sv_crc32_ieee (envelope_body set_radio) 76)
sv_bridge_encode_layout_example = sv_bridge_encode_layout set_radio

sv_bridge_decode-encode_example :
    sv_bridge_decode (sv_bridge_encode set_radio) ≡ some (on_spi set_radio)
sv_bridge_decode-encode_example = sv_bridge_decode-encode set_radio (omega arith)

sv_bridge_decode-IsMessage_example :
    IsEnvelope set_radio × (2 ≤ 64) × (on_spi set_radio ≡ set_radio) × IsBytes set_radio.payload
sv_bridge_decode-IsMessage_example =
    sv_bridge_decode-IsMessage golden_command golden_command-IsBytes refl decode_golden

sv_bridge_decode-set_ne_example : sv_bridge_decode (set golden_command 79 0) ≡ none
sv_bridge_decode-set_ne_example =
    sv_bridge_decode-set_ne golden_command 79 0 golden_command-IsBytes refl decode_golden
      (omega arith) (omega arith) (omega arith)

sv_gateway_encode-none_iff_example :
    (sv_gateway_encode hello ≡ none → ¬ IsSendable hello)
    × (¬ IsSendable hello → sv_gateway_encode hello ≡ none)
sv_gateway_encode-none_iff_example = sv_gateway_encode-none_iff hello

sv_gateway_decode-encode_example :
    (bytes : List ℕ) × (sv_gateway_encode hello ≡ some bytes)
    × (length bytes ≡ 32)
    × (sv_gateway_decode bytes ≡ some (on_udp hello))
sv_gateway_decode-encode_example = sv_gateway_decode-encode hello (record {
  boot_id_in = omega arith;
  sequence_in = omega arith;
  arrays = (refl, refl);
  sendable = inr (omega arith);
})

sv_gateway_decode-set_ne_example : sv_gateway_decode (set golden_hello 10 0x32) ≡ none
sv_gateway_decode-set_ne_example =
    sv_gateway_decode-set_ne golden_hello 10 0x32 (omega arith) decode_hello (omega arith)
      (omega arith) (omega arith)

abbrev address : List ℕ
address = 0xf5 ∷ 0xa5 ∷ 0xe8 ∷ 0x6f ∷ 0x04 ∷ 0xa5 ∷ []

-- "A5046FE8A5F5"
abbrev upper_text : List ℕ
upper_text = b'A' ∷ b'5' ∷ b'0' ∷ b'4' ∷ b'6' ∷ b'F' ∷ b'E' ∷ b'8' ∷ b'A' ∷ b'5' ∷ b'F' ∷ b'5' ∷ []

parse_upper : sv_id48_parse (replicate 6 0) upper_text ≡ (true, address)
unfolding sv_id48_parse hex_value
parse_upper = refl

sv_id48_parse-format_example :
    sv_id48_parse (replicate 6 0) (take 12 (sv_id48_format (replicate 13 0) address))
    ≡ (true, address)
sv_id48_parse-format_example =
    sv_id48_parse-format (replicate 13 0) (replicate 6 0) address refl refl refl (omega arith)

sv_id48_format-parse_example :
    (length address ≡ 6)
    × IsBytes address
    × (sv_id48_format (replicate 13 0) address ≡ lower_text upper_text ++ (0 ∷ []))
sv_id48_format-parse_example =
    sv_id48_format-parse (replicate 13 0) (replicate 6 0) upper_text address refl refl parse_upper

nothing_cached : sv_command_replay_find sv_command_replay_init 7 ≡ none
unfolding sv_command_replay_find sv_command_replay_init
nothing_cached = refl

find-stores_example :
    sv_command_replay_find
      (stores
        (sv_command_replay_store sv_command_replay_init 7 set_radio)
        ((8, set_radio) ∷ (9, set_radio) ∷ []))
      7
    ≡ some set_radio
find-stores_example =
    find-stores sv_command_replay_init 7 set_radio ((8, set_radio) ∷ (9, set_radio) ∷ [])
      sv_command_replay_init-IsCache nothing_cached (omega arith)
