-- ===== src/Protocol/Bridge/RoundTrip.antt =====
-- What the decoder makes of the encoder's output, and what it accepts at all.
use smol_wi_fi_receiver.Base.{
  ℕ, ◌^◌, ◌≤◌, ◌<◌, List, ◌++◌, ◌≡◌, ap, ◌∙◌, some, false, arith, length, take, replicate, ◌-◌,
  take-append, length-take, append_assoc, min, sym, drop, subst, length-drop, All-take, All-drop,
}
use smol_wi_fi_receiver.Base.Bytes.{IsByte, read_le16, byte_at, IsBytes, length-pad, pad-IsBytes}
use smol_wi_fi_receiver.Base.Bytes.{pad, le16, le32, copy_at, copy_at-zeros, read_le16-le16}
use smol_wi_fi_receiver.Protocol.Crc32.{sv_crc32_ieee}
use smol_wi_fi_receiver.Protocol.Crc32.Field.{append-Sealed}
use smol_wi_fi_receiver.Protocol.Bridge.{
  BridgeMessage, sv_bridge_encode, sv_bridge_decode, bridge_rejects, bridge_fields,
}
use smol_wi_fi_receiver.Protocol.Bridge.Layout.{
  carried, envelope_body, length-envelope_body, sv_bridge_encode_layout, length-carried,
}

-- The ranges of the C fields, and a kind that the enumeration names.
pub record IsMessage (m : BridgeMessage) : Type 0 where
  pub kind_in : m.kind ≤ 4
  pub sequence_in : m.sequence < 2 ^ 16
  pub request_id_in : m.request_id < 2 ^ 16
  pub payload_size : length m.payload ≡ 64

-- The message with its length clamped and the payload behind it zeroed.
abbrev pub on_wire : BridgeMessage → BridgeMessage
on_wire m = record m { payload_length = carried m; payload = pad 64 (take (carried m) m.payload) }

abbrev envelope : BridgeMessage → List ℕ
envelope m = envelope_body m ++ le32 (sv_crc32_ieee (envelope_body m) 76)

pub fields-envelope : (m : BridgeMessage) → IsMessage m → bridge_fields (envelope m) ≡ on_wire m
unfolding bridge_fields
fields-envelope m v = λ i. record {
  kind = m.kind;
  flags = m.flags;
  payload_length = carried m;
  sequence = read_le16-le16 m.sequence (le16 m.request_id ++ rest) v.sequence_in i;
  request_id = read_le16-le16 m.request_id rest v.request_id_in i;
  payload = copied i;
}
  where
    text : List ℕ
    text = take (carried m) m.payload

    check : List ℕ
    check = le32 (sv_crc32_ieee (envelope_body m) 76)

    rest : List ℕ
    rest = pad 64 text ++ check

    text_back : take (carried m) rest ≡ text
    text_back =
        ap (take (carried m)) (append_assoc text (replicate (64 - length text) 0) check)
        ∙ take-append (carried m) text (replicate (64 - length text) 0 ++ check)
            (omega (arith, length-take (carried m) m.payload))

    copied : copy_at (replicate 64 0) 0 (take (carried m) rest) ≡ pad 64 text
    copied = ap (copy_at (replicate 64 0) 0) text_back ∙ copy_at-zeros 64 text (length-carried m)

pub accepts-envelope : (m : BridgeMessage) → IsMessage m → bridge_rejects (envelope m) ≡ false
unfolding bridge_rejects
accepts-envelope m v = ground (arith, append-Sealed 76 (envelope_body m) (length-envelope_body m))

-- Decoding an encoded message gives it back, its length clamped to 64 and its payload zeroed
-- behind that length, for every message with a known kind, 16-bit numbers and a 64-byte payload.
pub sv_bridge_decode-encode :
    (m : BridgeMessage) → IsMessage m → sv_bridge_decode (sv_bridge_encode m) ≡ some (on_wire m)
unfolding sv_bridge_decode
sv_bridge_decode-encode m v =
    rw (sv_bridge_encode_layout m, accepts-envelope m v) (ap some (fields-envelope m v))

read_le16-lt : (bytes : List ℕ) → read_le16 bytes < 2 ^ 16
unfolding read_le16
read_le16-lt bytes = omega arith

-- The limits among the tests of the decoder.
accepted_limits :
    (input : List ℕ) → bridge_rejects input ≡ false → (byte_at input 5 ≤ 4) × (byte_at input 7 ≤ 64)
unfolding bridge_rejects
accepted_limits input h = ground arith

abbrev WellFormed : BridgeMessage → Type 0
WellFormed m = IsMessage m × (m.payload_length ≤ 64) × (on_wire m ≡ m) × IsBytes m.payload

module _ (input : List ℕ) (bytes : IsBytes input) (size : length input ≡ 80) where
  fields-WellFormed : bridge_rejects input ≡ false → WellFormed (bridge_fields input)
  unfolding bridge_fields
  fields-WellFormed h = (
    record {
      kind_in = limits.0;
      sequence_in = read_le16-lt (drop 8 input);
      request_id_in = read_le16-lt (drop 10 input);
      payload_size = ap length copied ∙ length-pad 64 text short;
    },
    limits.1,
    (λ i. record (bridge_fields input) { payload_length = unclamped i; payload = same i }),
    rw copied (pad-IsBytes 64 text text-IsBytes),
  )
    where
      n : ℕ
      n = byte_at input 7

      text : List ℕ
      text = take n (drop 12 input)

      limits : (byte_at input 5 ≤ 4) × (n ≤ 64)
      limits = accepted_limits input h

      whole : length text ≡ n
      whole = omega (arith, limits, length-take n (drop 12 input), length-drop 12 input)

      short : length text ≤ 64
      short = omega (arith, whole, limits)

      text-IsBytes : IsBytes text
      text-IsBytes = All-take IsByte n (drop 12 input) (All-drop IsByte 12 input bytes)

      copied : copy_at (replicate 64 0) 0 text ≡ pad 64 text
      copied = copy_at-zeros 64 text short

      unclamped : min n 64 ≡ n
      unclamped = omega (arith, limits)

      cut : take (min n 64) (copy_at (replicate 64 0) 0 text) ≡ text
      cut = rw (unclamped, copied) (take-append n text (replicate (64 - length text) 0) whole)

      same :
          pad 64 (take (min n 64) (copy_at (replicate 64 0) 0 text))
          ≡ copy_at (replicate 64 0) 0 text
      same = ap (pad 64) cut ∙ sym copied

-- Whatever 80 bytes the decoder accepts, the message is well formed: known kind, 16-bit numbers,
-- at most 64 payload bytes in a 64-byte array that is zero behind them.
pub sv_bridge_decode-IsMessage :
    (input : List ℕ) {m : BridgeMessage}
    → IsBytes input
    → length input ≡ 80
    → sv_bridge_decode input ≡ some m
    → IsMessage m × (m.payload_length ≤ 64) × (on_wire m ≡ m) × IsBytes m.payload
unfolding sv_bridge_decode
sv_bridge_decode-IsMessage input {m} bytes size ok =
    subst WellFormed found.1 (fields-WellFormed input bytes size found.0)
  where
    found : (bridge_rejects input ≡ false) × (bridge_fields input ≡ m)
    found = ground arith
