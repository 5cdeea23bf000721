-- ===== src/Esp/ReceiverStatus/Shown.antt =====
-- What the page shows of the receiver is the receiver's state.
use smol_wi_fi_receiver.Base.{
  ℕ, ◌+◌, ◌^◌, ◌<◌, bit_and, List, [], Bool, true, false, Option, some, ◌≡◌, refl, ap, take,
  if◌then◌else◌, ◌!=◌, drop,
}
use smol_wi_fi_receiver.Base.Bytes.{le48, read_le16-le16, read_le32-le32}
use smol_wi_fi_receiver.Protocol.Bridge.{BridgeMessage}
use smol_wi_fi_receiver.Receiver.Rf.{Rf}
use smol_wi_fi_receiver.Receiver.Control.{get_status, status_bytes, blank_response}
use smol_wi_fi_receiver.Esp.BridgeSpi.{EspErr, esp_ok}
use smol_wi_fi_receiver.Esp.ReceiverStatus.{
  StatusResponse, ReceiverObject, id_text, read_status, receiver_object, query_receiver,
  status_receiver,
}

-- The ranges of the C variables.
pub record IsCounted {S E : Type 0} (now errors : ℕ) (rf : Rf S E) : Type 0 where
  pub trackers_in : rf.tracker_count < 2 ^ 16
  pub now_in : now < 2 ^ 32
  pub received_in : rf.received_packets < 2 ^ 32
  pub crc_in : rf.crc_errors < 2 ^ 32
  pub drops_in : rf.builder.drops < 2 ^ 32
  pub errors_in : errors < 2 ^ 32

abbrev flags_of : Bool → Bool → Bool → ℕ
flags_of primary pairing enabled =
    (if primary then 1 else 0) + (if pairing then 2 else 0) + (if enabled then 4 else 0)

flags_back :
    (p q r : Bool)
    → ((bit_and (flags_of p q r) 1 != 0) ≡ p)
      × ((bit_and (flags_of p q r) 2 != 0) ≡ q)
      × ((bit_and (flags_of p q r) 4 != 0) ≡ r)
flags_back true true true = (refl, refl, refl)
flags_back true true false = (refl, refl, refl)
flags_back true false true = (refl, refl, refl)
flags_back true false false = (refl, refl, refl)
flags_back false true true = (refl, refl, refl)
flags_back false true false = (refl, refl, refl)
flags_back false false true = (refl, refl, refl)
flags_back false false false = (refl, refl, refl)

module _ {S E : Type 0} (now errors : ℕ) (rf : Rf S E) (request : BridgeMessage) where
  -- The answer of `bridge_spi_command` when it brings the response.
  abbrev pub brought : EspErr × Option (List ℕ)
  brought =
      let response = get_status now errors rf (blank_response request) in
      (esp_ok, some (take response.payload_length response.payload))

  -- The object that shows a state.
  abbrev pub shown : ReceiverObject
  shown = record {
    receiver_id = id_text (le48 rf.receiver_id);
    group_id = id_text (le48 rf.group_id);
    primary = rf.primary;
    pairing = rf.pairing;
    radio_enabled = rf.radio_enabled;
    trackers = rf.tracker_count;
    rf_received = rf.received_packets;
    rf_crc_errors = rf.crc_errors;
    queue_drops = rf.builder.drops;
    spi_crc_errors = errors;
    uptime_ms = now;
  }

  -- What the ESP makes of the response to GET_STATUS is the receiver's state at that time: the
  -- object that the page gets has its two IDs as texts, its flags, its count of trackers, its
  -- counters and its uptime; and `query_receiver` takes the link as healthy. The numbers are in the
  -- ranges of their variables.
  pub status_receiver-get_status :
      IsCounted now errors rf
      → (status_receiver brought ≡ some shown)
        × ((status : StatusResponse) × (query_receiver brought ≡ some status)
            × (receiver_object status ≡ shown))
  unfolding status_receiver query_receiver get_status read_status receiver_object
  status_receiver-get_status v = (ap some same, (read_status sent, refl, same))
    where
      sent : List ℕ
      sent = status_bytes now errors rf

      back :
          ((bit_and (flags_of rf.primary rf.pairing rf.radio_enabled) 1 != 0) ≡ rf.primary)
          × ((bit_and (flags_of rf.primary rf.pairing rf.radio_enabled) 2 != 0) ≡ rf.pairing)
          × ((bit_and (flags_of rf.primary rf.pairing rf.radio_enabled) 4 != 0) ≡ rf.radio_enabled)
      back = flags_back rf.primary rf.pairing rf.radio_enabled

      same : receiver_object (read_status sent) ≡ shown
      same = λ i. record {
        receiver_id = id_text (le48 rf.receiver_id);
        group_id = id_text (le48 rf.group_id);
        primary = back.0 i;
        pairing = back.1 i;
        radio_enabled = back.2 i;
        trackers = read_le16-le16 rf.tracker_count (drop 18 sent) v.trackers_in i;
        rf_received = read_le32-le32 rf.received_packets (drop 26 sent) v.received_in i;
        rf_crc_errors = read_le32-le32 rf.crc_errors (drop 30 sent) v.crc_in i;
        queue_drops = read_le32-le32 rf.builder.drops (drop 34 sent) v.drops_in i;
        spi_crc_errors = read_le32-le32 errors [] v.errors_in i;
        uptime_ms = read_le32-le32 now (drop 22 sent) v.now_in i;
      }
