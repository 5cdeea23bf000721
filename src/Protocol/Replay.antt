-- ===== src/Protocol/Replay.antt =====
-- protocol/command_replay_cache.c: the responses to the last eight commands, by request ID.
pub mod Window
use smol_wi_fi_receiver.Base.{
  ℕ, ◌+◌, ◌%◌, ◌^◌, List, [], ◌∷◌, Bool, true, false, Option, none, some, ◌&&◌, ◌==◌, if◌then◌else◌,
  set, replicate,
}
use smol_wi_fi_receiver.Protocol.Bridge.{BridgeMessage, bridge_payload_size}

abbrev pub replay_cache_size : ℕ
replay_cache_size = 8

-- `struct sv_command_replay_entry`
pub record ReplayEntry : Type 0 where
  pub valid : Bool
  pub request_id : ℕ
  pub response : BridgeMessage

-- `struct sv_command_replay_cache`
pub record ReplayCache : Type 0 where
  pub entries : List ReplayEntry
  pub cursor : ℕ

-- What `memset(…, 0, …)` makes of a message and of an entry.
abbrev pub zero_message : BridgeMessage
zero_message = record {
  kind = 0;
  flags = 0;
  payload_length = 0;
  sequence = 0;
  request_id = 0;
  payload = replicate bridge_payload_size 0;
}

abbrev pub zero_entry : ReplayEntry
zero_entry = record { valid = false; request_id = 0; response = zero_message }

unfoldable pub sv_command_replay_init : ReplayCache
sv_command_replay_init = record { entries = replicate replay_cache_size zero_entry; cursor = 0 }

-- The loop over the entries left; `none` is the return value false.
unfoldable pub find_in : List ReplayEntry → ℕ → Option BridgeMessage
find_in [] request_id = none
find_in (entry ∷ rest) request_id =
    if entry.valid && entry.request_id == request_id
    then some entry.response
    else find_in rest request_id

unfoldable pub sv_command_replay_find : ReplayCache → ℕ → Option BridgeMessage
unfolding find_in
sv_command_replay_find cache request_id = find_in cache.entries request_id

unfoldable pub sv_command_replay_store : ReplayCache → ℕ → BridgeMessage → ReplayCache
sv_command_replay_store cache request_id response = record {
  entries =
      set cache.entries cache.cursor
        (record { valid = true; request_id = request_id; response = response });
  cursor = (cache.cursor + 1) % replay_cache_size % 2 ^ 8;
}
