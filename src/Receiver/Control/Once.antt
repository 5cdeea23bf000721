-- ===== src/Receiver/Control/Once.antt =====
-- A command that is repeated under its request ID is executed once: the replay cache in front of
-- `execute`.
use smol_wi_fi_receiver.Base.{
  ℕ, ◌≤◌, ◌<◌, List, [], ◌∷◌, none, some, ◌≡◌, ◌≢◌, inl, inr, refl, ap, ◌∙◌, arith, length, All,
  Option-cases,
}
use smol_wi_fi_receiver.Protocol.Bridge.{BridgeMessage}
use smol_wi_fi_receiver.Protocol.Replay.{sv_command_replay_find, sv_command_replay_store}
use smol_wi_fi_receiver.Protocol.Replay.Window.{IsCache, stores, Others, find-stores}
use smol_wi_fi_receiver.Receiver.Storage.{Nvs}
use smol_wi_fi_receiver.Receiver.Rf.Radio.{Esb}
use smol_wi_fi_receiver.Receiver.Control.{Control, execute, receiver_control_handle}

-- A command with the uptime and the error count at which it is handled.
pub record Arrival : Type 0 where
  pub now : ℕ
  pub spi_crc_errors : ℕ
  pub request : BridgeMessage

abbrev pub OtherRequests : ℕ → List Arrival → Type 0
OtherRequests id = All (λ a. a.request.request_id ≢ id)

module _ {S E : Type 0} (nvs : Nvs S) (esb : Esb E) where
  abbrev pub handle : Arrival → Control S E → BridgeMessage × Control S E
  handle a ctl = receiver_control_handle nvs esb a.now a.spi_crc_errors a.request ctl

  -- The state after commands in order, oldest first.
  abbrev pub handle_all : List Arrival → Control S E → Control S E
  handle_all [] ctl = ctl
  handle_all (a ∷ rest) ctl = handle_all rest (handle a ctl).1

  -- A request ID that the cache holds is answered from it.
  pub handle-cached :
      (a : Arrival) (ctl : Control S E) (r : BridgeMessage)
      → sv_command_replay_find ctl.cache a.request.request_id ≡ some r
      → handle a ctl ≡ (r, ctl)
  unfolding receiver_control_handle
  handle-cached a ctl r e = rw (e, receiver_control_handle)

  -- Any other is executed, and the response stored.
  pub cache-handle_new :
      (a : Arrival) (ctl : Control S E)
      → sv_command_replay_find ctl.cache a.request.request_id ≡ none
      → (handle a ctl).1.cache
        ≡ sv_command_replay_store ctl.cache a.request.request_id (handle a ctl).0
  unfolding receiver_control_handle
  cache-handle_new a ctl e = rw (e, receiver_control_handle)

  pub response-handle_new :
      (a : Arrival) (ctl : Control S E)
      → sv_command_replay_find ctl.cache a.request.request_id ≡ none
      → (handle a ctl).0 ≡ (execute nvs esb a.now a.spi_crc_errors a.request ctl.rf).0
  unfolding receiver_control_handle
  response-handle_new a ctl e = rw (e, receiver_control_handle)

  -- The first time, `execute` runs, and the response and the receiver are its own.
  pub execute-handle_new :
      (a : Arrival) (ctl : Control S E)
      → sv_command_replay_find ctl.cache a.request.request_id ≡ none
      → execute nvs esb a.now a.spi_crc_errors a.request ctl.rf
        ≡ ((handle a ctl).0, (handle a ctl).1.rf)
  unfolding receiver_control_handle
  execute-handle_new a ctl e = rw (e, receiver_control_handle) refl

  -- Commands under other request IDs store at most one response each, under those IDs.
  record StoresAll (id : ℕ) (arrivals : List Arrival) (ctl : Control S E) : Type 0 where
    stored : List (ℕ × BridgeMessage)
    as_stores : (handle_all arrivals ctl).cache ≡ stores ctl.cache stored
    others : Others id stored
    few : length stored ≤ length arrivals

  StoresAll-cons :
      (id : ℕ) (a : Arrival) (rest : List Arrival) (ctl : Control S E)
      → a.request.request_id ≢ id
      → StoresAll id rest (handle a ctl).1
      → StoresAll id (a ∷ rest) ctl
  StoresAll-cons id a rest ctl other later =
      elim (Option-cases (sv_command_replay_find ctl.cache a.request.request_id)) [
        | inl new ↦ record {
          stored = (a.request.request_id, (handle a ctl).0) ∷ later.stored;
          as_stores =
              later.as_stores ∙ ap (λ c. stores c later.stored) (cache-handle_new a ctl new);
          others = (other, later.others);
          few = omega (arith, later.few);
        }
        | inr (r, known) ↦ record {
          stored = later.stored;
          as_stores =
              later.as_stores
              ∙ ap (λ h. stores h.1.cache later.stored) (handle-cached a ctl r known);
          others = later.others;
          few = omega (arith, later.few);
        }
      ]

  handle_all-StoresAll :
      (id : ℕ) (arrivals : List Arrival) (ctl : Control S E)
      → OtherRequests id arrivals
      → StoresAll id arrivals ctl
  handle_all-StoresAll id [] ctl o = record {
    stored = [];
    as_stores = refl;
    others = tt;
    few = omega arith;
  }
  handle_all-StoresAll id (a ∷ rest) ctl o =
      StoresAll-cons id a rest ctl o.0 (handle_all-StoresAll id rest (handle a ctl).1 o.1)

  -- Once a command whose request ID the cache did not hold was handled, and then fewer than eight
  -- commands under other IDs, a command under the first one's ID is not executed, whatever else it
  -- says and whenever it comes: it gets the first one's response, and no state changes.
  pub handle-repeated :
      (a : Arrival) (between : List Arrival) (again : Arrival) (ctl : Control S E)
      → IsCache ctl.cache
      → sv_command_replay_find ctl.cache a.request.request_id ≡ none
      → OtherRequests a.request.request_id between
      → length between < 8
      → again.request.request_id ≡ a.request.request_id
      → let first = receiver_control_handle nvs esb a.now a.spi_crc_errors a.request ctl in
        let later = handle_all between first.1 in
        receiver_control_handle nvs esb again.now again.spi_crc_errors again.request later
        ≡ (first.0, later)
  handle-repeated a between again ctl v new o few same =
      handle-cached again (handle_all between (handle a ctl).1) (handle a ctl).0 held
    where
      id : ℕ
      id = a.request.request_id

      r : BridgeMessage
      r = (handle a ctl).0

      all : StoresAll id between (handle a ctl).1
      all = handle_all-StoresAll id between (handle a ctl).1 o

      held :
          sv_command_replay_find
            (handle_all between (handle a ctl).1).cache
            again.request.request_id
          ≡ some r
      held =
          ap (sv_command_replay_find (handle_all between (handle a ctl).1).cache) same
          ∙ ap (λ c. sv_command_replay_find c id)
              (all.as_stores ∙ ap (λ c. stores c all.stored) (cache-handle_new a ctl new))
          ∙ find-stores ctl.cache id r all.stored v new all.others
          ∙ ground (arith, all.few)
