-- ===== src/Wires/Processed.antt =====
-- What a frame of the ESP does to the receiver, before its command was executed and after.
use smol_wi_fi_receiver.Base.{
  ℕ, ◌^◌, ◌<◌, List, [], Bool, true, false, none, some, ◌≡◌, ◌⊎◌, inl, inr, refl, ap, ◌∙◌, sym,
  arith, subst,
}
use smol_wi_fi_receiver.Protocol.Bridge.{BridgeMessage, sv_bridge_decode}
use smol_wi_fi_receiver.Protocol.Replay.{sv_command_replay_find, sv_command_replay_store}
use smol_wi_fi_receiver.Protocol.Replay.Window.{
  IsCache, find-stores, sv_command_replay_store-IsCache,
}
use smol_wi_fi_receiver.Receiver.Storage.{Nvs}
use smol_wi_fi_receiver.Receiver.Rf.Radio.{Esb}
use smol_wi_fi_receiver.Receiver.Control.Once.{
  Arrival, handle, handle-cached, cache-handle_new, execute-handle_new,
}
use smol_wi_fi_receiver.Receiver.Control.{execute}
use smol_wi_fi_receiver.Receiver.Spi.{Spi, process_rx}
use smol_wi_fi_receiver.Receiver.Spi.Response.{IsSpi, got_command, handle-IsReply, arrival}
use smol_wi_fi_receiver.Esp.BridgeSpi.Frame.{command_message, held}
use smol_wi_fi_receiver.Wires.Damage.{process_rx_damaged, process_rx_other}
use smol_wi_fi_receiver.Wires.Stage.{Fresh, Holds}

module _ {S E : Type 0} (nvs : Nvs S) (esb : Esb E) where
  -- A frame that executes nothing: the commands' side, the receiver, its storage and its radio stay
  -- as they are.
  abbrev pub Idles : ℕ → List ℕ → Spi S E → Type 0
  Idles now frame spi = (process_rx nvs esb now frame spi).control ≡ spi.control

  -- A frame that executes the command once: the receiver is what one run of `execute` on the
  -- command leaves, and the response is that run's.
  abbrev pub Runs : ℕ → List ℕ → BridgeMessage → ℕ → List ℕ → Spi S E → Type 0
  Runs id request response now frame spi =
      (sequence : ℕ) × (execute nvs esb now spi.crc_errors (command_message id request sequence)
          spi.control.rf
        ≡ (response, (process_rx nvs esb now frame spi).control.rf))

-- What a frame to the receiver may hold: nothing, or what the ESP sends.
abbrev pub IsSent : ℕ → List ℕ → List ℕ → Type 0
IsSent id request frame =
    (sv_bridge_decode frame ≡ none)
    ⊎ ((sends : Bool) × (sequence : ℕ) × (sv_bridge_decode frame
          ≡ some (held sends id request sequence)))

module _ {S E : Type 0} (nvs : Nvs S) (esb : Esb E) (id : ℕ) (request : List ℕ) where
  pub IsSent-small :
      (frame : List ℕ) (m : BridgeMessage)
      → id < 2 ^ 16
      → IsSent id request frame
      → sv_bridge_decode frame ≡ some m
      → m.request_id < 2 ^ 16
  IsSent-small frame m small (inl bad) e = ground arith
  IsSent-small frame m small (inr (true, sequence, ok)) e = ground arith
  IsSent-small frame m small (inr (false, sequence, ok)) e = ground arith

  -- What a command that is executed leaves.
  pub executed :
      (now sequence : ℕ) (frame : List ℕ) (spi : Spi S E)
      → IsSpi spi
      → IsCache spi.control.cache
      → id < 2 ^ 16
      → Fresh id spi
      → sv_bridge_decode frame ≡ some (command_message id request sequence)
      → (response : BridgeMessage) × Holds id response (process_rx nvs esb now frame spi)
        × ((process_rx nvs esb now frame spi).response_pending ≡ true)
        × IsCache (process_rx nvs esb now frame spi).control.cache
        × Runs nvs esb id request response now frame spi
  executed now sequence frame spi v c small f ok =
      rw (got_command nvs esb now frame spi m ok refl) (
        response,
        record {
          is_reply = (handle-IsReply nvs esb a spi.control v.keyed small).0;
          known =
              ap (λ k. sv_command_replay_find k id) stored
              ∙ find-stores spi.control.cache id response [] c f.unknown tt;
          it_waits = λ _. refl;
        },
        refl,
        subst IsCache (sym stored)
            (sv_command_replay_store-IsCache spi.control.cache id response c),
        (sequence, execute-handle_new nvs esb a spi.control f.unknown),
      )
    where
      m : BridgeMessage
      m = command_message id request sequence

      a : Arrival
      a = arrival nvs esb now spi m

      response : BridgeMessage
      response = (handle nvs esb a spi.control).0

      stored :
          (handle nvs esb a spi.control).1.cache
          ≡ sv_command_replay_store spi.control.cache id response
      stored = cache-handle_new nvs esb a spi.control f.unknown

  -- A command that was executed is answered from the cache.
  pub repeated :
      (now sequence : ℕ) (frame : List ℕ) (spi : Spi S E) (response : BridgeMessage)
      → Holds id response spi
      → sv_bridge_decode frame ≡ some (command_message id request sequence)
      → process_rx nvs esb now frame spi
        ≡ record spi { pending_response = response; response_pending = true }
  repeated now sequence frame spi response h ok =
      got_command nvs esb now frame spi m ok refl
      ∙ ap
          (λ out. record spi { control = out.1; pending_response = out.0; response_pending = true })
          (handle-cached nvs esb (arrival nvs esb now spi m) spi.control response h.known)
    where
      m : BridgeMessage
      m = command_message id request sequence

  -- What a frame does before the command was executed.
  pub process_rx-Fresh :
      (now : ℕ) (frame : List ℕ) (spi : Spi S E)
      → IsSpi spi
      → IsCache spi.control.cache
      → id < 2 ^ 16
      → Fresh id spi
      → IsSent id request frame
      → let after = process_rx nvs esb now frame spi in
        IsCache after.control.cache
        × ((Fresh id after × Idles nvs esb now frame spi)
            ⊎ ((response : BridgeMessage) × Holds id response after
                × Runs nvs esb id request response now frame spi))
  process_rx-Fresh now frame spi v c small f (inl bad) =
      rw (process_rx_damaged nvs esb now frame spi bad)
        (c, inl (record { unknown = f.unknown; others_wait = f.others_wait }, refl))
  process_rx-Fresh now frame spi v c small f (inr (false, sequence, ok)) =
      rw (process_rx_other nvs esb now frame spi ok refl) (c, inl (f, refl))
  process_rx-Fresh now frame spi v c small f (inr (true, sequence, ok)) =
      let (response, holds, _, cached, ran) = executed now sequence frame spi v c small f ok in
      (cached, inr (response, holds, ran))

  -- And after it.
  pub process_rx-Holds :
      (now : ℕ) (frame : List ℕ) (spi : Spi S E) (response : BridgeMessage)
      → IsCache spi.control.cache
      → Holds id response spi
      → IsSent id request frame
      → let after = process_rx nvs esb now frame spi in
        IsCache after.control.cache × Holds id response after × Idles nvs esb now frame spi
  process_rx-Holds now frame spi response c h (inl bad) =
      rw (process_rx_damaged nvs esb now frame spi bad)
        (c, record { is_reply = h.is_reply; known = h.known; it_waits = h.it_waits }, refl)
  process_rx-Holds now frame spi response c h (inr (false, sequence, ok)) =
      rw (process_rx_other nvs esb now frame spi ok refl) (c, h, refl)
  process_rx-Holds now frame spi response c h (inr (true, sequence, ok)) =
      rw (repeated now sequence frame spi response h ok)
        (c, record { is_reply = h.is_reply; known = h.known; it_waits = λ _. refl }, refl)
