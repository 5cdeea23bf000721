-- ===== src/Wires/Once.antt =====
-- However the frames fare, a command of the ESP is executed at most once, and the caller gets the
-- response of that execution or a time-out.
use smol_wi_fi_receiver.Base.{
  ℕ, ◌^◌, ◌<◌, ◌≤◌, List, [], ◌∷◌, Option, none, ◌≡◌, ◌⊎◌, inl, inr, length, All,
}
use smol_wi_fi_receiver.Protocol.Bridge.{BridgeMessage}
use smol_wi_fi_receiver.Protocol.Replay.Window.{IsCache}
use smol_wi_fi_receiver.Receiver.Storage.{Nvs}
use smol_wi_fi_receiver.Receiver.Rf.Radio.{Esb}
use smol_wi_fi_receiver.Receiver.Spi.Response.{IsSpi}
use smol_wi_fi_receiver.Esp.BridgeSpi.{Link, EspErr, esp_ok, begin_command, finish_command}
use smol_wi_fi_receiver.Esp.BridgeSpi.Exchange.{Reach, Reach-IsLink, begin_command-IsLink}
use smol_wi_fi_receiver.Esp.BridgeSpi.Attempts.{begin_command-IsFor}
use smol_wi_fi_receiver.Esp.BridgeSpi.Answer.{begin_command-Waiting}
use smol_wi_fi_receiver.Wires.{Both, Transfer, transfer, transfers}
use smol_wi_fi_receiver.Wires.Damage.{reply_of, IsDetected}
use smol_wi_fi_receiver.Wires.Stage.{Fresh}
use smol_wi_fi_receiver.Wires.Step.{IsBoth, Unheard, Heard}
use smol_wi_fi_receiver.Wires.Course.{IdleStep, RunStep, transfer-Unheard, transfer-Heard}

-- Damage is detected in both directions of each transfer.
abbrev pub AllDetected : {S E : Type 0} → List (Transfer S E) → Type 0
AllDetected = All (λ t. IsDetected t.up × IsDetected t.down)

-- The ESP's caller begins a command.
abbrev pub begun : {S E : Type 0} → List ℕ → Both S E → Both S E
begun request b = record b { link = (begin_command request b.link).1 }

-- Before it, nothing of the two sides is about its request ID.
pub record IsIdle {S E : Type 0} (b : Both S E) : Type 0 where
  pub link_reached : Reach b.link
  pub spi_in : IsSpi b.spi
  pub cache_in : IsCache b.spi.control.cache
  pub fresh : Fresh b.link.next_request_id b.spi
  pub silent : reply_of b.link.next_request_id b.tx_buffer ≡ none

-- What the caller gets.
abbrev pub returned : ℕ → Link → EspErr × Option (List ℕ)
returned capacity link = let (code, response, _) = finish_command capacity link in (code, response)

module _ {S E : Type 0} (nvs : Nvs S) (esb : Esb E) where
  -- Transfers that execute nothing: every frame leaves the commands' side as it is.
  abbrev pub Quiet : List (Transfer S E) → Both S E → Type 0
  Quiet [] b = Unit {0}
  Quiet (t ∷ rest) b = IdleStep nvs esb t b × Quiet rest (transfer nvs esb t b)

  -- Transfers of which exactly one executes the command, with this response.
  abbrev pub RunOnce : ℕ → List ℕ → BridgeMessage → List (Transfer S E) → Both S E → Type 0
  RunOnce id request response [] b = ⊥
  RunOnce id request response (t ∷ rest) b =
      (RunStep nvs esb id request response t b × Quiet rest (transfer nvs esb t b))
      ⊎ (IdleStep nvs esb t b × RunOnce id request response rest (transfer nvs esb t b))

  module _ (id : ℕ) (request : List ℕ) (small : id < 2 ^ 16) (short : length request ≤ 64) where
    pub transfers-Heard :
        (ts : List (Transfer S E)) (b : Both S E) (response : BridgeMessage)
        → IsBoth nvs esb id request b
        → AllDetected ts
        → Heard nvs esb id request response b
        → let after = transfers nvs esb ts b in
          IsBoth nvs esb id request after × Heard nvs esb id request response after × Quiet ts b
    unfolding transfers
    transfers-Heard [] b response v d h = (v, h, tt)
    transfers-Heard (t ∷ rest) b response v d h =
        let (w, k, still) =
          transfer-Heard nvs esb id request small short t b response v d.0.0 d.0.1 h in
        let (x, l, no_more) = transfers-Heard rest (transfer nvs esb t b) response w d.1 k in
        (x, l, (still, no_more))

    pub transfers-Unheard :
        (ts : List (Transfer S E)) (b : Both S E)
        → IsBoth nvs esb id request b
        → AllDetected ts
        → Unheard nvs esb id request b
        → let after = transfers nvs esb ts b in
          IsBoth nvs esb id request after
          × ((Unheard nvs esb id request after × Quiet ts b)
              ⊎ ((response : BridgeMessage) × Heard nvs esb id request response after
                  × RunOnce id request response ts b))
    unfolding transfers
    transfers-Unheard [] b v d u = (v, inl (u, tt))
    transfers-Unheard (t ∷ rest) b v d u =
        let (w, fate) = transfer-Unheard nvs esb id request small short t b v d.0.0 d.0.1 u in
        elim fate [
          | inl (k, still) ↦
              let (x, later) = transfers-Unheard rest (transfer nvs esb t b) w d.1 k in
              (
                x,
                elim later [
                  | inl (l, never) ↦ inl (l, (still, never))
                  | inr (response, l, once) ↦ inr (response, l, inr (still, once))
                ],
              )
          | inr (response, k, ran) ↦
              let (x, l, no_more) = transfers-Heard rest (transfer nvs esb t b) response w d.1 k in
              (x, inr (response, l, inl (ran, no_more)))
        ]

  pub started :
      (request : List ℕ) (b : Both S E)
      → IsIdle b
      → (begin_command request b.link).0 ≡ esp_ok
      → IsBoth nvs esb b.link.next_request_id request (begun request b)
        × Unheard nvs esb b.link.next_request_id request (begun request b)
        × (length request ≤ 64)
        × (b.link.next_request_id < 2 ^ 16)
  started request b i ok =
      let v = Reach-IsLink i.link_reached in
      let (short, command_is, _, _) = begin_command-IsFor request b.link v ok in
      (
        record {
          link_in = begin_command-IsLink request b.link v;
          command_is = command_is;
          spi_in = i.spi_in;
          cache_in = i.cache_in;
        },
        record {
          fresh = i.fresh;
          silent = i.silent;
          waits = begin_command-Waiting request b.link ok;
        },
        short,
        v.next_id_in,
      )
