-- ===== src/Wires/Course.antt =====
-- The course of a command, one transfer after the other.
use smol_wi_fi_receiver.Base.{◌∙◌, ℕ, ◌^◌, ◌<◌, ◌≤◌, List, ◌≡◌, ◌⊎◌, inl, inr, sym, length, subst}
use smol_wi_fi_receiver.Protocol.Bridge.{BridgeMessage}
use smol_wi_fi_receiver.Protocol.Replay.Window.{IsCache}
use smol_wi_fi_receiver.Receiver.Storage.{Nvs}
use smol_wi_fi_receiver.Receiver.Rf.Radio.{Esb}
use smol_wi_fi_receiver.Receiver.Spi.{Spi, process_rx, prepare_tx}
use smol_wi_fi_receiver.Receiver.Spi.Response.{IsSpi, process_rx-IsSpi_by, prepare_tx-IsSpi}
use smol_wi_fi_receiver.Esp.BridgeSpi.Exchange.{exchange-IsLink}
use smol_wi_fi_receiver.Esp.BridgeSpi.Attempts.{exchange-IsFor}
use smol_wi_fi_receiver.Wires.{Both, Transfer, seen, frame_up, meanwhile, transfer}
use smol_wi_fi_receiver.Wires.Damage.{prepare_tx-cache, IsDetected}
use smol_wi_fi_receiver.Wires.Stage.{
  meanwhile-IsSpi, rearm-cache, rearm-IsSpi, rearm-Fresh, rearm-Holds, meanwhile-Fresh,
  meanwhile-Holds, prepare_tx-Fresh, prepare_tx-Holds,
}
use smol_wi_fi_receiver.Wires.Processed.{
  Idles, Runs, IsSent-small, process_rx-Fresh, process_rx-Holds,
}
use smol_wi_fi_receiver.Wires.Step.{
  IsBoth, Unheard, Heard, exchange_silent, exchange_answer, frame_up-IsSent,
}

module _ {S E : Type 0} (nvs : Nvs S) (esb : Esb E) where
  -- The receiver when the frame is there, when it has processed it, and when it prepares the next.
  abbrev pub armed : Transfer S E → Both S E → Spi S E
  armed t b = meanwhile t.radio_armed b.spi

  abbrev pub processed : Transfer S E → Both S E → Spi S E
  processed t b = process_rx nvs esb t.processed_at (frame_up t b) (armed t b)

  abbrev pub resumed : Transfer S E → Both S E → Spi S E
  resumed t b = meanwhile t.radio (processed t b)

  -- What the frame of a transfer does.
  abbrev pub IdleStep : Transfer S E → Both S E → Type 0
  IdleStep t b = Idles nvs esb t.processed_at (frame_up t b) (armed t b)

  abbrev pub RunStep : ℕ → List ℕ → BridgeMessage → Transfer S E → Both S E → Type 0
  RunStep id request response t b =
      Runs nvs esb id request response t.processed_at (frame_up t b) (armed t b)

  -- Processing, preparing and arming leave the cache that processing left.
  pub transfer-cache :
      (t : Transfer S E) (b : Both S E)
      → (transfer nvs esb t b).spi.control.cache ≡ (processed t b).control.cache
  unfolding transfer
  transfer-cache t b =
      rearm-cache t.arm_failures (prepare_tx t.prepared_at (resumed t b))
      ∙ prepare_tx-cache t.prepared_at (resumed t b)

module _ {S E : Type 0} (nvs : Nvs S) (esb : Esb E) (id : ℕ) (request : List ℕ)
    (small : id < 2 ^ 16) (short : length request ≤ 64) where
  pub armed-IsSpi :
      (t : Transfer S E) (b : Both S E) → IsBoth nvs esb id request b → IsSpi (armed nvs esb t b)
  armed-IsSpi t b v = meanwhile-IsSpi t.radio_armed b.spi v.spi_in

  -- Whatever the radio does, the commands' side stays.
  pub resumed-IsSpi :
      (t : Transfer S E) (b : Both S E)
      → IsBoth nvs esb id request b
      → IsDetected t.up
      → IsSpi (resumed nvs esb t b)
  resumed-IsSpi t b v intact = meanwhile-IsSpi t.radio (processed nvs esb t b) (
      process_rx-IsSpi_by nvs esb t.processed_at (frame_up t b) (armed nvs esb t b)
        (λ m.
          IsSent-small nvs esb id request (frame_up t b) m small
            (frame_up-IsSent nvs esb id request short t b v intact))
        (armed-IsSpi t b v))

  prepared-IsSpi :
      (t : Transfer S E) (b : Both S E)
      → IsBoth nvs esb id request b
      → IsDetected t.up
      → IsSpi (prepare_tx t.prepared_at (resumed nvs esb t b)).1
  prepared-IsSpi t b v intact =
      prepare_tx-IsSpi t.prepared_at (resumed nvs esb t b) (resumed-IsSpi t b v intact)

  transfer-IsBoth :
      (t : Transfer S E) (b : Both S E)
      → IsBoth nvs esb id request b
      → IsDetected t.up
      → IsCache (processed nvs esb t b).control.cache
      → IsBoth nvs esb id request (transfer nvs esb t b)
  unfolding transfer
  transfer-IsBoth t b v intact c = record {
    link_in = exchange-IsLink (seen t b) b.link v.link_in;
    command_is = exchange-IsFor id request (seen t b) b.link v.command_is;
    spi_in =
        rearm-IsSpi t.arm_failures (prepare_tx t.prepared_at (resumed nvs esb t b))
          (prepared-IsSpi t b v intact);
    cache_in = subst IsCache (sym (transfer-cache nvs esb t b)) c;
  }

  -- Before the command was executed, a transfer leaves it so or executes it.
  pub transfer-Unheard :
      (t : Transfer S E) (b : Both S E)
      → IsBoth nvs esb id request b
      → IsDetected t.up
      → IsDetected t.down
      → Unheard nvs esb id request b
      → let after = transfer nvs esb t b in
        IsBoth nvs esb id request after
        × ((Unheard nvs esb id request after × IdleStep nvs esb t b)
            ⊎ ((response : BridgeMessage) × Heard nvs esb id request response after
                × RunStep nvs esb id request response t b))
  unfolding transfer
  transfer-Unheard t b v up down u =
      let (c, fate) =
        process_rx-Fresh nvs esb id request t.processed_at (frame_up t b) (armed nvs esb t b)
          (armed-IsSpi t b v) v.cache_in small (meanwhile-Fresh id t.radio_armed b.spi u.fresh)
          (frame_up-IsSent nvs esb id request short t b v up) in
      let w = resumed-IsSpi t b v up in
      let waits = exchange_silent nvs esb id request short t b down u.silent u.waits in
      (
        transfer-IsBoth t b v up c,
        elim fate [
          | inl (f, still) ↦
              let (fresh, silent) =
                rearm-Fresh id t.arm_failures (prepare_tx t.prepared_at (resumed nvs esb t b))
                  (prepared-IsSpi t b v up)
                  (prepare_tx-Fresh id t.prepared_at (resumed nvs esb t b) w
                    (meanwhile-Fresh id t.radio (processed nvs esb t b) f)) in
              inl (record { fresh = fresh; silent = silent; waits = waits }, still)
          | inr (response, h, ran) ↦
              let (holds, ready) =
                rearm-Holds id t.arm_failures (prepare_tx t.prepared_at (resumed nvs esb t b))
                  response (prepared-IsSpi t b v up)
                  (prepare_tx-Holds id t.prepared_at (resumed nvs esb t b) response w
                    (meanwhile-Holds id t.radio (processed nvs esb t b) response h)) in
              inr (response, record { holds = holds; ready = ready; answer = inl waits }, ran)
        ],
      )

  -- After it, no transfer executes it again.
  pub transfer-Heard :
      (t : Transfer S E) (b : Both S E) (response : BridgeMessage)
      → IsBoth nvs esb id request b
      → IsDetected t.up
      → IsDetected t.down
      → Heard nvs esb id request response b
      → let after = transfer nvs esb t b in
        IsBoth nvs esb id request after
        × Heard nvs esb id request response after
        × IdleStep nvs esb t b
  unfolding transfer
  transfer-Heard t b response v up down h =
      let (c, held_still, still) =
        process_rx-Holds nvs esb id request t.processed_at (frame_up t b) (armed nvs esb t b)
          response v.cache_in (meanwhile-Holds id t.radio_armed b.spi response h.holds)
          (frame_up-IsSent nvs esb id request short t b v up) in
      let (holds, ready) =
        rearm-Holds id t.arm_failures (prepare_tx t.prepared_at (resumed nvs esb t b)) response
          (prepared-IsSpi t b v up)
          (prepare_tx-Holds id t.prepared_at (resumed nvs esb t b) response (resumed-IsSpi t b v up)
            (meanwhile-Holds id t.radio (processed nvs esb t b) response held_still)) in
      (
        transfer-IsBoth t b v up c,
        record {
          holds = holds;
          ready = ready;
          answer =
              exchange_answer nvs esb id request short t b response v h.holds.is_reply down h.ready
                h.answer;
        },
        still,
      )
