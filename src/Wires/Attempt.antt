-- ===== src/Wires/Attempt.antt =====
-- What one attempt does whose frame arrives, and what stays once the command is answered.
use smol_wi_fi_receiver.Base.{
  ℕ, ◌^◌, ◌<◌, ◌≤◌, List, [], ◌∷◌, true, some, none, ◌≡◌, inl, inr, refl, ap, sym, subst, ◌∙◌,
  length, ◌++◌,
}
use smol_wi_fi_receiver.Protocol.Bridge.{BridgeMessage, sv_bridge_decode}
use smol_wi_fi_receiver.Protocol.Replay.{sv_command_replay_find}
use smol_wi_fi_receiver.Receiver.Storage.{Nvs}
use smol_wi_fi_receiver.Receiver.Rf.Radio.{Esb}
use smol_wi_fi_receiver.Receiver.Spi.{prepare_tx}
use smol_wi_fi_receiver.Esp.BridgeSpi.{must_send, outgoing}
use smol_wi_fi_receiver.Esp.BridgeSpi.Frame.{command_message, held, outgoing-decoded}
use smol_wi_fi_receiver.Esp.BridgeSpi.Exchange.{exchange}
use smol_wi_fi_receiver.Esp.BridgeSpi.Answer.{received-Answered, outgoing-Answered}
use smol_wi_fi_receiver.Wires.{
  whole, Both, Transfer, seen, frame_up, transfer, transfers, arrives, rearm,
}
use smol_wi_fi_receiver.Wires.Damage.{IsDetected}
use smol_wi_fi_receiver.Wires.Stage.{
  Gets, Brings, Holds, prepare_tx-Brings, meanwhile-Fresh, meanwhile-Holds,
}
use smol_wi_fi_receiver.Wires.Processed.{executed, repeated}
use smol_wi_fi_receiver.Wires.Step.{IsBoth, Unheard, Heard}
use smol_wi_fi_receiver.Wires.Course.{
  IdleStep, RunStep, transfer-cache, transfer-Unheard, transfer-Heard, armed, armed-IsSpi,
  processed, resumed, resumed-IsSpi,
}
use smol_wi_fi_receiver.Wires.Once.{Quiet, RunOnce}

unknown-known : {m : BridgeMessage} → none ≡ some m → ⊥
unknown-known e = cc

some-injective : {m n : BridgeMessage} → some m ≡ some n → m ≡ n
some-injective e = cc

module _ {S E : Type 0} (nvs : Nvs S) (esb : Esb E) where
  pub transfers-append :
      (ts us : List (Transfer S E)) (b : Both S E)
      → transfers nvs esb (ts ++ us) b ≡ transfers nvs esb us (transfers nvs esb ts b)
  unfolding transfers
  transfers-append [] us b = refl
  transfers-append (t ∷ ts) us b = transfers-append ts us (transfer nvs esb t b)

  pub Quiet-append :
      (ts us : List (Transfer S E)) (b : Both S E)
      → Quiet nvs esb ts b
      → Quiet nvs esb us (transfers nvs esb ts b)
      → Quiet nvs esb (ts ++ us) b
  unfolding transfers
  Quiet-append [] us b q later = later
  Quiet-append (t ∷ ts) us b (still, q) later =
      (still, Quiet-append ts us (transfer nvs esb t b) q later)

  pub RunOnce-append :
      (id : ℕ) (request : List ℕ) (response : BridgeMessage) (ts us : List (Transfer S E))
      (b : Both S E)
      → RunOnce nvs esb id request response ts b
      → Quiet nvs esb us (transfers nvs esb ts b)
      → RunOnce nvs esb id request response (ts ++ us) b
  unfolding transfers
  RunOnce-append id request response [] us b once later = absurd once
  RunOnce-append id request response (t ∷ ts) us b (inl (ran, q)) later =
      inl (ran, Quiet-append ts us (transfer nvs esb t b) q later)
  RunOnce-append id request response (t ∷ ts) us b (inr (still, once)) later =
      inr (still, RunOnce-append id request response ts us (transfer nvs esb t b) once later)

  pub RunOnce-append_late :
      (id : ℕ) (request : List ℕ) (response : BridgeMessage) (ts us : List (Transfer S E))
      (b : Both S E)
      → Quiet nvs esb ts b
      → RunOnce nvs esb id request response us (transfers nvs esb ts b)
      → RunOnce nvs esb id request response (ts ++ us) b
  unfolding transfers
  RunOnce-append_late id request response [] us b q once = once
  RunOnce-append_late id request response (t ∷ ts) us b (still, q) once =
      inr (still, RunOnce-append_late id request response ts us (transfer nvs esb t b) q once)

  -- An answer stays.
  pub transfers-Gets :
      (ts : List (Transfer S E)) (b : Both S E) (response : BridgeMessage)
      → Gets response b.link
      → Gets response (transfers nvs esb ts b).link
  unfolding transfers transfer
  transfers-Gets [] b response g = g
  transfers-Gets (t ∷ rest) b response (m, a, same) =
      transfers-Gets rest (transfer nvs esb t b) response (
        m,
        received-Answered m (seen t b) (outgoing t.now b.link).1
            (outgoing-Answered m t.now b.link a),
        same,
      )

  module _ (id : ℕ) (request : List ℕ) (small : id < 2 ^ 16) (short : length request ≤ 64) where
    frame_up-command :
        (t : Transfer S E) (b : Both S E)
        → IsBoth nvs esb id request b
        → must_send t.now b.link.command ≡ true
        → t.up ≡ whole
        → sv_bridge_decode (frame_up t b) ≡ some (command_message id request b.link.tx_sequence)
    frame_up-command t b v sends intact =
        ap (λ p. sv_bridge_decode (arrives p (exchange (seen t b) b.link).0)) intact
        ∙ outgoing-decoded id t.now request b.link v.link_in short v.command_is
        ∙ ap (λ s. some (held s id request b.link.tx_sequence)) sends

    -- If the response waits, and the peripheral is armed at once, the next frame brings it.
    transfer-Brings :
        (t : Transfer S E) (b : Both S E) (response : BridgeMessage)
        → IsBoth nvs esb id request b
        → t.up ≡ whole
        → Holds id response (processed nvs esb t b)
        → (processed nvs esb t b).response_pending ≡ true
        → t.arm_failures ≡ []
        → Brings response (transfer nvs esb t b).tx_buffer
    unfolding transfer rearm
    transfer-Brings t b response v intact h waits armed_at_once =
        subst (λ fs. Brings response (rearm fs (prepare_tx t.prepared_at (resumed nvs esb t b))).0)
          (sym armed_at_once)
          (prepare_tx-Brings id t.prepared_at (resumed nvs esb t b) response
            (resumed-IsSpi nvs esb id request small short t b v (subst IsDetected (sym intact) tt))
            (meanwhile-Holds id t.radio (processed nvs esb t b) response h) waits)

    -- What the receiver holds after processing is what it holds in the end.
    still_known :
        (t : Transfer S E) (b : Both S E) (response : BridgeMessage)
        → Holds id response (processed nvs esb t b)
        → sv_command_replay_find (transfer nvs esb t b).spi.control.cache id ≡ some response
    still_known t b response h =
        ap (λ c. sv_command_replay_find c id) (transfer-cache nvs esb t b) ∙ h.known

    transfer-Brings_held :
        (t : Transfer S E) (b : Both S E) (first response : BridgeMessage)
        → IsBoth nvs esb id request b
        → t.up ≡ whole
        → Holds id first (processed nvs esb t b)
        → (processed nvs esb t b).response_pending ≡ true
        → t.arm_failures ≡ []
        → Heard nvs esb id request response (transfer nvs esb t b)
        → Brings response (transfer nvs esb t b).tx_buffer
    transfer-Brings_held t b first response v intact h waits at_once k =
        subst (λ r. Brings r (transfer nvs esb t b).tx_buffer)
          (some-injective (sym (still_known t b first h) ∙ k.holds.known))
          (transfer-Brings t b first v intact h waits at_once)

    -- When a frame with the command arrives, the response is on its way.
    pub attempt_new :
        (t : Transfer S E) (b : Both S E)
        → IsBoth nvs esb id request b
        → must_send t.now b.link.command ≡ true
        → t.up ≡ whole
        → IsDetected t.down
        → t.arm_failures ≡ []
        → Unheard nvs esb id request b
        → let after = transfer nvs esb t b in
          (response : BridgeMessage) × IsBoth nvs esb id request after
          × Heard nvs esb id request response after
          × Brings response after.tx_buffer
          × RunStep nvs esb id request response t b
    attempt_new t b v sends intact down at_once u =
        let ok = frame_up-command t b v sends intact in
        let (first, h, waits, _, _) =
          executed nvs esb id request t.processed_at b.link.tx_sequence (frame_up t b)
            (armed nvs esb t b) (armed-IsSpi nvs esb id request small short t b v) v.cache_in small
            (meanwhile-Fresh id t.radio_armed b.spi u.fresh) ok in
        let (w, fate) =
          transfer-Unheard nvs esb id request small short t b v (subst IsDetected (sym intact) tt)
            down u in
        elim fate [
          | inl (l, _) ↦ absurd (unknown-known (sym l.fresh.unknown ∙ still_known t b first h))
          | inr (response, k, ran) ↦ (
            response,
            w,
            k,
            transfer-Brings_held t b first response v intact h waits at_once k,
            ran,
          )
        ]

    -- So it is when the command was executed before.
    pub attempt_again :
        (t : Transfer S E) (b : Both S E) (response : BridgeMessage)
        → IsBoth nvs esb id request b
        → must_send t.now b.link.command ≡ true
        → t.up ≡ whole
        → IsDetected t.down
        → t.arm_failures ≡ []
        → Heard nvs esb id request response b
        → let after = transfer nvs esb t b in
          IsBoth nvs esb id request after
          × Heard nvs esb id request response after
          × Brings response after.tx_buffer
          × IdleStep nvs esb t b
    attempt_again t b response v sends intact down at_once k =
        let ok = frame_up-command t b v sends intact in
        let again =
          repeated nvs esb id request t.processed_at b.link.tx_sequence (frame_up t b)
            (armed nvs esb t b) response (meanwhile-Holds id t.radio_armed b.spi response k.holds)
            ok in
        let (w, l, still) =
          transfer-Heard nvs esb id request small short t b response v
            (subst IsDetected (sym intact) tt) down k in
        (
          w,
          l,
          transfer-Brings_held t b response response v intact
              (subst (Holds id response) (sym again) (record {
                is_reply = k.holds.is_reply;
                known = k.holds.known;
                it_waits = λ _. refl;
              }))
              (ap (λ spi. spi.response_pending) again) at_once l,
          still,
        )
