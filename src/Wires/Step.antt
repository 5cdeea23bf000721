-- ===== src/Wires/Step.antt =====
-- What one transfer does with a command that the ESP has in hand.
use smol_wi_fi_receiver.Base.{
  ℕ, ◌≤◌, List, true, none, some, ◌≡◌, ◌⊎◌, inl, inr, refl, ap, ◌∙◌, arith, length, Bool-cases,
}
use smol_wi_fi_receiver.Base.{take, min, length-take}
use smol_wi_fi_receiver.Base.Bytes.{length-pad}
use smol_wi_fi_receiver.Protocol.Bridge.{BridgeMessage, sv_bridge_decode}
use smol_wi_fi_receiver.Protocol.Bridge.RoundTrip.{on_wire}
use smol_wi_fi_receiver.Protocol.Replay.Window.{IsCache}
use smol_wi_fi_receiver.Receiver.Storage.{Nvs}
use smol_wi_fi_receiver.Receiver.Rf.Radio.{Esb}
use smol_wi_fi_receiver.Receiver.Spi.Response.{IsSpi, IsReply}
use smol_wi_fi_receiver.Esp.BridgeSpi.{must_send, outgoing}
use smol_wi_fi_receiver.Esp.BridgeSpi.Frame.{IsFor, outgoing-decoded}
use smol_wi_fi_receiver.Esp.BridgeSpi.Exchange.{exchange, IsLink, outgoing-IsLink}
use smol_wi_fi_receiver.Esp.BridgeSpi.Answer.{
  Waiting, outgoing-Waiting, outgoing-Answered, received-Waiting, received-Answered,
  received-Answers_by, reply_in,
}
use smol_wi_fi_receiver.Wires.{Passage, whole, damaged, Both, Transfer, seen, frame_up, arrives}
use smol_wi_fi_receiver.Wires.Damage.{reply_of, IsDetected}
use smol_wi_fi_receiver.Wires.Stage.{sent, Brings, Gets, Fresh, Holds, outcome-sent}
use smol_wi_fi_receiver.Wires.Processed.{IsSent}

module _ {S E : Type 0} (nvs : Nvs S) (esb : Esb E) (id : ℕ) (request : List ℕ) where
  -- What stays of both states while the command is in hand.
  pub record IsBoth (b : Both S E) : Type 0 where
    pub link_in : IsLink b.link
    pub command_is : IsFor id request b.link
    pub spi_in : IsSpi b.spi
    pub cache_in : IsCache b.spi.control.cache

  -- Nothing of the command has reached the receiver.
  pub record Unheard (b : Both S E) : Type 0 where
    pub fresh : Fresh id b.spi
    pub silent : reply_of id b.tx_buffer ≡ none
    pub waits : Waiting id b.link

  -- It was executed and this is its response.
  pub record Heard (response : BridgeMessage) (b : Both S E) : Type 0 where
    pub holds : Holds id response b.spi
    pub ready : (reply_of id b.tx_buffer ≡ none) ⊎ Brings response b.tx_buffer
    pub answer : Waiting id b.link ⊎ Gets response b.link

  module _ (short : length request ≤ 64) where
    pub frame_up-IsSent :
        (t : Transfer S E) (b : Both S E)
        → IsBoth b
        → IsDetected t.up
        → IsSent id request (frame_up t b)
    frame_up-IsSent t b v intact = go t.up intact
      where
        go :
            (passage : Passage)
            → IsDetected passage
            → IsSent id request (arrives passage (exchange (seen t b) b.link).0)
        go whole d = inr (
          must_send t.now b.link.command,
          b.link.tx_sequence,
          outgoing-decoded id t.now request b.link v.link_in short v.command_is,
        )
        go (damaged bytes) d = inl d

    received_silent :
        (t : Transfer S E) (b : Both S E)
        → Waiting id b.link
        → reply_in id (seen t b) ≡ none
        → Waiting id (exchange (seen t b) b.link).1
    received_silent t b w silent =
        received-Waiting id (seen t b) (outgoing t.now b.link).1
          (outgoing-Waiting id t.now b.link w) silent

    -- A frame down that is no response for the ID leaves the command waiting.
    pub exchange_silent :
        (t : Transfer S E) (b : Both S E)
        → IsDetected t.down
        → reply_of id b.tx_buffer ≡ none
        → Waiting id b.link
        → Waiting id (exchange (seen t b) b.link).1
    exchange_silent t b intact silent w = received_silent t b w (nothing t.down intact)
      where
        nothing :
            (passage : Passage)
            → IsDetected passage
            → reply_in id (record {
              now = t.now;
              transmitted = t.transmitted;
              rx_buffer = arrives passage b.tx_buffer;
            })
              ≡ none
        nothing whole d = ground arith
        nothing (damaged bytes) d = ground arith

    -- A frame that brings the response answers it, if it arrives.
    pub exchange_brings :
        (t : Transfer S E) (b : Both S E) (response : BridgeMessage)
        → IsBoth b
        → IsReply id response
        → Brings response b.tx_buffer
        → Waiting id b.link
        → t.transmitted ≡ true
        → t.down ≡ whole
        → Gets response (exchange (seen t b) b.link).1
    exchange_brings t b response v r (sequence, more, ok) w passed intact = (
      m,
      received-Answers_by id (seen t b) m (outgoing t.now b.link).1
          (outgoing-IsLink t.now b.link v.link_in) (omega arith)
          (length-pad 64 (take (min response.payload_length 64) response.payload)
            (omega (arith, length-take (min response.payload_length 64) response.payload)))
          (outgoing-Waiting id t.now b.link w) hit,
      λ capacity. outcome-sent capacity id sequence more response r,
    )
      where
        m : BridgeMessage
        m = on_wire (sent sequence more response)

        arrived :
            (passage : Passage)
            → passage ≡ whole
            → sv_bridge_decode (arrives passage b.tx_buffer) ≡ some m
        arrived whole e = ok
        arrived (damaged bytes) e = ground arith

        hit : reply_in id (seen t b) ≡ some m
        hit = rw (passed, arrived t.down intact) (ground (arith, r.kind_is, r.id_is))

    pub exchange_answer :
        (t : Transfer S E) (b : Both S E) (response : BridgeMessage)
        → IsBoth b
        → IsReply id response
        → IsDetected t.down
        → (reply_of id b.tx_buffer ≡ none) ⊎ Brings response b.tx_buffer
        → Waiting id b.link ⊎ Gets response b.link
        → let after = (exchange (seen t b) b.link).1 in Waiting id after ⊎ Gets response after
    exchange_answer t b response v r intact ready (inr (m, a, same)) = inr (
      m,
      received-Answered m (seen t b) (outgoing t.now b.link).1 (outgoing-Answered m t.now b.link a),
      same,
    )
    exchange_answer t b response v r intact (inl silent) (inl w) =
        inl (exchange_silent t b intact silent w)
    exchange_answer t b response v r intact (inr brings) (inl w) = elim (Bool-cases t.transmitted) [
      | inl passed ↦ go t.down intact refl passed
      | inr failed ↦ inl (received_silent t b w (ground arith))
    ]
      where
        go :
            (passage : Passage)
            → IsDetected passage
            → t.down ≡ passage
            → t.transmitted ≡ true
            → Waiting id (exchange (seen t b) b.link).1
              ⊎ Gets response (exchange (seen t b) b.link).1
        go whole d e passed = inr (exchange_brings t b response v r brings w passed e)
        go (damaged bytes) d e passed = inl (
            received_silent t b w (
              ap
                (λ p. reply_in id (record {
                  now = t.now;
                  transmitted = t.transmitted;
                  rx_buffer = arrives p b.tx_buffer;
                }))
                e
              ∙ ground arith))
