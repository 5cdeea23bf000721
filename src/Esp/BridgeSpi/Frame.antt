-- ===== src/Esp/BridgeSpi/Frame.antt =====
-- What the frames of `transact` hold while a command is in hand.
use smol_wi_fi_receiver.Base.{
  ℕ, ◌-◌, ◌≤◌, List, Bool, true, false, some, ◌≡◌, refl, ap, ◌∙◌, arith, length, min, if◌then◌else◌,
  Option-cases, inl, inr, take, replicate, take-append,
}
use smol_wi_fi_receiver.Base.Bytes.{pad, copy_at, copy_at-zeros, length-pad}
use smol_wi_fi_receiver.Protocol.Bridge.Kind
use smol_wi_fi_receiver.Protocol.Bridge.{BridgeMessage, sv_bridge_decode, sv_bridge_encode}
use smol_wi_fi_receiver.Protocol.Bridge.RoundTrip.{on_wire, sv_bridge_decode-encode}
use smol_wi_fi_receiver.Protocol.Replay.{zero_message}
use smol_wi_fi_receiver.Esp.BridgeSpi.{
  Link, PendingCommand, must_send, outgoing, received, dispatch,
}
use smol_wi_fi_receiver.Esp.BridgeSpi.Exchange.{IsLink, transferred}

-- What stays of the command while frames are received.
pub record SameCommand (c d : PendingCommand) : Type 0 where
  pub same_id : d.request_id ≡ c.request_id
  pub same_payload : d.payload ≡ c.payload
  pub same_length : d.payload_length ≡ c.payload_length
  pub same_attempts : d.attempts ≡ c.attempts
  pub same_next : d.next_attempt ≡ c.next_attempt

dispatch-SameCommand :
    (m : BridgeMessage) (link : Link) → SameCommand link.command (dispatch m link).command
unfolding dispatch
dispatch-SameCommand m link = ground arith

pub received-SameCommand :
    (transmitted : Bool) (rx : List ℕ) (link : Link)
    → SameCommand link.command (received transmitted rx link).1.command
unfolding received
received-SameCommand false rx link = ground arith
received-SameCommand true rx link = elim (Option-cases (sv_bridge_decode rx)) [
  | inl bad ↦ rw (bad, received) (ground arith)
  | inr (m, ok) ↦ rw (ok, received) (dispatch-SameCommand m (transferred link))
]

-- The messages that a frame may hold: an idle one, and the request's.
abbrev pub idle_message : ℕ → BridgeMessage
idle_message sequence = record zero_message { sequence = sequence }

abbrev pub command_message : ℕ → List ℕ → ℕ → BridgeMessage
command_message id request sequence = record {
  kind = Kind.command;
  flags = 0;
  payload_length = length request;
  sequence = sequence;
  request_id = id;
  payload = pad 64 request;
}

-- The command in hand is the request.
pub record IsFor (id : ℕ) (request : List ℕ) (link : Link) : Type 0 where
  pub id_is : link.command.request_id ≡ id
  pub length_is : link.command.payload_length ≡ length request
  pub payload_is : take (length request) link.command.payload ≡ request

-- What a frame holds, whether it carries the command or not.
abbrev pub held : Bool → ℕ → List ℕ → ℕ → BridgeMessage
held sends id request sequence =
    if sends then command_message id request sequence else idle_message sequence

on_wire-command_message :
    (id sequence : ℕ) (request : List ℕ)
    → length request ≤ 64
    → on_wire (command_message id request sequence) ≡ command_message id request sequence
on_wire-command_message id sequence request small = λ i. record {
  kind = Kind.command;
  flags = 0;
  payload_length = whole i;
  sequence = sequence;
  request_id = id;
  payload = pad 64 (cut i);
}
  where
    whole : min (length request) 64 ≡ length request
    whole = omega arith

    cut : take (min (length request) 64) (pad 64 request) ≡ request
    cut = rw whole (take-append (length request) request (replicate (64 - length request) 0) refl)

-- The message that `prepare_command` makes when it sends.
filled_message :
    (id sequence : ℕ) (request : List ℕ) (link : Link)
    → length request ≤ 64
    → IsFor id request link
    → record (idle_message sequence) {
      kind = Kind.command;
      request_id = link.command.request_id;
      payload_length = link.command.payload_length;
      payload = copy_at (replicate 64 0) 0 (take link.command.payload_length link.command.payload);
    }
      ≡ command_message id request sequence
filled_message id sequence request link small f = λ i. record {
  kind = Kind.command;
  flags = 0;
  payload_length = f.length_is i;
  sequence = sequence;
  request_id = f.id_is i;
  payload = copied i;
}
  where
    copied :
        copy_at (replicate 64 0) 0 (take link.command.payload_length link.command.payload)
        ≡ pad 64 request
    copied =
        ap (λ n. copy_at (replicate 64 0) 0 (take n link.command.payload)) f.length_is
        ∙ ap (copy_at (replicate 64 0) 0) f.payload_is
        ∙ copy_at-zeros 64 request small

outgoing-frame :
    (id now : ℕ) (request : List ℕ) (link : Link)
    → length request ≤ 64
    → IsFor id request link
    → (outgoing now link).0
      ≡ sv_bridge_encode (held (must_send now link.command) id request link.tx_sequence)
unfolding outgoing
outgoing-frame id now request link small f =
    ap sv_bridge_encode (pick (must_send now link.command) _ link.command)
  where
    filled : BridgeMessage
    filled = record (idle_message link.tx_sequence) {
      kind = Kind.command;
      request_id = link.command.request_id;
      payload_length = link.command.payload_length;
      payload = copy_at (replicate 64 0) 0 (take link.command.payload_length link.command.payload);
    }

    pick :
        (sends : Bool) (counted kept : PendingCommand)
        → (if◌then◌else◌ {A = BridgeMessage × PendingCommand} sends
            (filled, counted)
            (idle_message link.tx_sequence, kept)).0
          ≡ held sends id request link.tx_sequence
    pick true counted kept = filled_message id link.tx_sequence request link small f
    pick false counted kept = refl

-- The frame decodes to what it holds.
pub outgoing-decoded :
    (id now : ℕ) (request : List ℕ) (link : Link)
    → IsLink link
    → length request ≤ 64
    → IsFor id request link
    → sv_bridge_decode (outgoing now link).0
      ≡ some (held (must_send now link.command) id request link.tx_sequence)
outgoing-decoded id now request link v small f =
    ap sv_bridge_decode (outgoing-frame id now request link small f)
    ∙ decoded (must_send now link.command)
  where
    decoded :
        (sends : Bool)
        → sv_bridge_decode (sv_bridge_encode (held sends id request link.tx_sequence))
          ≡ some (held sends id request link.tx_sequence)
    decoded true =
        sv_bridge_decode-encode (command_message id request link.tx_sequence) (record {
          kind_in = omega arith;
          sequence_in = v.sequence_in;
          request_id_in = omega (arith, f.id_is, v.request_id_in);
          payload_size = length-pad 64 request small;
        })
        ∙ ap some (on_wire-command_message id link.tx_sequence request small)
    decoded false = sv_bridge_decode-encode (idle_message link.tx_sequence) (record {
      kind_in = omega arith;
      sequence_in = v.sequence_in;
      request_id_in = omega arith;
      payload_size = refl;
    })
