-- ===== src/Receiver/Spi/Response.antt =====
-- The frame after a command carries its response.
use smol_wi_fi_receiver.Base.{
  ℕ, ◌^◌, ◌%◌, ◌<◌, ◌≤◌, List, [], ◌∷◌, true, false, some, ◌≡◌, refl, ap, ◌∙◌, arith, length, All,
  All-set, bit_or, if◌then◌else◌, Option-cases, if_holds, inl, inr, ◌==◌, ◌⊎◌, Bool,
}
use smol_wi_fi_receiver.Base.Bytes.{IsBytes}
use smol_wi_fi_receiver.Protocol.Bridge.Kind
use smol_wi_fi_receiver.Protocol.Bridge.{
  BridgeMessage, sv_bridge_decode, flag_more_pending, sv_bridge_encode,
}
use smol_wi_fi_receiver.Protocol.Bridge.RoundTrip.{
  IsMessage, on_wire, sv_bridge_decode-encode, sv_bridge_decode-IsMessage,
}
use smol_wi_fi_receiver.Protocol.Replay.{
  ReplayEntry, find_in, sv_command_replay_init, sv_command_replay_find, sv_command_replay_store,
}
use smol_wi_fi_receiver.Receiver.Report.Next.{report_builder_pending}
use smol_wi_fi_receiver.Receiver.Storage.{Nvs}
use smol_wi_fi_receiver.Receiver.Rf.{Rf}
use smol_wi_fi_receiver.Receiver.Rf.Radio.{Esb}
use smol_wi_fi_receiver.Receiver.Control.{
  Control, execute, receiver_control_handle, receiver_control_init,
}
use smol_wi_fi_receiver.Receiver.Control.Once.{
  Arrival, handle, handle-cached, cache-handle_new, response-handle_new,
}
use smol_wi_fi_receiver.Protocol.Replay.Window.{entry}
use smol_wi_fi_receiver.Receiver.Control.Response.{IsResponse, execute-IsResponse}
use smol_wi_fi_receiver.Receiver.Spi.{Spi, prepare_tx, process_rx}

-- A response that can be sent for a request ID, with no flag but the one of an error.
pub record IsReply (id : ℕ) (response : BridgeMessage) : Type 0 where
  pub kind_is : response.kind ≡ 3
  pub id_is : response.request_id ≡ id
  pub id_in : id < 2 ^ 16
  pub array_size : length response.payload ≡ 64
  pub short_enough : response.payload_length ≤ 64
  pub flags_in : (response.flags ≡ 0) ⊎ (response.flags ≡ 2)

-- What a cache entry holds is a response for its ID.
abbrev pub IsKeyed : ReplayEntry → Type 0
IsKeyed e = e.valid ≡ true → IsReply e.request_id e.response

find_in-IsReply :
    (es : List ReplayEntry) (id : ℕ) (r : BridgeMessage)
    → All IsKeyed es
    → find_in es id ≡ some r
    → IsReply id r
unfolding find_in
find_in-IsReply [] id r keyed found = cc
find_in-IsReply (e ∷ es) id r keyed found = ground (arith, keyed.0, find_in-IsReply es id r keyed.1)

either_flag :
    (clear : Bool) {flags : ℕ} → flags ≡ (if clear then 0 else 2) → (flags ≡ 0) ⊎ (flags ≡ 2)
either_flag true e = inl e
either_flag false e = inr e

module _ {S E : Type 0} where
  -- What is kept about a control state, and about the bridge.
  abbrev pub IsControl : Control S E → Type 0
  IsControl ctl = All IsKeyed ctl.cache.entries

  pub record IsSpi (spi : Spi S E) : Type 0 where
    pub keyed : IsControl spi.control
    pub sequence_in : spi.tx_sequence < 2 ^ 16
    pub pending : spi.response_pending ≡ true → (id : ℕ) × IsReply id spi.pending_response

  pub prepare_tx-IsSpi : (now : ℕ) (spi : Spi S E) → IsSpi spi → IsSpi (prepare_tx now spi).1
  unfolding prepare_tx
  prepare_tx-IsSpi now spi v = ground arith

  -- The response as the frame carries it.
  abbrev pub framed : ℕ → Spi S E → BridgeMessage → BridgeMessage
  framed now spi response = record response {
    sequence = spi.tx_sequence;
    flags =
        if report_builder_pending now spi.control.rf.builder
        then bit_or response.flags flag_more_pending % 2 ^ 8
        else response.flags;
  }

  pub prepare_tx_pending :
      (now : ℕ) (spi : Spi S E)
      → spi.response_pending ≡ true
      → ((prepare_tx now spi).0 ≡ sv_bridge_encode (framed now spi spi.pending_response))
        × ((prepare_tx now spi).1.response_pending ≡ false)
  unfolding prepare_tx
  prepare_tx_pending now spi waits = ground arith

  module _ (nvs : Nvs S) (esb : Esb E) where
    -- A request as `process_rx` hands it on.
    abbrev pub arrival : ℕ → Spi S E → BridgeMessage → Arrival
    arrival now spi request = record {
      now = now;
      spi_crc_errors = spi.crc_errors;
      request = request;
    }

    -- Handling a request keeps the cache so, and gives a response for the request's ID.
    pub handle-IsReply :
        (a : Arrival) (ctl : Control S E)
        → IsControl ctl
        → a.request.request_id < 2 ^ 16
        → IsReply a.request.request_id (handle nvs esb a ctl).0 × IsControl (handle nvs esb a ctl).1
    handle-IsReply a ctl keyed small =
        elim (Option-cases (sv_command_replay_find ctl.cache a.request.request_id)) [
          | inl new ↦ (
            rw (response-handle_new nvs esb a ctl new) executed,
            rw (cache-handle_new nvs esb a ctl new) (
                unfold sv_command_replay_store in
                All-set IsKeyed ctl.cache.entries ctl.cache.cursor
                  (entry a.request.request_id (handle nvs esb a ctl).0) keyed
                  (λ _. rw (response-handle_new nvs esb a ctl new) executed)),
          )
          | inr (r, known) ↦ rw (handle-cached nvs esb a ctl r known) (
            find_in-IsReply ctl.cache.entries a.request.request_id r keyed
                (unfold sv_command_replay_find in known),
            keyed,
          )
        ]
      where
        shape : IsResponse a.request (execute nvs esb a.now a.spi_crc_errors a.request ctl.rf).0
        shape = execute-IsResponse nvs esb a.now a.spi_crc_errors a.request ctl.rf

        executed :
            IsReply a.request.request_id (execute nvs esb a.now a.spi_crc_errors a.request ctl.rf).0
        executed = record {
          kind_is = shape.kind_is;
          id_is = shape.id_is;
          id_in = small;
          array_size = shape.array_size;
          short_enough = shape.short_enough;
          flags_in = either_flag _ shape.flags_are;
        }

    -- Receiving a frame keeps the state so, if the request ID in it, if any, has 16 bits.
    pub process_rx-IsSpi_by :
        (now : ℕ) (rx : List ℕ) (spi : Spi S E)
        → ((m : BridgeMessage) → sv_bridge_decode rx ≡ some m → m.request_id < 2 ^ 16)
        → IsSpi spi
        → IsSpi (process_rx nvs esb now rx spi)
    unfolding process_rx
    process_rx-IsSpi_by now rx spi small v = elim (Option-cases (sv_bridge_decode rx)) [
      | inl bad ↦
          rw (bad, process_rx)
            (record { keyed = v.keyed; sequence_in = v.sequence_in; pending = v.pending })
      | inr (request, ok) ↦
          let kept =
            handle-IsReply (arrival now spi request) spi.control v.keyed (small request ok) in
          rw (ok, process_rx)
            (if_holds IsSpi (request.kind == Kind.command) _ _
              (record {
                keyed = kept.1;
                sequence_in = v.sequence_in;
                pending = λ _. (request.request_id, kept.0);
              })
              v)
    ]

    -- In 80 bytes it has.
    process_rx-IsSpi :
        (now : ℕ) (rx : List ℕ) (spi : Spi S E)
        → IsBytes rx
        → length rx ≡ 80
        → IsSpi spi
        → IsSpi (process_rx nvs esb now rx spi)
    process_rx-IsSpi now rx spi bytes size =
        process_rx-IsSpi_by now rx spi
          (λ m ok. (sv_bridge_decode-IsMessage rx bytes size ok).0.request_id_in)

    -- What the radio's interrupt and the work queue do changes the receiver's part alone.
    abbrev pub elsewhere : Rf S E → Spi S E → Spi S E
    elsewhere rf spi = record spi { control = record spi.control { rf = rf } }

    -- The state that `spi_bridge_init` leaves to the thread.
    abbrev pub booted : Spi S E → Spi S E
    booted spi = record spi {
      control = receiver_control_init spi.control;
      response_pending = false;
      tx_sequence = 0;
      crc_errors = 0;
    }

    -- Whatever frames arrive, in any order with the frames sent and with other changes.
    pub data Reach : Spi S E → Type 0 where
      start : (spi : Spi S E) → Reach (booted spi)
      sent : (now : ℕ) {spi : Spi S E} → Reach spi → Reach (prepare_tx now spi).1
      got :
          (now : ℕ) (rx : List ℕ) {spi : Spi S E}
          → IsBytes rx
          → length rx ≡ 80
          → Reach spi
          → Reach (process_rx nvs esb now rx spi)
      changed : (rf : Rf S E) {spi : Spi S E} → Reach spi → Reach (elsewhere rf spi)

    pub Reach-IsSpi : {spi : Spi S E} → Reach spi → IsSpi spi
    unfolding receiver_control_init sv_command_replay_init
    Reach-IsSpi (start spi) = ground arith
    Reach-IsSpi (sent now {spi} r) = prepare_tx-IsSpi now spi (Reach-IsSpi r)
    Reach-IsSpi (got now rx {spi} bytes size r) =
        process_rx-IsSpi now rx spi bytes size (Reach-IsSpi r)
    Reach-IsSpi (changed rf r) =
        let v = Reach-IsSpi r in
        record { keyed = v.keyed; sequence_in = v.sequence_in; pending = v.pending }

    pub got_command :
        (now : ℕ) (rx : List ℕ) (spi : Spi S E) (request : BridgeMessage)
        → sv_bridge_decode rx ≡ some request
        → request.kind ≡ 2
        → process_rx nvs esb now rx spi ≡ record spi {
          control = (handle nvs esb (arrival now spi request) spi.control).1;
          pending_response = (handle nvs esb (arrival now spi request) spi.control).0;
          response_pending = true;
        }
    unfolding process_rx
    got_command now rx spi request ok command = rw (ok, process_rx) (rw command)

    -- However the state was reached, when a frame with a command arrives, then the next frame that
    -- prepare_tx makes, whatever the radio does meanwhile, decodes to the response that the command
    -- was given, its payload zeroed behind its length: a command response of at most 64 bytes for
    -- the command's request ID, with no flag but the one of an error, under the link's next sequence
    -- number, with the flag that more is pending added exactly if a report is pending. After it no
    -- response waits.
    pub prepare_tx-process_rx :
        (now later : ℕ) (rx : List ℕ) (rf : Rf S E) {spi : Spi S E} (request : BridgeMessage)
        → Reach spi
        → IsBytes rx
        → length rx ≡ 80
        → sv_bridge_decode rx ≡ some request
        → request.kind ≡ 2
        → let response =
            (receiver_control_handle nvs esb now spi.crc_errors request spi.control).0 in
          let after = elsewhere rf (process_rx nvs esb now rx spi) in
          IsReply request.request_id response
          × (after.tx_sequence ≡ spi.tx_sequence)
          × (sv_bridge_decode (prepare_tx later after).0
              ≡ some (on_wire (framed later after response)))
          × ((prepare_tx later after).1.response_pending ≡ false)
    prepare_tx-process_rx now later rx rf {spi} request r bytes size ok command =
        rw (got_command now rx spi request ok command) (
          reply,
          refl,
          ap sv_bridge_decode frame.0
              ∙ sv_bridge_decode-encode (framed later held response) sendable,
          frame.1,
        )
      where
        v : IsSpi spi
        v = Reach-IsSpi r

        response : BridgeMessage
        response = (handle nvs esb (arrival now spi request) spi.control).0

        held : Spi S E
        held = elsewhere rf (record spi {
          control = (handle nvs esb (arrival now spi request) spi.control).1;
          pending_response = response;
          response_pending = true;
        })

        frame :
            ((prepare_tx later held).0 ≡ sv_bridge_encode (framed later held response))
            × ((prepare_tx later held).1.response_pending ≡ false)
        frame = prepare_tx_pending later held refl

        reply : IsReply request.request_id response
        reply =
            (handle-IsReply (arrival now spi request) spi.control v.keyed
              (sv_bridge_decode-IsMessage rx bytes size ok).0.request_id_in).0

        sendable : IsMessage (framed later held response)
        sendable = record {
          kind_in = omega (arith, reply.kind_is);
          sequence_in = v.sequence_in;
          request_id_in = omega (arith, reply.id_is, reply.id_in);
          payload_size = reply.array_size;
        }
