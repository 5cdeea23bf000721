-- ===== src/Wires/Stage.antt =====
-- How far a command has come: not heard by the receiver yet, or executed with its response in the
-- cache, and then waited for still or answered.
use smol_wi_fi_receiver.Base.{
  ℕ, ◌^◌, List, [], ◌∷◌, Bool, true, false, none, some, ◌≡◌, ◌≢◌, ◌⊎◌, inl, inr, refl, ap, ◌∙◌,
  arith, length, Bool-cases, if◌then◌else◌, ◌%◌, take, min, bit_or, take-append, length-take,
  replicate, ◌-◌,
}
use smol_wi_fi_receiver.Base.Bytes.{pad}
use smol_wi_fi_receiver.Protocol.Bridge.{
  BridgeMessage, sv_bridge_decode, sv_bridge_encode, flag_more_pending,
}
use smol_wi_fi_receiver.Protocol.Bridge.RoundTrip.{on_wire, sv_bridge_decode-encode}
use smol_wi_fi_receiver.Protocol.Replay.{sv_command_replay_find}
use smol_wi_fi_receiver.Receiver.Report.Next.{report_builder_pending}
use smol_wi_fi_receiver.Receiver.Spi.{Spi, prepare_tx}
use smol_wi_fi_receiver.Receiver.Spi.Response.{
  IsSpi, IsReply, prepare_tx_pending, framed, prepare_tx-IsSpi,
}
use smol_wi_fi_receiver.Esp.BridgeSpi.{Link}
use smol_wi_fi_receiver.Esp.BridgeSpi.Answer.{Answered, outcome, code_of}
use smol_wi_fi_receiver.Receiver.Rf.{Rf}
use smol_wi_fi_receiver.Wires.{ArmFailure, meanwhile, rearm}
use smol_wi_fi_receiver.Wires.Damage.{
  chosen, reply_of, prepare_tx_empties, prepare_tx-cache, prepare_tx_quiet,
}

-- The response as some frame carries it.
abbrev pub sent : ℕ → Bool → BridgeMessage → BridgeMessage
sent sequence more response = record response {
  sequence = sequence;
  flags = if more then bit_or response.flags flag_more_pending % 2 ^ 8 else response.flags;
}

code_of-sent :
    (sequence : ℕ) (more : Bool) (response : BridgeMessage)
    → (response.flags ≡ 0) ⊎ (response.flags ≡ 2)
    → code_of (sent sequence more response) ≡ code_of response
code_of-sent sequence true response (inl e) = rw e refl
code_of-sent sequence true response (inr e) = rw e refl
code_of-sent sequence false response f = refl

-- The caller gets the same from it.
pub outcome-sent :
    (capacity id sequence : ℕ) (more : Bool) (response : BridgeMessage)
    → IsReply id response
    → outcome capacity (some (on_wire (sent sequence more response)))
      ≡ outcome capacity (some response)
outcome-sent capacity id sequence more response v =
    rw (whole_length, kept, code_of-sent sequence more response v.flags_in) refl
  where
    n : ℕ
    n = response.payload_length

    whole_length : min n 64 ≡ n
    whole_length = omega (arith, v.short_enough)

    kept : take n (pad 64 (take n response.payload)) ≡ take n response.payload
    kept =
        take-append n (take n response.payload)
          (replicate (64 - length (take n response.payload)) 0)
          (omega (arith, length-take n response.payload, v.array_size, v.short_enough))

-- A frame that brings the response.
abbrev pub Brings : BridgeMessage → List ℕ → Type 0
Brings response frame =
    (sequence : ℕ) × (more : Bool) × (sv_bridge_decode frame
      ≡ some (on_wire (sent sequence more response)))

-- What the caller will get is the response.
abbrev pub Gets : BridgeMessage → Link → Type 0
Gets response link =
    (m : BridgeMessage) × Answered m link
    × ((capacity : ℕ) → outcome capacity (some m) ≡ outcome capacity (some response))

module _ {S E : Type 0} where
  -- Whatever the radio does, the commands' side stays.
  pub meanwhile-IsSpi :
      (radio : Rf S E → Rf S E) (spi : Spi S E) → IsSpi spi → IsSpi (meanwhile radio spi)
  meanwhile-IsSpi radio spi v = record {
    keyed = v.keyed;
    sequence_in = v.sequence_in;
    pending = v.pending;
  }

  pub rearm-cache :
      (fs : List (ArmFailure S E)) (p : List ℕ × Spi S E)
      → (rearm fs p).1.control.cache ≡ p.1.control.cache
  unfolding rearm
  rearm-cache [] p = refl
  rearm-cache (f ∷ rest) p =
      rearm-cache rest (prepare_tx f.prepared_at (meanwhile f.radio p.1))
      ∙ prepare_tx-cache f.prepared_at (meanwhile f.radio p.1)

  pub rearm-IsSpi :
      (fs : List (ArmFailure S E)) (p : List ℕ × Spi S E) → IsSpi p.1 → IsSpi (rearm fs p).1
  unfolding rearm
  rearm-IsSpi [] p v = v
  rearm-IsSpi (f ∷ rest) p v =
      rearm-IsSpi rest _
        (prepare_tx-IsSpi f.prepared_at (meanwhile f.radio p.1) (meanwhile-IsSpi f.radio p.1 v))

module _ {S E : Type 0} (id : ℕ) where
  -- The receiver has no response for the ID, cached or waiting.
  pub record Fresh (spi : Spi S E) : Type 0 where
    pub unknown : sv_command_replay_find spi.control.cache id ≡ none
    pub others_wait : spi.response_pending ≡ true → spi.pending_response.request_id ≢ id

  -- It has this one.
  pub record Holds (response : BridgeMessage) (spi : Spi S E) : Type 0 where
    pub is_reply : IsReply id response
    pub known : sv_command_replay_find spi.control.cache id ≡ some response
    pub it_waits : spi.response_pending ≡ true → spi.pending_response ≡ response

  -- Whatever the radio does, the commands' side stays.
  pub meanwhile-Fresh :
      (radio : Rf S E → Rf S E) (spi : Spi S E) → Fresh spi → Fresh (meanwhile radio spi)
  meanwhile-Fresh radio spi f = record { unknown = f.unknown; others_wait = f.others_wait }

  pub meanwhile-Holds :
      (radio : Rf S E → Rf S E) (spi : Spi S E) (r : BridgeMessage)
      → Holds r spi
      → Holds r (meanwhile radio spi)
  meanwhile-Holds radio spi r h = record {
    is_reply = h.is_reply;
    known = h.known;
    it_waits = h.it_waits;
  }

  -- What a waiting response's frame decodes to.
  sendable-decoded :
      (now other : ℕ) (spi : Spi S E) (response : BridgeMessage)
      → IsSpi spi
      → IsReply other response
      → sv_bridge_decode (sv_bridge_encode (framed now spi response))
        ≡ some (on_wire (framed now spi response))
  sendable-decoded now other spi response v r =
      sv_bridge_decode-encode (framed now spi response) (record {
        kind_in = omega (arith, r.kind_is);
        sequence_in = v.sequence_in;
        request_id_in = omega (arith, r.id_is, r.id_in);
        payload_size = r.array_size;
      })

  reply_of-other :
      (now other : ℕ) (spi : Spi S E) (response : BridgeMessage)
      → IsSpi spi
      → IsReply other response
      → response.request_id ≢ id
      → reply_of id (sv_bridge_encode (framed now spi response)) ≡ none
  reply_of-other now other spi response v r apart =
      ap (chosen id) (sendable-decoded now other spi response v r) ∙ ground arith

  pub prepare_tx-Fresh :
      (now : ℕ) (spi : Spi S E)
      → IsSpi spi
      → Fresh spi
      → Fresh (prepare_tx now spi).1 × (reply_of id (prepare_tx now spi).0 ≡ none)
  prepare_tx-Fresh now spi v f = (
    record {
      unknown = ap (λ c. sv_command_replay_find c id) (prepare_tx-cache now spi) ∙ f.unknown;
      others_wait = λ waits. absurd (ground (arith, prepare_tx_empties now spi));
    },
    elim (Bool-cases spi.response_pending) [
      | inl waits ↦
          let (other, r) = v.pending waits in
          ap (reply_of id) (prepare_tx_pending now spi waits).0
          ∙ reply_of-other now other spi spi.pending_response v r (f.others_wait waits)
      | inr quiet ↦ prepare_tx_quiet id now spi v quiet
    ],
  )

  pub prepare_tx-Brings :
      (now : ℕ) (spi : Spi S E) (response : BridgeMessage)
      → IsSpi spi
      → Holds response spi
      → spi.response_pending ≡ true
      → Brings response (prepare_tx now spi).0
  prepare_tx-Brings now spi response v h waits = (
    spi.tx_sequence,
    report_builder_pending now spi.control.rf.builder,
    ap sv_bridge_decode (
          (prepare_tx_pending now spi waits).0
          ∙ ap (λ r. sv_bridge_encode (framed now spi r)) (h.it_waits waits))
        ∙ sendable-decoded now id spi response v h.is_reply,
  )

  pub prepare_tx-Holds :
      (now : ℕ) (spi : Spi S E) (response : BridgeMessage)
      → IsSpi spi
      → Holds response spi
      → Holds response (prepare_tx now spi).1
        × ((reply_of id (prepare_tx now spi).0 ≡ none) ⊎ Brings response (prepare_tx now spi).0)
  prepare_tx-Holds now spi response v h = (
    record {
      is_reply = h.is_reply;
      known = ap (λ c. sv_command_replay_find c id) (prepare_tx-cache now spi) ∙ h.known;
      it_waits = λ waits. absurd (ground (arith, prepare_tx_empties now spi));
    },
    elim (Bool-cases spi.response_pending) [
      | inl waits ↦ inr (prepare_tx-Brings now spi response v h waits)
      | inr quiet ↦ inl (prepare_tx_quiet id now spi v quiet)
    ],
  )

  -- As long as nothing can be armed, the frames that are prepared are of the same kind.
  pub rearm-Fresh :
      (fs : List (ArmFailure S E)) (p : List ℕ × Spi S E)
      → IsSpi p.1
      → Fresh p.1 × (reply_of id p.0 ≡ none)
      → Fresh (rearm fs p).1 × (reply_of id (rearm fs p).0 ≡ none)
  unfolding rearm
  rearm-Fresh [] p v f = f
  rearm-Fresh (f ∷ rest) p v fresh =
      let w = meanwhile-IsSpi f.radio p.1 v in
      rearm-Fresh rest _ (prepare_tx-IsSpi f.prepared_at (meanwhile f.radio p.1) w) (
        prepare_tx-Fresh f.prepared_at (meanwhile f.radio p.1) w
          (meanwhile-Fresh f.radio p.1 fresh.0))

  pub rearm-Holds :
      (fs : List (ArmFailure S E)) (p : List ℕ × Spi S E) (response : BridgeMessage)
      → IsSpi p.1
      → Holds response p.1 × ((reply_of id p.0 ≡ none) ⊎ Brings response p.0)
      → Holds response (rearm fs p).1
        × ((reply_of id (rearm fs p).0 ≡ none) ⊎ Brings response (rearm fs p).0)
  unfolding rearm
  rearm-Holds [] p response v h = h
  rearm-Holds (f ∷ rest) p response v h =
      let w = meanwhile-IsSpi f.radio p.1 v in
      rearm-Holds rest _ response (prepare_tx-IsSpi f.prepared_at (meanwhile f.radio p.1) w) (
        prepare_tx-Holds f.prepared_at (meanwhile f.radio p.1) response w
          (meanwhile-Holds f.radio p.1 response h.0))
