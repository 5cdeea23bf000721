-- ===== src/Esp/BridgeSpi/Attempts.antt =====
-- What is sent for a command: its request, at most three times, at least 50 ticks apart.
use smol_wi_fi_receiver.Base.{
  ℕ, suc, ◌+◌, ◌-◌, ◌%◌, ◌^◌, ◌<◌, ◌≤◌, List, [], ◌∷◌, Bool, true, false, none, some, Option, ◌≡◌,
  ◌⊎◌, refl, ap, ◌∙◌, arith, length, if◌then◌else◌, Bool-cases, inl, inr, ◌==◌, All, get_or,
}
use smol_wi_fi_receiver.Base.Bytes.{take-copy_at}
use smol_wi_fi_receiver.Protocol.Bridge.Kind
use smol_wi_fi_receiver.Protocol.Bridge.{BridgeMessage, sv_bridge_decode}
use smol_wi_fi_receiver.Esp.BridgeSpi.{
  Link, PendingCommand, esp_ok, must_send, outgoing, begin_command, tick_reached,
}
use smol_wi_fi_receiver.Esp.BridgeSpi.Frame.{
  received-SameCommand, idle_message, command_message, IsFor, held, outgoing-decoded,
}
use smol_wi_fi_receiver.Esp.BridgeSpi.Exchange.{
  Exchange, exchange, run, IsLink, exchange-IsLink, begin_command-IsLink, Reach, Reach-IsLink,
}

-- Whether a frame carries a command.
abbrev pub carries : List ℕ → Bool
carries frame = elim (sv_bridge_decode frame) [ none ↦ false | some m ↦ m.kind == Kind.command ]

-- When commands were sent, by the transfers and their frames.
abbrev pub send_times : List Exchange → List (List ℕ) → List ℕ
send_times [] frames = []
send_times (x ∷ rest) [] = []
send_times (x ∷ rest) (frame ∷ frames) =
    let later = send_times rest frames in if carries frame then x.now ∷ later else later

-- From each time to the next at least 50 ticks pass, on a counter of 32 bits.
abbrev pub SpacedFrom : ℕ → List ℕ → Type 0
SpacedFrom previous [] = Unit {0}
SpacedFrom previous (time ∷ rest) =
    (50 ≤ (time + 2 ^ 32 - previous) % 2 ^ 32) × SpacedFrom time rest

abbrev pub Spaced : List ℕ → Type 0
Spaced [] = Unit {0}
Spaced (time ∷ rest) = SpacedFrom time rest

abbrev pub InTicks : Exchange → Type 0
InTicks x = x.now < 2 ^ 32

carries-outgoing :
    (id now : ℕ) (request : List ℕ) (link : Link)
    → IsLink link
    → length request ≤ 64
    → IsFor id request link
    → carries (outgoing now link).0 ≡ must_send now link.command
carries-outgoing id now request link v small f =
    ap kind_tested (outgoing-decoded id now request link v small f)
    ∙ tested (must_send now link.command)
  where
    kind_tested : Option BridgeMessage → Bool
    kind_tested o = elim o [ none ↦ false | some m ↦ m.kind == Kind.command ]

    tested : (sends : Bool) → kind_tested (some (held sends id request link.tx_sequence)) ≡ sends
    tested true = refl
    tested false = refl

-- What an exchange does to the attempts, if it sends and if it does not.
exchange_sends :
    (x : Exchange) (link : Link)
    → must_send x.now link.command ≡ true
    → let after = (exchange x link).1.command in
      (after.attempts ≡ suc link.command.attempts)
      × (after.next_attempt ≡ (x.now + 50) % 2 ^ 32)
      × (link.command.attempts < 3)
      × ((link.command.attempts ≡ 0) ⊎ (tick_reached x.now link.command.next_attempt ≡ true))
unfolding outgoing
exchange_sends x link sends =
    ground (arith, received-SameCommand x.transmitted x.rx_buffer (outgoing x.now link).1)

exchange_waits :
    (x : Exchange) (link : Link)
    → must_send x.now link.command ≡ false
    → let after = (exchange x link).1.command in
      (after.attempts ≡ link.command.attempts) × (after.next_attempt ≡ link.command.next_attempt)
unfolding outgoing
exchange_waits x link waits =
    ground (arith, received-SameCommand x.transmitted x.rx_buffer (outgoing x.now link).1)

pub exchange-IsFor :
    (id : ℕ) (request : List ℕ) (x : Exchange) (link : Link)
    → IsFor id request link
    → IsFor id request (exchange x link).1
unfolding outgoing
exchange-IsFor id request x link f =
    ground (arith, received-SameCommand x.transmitted x.rx_buffer (outgoing x.now link).1)

-- The times at which a run sends the command.
abbrev pub times : List Exchange → Link → List ℕ
times xs link = send_times xs (run xs link).0

-- What a frame may decode to.
abbrev pub IsIdleOrRequest : ℕ → List ℕ → List ℕ → Type 0
IsIdleOrRequest id request frame =
    (sequence : ℕ) × ((sv_bridge_decode frame ≡ some (idle_message sequence))
      ⊎ (sv_bridge_decode frame ≡ some (command_message id request sequence)))

module _ (id : ℕ) (request : List ℕ) (small : length request ≤ 64) where
  times_cons :
      (x : Exchange) (rest : List Exchange) (link : Link)
      → IsLink link
      → IsFor id request link
      → times (x ∷ rest) link ≡ (
          if must_send x.now link.command
          then x.now ∷ times rest (exchange x link).1
          else times rest (exchange x link).1)
  times_cons x rest link v f =
      ap
        (λ sends.
          if sends then x.now ∷ times rest (exchange x link).1 else times rest (exchange x link).1)
        (carries-outgoing id x.now request link v small f)

  -- The attempts left bound what is sent.
  length-times :
      (xs : List Exchange) (link : Link)
      → IsLink link
      → IsFor id request link
      → link.command.attempts ≤ 3
      → length (times xs link) + link.command.attempts ≤ 3
  length-times [] link v f few = omega arith
  length-times (x ∷ rest) link v f few = elim (Bool-cases (must_send x.now link.command)) [
    | inl sends ↦
        let step = exchange_sends x link sends in
        let later =
          length-times rest (exchange x link).1 (exchange-IsLink x link v)
            (exchange-IsFor id request x link f) (omega (arith, step)) in
        rw (times_cons x rest link v f, sends) (omega (arith, step, later))
    | inr waits ↦
        let step = exchange_waits x link waits in
        let later =
          length-times rest (exchange x link).1 (exchange-IsLink x link v)
            (exchange-IsFor id request x link f) (omega (arith, step)) in
        rw (times_cons x rest link v f, waits) (omega (arith, step, later))
  ]

  -- Behind a send at `previous`, the next one waits for 50 ticks.
  times-SpacedFrom :
      (previous : ℕ) (xs : List Exchange) (link : Link)
      → IsLink link
      → IsFor id request link
      → All InTicks xs
      → previous < 2 ^ 32
      → 0 < link.command.attempts
      → link.command.next_attempt ≡ (previous + 50) % 2 ^ 32
      → SpacedFrom previous (times xs link)
  times-SpacedFrom previous [] link v f ticks p sent next = tt
  times-SpacedFrom previous (x ∷ rest) link v f ticks p sent next =
      elim (Bool-cases (must_send x.now link.command)) [
        | inl sends ↦
            let step = exchange_sends x link sends in
            rw (times_cons x rest link v f, sends)
              (
                ground (arith, step),
                times-SpacedFrom x.now rest (exchange x link).1 (exchange-IsLink x link v)
                    (exchange-IsFor id request x link f) ticks.1 ticks.0 (omega (arith, step))
                    step.1,
              )
        | inr waits ↦
            let step = exchange_waits x link waits in
            rw (times_cons x rest link v f, waits)
              (times-SpacedFrom previous rest (exchange x link).1 (exchange-IsLink x link v)
                (exchange-IsFor id request x link f) ticks.1 p (omega (arith, step))
                (step.1 ∙ next))
      ]

  -- Before the first send.
  times-Spaced :
      (xs : List Exchange) (link : Link)
      → IsLink link
      → IsFor id request link
      → All InTicks xs
      → link.command.attempts ≡ 0
      → Spaced (times xs link)
  times-Spaced [] link v f ticks none_sent = tt
  times-Spaced (x ∷ rest) link v f ticks none_sent =
      elim (Bool-cases (must_send x.now link.command)) [
        | inl sends ↦
            let step = exchange_sends x link sends in
            rw (times_cons x rest link v f, sends)
              (times-SpacedFrom x.now rest (exchange x link).1 (exchange-IsLink x link v)
                (exchange-IsFor id request x link f) ticks.1 ticks.0 (omega (arith, step)) step.1)
        | inr waits ↦
            let step = exchange_waits x link waits in
            rw (times_cons x rest link v f, waits)
              (times-Spaced rest (exchange x link).1 (exchange-IsLink x link v)
                (exchange-IsFor id request x link f) ticks.1 (step.0 ∙ none_sent))
      ]

  held-IsIdleOrRequest :
      (sends : Bool) (sequence : ℕ) (frame : List ℕ)
      → sv_bridge_decode frame ≡ some (held sends id request sequence)
      → IsIdleOrRequest id request frame
  held-IsIdleOrRequest true sequence frame e = (sequence, inr e)
  held-IsIdleOrRequest false sequence frame e = (sequence, inl e)

  run-IsIdleOrRequest :
      (xs : List Exchange) (link : Link)
      → IsLink link
      → IsFor id request link
      → All (IsIdleOrRequest id request) (run xs link).0
  run-IsIdleOrRequest [] link v f = tt
  run-IsIdleOrRequest (x ∷ rest) link v f = (
    held-IsIdleOrRequest (must_send x.now link.command) link.tx_sequence (outgoing x.now link).0
        (outgoing-decoded id x.now request link v small f),
    run-IsIdleOrRequest rest (exchange x link).1 (exchange-IsLink x link v)
        (exchange-IsFor id request x link f),
  )

pub must_send_first :
    (now : ℕ) (command : PendingCommand)
    → command.active ≡ true
    → command.attempts ≡ 0
    → must_send now command ≡ true
unfolding must_send
must_send_first now command active unsent = ground arith

first_frame :
    (id : ℕ) (request : List ℕ)
    → length request ≤ 64
    → (xs : List Exchange) (link : Link) → IsLink link
    → IsFor id request link
    → link.command.active ≡ true
    → link.command.attempts ≡ 0
    → (xs ≡ []) ⊎ (carries (get_or (run xs link).0 0 []) ≡ true)
first_frame id request small [] link v f active unsent = inl refl
first_frame id request small (x ∷ rest) link v f active unsent = inr (
    carries-outgoing id x.now request link v small f
    ∙ must_send_first x.now link.command active unsent)

pub begin_command-IsFor :
    (request : List ℕ) (link : Link)
    → IsLink link
    → (begin_command request link).0 ≡ esp_ok
    → (length request ≤ 64)
      × IsFor link.next_request_id request (begin_command request link).1
      × ((begin_command request link).1.command.attempts ≡ 0)
      × ((begin_command request link).1.command.active ≡ true)
unfolding begin_command
begin_command-IsFor request link v ok =
    ground (arith, take-copy_at link.command.payload request (length request) refl)

-- However the link's state was reached, when a command is accepted and any transfers follow, each
-- frame that they send decodes to an idle message or to the request under its request ID; the
-- request is sent at most three times, at least 50 ticks apart (on the 32-bit tick counter), and
-- the very first of these frames, if there is one, carries it.
pub run-attempts :
    (request : List ℕ) (xs : List Exchange) {link : Link}
    → Reach link
    → All InTicks xs
    → (begin_command request link).0 ≡ esp_ok
    → let frames = (run xs (begin_command request link).1).0 in
      All (IsIdleOrRequest link.next_request_id request) frames
      × (length (send_times xs frames) ≤ 3)
      × Spaced (send_times xs frames)
      × ((xs ≡ []) ⊎ (carries (get_or frames 0 []) ≡ true))
run-attempts request xs {link} r ticks ok =
    let v = Reach-IsLink r in
    let (small, f, unsent, active) = begin_command-IsFor request link v ok in
    let w = begin_command-IsLink request link v in
    let started = (begin_command request link).1 in
    let id = link.next_request_id in
    (
      run-IsIdleOrRequest id request small xs started w f,
      omega (arith, length-times id request small xs started w f (omega arith), unsent),
      times-Spaced id request small xs started w f ticks unsent,
      first_frame id request small xs started w f active unsent,
    )
