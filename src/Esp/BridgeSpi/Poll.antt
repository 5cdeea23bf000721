-- ===== src/Esp/BridgeSpi/Poll.antt =====
-- `bridge_task` of bridge_spi.c: what one poll of the READY line does.
use smol_wi_fi_receiver.Base.{
  ℕ, zero, suc, ◌+◌, ◌≤◌, List, [], ◌∷◌, Bool, true, false, Option, none, some, ◌&&◌, ◌≡◌, inl, inr,
  refl, ap, arith, if◌then◌else◌, Bool-cases, not,
}
use smol_wi_fi_receiver.Esp.BridgeSpi.{
  Link, TransferResult, transfer_error, complete, more_pending, outgoing, received,
}
use smol_wi_fi_receiver.Esp.BridgeSpi.Exchange.{Exchange, exchange, run}

abbrev pub bridge_rearm_timeout_us : ℕ
bridge_rearm_timeout_us = 1000

-- The levels of the READY line, one per microsecond.
abbrev pub Levels : Type 0
Levels = ℕ → Bool

-- A loop of `wait_for_receiver_rearm` from a time on, with the rounds left: the time at which the
-- line has the level, if it comes.
unfoldable pub wait_level : ℕ → Bool → ℕ → Levels → Option ℕ
wait_level zero wanted time levels = none
wait_level (suc left) wanted time levels =
    let later = wait_level left wanted (time + 1) levels in
    let reached = if wanted then levels time else not (levels time) in
    if reached then some time else later

-- The line goes low, and high again.
unfoldable pub wait_for_receiver_rearm : ℕ → Levels → Bool
unfolding wait_level
wait_for_receiver_rearm time levels = elim (wait_level bridge_rearm_timeout_us false time levels) [
  | none ↦ false
  | some low ↦ elim (wait_level bridge_rearm_timeout_us true low levels) [
    | none ↦ false
    | some high ↦ true
  ]
]

-- What a transfer of a poll meets, and the READY line after it.
pub record Turn : Type 0 where
  pub meets : Exchange
  pub ready_from : ℕ
  pub levels : Levels

abbrev pub is_more_pending : TransferResult → Bool
is_more_pending transfer_error = false
is_more_pending complete = false
is_more_pending more_pending = true

-- The inner loop of `bridge_task`, with the rounds left: the frames sent, and the state.
unfoldable pub drain : ℕ → ℕ → (ℕ → Turn) → Link → List (List ℕ) × Link
drain zero turn turns link = ([], link)
drain (suc left) turn turns link =
    let t = turns turn in
    let (frame, sent) = outgoing t.meets.now link in
    let (result, after) = received t.meets.transmitted t.meets.rx_buffer sent in
    let (frames, final) = drain left (turn + 1) turns after in
    if is_more_pending result && wait_for_receiver_rearm t.ready_from t.levels
    then (frame ∷ frames, final)
    else (frame ∷ [], after)

-- One round of `bridge_task`.
unfoldable pub poll : Bool → (ℕ → Turn) → Link → List (List ℕ) × Link
unfolding drain
poll ready turns link = if ready then drain 8 0 turns link else ([], link)

-- The transfers of `n` turns from one on.
abbrev pub met : ℕ → ℕ → (ℕ → Turn) → List Exchange
met zero turn turns = []
met (suc n) turn turns = (turns turn).meets ∷ met n (turn + 1) turns

drain-run :
    (left turn : ℕ) (turns : ℕ → Turn) (link : Link)
    → (n : ℕ) × (n ≤ left) × (drain left turn turns link ≡ run (met n turn turns) link)
unfolding drain
drain-run zero turn turns link = (0, omega arith, refl)
drain-run (suc left) turn turns link =
    let t = turns turn in
    let after = (exchange t.meets link).1 in
    let (n, few, same) = drain-run left (turn + 1) turns after in
    elim (Bool-cases (
      is_more_pending
        (received t.meets.transmitted t.meets.rx_buffer (outgoing t.meets.now link).1).0
      && wait_for_receiver_rearm t.ready_from t.levels)) [
        | inl goes ↦ (
          suc n,
          omega (arith, few),
          rw (goes, drain) (ap (λ out. ((outgoing t.meets.now link).0 ∷ out.0, out.1)) same),
        )
        | inr ends ↦ (1, omega arith, rw (ends, drain) refl)
      ]

-- A poll makes at most eight transfers, none if the line is low, and does to the link what these
-- transfers do one after the other.
pub poll-run :
    (ready : Bool) (turns : ℕ → Turn) (link : Link)
    → (n : ℕ) × (n ≤ (if ready then 8 else 0)) × (poll ready turns link ≡ run (met n 0 turns) link)
unfolding poll
poll-run true turns link = drain-run 8 0 turns link
poll-run false turns link = (0, omega arith, refl)
