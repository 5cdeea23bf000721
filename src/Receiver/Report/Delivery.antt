-- ===== src/Receiver/Report/Delivery.antt =====
-- Which records `report_builder_next` sends, and when it has something to send.
use smol_wi_fi_receiver.Base.{
  ℕ, zero, suc, ◌<◌, List, [], ◌∷◌, true, false, none, some, ◌≡◌, ◌≢◌, ◌↔◌, refl, sym, ap, ◌∙◌,
  arith, length, ◌==◌, ◌&&◌, not, if◌then◌else◌, take, drop, ℕ_discrete, Bool-cases, inl, inr, ◌⊎◌,
}
use smol_wi_fi_receiver.Receiver.Report.{SmolRecord, Builder, advance, slot, registration_due}
use smol_wi_fi_receiver.Receiver.Report.Ring.{IsBuilder, distance, waiting, waiting_from}
use smol_wi_fi_receiver.Receiver.Report.Next.{
  take_records, send_report, build_report, report_builder_next, report_builder_pending,
}

-- `b` with the read index moved.
abbrev pub skip : Builder → ℕ → Builder
skip b i = record b { read_index = i }

-- What taking up to `n` records off the queue does.
pub record Takes (n : ℕ) (b : Builder) : Type 0 where
  pub records : (take_records n b).0 ≡ take n (waiting b)
  pub index : ℕ
  pub moved : (take_records n b).1 ≡ skip b index
  pub index_in : index < 128
  pub left : waiting (skip b index) ≡ drop n (waiting b)

waiting-nil : (b : Builder) → IsBuilder b → b.read_index ≡ b.write_index → waiting b ≡ []
waiting-nil b v e =
    ap (waiting_from b.queue b.read_index) {x = distance b.read_index b.write_index} {y = 0}
      (omega (arith, v))

waiting-cons :
    (b : Builder)
    → IsBuilder b
    → b.read_index ≢ b.write_index
    → waiting b ≡ slot b.queue b.read_index ∷ waiting (skip b (advance b.read_index))
waiting-cons b v ne =
    ap (waiting_from b.queue b.read_index) {x = distance b.read_index b.write_index}
      {y = suc (distance (advance b.read_index) b.write_index)} (omega (arith, v))

take_records-zero : (b : Builder) → take_records 0 b ≡ ([], b)
unfolding take_records
take_records-zero b = refl

take_records-empty :
    (n : ℕ) (b : Builder) → b.read_index ≡ b.write_index → take_records (suc n) b ≡ ([], b)
unfolding take_records
take_records-empty n b e = ground arith

take_records-more :
    (n : ℕ) (b : Builder)
    → b.read_index ≢ b.write_index
    → let rest = take_records n (skip b (advance b.read_index)) in
      take_records (suc n) b ≡ (slot b.queue b.read_index ∷ rest.0, rest.1)
unfolding take_records
take_records-more n b ne = ground arith

pub take_records-Takes : (n : ℕ) (b : Builder) → IsBuilder b → Takes n b
take_records-Takes zero b v = record {
  records = ap (λ t. t.0) (take_records-zero b);
  index = b.read_index;
  moved = ap (λ t. t.1) (take_records-zero b);
  index_in = v.read_in;
  left = refl;
}
take_records-Takes (suc n) b v = elim (ℕ_discrete b.read_index b.write_index) [
  | yes same ↦ record {
    records =
        ap (λ t. t.0) (take_records-empty n b same)
        ∙ sym (ap (take (suc n)) (waiting-nil b v same));
    index = b.read_index;
    moved = ap (λ t. t.1) (take_records-empty n b same);
    index_in = v.read_in;
    left = waiting-nil b v same ∙ sym (ap (drop (suc n)) (waiting-nil b v same));
  }
  | no apart ↦
      let rest = take_records-Takes n (skip b (advance b.read_index)) (omega (arith, v)) in
      record {
        records =
            ap (λ t. t.0) (take_records-more n b apart)
            ∙ ap (◌∷◌ (slot b.queue b.read_index)) rest.records
            ∙ sym (ap (take (suc n)) (waiting-cons b v apart));
        index = rest.index;
        moved = ap (λ t. t.1) (take_records-more n b apart) ∙ rest.moved;
        index_in = rest.index_in;
        left = rest.left ∙ sym (ap (drop (suc n)) (waiting-cons b v apart));
      }
]

next-taken :
    (now : ℕ) (b : Builder) {t : List SmolRecord × Builder}
    → take_records 3 b ≡ t
    → report_builder_next now b ≡ send_report now t
next-taken now b e = unfold report_builder_next in ap (send_report now) e

-- Nothing to send, or a report.
abbrev IsIdle : ℕ → Builder → Type 0
IsIdle now b = (report_builder_pending now b ≡ false) × (report_builder_next now b ≡ (none, b))

abbrev IsBusy : ℕ → Builder → Type 0
IsBusy now b =
    (report_builder_pending now b ≡ true)
    × (report : List ℕ) × (b' : Builder) × (report_builder_next now b ≡ (some report, b'))

suc_test : (n : ℕ) → (suc n == 0) ≡ false
suc_test n = ground arith

next-cases : (now : ℕ) (b : Builder) → IsIdle now b ⊎ IsBusy now b
next-cases now b = elim (ℕ_discrete b.read_index b.write_index) [
  | yes same ↦ elim (Bool-cases (registration_due now b)) [
    | inl due ↦
        let sent = build_report now [] (registration_due now b) b in
        inr (
          unfold report_builder_pending in ground arith,
          sent.0,
          sent.1,
          next-taken now b (take_records-empty 2 b same)
              ∙ (unfold send_report in
                  ap (λ d. if not d then (none, b) else (some sent.0, sent.1)) due),
        )
    | inr quiet ↦
        let sent = build_report now [] (registration_due now b) b in
        inl (
          unfold report_builder_pending in ground arith,
          next-taken now b (take_records-empty 2 b same)
              ∙ (unfold send_report in
                  ap (λ d. if not d then (none, b) else (some sent.0, sent.1)) quiet),
        )
  ]
  | no apart ↦
      let rest = take_records 2 (skip b (advance b.read_index)) in
      let records = slot b.queue b.read_index ∷ rest.0 in
      let sent = build_report now records (registration_due now rest.1) rest.1 in
      inr (
        unfold report_builder_pending in ground arith,
        sent.0,
        sent.1,
        next-taken now b (take_records-more 2 b apart)
            ∙ (unfold send_report in
                ap
                  (λ t.
                    if t && not (registration_due now rest.1)
                    then (none, rest.1)
                    else (some sent.0, sent.1))
                  (suc_test (length rest.0))),
      )
]

-- `report_builder_next` has a report exactly when `report_builder_pending`, asked at the same
-- time, says so; and when it has none, it leaves the state alone.
pub next-pending :
    (now : ℕ) (b : Builder)
    → ((report_builder_next now b).0 ≡ none ↔ (report_builder_pending now b ≡ false))
      × ((report_builder_next now b).0 ≡ none → (report_builder_next now b).1 ≡ b)
next-pending now b = elim (next-cases now b) [
  | inl idle ↦ (((λ _. idle.0), (λ _. ap (λ t. t.0) idle.1)), λ _. ap (λ t. t.1) idle.1)
  | inr (pending, report, b', sent) ↦
      let some_sent = ap (λ t. t.0) sent in (((λ h. cc), (λ h. cc)), λ h. cc)
]
