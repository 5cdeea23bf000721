-- ===== src/Receiver/Report/Addresses.antt =====
-- Only the two tracker functions change the addresses that the registrations name.
use smol_wi_fi_receiver.Base.{
  ℕ, zero, suc, ◌+◌, ◌*◌, ◌-◌, List, [], Option, sym, length, replicate, Bool, true, false, none,
  some, ◌≡◌, refl, ap, ◌∙◌, arith, Option-cases, inl, inr, if_holds,
}
use smol_wi_fi_receiver.Base.Bytes.{copy_at}
use smol_wi_fi_receiver.Receiver.Report.{
  SmolRecord, Builder, Scan, found, absent, exhausted, store_record, report_builder_enqueue,
  next_registration, advance, registration_due,
}
use smol_wi_fi_receiver.Receiver.Report.Next.{
  take_records, fill_registrations, build_report, send_report, report_builder_next, record_size,
  data_records, report_size, copy_records,
}

store_record-addresses :
    (r : SmolRecord) (b : Builder) (s : Scan)
    → (store_record r b s).tracker_addresses ≡ b.tracker_addresses
unfolding store_record
store_record-addresses r b (found cursor) = refl
store_record-addresses r b absent = ground arith
store_record-addresses r b exhausted = refl

pub enqueue-addresses :
    (bytes : List ℕ) (rssi sequence flags : ℕ) (replace : Bool) (b : Builder)
    → (report_builder_enqueue bytes rssi sequence flags replace b).tracker_addresses
      ≡ b.tracker_addresses
unfolding report_builder_enqueue
enqueue-addresses bytes rssi sequence flags true b = store_record-addresses _ b _
enqueue-addresses bytes rssi sequence flags false b = store_record-addresses _ b absent

next_registration-addresses :
    (b b' : Builder) (text : List ℕ)
    → next_registration b ≡ some (text, b')
    → b'.tracker_addresses ≡ b.tracker_addresses
unfolding next_registration
next_registration-addresses b b' text e = picked _ e
  where
    addresses_of : Option (List ℕ × Builder) → List ℕ
    addresses_of none = []
    addresses_of (some (t, c)) = c.tracker_addresses

    picked :
        (o : Option (List ℕ × ℕ))
        → ◌≡◌ {A = Option (List ℕ × Builder)}
            (elim o [
              | none ↦ none
              | some (output, cursor) ↦ some (output, record b { registration_cursor = cursor })
            ])
            (some (text, b'))
        → b'.tracker_addresses ≡ b.tracker_addresses
    picked none h = cc
    picked (some (output, cursor)) h = sym (ap addresses_of h)

fill_registrations-addresses :
    (left index : ℕ) (output : List ℕ) (b : Builder) (due : Bool)
    → (fill_registrations left index output b due).1.tracker_addresses ≡ b.tracker_addresses
unfolding fill_registrations
fill_registrations-addresses zero index output b due = refl
fill_registrations-addresses (suc left) index output b due =
    elim (Option-cases (next_registration b)) [
      | inl last ↦ rw (last, fill_registrations)
      | inr ((text, b'), more) ↦
          rw (more, fill_registrations)
            (fill_registrations-addresses left (index + 1)
                (copy_at output (index * record_size) text) b' true
              ∙ next_registration-addresses b b' text more)
    ]

take_records-addresses :
    (left : ℕ) (b : Builder) → (take_records left b).1.tracker_addresses ≡ b.tracker_addresses
unfolding take_records
take_records-addresses zero b = refl
take_records-addresses (suc left) b =
    ground (arith, take_records-addresses left (record b { read_index = advance b.read_index }))

build_report-addresses :
    (now : ℕ) (records : List SmolRecord) (due : Bool) (b : Builder)
    → (build_report now records due b).1.tracker_addresses ≡ b.tracker_addresses
unfolding build_report
build_report-addresses now records due b =
    if_holds {A = Builder} (λ c. c.tracker_addresses ≡ b.tracker_addresses) _ _ _ filled filled
  where
    filled :
        (fill_registrations
          (data_records - length records)
          (length records)
          (copy_records records 0 (replicate report_size 0))
          b
          due).1.tracker_addresses
        ≡ b.tracker_addresses
    filled = fill_registrations-addresses (data_records - length records) (length records) _ b due

send_report-addresses :
    (now : ℕ) (records : List SmolRecord) (b : Builder)
    → (send_report now (records, b)).1.tracker_addresses ≡ b.tracker_addresses
unfolding send_report
send_report-addresses now records b =
    if_holds {A = Option (List ℕ) × Builder} (λ out. out.1.tracker_addresses ≡ b.tracker_addresses)
      _ _ _ refl (build_report-addresses now records (registration_due now b) b)

pub next-addresses :
    (now : ℕ) (b : Builder) → (report_builder_next now b).1.tracker_addresses ≡ b.tracker_addresses
unfolding report_builder_next
next-addresses now b =
    send_report-addresses now (take_records data_records b).0 (take_records data_records b).1
    ∙ take_records-addresses data_records b
