-- ===== src/Receiver/Report/Size.antt =====
-- A report has 64 bytes.
use smol_wi_fi_receiver.Base.{
  ℕ, zero, suc, ◌+◌, ◌*◌, ◌&&◌, ◌==◌, List, [], ◌∷◌, Bool, not, Option, none, some, ◌≡◌, refl, ◌∙◌,
  length, set, length-set, replicate, if_holds, Option-cases, inl, inr,
}
use smol_wi_fi_receiver.Base.Bytes.{copy_at, length-copy_at}
use smol_wi_fi_receiver.Receiver.Report.{SmolRecord, Builder, next_registration, registration_due}
use smol_wi_fi_receiver.Receiver.Report.Next.{
  take_records, copy_records, fill_registrations, write_tuples, write_metadata, build_report,
  report_builder_next,
}

length-copy_records :
    (records : List SmolRecord) (index : ℕ) (output : List ℕ)
    → length (copy_records records index output) ≡ length output
unfolding copy_records
length-copy_records [] index output = refl
length-copy_records (r ∷ rest) index output =
    length-copy_records rest (index + 1) (copy_at output (index * 16) r.bytes)
    ∙ length-copy_at output (index * 16) r.bytes

length-fill_registrations :
    (left index : ℕ) (output : List ℕ) (b : Builder) (due : Bool)
    → length (fill_registrations left index output b due).0 ≡ length output
unfolding fill_registrations
length-fill_registrations zero index output b due = refl
length-fill_registrations (suc left) index output b due =
    elim (Option-cases (next_registration b)) [
      | inl nothing ↦ rw (nothing, fill_registrations) refl
      | inr ((text, b'), found) ↦
          rw (found, fill_registrations)
            (length-fill_registrations left (index + 1) (copy_at output (index * 16) text) b' _
              ∙ length-copy_at output (index * 16) text)
    ]

length-write_tuples :
    (records : List SmolRecord) (base : ℕ) (output : List ℕ)
    → length (write_tuples records base output) ≡ length output
unfolding write_tuples
length-write_tuples [] base output = refl
length-write_tuples (r ∷ rest) base output =
    length-write_tuples rest (base + 3) _
    ∙ length-set (set (set output base r.sequence) (base + 1) r.rssi) (base + 2) r.flags
    ∙ length-set (set output base r.sequence) (base + 1) r.rssi
    ∙ length-set output base r.sequence

length-write_metadata :
    (records : List SmolRecord) (output : List ℕ)
    → length (write_metadata records output) ≡ length output
unfolding write_metadata
length-write_metadata records output = simp (length-set, length-write_tuples)

-- What `report_builder_next` gives, if it gives something, has 64 bytes.
abbrev pub IsReportSize : Option (List ℕ) → Type 0
IsReportSize none = Unit {0}
IsReportSize (some report) = length report ≡ 64

length-build_report :
    (now : ℕ) (records : List SmolRecord) (due : Bool) (b : Builder)
    → length (build_report now records due b).0 ≡ 64
unfolding build_report
length-build_report now records due b =
    length-write_metadata records _
    ∙ length-fill_registrations _ _ _ b due
    ∙ length-copy_records records 0 (replicate 64 0)

pub report_builder_next-IsReportSize :
    (now : ℕ) (b : Builder) → IsReportSize (report_builder_next now b).0
unfolding report_builder_next
report_builder_next-IsReportSize now b =
    let (records, taken) = take_records 3 b in
    let due = registration_due now taken in
    if_holds (λ (out : Option (List ℕ) × Builder). IsReportSize out.0)
      (length records == 0 && not due) _ _ tt (length-build_report now records due taken)
