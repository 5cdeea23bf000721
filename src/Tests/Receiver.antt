-- ===== src/Tests/Receiver.antt =====
-- Runs of the report builder, and its theorems at a concrete state.
use smol_wi_fi_receiver.Base.{
  ℕ, List, [], ◌∷◌, ◌++◌, true, false, some, none, ◌≡◌, refl, arith, replicate, ◌↔◌,
}
use smol_wi_fi_receiver.Base.Int.{negsuc}
use smol_wi_fi_receiver.Receiver.Report.{
  Builder, zero_record, make_record, report_builder_enqueue, next_registration, has_registration,
  registration_due,
}
use smol_wi_fi_receiver.Receiver.Report.Ring.{IsBuilder, waiting}
use smol_wi_fi_receiver.Receiver.Report.Enqueue.{enqueue_refines, offer}
use smol_wi_fi_receiver.Receiver.Report.Next.{report_builder_next, report_builder_pending}
use smol_wi_fi_receiver.Receiver.Report.Delivery.{next-pending}

abbrev empty : Builder
empty = record {
  queue = replicate 128 zero_record;
  read_index = 127;
  write_index = 127;
  tracker_addresses = 0 ∷ 0 ∷ 0xa5046fe8a5f5 ∷ replicate 29 0;
  registration_cursor = 0;
  last_registration_ms = negsuc 99;
  drops = 0;
}

empty-IsBuilder : IsBuilder empty
empty-IsBuilder = record {
  queue_size = refl;
  read_in = omega arith;
  write_in = omega arith;
  addresses_size = refl;
  cursor_in = omega arith;
}

-- A quaternion of tracker 2.
abbrev sensor : List ℕ
sensor = 1 ∷ 2 ∷ 7 ∷ replicate 25 0

abbrev newer : List ℕ
newer = 1 ∷ 2 ∷ 8 ∷ replicate 25 0

abbrev one_waits : Builder
one_waits = report_builder_enqueue sensor 60 5 7 true empty

replaced :
    waiting (report_builder_enqueue newer 61 6 7 true one_waits) ≡ make_record newer 61 6 7 ∷ []
unfolding report_builder_enqueue make_record
replaced = refl

abbrev registered : List ℕ
registered = 255 ∷ 2 ∷ 0xf5 ∷ 0xa5 ∷ 0xe8 ∷ 0x6f ∷ 0x04 ∷ 0xa5 ∷ replicate 8 0

-- With no record waiting, the one tracker's registration is in all three slots.
registration :
    (report_builder_next 0 empty).0
    ≡ some (
        registered
        ++ registered
        ++ registered
        ++ (250 ∷ 255 ∷ 0xd6 ∷ 1 ∷ 0 ∷ replicate 10 0 ++ (0x6d ∷ [])))
unfolding report_builder_next next_registration has_registration registration_due
registration = refl

one_waits-IsBuilder : IsBuilder one_waits
one_waits-IsBuilder = (enqueue_refines sensor 60 5 7 true empty empty-IsBuilder).0

enqueue_refines_example :
    let b = report_builder_enqueue newer 61 6 7 true one_waits in
    IsBuilder b × (waiting b ≡ offer true 2 (make_record newer 61 6 7) (waiting one_waits))
enqueue_refines_example = enqueue_refines newer 61 6 7 true one_waits one_waits-IsBuilder

next-pending_example :
    ((report_builder_next 0 empty).0 ≡ none ↔ (report_builder_pending 0 empty ≡ false))
    × ((report_builder_next 0 empty).0 ≡ none → (report_builder_next 0 empty).1 ≡ empty)
next-pending_example = next-pending 0 empty
