-- ===== src/Receiver/Rf/Reach.antt =====
-- Every function of rf_receiver.c keeps the invariant, so every reachable state satisfies it.
use smol_wi_fi_receiver.Base.{
  ℕ, List, Bool, true, false, not, ◌≡◌, refl, ◌∙◌, arith, bit_and, ◌==◌, ◌&&◌, if◌then◌else◌,
  if_holds, if_holds_by,
}
use mathlib.Core.Bool.{false≢true}
use smol_wi_fi_receiver.Base.Int.{ℤ, pos}
use smol_wi_fi_receiver.Receiver.Errno.{succeeded, first_error, eperm}
use smol_wi_fi_receiver.Receiver.Report.{address_mask, report_builder_clear_trackers}
use smol_wi_fi_receiver.Receiver.Report.Addresses.{next-addresses}
use smol_wi_fi_receiver.Receiver.Report.Next.{report_builder_next}
use smol_wi_fi_receiver.Receiver.Storage.{
  Nvs, Storage, receiver_storage_set_group, receiver_storage_clear_trackers,
}
use smol_wi_fi_receiver.Receiver.Rf.{Rf, EsbPayload}
use smol_wi_fi_receiver.Receiver.Rf.Radio.{
  Esb, handle_payload, stop_radio, persist_pairing_work_handler,
}
use smol_wi_fi_receiver.Receiver.Rf.Table.{zeros-IsTable, zeros-IsDistinct}
use smol_wi_fi_receiver.Receiver.Rf.Invariant.{IsRf}
use smol_wi_fi_receiver.Receiver.Rf.Config.{
  choose_group, undo_group, forget_trackers, rf_receiver_set_group, rf_receiver_start_pairing,
  rf_receiver_stop_pairing, rf_receiver_clear_trackers, rf_receiver_set_enabled,
}
use smol_wi_fi_receiver.Receiver.Rf.Payload.{
  SameRf, SameRf-IsRf, stop_radio-SameRf, start_radio-SameRf, restarted-IsRf, handle_payload-IsRf,
}

module _ {S E : Type 0} where
  module _ (esb : Esb E) where
    forget_trackers-IsRf :
        (rf : Rf S E) → (rf.pairing ≡ true → rf.primary ≡ true) → IsRf (forget_trackers rf)
    unfolding forget_trackers report_builder_clear_trackers
    forget_trackers-IsRf rf pairs = record {
      table = zeros-IsTable;
      announced = refl;
      distinct = λ _. zeros-IsDistinct;
      pairs = pairs;
      queue_in = omega arith;
    }

    undo_group-IsRf :
        (nvs : Nvs S) (secondary : Bool) (requested : ℕ) (storage : Storage S) (rf : Rf S E)
        → IsRf rf
        → IsRf (
            undo_group nvs esb rf
              (record (choose_group esb secondary requested rf) { storage = storage }))
    unfolding undo_group choose_group
    undo_group-IsRf nvs secondary requested storage rf v =
        restarted-IsRf esb rf restored
          (record {
            same_table = stopped.same_table;
            same_count = stopped.same_count;
            same_announced = stopped.same_announced;
            same_primary = refl;
            same_pairing = refl;
            same_queue = stopped.same_queue;
          })
          v
      where
        stopped : SameRf rf (stop_radio esb rf)
        stopped = stop_radio-SameRf esb rf

        restored : Rf S E
        restored = record (choose_group esb secondary requested rf) {
          group_id = rf.group_id;
          primary = rf.primary;
          pairing = rf.pairing;
          storage =
              (receiver_storage_set_group nvs (if rf.primary then 0 else rf.group_id) storage).1;
        }

    set_group-IsRf :
        (nvs : Nvs S) (secondary : Bool) (group : ℕ) (rf : Rf S E)
        → IsRf rf
        → IsRf (rf_receiver_set_group nvs esb secondary group rf).1
    unfolding rf_receiver_set_group
    set_group-IsRf nvs secondary group rf v = if_holds Keeps (secondary && requested == 0) _ _ v (
        if_holds Keeps (succeeded (first_error written.0 cleared.0)) (pos 0, forget_trackers stored)
          (_, undo_group nvs esb rf stored)
          (forget_trackers-IsRf stored (λ pairing. absurd (chosen_unpaired pairing)))
          (undo_group-IsRf nvs secondary requested cleared.1 rf v))
      where
        Keeps : ℤ × Rf S E → Type 0
        Keeps out = IsRf out.1

        requested : ℕ
        requested = bit_and group address_mask

        chosen : Rf S E
        chosen = choose_group esb secondary requested rf

        written : ℤ × Storage S
        written =
            receiver_storage_set_group nvs (if secondary then chosen.group_id else 0) chosen.storage

        cleared : ℤ × Storage S
        cleared = receiver_storage_clear_trackers nvs written.1

        stored : Rf S E
        stored = record chosen { storage = cleared.1 }

        chosen_unpaired : chosen.pairing ≡ true → ⊥
        chosen_unpaired = false≢true

    start_pairing-IsRf : (rf : Rf S E) → IsRf rf → IsRf (rf_receiver_start_pairing esb rf).1
    unfolding rf_receiver_start_pairing
    start_pairing-IsRf rf v =
        if_holds_by (λ (out : ℤ × Rf S E). IsRf out.1) (not rf.primary) (eperm, rf) _ (λ _. v)
          (λ primary. SameRf-IsRf (start_radio-SameRf esb paired) (paired-IsRf (ground arith)))
      where
        paired : Rf S E
        paired = record (stop_radio esb rf) { pairing = true }

        paired-IsRf : rf.primary ≡ true → IsRf paired
        paired-IsRf primary =
            let w = SameRf-IsRf (stop_radio-SameRf esb rf) v in
            record {
              table = w.table;
              announced = w.announced;
              distinct = w.distinct;
              pairs = λ _. (stop_radio-SameRf esb rf).same_primary ∙ primary;
              queue_in = w.queue_in;
            }

    stop_pairing-IsRf : (rf : Rf S E) → IsRf rf → IsRf (rf_receiver_stop_pairing esb rf).1
    unfolding rf_receiver_stop_pairing
    stop_pairing-IsRf rf v =
        SameRf-IsRf (start_radio-SameRf esb (record (stop_radio esb rf) { pairing = false }))
          (record {
            table = w.table;
            announced = w.announced;
            distinct = w.distinct;
            pairs = λ pairing. absurd (false≢true pairing);
            queue_in = w.queue_in;
          })
      where
        w : IsRf (stop_radio esb rf)
        w = SameRf-IsRf (stop_radio-SameRf esb rf) v

    clear_trackers-IsRf :
        (nvs : Nvs S) (rf : Rf S E) → IsRf rf → IsRf (rf_receiver_clear_trackers nvs esb rf).1
    unfolding rf_receiver_clear_trackers forget_trackers report_builder_clear_trackers
    clear_trackers-IsRf nvs rf v = SameRf-IsRf (start_radio-SameRf esb _) (record {
      table = zeros-IsTable;
      announced = refl;
      distinct = λ _. zeros-IsDistinct;
      pairs = λ pairing. (stop_radio-SameRf esb rf).same_primary ∙ pairing;
      queue_in = omega arith;
    })

    set_enabled-IsRf :
        (enabled : Bool) (rf : Rf S E) → IsRf rf → IsRf (rf_receiver_set_enabled esb enabled rf).1
    unfolding rf_receiver_set_enabled
    set_enabled-IsRf enabled rf v =
        SameRf-IsRf
          (start_radio-SameRf esb (record (stop_radio esb rf) { radio_enabled = enabled }))
          (record {
            table = w.table;
            announced = w.announced;
            distinct = w.distinct;
            pairs = w.pairs;
            queue_in = w.queue_in;
          })
      where
        w : IsRf (stop_radio esb rf)
        w = SameRf-IsRf (stop_radio-SameRf esb rf) v

    persist-IsRf :
        (nvs : Nvs S) (rf : Rf S E) → IsRf rf → IsRf (persist_pairing_work_handler nvs rf)
    unfolding persist_pairing_work_handler
    persist-IsRf nvs rf v = record {
      table = v.table;
      announced = v.announced;
      distinct = v.distinct;
      pairs = v.pairs;
      queue_in = omega arith;
    }

  -- The steps of the receiver: the radio's payloads, the work queue, the ESP's commands, and the
  -- reports that the SPI thread takes. Zephyr's CRCs, the storage and the radio are any functions.
  pub data Step (nvs : Nvs S) (esb : Esb E) (crc8 crc32 : ℕ → List ℕ → ℕ)
      : Rf S E → Rf S E → Type 0 where
    payload :
        (p : EsbPayload) (rf : Rf S E)
        → Step nvs esb crc8 crc32 rf (handle_payload esb crc8 crc32 p rf)
    persist : (rf : Rf S E) → Step nvs esb crc8 crc32 rf (persist_pairing_work_handler nvs rf)
    set_group :
        (secondary : Bool) (group : ℕ) (rf : Rf S E)
        → Step nvs esb crc8 crc32 rf (rf_receiver_set_group nvs esb secondary group rf).1
    start_pairing : (rf : Rf S E) → Step nvs esb crc8 crc32 rf (rf_receiver_start_pairing esb rf).1
    stop_pairing : (rf : Rf S E) → Step nvs esb crc8 crc32 rf (rf_receiver_stop_pairing esb rf).1
    clear_trackers :
        (rf : Rf S E) → Step nvs esb crc8 crc32 rf (rf_receiver_clear_trackers nvs esb rf).1
    set_enabled :
        (enabled : Bool) (rf : Rf S E)
        → Step nvs esb crc8 crc32 rf (rf_receiver_set_enabled esb enabled rf).1
    report :
        (now : ℕ) (rf : Rf S E)
        → Step nvs esb crc8 crc32 rf
            (record rf { builder = (report_builder_next now rf.builder).1 })

  -- Every step keeps the pairing table in order: at most 32 trackers, addresses of 48 bits, none
  -- behind the count; the registrations name the same table; a primary receiver, and only it pairs,
  -- has no address in two places; and at most eight records wait for the storage.
  pub Step-IsRf :
      (nvs : Nvs S) (esb : Esb E) (crc8 crc32 : ℕ → List ℕ → ℕ) {rf after : Rf S E}
      → Step nvs esb crc8 crc32 rf after
      → IsRf rf
      → IsRf after
  Step-IsRf nvs esb crc8 crc32 (payload p rf) v = handle_payload-IsRf esb crc8 crc32 p rf v
  Step-IsRf nvs esb crc8 crc32 (persist rf) v = persist-IsRf esb nvs rf v
  Step-IsRf nvs esb crc8 crc32 (set_group secondary group rf) v =
      set_group-IsRf esb nvs secondary group rf v
  Step-IsRf nvs esb crc8 crc32 (start_pairing rf) v = start_pairing-IsRf esb rf v
  Step-IsRf nvs esb crc8 crc32 (stop_pairing rf) v = stop_pairing-IsRf esb rf v
  Step-IsRf nvs esb crc8 crc32 (clear_trackers rf) v = clear_trackers-IsRf esb nvs rf v
  Step-IsRf nvs esb crc8 crc32 (set_enabled enabled rf) v = set_enabled-IsRf esb enabled rf v
  Step-IsRf nvs esb crc8 crc32 (report now rf) v = record {
    table = v.table;
    announced = next-addresses now rf.builder ∙ v.announced;
    distinct = v.distinct;
    pairs = v.pairs;
    queue_in = v.queue_in;
  }
