-- ===== src/Receiver/Rf/Payload.antt =====
-- The radio's payloads, and starting and stopping the radio, keep the invariant.
use smol_wi_fi_receiver.Base.{
  ℕ, ◌^◌, ◌<◌, List, [], ◌∷◌, true, not, ◌≡◌, refl, sym, ap, ◌∙◌, arith, length, length-append, leb,
  ◌==◌, ◌||◌, if_holds, if_holds_by, drop,
}
use mathlib.Core.Path.{subst, subst₂}
use smol_wi_fi_receiver.Base.Bytes.{byte_at, read_le48}
use smol_wi_fi_receiver.Base.Int.{ℤ, pos}
use smol_wi_fi_receiver.Receiver.Errno.{succeeded}
use smol_wi_fi_receiver.Receiver.Report.{max_trackers}
use smol_wi_fi_receiver.Receiver.Rf.{
  Rf, EsbPayload, PersistRecord, persist_queue_size, esb_disable, find_tracker, add_tracker,
  handle_rf_v2,
}
use smol_wi_fi_receiver.Receiver.Rf.Radio.{
  Esb, call_in_turn, start_calls, answer_pairing, pair_tracker, handle_pair_request, handle_payload,
  stop_radio, start_radio,
}
use smol_wi_fi_receiver.Receiver.Rf.Table.{IsTable, IsDistinct, masked-lt, find_tracker-OnlyAt}
use smol_wi_fi_receiver.Receiver.Rf.Invariant.{
  IsRf, admit_packet-IsRf, add_tracker-IsRf, count_crc_error-IsRf,
}

-- What the invariant is about does not change.
pub record SameRf {S E : Type 0} (rf after : Rf S E) : Type 0 where
  pub same_table : after.tracker_addresses ≡ rf.tracker_addresses
  pub same_count : after.tracker_count ≡ rf.tracker_count
  pub same_announced : after.builder.tracker_addresses ≡ rf.builder.tracker_addresses
  pub same_primary : after.primary ≡ rf.primary
  pub same_pairing : after.pairing ≡ rf.pairing
  pub same_queue : after.persist_queue ≡ rf.persist_queue

module _ {S E : Type 0} where
  SameRf-refl : (rf : Rf S E) → SameRf rf rf
  SameRf-refl rf = record {
    same_table = refl;
    same_count = refl;
    same_announced = refl;
    same_primary = refl;
    same_pairing = refl;
    same_queue = refl;
  }

  pub SameRf-IsRf : {rf after : Rf S E} → SameRf rf after → IsRf rf → IsRf after
  SameRf-IsRf s v = record {
    table = subst₂ IsTable (sym s.same_table) (sym s.same_count) v.table;
    announced = s.same_announced ∙ v.announced ∙ sym s.same_table;
    distinct =
        λ primary. subst IsDistinct (sym s.same_table) (v.distinct (sym s.same_primary ∙ primary));
    pairs = λ pairing. s.same_primary ∙ v.pairs (sym s.same_pairing ∙ pairing);
    queue_in = omega (arith, ap length s.same_queue, v.queue_in);
  }

  handle_rf_v2-IsRf :
      (crc : ℕ → List ℕ → ℕ) (p : EsbPayload) (rf : Rf S E) → IsRf rf → IsRf (handle_rf_v2 crc p rf)
  unfolding handle_rf_v2
  handle_rf_v2-IsRf crc p rf v = if_holds IsRf _ _ _ v (
      if_holds IsRf _ _ _ (count_crc_error-IsRf p rf v)
        (admit_packet-IsRf p (byte_at p.bytes 1) _ rf v (masked-lt (read_le48 (drop 16 p.bytes)))))

  module _ (esb : Esb E) where
    answer_pairing-IsRf :
        (checksum id address : ℕ) (rf : Rf S E)
        → IsRf rf
        → IsRf (answer_pairing esb checksum id address rf)
    unfolding answer_pairing
    answer_pairing-IsRf checksum id address rf v =
        if_holds_by IsRf (leb persist_queue_size (length rf.persist_queue)) rf _ (λ _. v)
          (λ room. record {
            table = v.table;
            announced = v.announced;
            distinct = v.distinct;
            pairs = v.pairs;
            queue_in = ground (arith, length-append rf.persist_queue (waiting ∷ []));
          })
      where
        waiting : PersistRecord
        waiting = record {
          id = id;
          tracker_count = rf.tracker_count;
          address = address;
          generation = rf.config_generation;
        }

    pair_tracker-IsRf :
        (checksum address : ℕ) (rf : Rf S E)
        → IsRf rf
        → address < 2 ^ 48
        → IsRf (pair_tracker esb checksum address rf)
    unfolding pair_tracker
    pair_tracker-IsRf checksum address rf v small =
        if_holds_by IsRf (address == 0 || leb max_trackers id || not (succeeded result)) _ _
          (λ _. v)
          (λ passed. answer_pairing-IsRf checksum id address (add_tracker id address rf).1 (
            add_tracker-IsRf id address rf v small (λ primary.
              find_tracker-OnlyAt rf.tracker_addresses rf.tracker_count address v.table
                (v.distinct primary) (ground arith))))
      where
        id : ℕ
        id = find_tracker rf.tracker_count 0 rf.tracker_addresses address rf.tracker_count

        result : ℤ
        result = (add_tracker id address rf).0

    handle_pair_request-IsRf :
        (crc8 : ℕ → List ℕ → ℕ) (p : EsbPayload) (rf : Rf S E)
        → IsRf rf
        → IsRf (handle_pair_request esb crc8 p rf)
    unfolding handle_pair_request
    handle_pair_request-IsRf crc8 p rf v = if_holds IsRf _ _ _ v (
        if_holds IsRf _ _ _ v (pair_tracker-IsRf _ _ rf v (masked-lt (read_le48 (drop 2 p.bytes)))))

    pub handle_payload-IsRf :
        (crc8 crc32 : ℕ → List ℕ → ℕ) (p : EsbPayload) (rf : Rf S E)
        → IsRf rf
        → IsRf (handle_payload esb crc8 crc32 p rf)
    unfolding handle_payload
    handle_payload-IsRf crc8 crc32 p rf v =
        if_holds IsRf _ _ _ (handle_pair_request-IsRf crc8 p rf v)
          (if_holds IsRf _ _ _ (handle_rf_v2-IsRf crc32 p rf v) v)

    pub stop_radio-SameRf : (rf : Rf S E) → SameRf rf (stop_radio esb rf)
    unfolding stop_radio
    stop_radio-SameRf rf = ground arith

    pub start_radio-SameRf : (rf : Rf S E) → SameRf rf (start_radio esb rf).1
    unfolding start_radio
    start_radio-SameRf rf =
        if_holds (λ (out : ℤ × Rf S E). SameRf rf out.1)
          (not rf.radio_enabled || rf.esb_initialized) (pos 0, rf) _ (SameRf-refl rf)
          (if_holds (λ (out : ℤ × Rf S E). SameRf rf out.1)
            (succeeded (call_in_turn esb (start_calls rf) rf.esb).0)
            ((call_in_turn esb (start_calls rf) rf.esb).0, started) (_, failed)
            (record {
              same_table = refl;
              same_count = refl;
              same_announced = refl;
              same_primary = refl;
              same_pairing = refl;
              same_queue = refl;
            })
            (record {
              same_table = refl;
              same_count = refl;
              same_announced = refl;
              same_primary = refl;
              same_pairing = refl;
              same_queue = refl;
            }))
      where
        started : Rf S E
        started = record rf {
          esb_initialized = true;
          esb = (call_in_turn esb (start_calls rf) rf.esb).1;
        }

        failed : Rf S E
        failed = record rf {
          esb = (esb esb_disable (call_in_turn esb (start_calls rf) rf.esb).1).1;
        }

    pub restarted-IsRf :
        (rf changed : Rf S E) → SameRf rf changed → IsRf rf → IsRf (start_radio esb changed).1
    restarted-IsRf rf changed s v = SameRf-IsRf (start_radio-SameRf changed) (SameRf-IsRf s v)
