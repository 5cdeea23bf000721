-- ===== src/Receiver/Rf/Invariant.antt =====
-- What every state of the receiver satisfies, whatever the radio brings and the ESP commands.
use smol_wi_fi_receiver.Base.{
  ℕ, ◌^◌, ◌<◌, ◌≤◌, true, ◌≡◌, sym, ap, ◌∙◌, arith, length, set, bit_and, if_holds, if_holds_by,
}
use mathlib.Core.Bool.{false≢true}
use smol_wi_fi_receiver.Receiver.Errno.{succeeded}
use smol_wi_fi_receiver.Receiver.Report.{address_mask, report_builder_set_tracker}
use smol_wi_fi_receiver.Receiver.Report.Addresses.{enqueue-addresses}
use smol_wi_fi_receiver.Receiver.Rf.{
  Rf, EsbPayload, refusal, keep_tracker, add_tracker, accept_packet, admit_packet, count_crc_error,
}
use smol_wi_fi_receiver.Receiver.Rf.Table.{
  IsTable, IsDistinct, OnlyAt, set-IsTable, set-IsDistinct, masked-lt, mask_twice,
}

-- The table is in order, and the report builder announces the same one; no address is in two
-- places of a primary receiver's table; only a primary receiver pairs; at most eight records wait
-- for the storage.
pub record IsRf {S E : Type 0} (rf : Rf S E) : Type 0 where
  pub table : IsTable rf.tracker_addresses rf.tracker_count
  pub announced : rf.builder.tracker_addresses ≡ rf.tracker_addresses
  pub distinct : rf.primary ≡ true → IsDistinct rf.tracker_addresses
  pub pairs : rf.pairing ≡ true → rf.primary ≡ true
  pub queue_in : length rf.persist_queue ≤ 8

module _ {S E : Type 0} where
  keep_tracker-IsRf :
      (id address : ℕ) (rf : Rf S E)
      → IsRf rf
      → id < 32
      → address < 2 ^ 48
      → (rf.primary ≡ true → OnlyAt address id rf.tracker_addresses)
      → IsRf (keep_tracker id address rf)
  unfolding keep_tracker report_builder_set_tracker
  keep_tracker-IsRf id address rf v place small only = record {
    table =
        rw (mask_twice address small)
          (set-IsTable rf.tracker_addresses rf.tracker_count id address v.table place small);
    announced = ground (
      arith,
      ap (λ t. set t id (bit_and address address_mask)) v.announced,
      mask_twice (bit_and address address_mask) (masked-lt address),
    );
    distinct = λ primary. rw (mask_twice address small) (
        set-IsDistinct rf.tracker_addresses id address (omega (arith, v.table.size))
          (v.distinct primary) (only primary));
    pairs = v.pairs;
    queue_in = v.queue_in;
  }

  refusal-lt : (id address : ℕ) (rf : Rf S E) → succeeded (refusal id address rf) ≡ true → id < 32
  unfolding refusal
  refusal-lt id address rf ok = ground arith

  accept_packet-IsRf : (p : EsbPayload) (rf : Rf S E) → IsRf rf → IsRf (accept_packet p rf)
  unfolding accept_packet
  accept_packet-IsRf p rf v = record {
    table = v.table;
    announced = enqueue-addresses _ _ _ _ _ rf.builder ∙ v.announced;
    distinct = v.distinct;
    pairs = v.pairs;
    queue_in = v.queue_in;
  }

  pub count_crc_error-IsRf : (p : EsbPayload) (rf : Rf S E) → IsRf rf → IsRf (count_crc_error p rf)
  unfolding count_crc_error
  count_crc_error-IsRf p rf v = record {
    table = v.table;
    announced = enqueue-addresses _ _ _ _ _ rf.builder ∙ v.announced;
    distinct = v.distinct;
    pairs = v.pairs;
    queue_in = v.queue_in;
  }

  -- A tracker that is added where it may stand.
  pub add_tracker-IsRf :
      (id address : ℕ) (rf : Rf S E)
      → IsRf rf
      → address < 2 ^ 48
      → (rf.primary ≡ true → OnlyAt address id rf.tracker_addresses)
      → IsRf (add_tracker id address rf).1
  unfolding add_tracker
  add_tracker-IsRf id address rf v small only =
      if_holds_by IsRf (succeeded (refusal id address rf)) _ _
        (λ ok. keep_tracker-IsRf id address rf v (refusal-lt id address rf ok) small only) (λ _. v)

  pub admit_packet-IsRf :
      (p : EsbPayload) (id address : ℕ) (rf : Rf S E)
      → IsRf rf
      → address < 2 ^ 48
      → IsRf (admit_packet p id address rf)
  unfolding admit_packet
  admit_packet-IsRf p id address rf v small = if_holds IsRf _ _ _ v (
      if_holds_by IsRf rf.primary _ _ (λ _. if_holds IsRf _ _ _ (accept_packet-IsRf p rf v) v)
        (λ secondary.
          if_holds IsRf _ _ _
            (accept_packet-IsRf p (add_tracker id address rf).1 (
              add_tracker-IsRf id address rf v small
                (λ primary. absurd (false≢true (sym secondary ∙ primary)))))
            v))
