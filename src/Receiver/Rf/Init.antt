-- ===== src/Receiver/Rf/Init.antt =====
-- What `rf_receiver_init` makes of the table that the storage brings back.
use smol_wi_fi_receiver.Base.{
  [], ◌==◌, if_holds, if_holds_by, ℕ, zero, suc, ◌+◌, ◌≤◌, leb, ◌&&◌, ◌<◌, ◌^◌, ◌≡◌, refl, ap, sym,
  subst, get_or-All, true, ◌∙◌, arith, Bool, set, bit_and, length, length-set, replicate, ltb, All,
  All-set, if◌then◌else◌,
}
use smol_wi_fi_receiver.Base.Bytes.{byte_at}
use smol_wi_fi_receiver.Base.Int.{ℤ}
use smol_wi_fi_receiver.Receiver.Errno.{succeeded}
use smol_wi_fi_receiver.Receiver.Report.{address_mask, report_builder_set_tracker}
use smol_wi_fi_receiver.Receiver.Storage.{
  Nvs, receiver_storage_init, Storage, receiver_storage_tracker,
}
use smol_wi_fi_receiver.Receiver.Rf.{Rf}
use smol_wi_fi_receiver.Receiver.Rf.Radio.{Esb}
use smol_wi_fi_receiver.Receiver.Rf.Invariant.{IsRf}
use smol_wi_fi_receiver.Receiver.Rf.Payload.{SameRf-IsRf, start_radio-SameRf}
use smol_wi_fi_receiver.Receiver.Rf.Table.{
  IsDistinct, zeros-IsTable, IsTable, mask_twice, byte_at-set, byte_at-zeros,
}
use smol_wi_fi_receiver.Receiver.Rf.Config.{restore_trackers, restore, rf_receiver_init}

-- The storage's table, if it is in order.
tracker-any :
    {S : Type 0} (st : Storage S) (i : ℕ)
    → IsTable st.trackers st.tracker_count
    → receiver_storage_tracker i st ≡ byte_at st.trackers i
unfolding receiver_storage_tracker
tracker-any st i v = ground (arith, v.none_behind i)

tracker-lt :
    {S : Type 0} (st : Storage S) (i : ℕ)
    → IsTable st.trackers st.tracker_count
    → receiver_storage_tracker i st < 2 ^ 48
tracker-lt st i v =
    subst (λ a. a < 2 ^ 48) (sym (tracker-any st i v))
      (get_or-All (λ a. a < 2 ^ 48) st.trackers i 0 v.addresses_in (omega arith))

module _ {S E : Type 0} where
  -- The loop changes the two tables alone.
  restore_trackers_storage :
      (left id : ℕ) (rf : Rf S E) → (restore_trackers left id rf).storage ≡ rf.storage
  unfolding restore_trackers
  restore_trackers_storage zero id rf = refl
  restore_trackers_storage (suc left) id rf = restore_trackers_storage left (id + 1) _

  byte_at-restore_trackers :
      (left id i : ℕ) (rf : Rf S E)
      → length rf.tracker_addresses ≡ 32
      → id + left ≤ 32
      → byte_at (restore_trackers left id rf).tracker_addresses i ≡ (
          if leb id i && ltb i (id + left)
          then receiver_storage_tracker i rf.storage
          else byte_at rf.tracker_addresses i)
  unfolding restore_trackers
  byte_at-restore_trackers zero id i rf size room = ground arith
  byte_at-restore_trackers (suc left) id i rf size room =
      let address = receiver_storage_tracker id rf.storage in
      ground (
        arith,
        byte_at-restore_trackers left (id + 1) i
            (record rf {
              tracker_addresses = set rf.tracker_addresses id address;
              builder = report_builder_set_tracker id address rf.builder;
            })
            (length-set rf.tracker_addresses id address ∙ size) (omega arith),
        byte_at-set rf.tracker_addresses id address i (omega arith),
      )

  set_tracker_same :
      (id address : ℕ) (rf : Rf S E)
      → id < 32
      → address < 2 ^ 48
      → rf.builder.tracker_addresses ≡ rf.tracker_addresses
      → (report_builder_set_tracker id address rf.builder).tracker_addresses
        ≡ set rf.tracker_addresses id address
  unfolding report_builder_set_tracker
  set_tracker_same id address rf place small same =
      ground (arith, mask_twice address small, ap (λ t. set t id address) same)

  -- The report builder gets the same table.
  restore_trackers_announced :
      (left id : ℕ) (rf : Rf S E)
      → id + left ≤ 32
      → ((i : ℕ) → receiver_storage_tracker i rf.storage < 2 ^ 48)
      → rf.builder.tracker_addresses ≡ rf.tracker_addresses
      → (restore_trackers left id rf).builder.tracker_addresses
        ≡ (restore_trackers left id rf).tracker_addresses
  unfolding restore_trackers
  restore_trackers_announced zero id rf room small same = same
  restore_trackers_announced (suc left) id rf room small same =
      let address = receiver_storage_tracker id rf.storage in
      restore_trackers_announced left (id + 1)
        (record rf {
          tracker_addresses = set rf.tracker_addresses id address;
          builder = report_builder_set_tracker id address rf.builder;
        })
        (omega arith) small (set_tracker_same id address rf (omega arith) (small id) same)

  restore_trackers_small :
      (left id : ℕ) (rf : Rf S E)
      → ((i : ℕ) → receiver_storage_tracker i rf.storage < 2 ^ 48)
      → All (λ a. a < 2 ^ 48) rf.tracker_addresses
      → All (λ a. a < 2 ^ 48) (restore_trackers left id rf).tracker_addresses
  unfolding restore_trackers
  restore_trackers_small zero id rf small kept = kept
  restore_trackers_small (suc left) id rf small kept =
      restore_trackers_small left (id + 1) _ small
        (All-set (λ a. a < 2 ^ 48) rf.tracker_addresses id _ kept (small id))

  length-restore_trackers :
      (left id : ℕ) (rf : Rf S E)
      → length (restore_trackers left id rf).tracker_addresses ≡ length rf.tracker_addresses
  unfolding restore_trackers
  length-restore_trackers zero id rf = refl
  length-restore_trackers (suc left) id rf =
      length-restore_trackers left (id + 1) _ ∙ length-set rf.tracker_addresses id _

  restore_trackers_sides :
      (left id : ℕ) (rf : Rf S E)
      → let after = restore_trackers left id rf in
        (after.tracker_count ≡ rf.tracker_count)
        × (after.primary ≡ rf.primary)
        × (after.persist_queue ≡ rf.persist_queue)
  unfolding restore_trackers
  restore_trackers_sides zero id rf = (refl, refl, refl)
  restore_trackers_sides (suc left) id rf = restore_trackers_sides left (id + 1) _

  -- The state in which the loop begins.
  abbrev begun : ℕ → Rf S E → Rf S E
  begun receiver_id rf =
      let st = rf.storage in
      let group_id = if st.group_id == 0 then receiver_id else st.group_id in
      record rf {
        receiver_id = receiver_id;
        group_id = group_id;
        primary = group_id == receiver_id;
        tracker_count = st.tracker_count;
      }

  -- With empty tables, `rf_receiver_init` takes over a table of the storage that is in order.
  pub restore_table :
      (receiver_id i : ℕ) (rf : Rf S E)
      → IsTable rf.storage.trackers rf.storage.tracker_count
      → rf.tracker_addresses ≡ replicate 32 0
      → byte_at (restore receiver_id rf).tracker_addresses i ≡ byte_at rf.storage.trackers i
  unfolding restore
  restore_table receiver_id i rf v empty = ground (
    arith,
    byte_at-restore_trackers rf.storage.tracker_count 0 i (begun receiver_id rf) (ap length empty)
        (omega (arith, v.count_in)),
    tracker-any rf.storage i v,
    (λ (b : rf.storage.tracker_count ≤ i). v.none_behind i b),
    ap (λ t. byte_at t i) empty,
    byte_at-zeros 32 i,
  )

  -- If moreover a primary receiver's table has no address twice, then the table is in order after it.
  restore-IsRf :
      (receiver_id : ℕ) (rf : Rf S E)
      → IsTable rf.storage.trackers rf.storage.tracker_count
      → IsDistinct rf.storage.trackers
      → rf.tracker_addresses ≡ replicate 32 0
      → rf.builder.tracker_addresses ≡ replicate 32 0
      → rf.persist_queue ≡ []
      → IsRf (restore receiver_id rf)
  unfolding restore
  restore-IsRf receiver_id rf v apart empty unannounced idle =
      let st = rf.storage in
      let started = begun receiver_id rf in
      let same = λ (i : ℕ). restore_table receiver_id i rf v empty in
      let small = λ (i : ℕ). tracker-lt st i v in
      let (count, side, queue) = restore_trackers_sides st.tracker_count 0 started in
      record {
        table = record {
          size = length-restore_trackers st.tracker_count 0 started ∙ ap length empty;
          count_in = omega (arith, count, v.count_in);
          addresses_in =
              restore_trackers_small st.tracker_count 0 started small
                (subst (All (λ a. a < 2 ^ 48)) (sym empty) zeros-IsTable.addresses_in);
          none_behind = λ i behind. same i ∙ v.none_behind i (omega (arith, count, behind));
        };
        announced =
            restore_trackers_announced st.tracker_count 0 started (omega (arith, v.count_in)) small
              (unannounced ∙ sym empty);
        distinct =
            λ _ i j used equal. apart i j (λ e. used (same i ∙ e)) (sym (same i) ∙ equal ∙ same j);
        pairs = λ pairing. ground (arith, side, pairing);
        queue_in = omega (arith, ap length queue, ap length idle);
      }

  -- If the storage can be mounted and its table is in order, with no address twice, then after
  -- rf_receiver_init, from empty tables and whatever the clock and the radio return, the receiver's
  -- table is the storage's and the invariant of its state holds.
  pub rf_receiver_init-IsRf :
      (nvs : Nvs S) (esb : Esb E) (device : ℕ) (ready : Bool) (clock : ℤ) (rf : Rf S E)
      → let (result, st) = receiver_storage_init nvs ready rf.storage in
        let after = (rf_receiver_init nvs esb device ready clock rf).1 in
        succeeded result ≡ true
        → IsTable st.trackers st.tracker_count
        → IsDistinct st.trackers
        → rf.tracker_addresses ≡ replicate 32 0
        → rf.builder.tracker_addresses ≡ replicate 32 0
        → rf.persist_queue ≡ []
        → IsRf after × ((i : ℕ) → byte_at after.tracker_addresses i ≡ byte_at st.trackers i)
  unfolding rf_receiver_init
  rf_receiver_init-IsRf nvs esb device ready clock rf ok v apart empty unannounced idle =
      let (result, st) = receiver_storage_init nvs ready rf.storage in
      let mounted : Rf S E = record rf { storage = st } in
      let receiver_id = bit_and device address_mask in
      let restored = restore receiver_id mounted in
      let w = restore-IsRf receiver_id mounted v apart empty unannounced idle in
      let same = λ (i : ℕ). restore_table receiver_id i mounted v empty in
      let Done : ℤ × Rf S E → Type 0 =
        λ out. IsRf out.1 × ((i : ℕ) → byte_at out.1.tracker_addresses i ≡ byte_at st.trackers i) in
      let radio = start_radio-SameRf esb restored in
      if_holds_by Done (succeeded result) _ _
        (λ _.
          if_holds Done (succeeded clock) _ _
            (SameRf-IsRf radio w, λ i. ap (λ t. byte_at t i) radio.same_table ∙ same i) (w, same))
        (λ failed. absurd (ground (arith, ok, failed)))
