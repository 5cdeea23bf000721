-- ===== src/Receiver/Storage/Stored.antt =====
-- The storage's variables are what a reset would find, after every save that succeeds.
use smol_wi_fi_receiver.Base.{
  ℕ, zero, suc, ◌+◌, ◌%◌, ◌^◌, ◌<◌, ◌≤◌, Bool, true, false, Option, none, some, ◌≡◌, ◌⊎◌, inl, inr,
  refl, ap, ◌∙◌, arith, length, set, replicate, ◌==◌, if◌then◌else◌, bit_and, ltb, leb, Bool-cases,
  length-set, Option-cases, ◌&&◌, not,
}
use smol_wi_fi_receiver.Base.Bytes.{byte_at}
use smol_wi_fi_receiver.Base.Int.{ℤ, pos, negsuc}
use smol_wi_fi_receiver.Receiver.Errno.{enoent, same, succeeded, settle}
use smol_wi_fi_receiver.Receiver.Report.{address_mask}
use smol_wi_fi_receiver.Receiver.Rf.Table.{masked-lt, byte_at-set, byte_at-zeros}
use smol_wi_fi_receiver.Receiver.Storage.{
  Nvs, Storage, read_or_zero, receiver_storage_set_group, receiver_storage_set_tracker,
  receiver_storage_set_tracker_count, delete_trackers, receiver_storage_clear_trackers,
}

-- What Zephyr documents of the NVS: entries by ID, where a read of an absent entry is -ENOENT, and
-- a write or a delete that reports success has changed that entry alone. Mounting keeps them.
pub record NvsLaws {S : Type 0} (nvs : Nvs S) : Type 0 where
  pub content : S → ℕ → Option ℕ
  pub read_absent : (s : S) (id old : ℕ) → content s id ≡ none → (nvs.nvs_read s id old).0 ≡ enoent
  pub read_present :
      (s : S) (id old : ℕ) {value : ℕ}
      → content s id ≡ some value
      → (same (nvs.nvs_read s id old).0 enoent ≡ false) × ((nvs.nvs_read s id old).1 ≡ value)
  pub written :
      (s : S) (id value j : ℕ)
      → settle (nvs.nvs_write s id value).0 ≡ pos 0
      → content (nvs.nvs_write s id value).1 j ≡ (if id == j then some value else content s j)
  pub deleted :
      (s : S) (id j : ℕ)
      → ((nvs.nvs_delete s id).0 ≡ pos 0) ⊎ ((nvs.nvs_delete s id).0 ≡ enoent)
      → content (nvs.nvs_delete s id).1 j ≡ (if id == j then none else content s j)
  pub mounted :
      (s : S) (j : ℕ) → (nvs.nvs_mount s).0 ≡ pos 0 → content (nvs.nvs_mount s).1 j ≡ content s j

-- An entry's value, 0 for an absent one.
abbrev pub value_of : Option ℕ → ℕ
value_of none = 0
value_of (some value) = value

-- The results with which a delete goes on, and with which it stops.
accepted : (r : ℤ) → (not (succeeded r) && not (same r enoent)) ≡ false → (r ≡ pos 0) ⊎ (r ≡ enoent)
accepted (pos n) h = inl (ground arith)
accepted (negsuc n) h = inr (ground arith)

refused : (r : ℤ) → (not (succeeded r) && not (same r enoent)) ≡ true → r ≡ pos 0 → ⊥
refused r h e = ground arith

successful : (r : ℤ) → succeeded r ≡ true → r ≡ pos 0
successful (pos n) h = ground arith
successful (negsuc n) h = cc

unsuccessful : (r : ℤ) → succeeded r ≡ false → r ≡ pos 0 → ⊥
unsuccessful r h e = ground arith

module _ {S : Type 0} (nvs : Nvs S) (laws : NvsLaws nvs) where
  unfoldable pub stored : S → ℕ → ℕ
  stored s id = value_of (laws.content s id)

  pub read_or_zero_lem : (s : S) (id old : ℕ) → read_or_zero nvs s id old ≡ stored s id
  unfolding read_or_zero stored
  read_or_zero_lem s id old = elim (Option-cases (laws.content s id)) [
    | inl absent ↦ rw absent (ground (arith, laws.read_absent s id old absent))
    | inr (value, present) ↦ rw present (ground (arith, laws.read_present s id old present))
  ]

  -- The variables are what a reset would find: the group, the count, and each tracker.
  pub record IsStored (st : Storage S) : Type 0 where
    pub size : length st.trackers ≡ 32
    pub count_in : st.tracker_count ≤ 32
    pub group_stored : stored st.fs 1 ≡ st.group_id
    pub count_stored : stored st.fs 2 ≡ st.tracker_count
    pub tracker_stored : (id : ℕ) → id < 32 → stored st.fs (16 + id) ≡ byte_at st.trackers id
    pub group_in : st.group_id < 2 ^ 48
    pub tracker_in : (id : ℕ) → byte_at st.trackers id < 2 ^ 48
    pub none_behind : (id : ℕ) → st.tracker_count ≤ id → byte_at st.trackers id ≡ 0

  pub set_group-IsStored :
      (group : ℕ) (st : Storage S)
      → IsStored st
      → (receiver_storage_set_group nvs group st).0 ≡ pos 0
      → IsStored (receiver_storage_set_group nvs group st).1
  unfolding receiver_storage_set_group stored
  set_group-IsStored group st v ok = record {
    size = v.size;
    count_in = v.count_in;
    group_stored = ap value_of (laws.written st.fs 1 (bit_and group address_mask) 1 ok);
    count_stored =
        ap value_of (laws.written st.fs 1 (bit_and group address_mask) 2 ok) ∙ v.count_stored;
    tracker_stored = λ id h.
        ap value_of (laws.written st.fs 1 (bit_and group address_mask) (16 + id) ok)
        ∙ ground (arith, v.tracker_stored id h);
    group_in = masked-lt group;
    tracker_in = v.tracker_in;
    none_behind = v.none_behind;
  }

  -- A tracker and the count behind it, as `persist_pairing_work_handler` stores them.
  abbrev pub save_tracker : ℕ → ℕ → ℕ → Storage S → (ℤ × ℤ) × Storage S
  save_tracker id address count st =
      let (result, first) = receiver_storage_set_tracker nvs id address st in
      let (counted, second) = receiver_storage_set_tracker_count nvs count first in
      ((result, counted), second)

  set_tracker_inside :
      (id address : ℕ) (st : Storage S)
      → id < 32
      → let written = nvs.nvs_write st.fs ((16 + id) % 2 ^ 16) (bit_and address address_mask) in
        receiver_storage_set_tracker nvs id address st ≡ (
          settle written.0,
          record st {
            fs = written.1;
            trackers = set st.trackers id (bit_and address address_mask);
          },
        )
  unfolding receiver_storage_set_tracker
  set_tracker_inside id address st inside =
      let in_range : leb 32 id ≡ false = ground arith in rw in_range

  set_tracker_count_inside :
      (count : ℕ) (st : Storage S)
      → count ≤ 32
      → let written = nvs.nvs_write st.fs 2 count in
        receiver_storage_set_tracker_count nvs count st
        ≡ (settle written.0, record st { fs = written.1; tracker_count = count })
  unfolding receiver_storage_set_tracker_count
  set_tracker_count_inside count st most =
      let in_range : ltb 32 count ≡ false = ground arith in rw in_range

  stored-write :
      (s : S) (id value j : ℕ)
      → settle (nvs.nvs_write s id value).0 ≡ pos 0
      → stored (nvs.nvs_write s id value).1 j ≡ (if id == j then value else stored s j)
  unfolding stored
  stored-write s id value j ok = ap value_of (laws.written s id value j ok) ∙ ground arith

  -- The storage between the two writes of `save_tracker`, and after them.
  saved-IsStored :
      (id address count : ℕ) (st : Storage S)
      → IsStored st
      → id < count
      → count ≤ 32
      → st.tracker_count ≤ count
      → let kept = bit_and address address_mask in
        let first = nvs.nvs_write st.fs ((16 + id) % 2 ^ 16) kept in
        let second = nvs.nvs_write first.1 2 count in
        settle first.0 ≡ pos 0
        → settle second.0 ≡ pos 0
        → IsStored
            (record st { fs = second.1; trackers = set st.trackers id kept; tracker_count = count })
  saved-IsStored id address count st v inside most grows ok counted = record {
    size = length-set st.trackers id kept ∙ v.size;
    count_in = most;
    group_stored = ground (arith, at 1, before 1, v.group_stored);
    count_stored = ground (arith, at 2);
    tracker_stored =
        λ i h. ground (arith, at (16 + i), before (16 + i), v.tracker_stored i h, new i);
    group_in = v.group_in;
    tracker_in = λ i. ground (arith, new i, v.tracker_in i, masked-lt address);
    none_behind = λ i h. ground (arith, new i, v.none_behind i);
  }
    where
      kept : ℕ
      kept = bit_and address address_mask

      first : ℤ × S
      first = nvs.nvs_write st.fs ((16 + id) % 2 ^ 16) kept

      at :
          (j : ℕ)
          → stored (nvs.nvs_write first.1 2 count).1 j
            ≡ (if 2 == j then count else stored first.1 j)
      at j = stored-write first.1 2 count j counted

      before :
          (j : ℕ) → stored first.1 j ≡ (if (16 + id) % 2 ^ 16 == j then kept else stored st.fs j)
      before j = stored-write st.fs ((16 + id) % 2 ^ 16) kept j ok

      new :
          (i : ℕ)
          → byte_at (set st.trackers id kept) i ≡ (if id == i then kept else byte_at st.trackers i)
      new i = byte_at-set st.trackers id kept i (omega (arith, v.size))

  pub save_tracker-IsStored :
      (id address count : ℕ) (st : Storage S)
      → IsStored st
      → id < count
      → count ≤ 32
      → st.tracker_count ≤ count
      → (save_tracker id address count st).0.0 ≡ pos 0
      → (save_tracker id address count st).0.1 ≡ pos 0
      → IsStored (save_tracker id address count st).1
  save_tracker-IsStored id address count st v inside most grows =
      rw (set_tracker_inside id address st (omega arith)) (
        rw (set_tracker_count_inside count _ most)
          (saved-IsStored id address count st v inside most grows))

  stored-delete :
      (s : S) (id j : ℕ)
      → (not (succeeded (nvs.nvs_delete s id).0) && not (same (nvs.nvs_delete s id).0 enoent))
        ≡ false
      → stored (nvs.nvs_delete s id).1 j ≡ (if id == j then 0 else stored s j)
  unfolding stored
  stored-delete s id j fine =
      ap value_of (laws.deleted s id j (accepted (nvs.nvs_delete s id).0 fine)) ∙ ground arith

  delete_trackers_stored :
      (left id j : ℕ) (s : S)
      → id + left ≤ 32
      → (delete_trackers nvs left id s).0 ≡ pos 0
      → stored (delete_trackers nvs left id s).1 j
        ≡ (if leb (16 + id) j && ltb j (16 + id + left) then 0 else stored s j)
  unfolding delete_trackers
  delete_trackers_stored zero id j s h ok = ground arith
  delete_trackers_stored (suc left) id j s h ok = elim (Bool-cases stops) [
    | inl stop ↦ absurd (refused deleted.0 stop (rw (stop, delete_trackers) at ok))
    | inr go ↦
        rw (go, delete_trackers)
          (delete_trackers_stored left (id + 1) j deleted.1 (omega arith)
              (rw (go, delete_trackers) at ok)
            ∙ ground (arith, stored-delete s ((16 + id) % 2 ^ 16) j go))
  ]
    where
      deleted : ℤ × S
      deleted = nvs.nvs_delete s ((16 + id) % 2 ^ 16)

      stops : Bool
      stops = not (succeeded deleted.0) && not (same deleted.0 enoent)

  pub clear_trackers-IsStored :
      (st : Storage S)
      → IsStored st
      → (receiver_storage_clear_trackers nvs st).0 ≡ pos 0
      → IsStored (receiver_storage_clear_trackers nvs st).1
  unfolding receiver_storage_clear_trackers
  clear_trackers-IsStored st v ok = elim (Bool-cases (succeeded deleted.0)) [
    | inr failed ↦
        absurd (unsuccessful deleted.0 failed (rw (failed, receiver_storage_clear_trackers) at ok))
    | inl done ↦
        rw (done, receiver_storage_clear_trackers)
          (cleared-IsStored (successful deleted.0 done)
            (rw (done, receiver_storage_clear_trackers) at ok))
  ]
    where
      deleted : ℤ × S
      deleted = delete_trackers nvs st.tracker_count 0 st.fs

      cleared-IsStored :
          deleted.0 ≡ pos 0
          → settle (nvs.nvs_write deleted.1 2 0).0 ≡ pos 0
          → IsStored (record st {
            fs = (nvs.nvs_write deleted.1 2 0).1;
            trackers = replicate 32 0;
            tracker_count = 0;
          })
      cleared-IsStored gone counted = record {
        size = refl;
        count_in = omega arith;
        group_stored = ground (arith, at 1, before 1, v.group_stored);
        count_stored = ground (arith, at 2);
        tracker_stored = λ i h. ground (
          arith,
          at (16 + i),
          before (16 + i),
          v.tracker_stored i h,
          v.none_behind i,
          byte_at-zeros 32 i,
        );
        group_in = v.group_in;
        tracker_in = λ i. omega (arith, byte_at-zeros 32 i);
        none_behind = λ i h. byte_at-zeros 32 i;
      }
        where
          at :
              (j : ℕ)
              → stored (nvs.nvs_write deleted.1 2 0).1 j
                ≡ (if 2 == j then 0 else stored deleted.1 j)
          at j = stored-write deleted.1 2 0 j counted

          before :
              (j : ℕ)
              → stored deleted.1 j ≡ (
                  if leb (16 + 0) j && ltb j (16 + 0 + st.tracker_count) then 0 else stored st.fs j)
          before j =
              delete_trackers_stored st.tracker_count 0 j st.fs (omega (arith, v.count_in)) gone
