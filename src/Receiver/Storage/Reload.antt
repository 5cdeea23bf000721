-- ===== src/Receiver/Storage/Reload.antt =====
-- What the receiver stores is what it finds after a reset.
use smol_wi_fi_receiver.Base.{
  ℕ, zero, suc, ◌+◌, ◌%◌, ◌^◌, ◌<◌, ◌≤◌, List, true, none, ◌≡◌, refl, sym, ap, ◌∙◌, arith, length,
  set, replicate, if◌then◌else◌, bit_and, ltb, leb, length-set, get_or_ext, ◌&&◌,
}
use smol_wi_fi_receiver.Base.Bytes.{byte_at}
use smol_wi_fi_receiver.Base.Int.{pos}
use smol_wi_fi_receiver.Receiver.Errno.{succeeded}
use smol_wi_fi_receiver.Receiver.Report.{address_mask}
use smol_wi_fi_receiver.Receiver.Rf.Table.{mask_twice, byte_at-set, byte_at-zeros}
use smol_wi_fi_receiver.Receiver.Storage.{
  Nvs, Storage, blank, read_or_zero, load_trackers, load, receiver_storage_init,
  receiver_storage_set_group, receiver_storage_clear_trackers,
}
use smol_wi_fi_receiver.Receiver.Storage.Stored.{
  NvsLaws, value_of, stored, read_or_zero_lem, IsStored, save_tracker, set_group-IsStored,
  save_tracker-IsStored, clear_trackers-IsStored,
}

module _ {S : Type 0} (nvs : Nvs S) (laws : NvsLaws nvs) where
  load_trackers_at :
      (left id : ℕ) (s : S) (trackers : List ℕ) (j : ℕ)
      → id + left ≤ length trackers
      → length trackers ≡ 32
      → byte_at (load_trackers nvs left id s trackers) j ≡ (
          if leb id j && ltb j (id + left)
          then bit_and (stored nvs laws s (16 + j)) address_mask
          else byte_at trackers j)
  unfolding load_trackers
  load_trackers_at zero id s trackers j h size = ground arith
  load_trackers_at (suc left) id s trackers j h size =
      load_trackers_at left (id + 1) s (set trackers id value) j
        (omega (arith, length-set trackers id value)) (length-set trackers id value ∙ size)
      ∙ ground (
        arith,
        byte_at-set trackers id value j (omega arith),
        ap (λ n. bit_and n address_mask)
            (read_or_zero_lem nvs laws s ((16 + id) % 2 ^ 16) (byte_at trackers id)),
        ap (λ n. bit_and (stored nvs laws s n) address_mask) place,
      )
    where
      value : ℕ
      value = bit_and (read_or_zero nvs s ((16 + id) % 2 ^ 16) (byte_at trackers id)) address_mask

      place : (16 + id) % 2 ^ 16 ≡ 16 + id
      place = omega arith

  length-load_trackers :
      (left id : ℕ) (s : S) (trackers : List ℕ)
      → length (load_trackers nvs left id s trackers) ≡ length trackers
  unfolding load_trackers
  length-load_trackers zero id s trackers = refl
  length-load_trackers (suc left) id s trackers =
      length-load_trackers left (id + 1) s _ ∙ length-set trackers id _

  -- Mounting again finds the same.
  mounted-IsStored :
      (st : Storage S)
      → IsStored nvs laws st
      → (nvs.nvs_mount st.fs).0 ≡ pos 0
      → IsStored nvs laws (record st { fs = (nvs.nvs_mount st.fs).1 })
  unfolding stored
  mounted-IsStored st v ok = record {
    size = v.size;
    count_in = v.count_in;
    group_stored = ap value_of (laws.mounted st.fs 1 ok) ∙ v.group_stored;
    count_stored = ap value_of (laws.mounted st.fs 2 ok) ∙ v.count_stored;
    tracker_stored = λ id h. ap value_of (laws.mounted st.fs (16 + id) ok) ∙ v.tracker_stored id h;
    group_in = v.group_in;
    tracker_in = v.tracker_in;
    none_behind = v.none_behind;
  }

  -- The variables are read back from what they are stored as.
  load_lem : (st : Storage S) → IsStored nvs laws st → load nvs (blank st.fs) ≡ st
  unfolding load
  load_lem st v = λ i. record {
    fs = st.fs;
    group_id = group i;
    trackers = (ap (λ n. load_trackers nvs n 0 st.fs (replicate 32 0)) kept ∙ trackers) i;
    tracker_count = kept i;
  }
    where
      group : bit_and (read_or_zero nvs st.fs 1 0) address_mask ≡ st.group_id
      group =
          ap (λ n. bit_and n address_mask) (read_or_zero_lem nvs laws st.fs 1 0 ∙ v.group_stored)
          ∙ mask_twice st.group_id v.group_in

      kept :
          (if ltb 32 (read_or_zero nvs st.fs 2 0) then 0 else read_or_zero nvs st.fs 2 0)
          ≡ st.tracker_count
      kept = ground (arith, read_or_zero_lem nvs laws st.fs 2 0, v.count_stored, v.count_in)

      trackers : load_trackers nvs st.tracker_count 0 st.fs (replicate 32 0) ≡ st.trackers
      trackers =
          get_or_ext 0 _ st.trackers
            (length-load_trackers st.tracker_count 0 st.fs (replicate 32 0) ∙ sym v.size)
            (λ j h.
              load_trackers_at st.tracker_count 0 st.fs (replicate 32 0) j
                (omega (arith, v.count_in)) refl
              ∙ ground (
                arith,
                ap (λ n. bit_and n address_mask)
                    (v.tracker_stored j (
                      omega
                        (arith, length-load_trackers st.tracker_count 0 st.fs (replicate 32 0)))),
                mask_twice (byte_at st.trackers j) (v.tracker_in j),
                v.none_behind j,
                byte_at-zeros 32 j,
              ))

  -- What is saved from the first start on, with success each time, resets included.
  pub data Saves (s : S) : Storage S → Type 0 where
    first : ((id : ℕ) → laws.content s id ≡ none) → Saves s (blank s)
    group :
        (id : ℕ) {st : Storage S}
        → (receiver_storage_set_group nvs id st).0 ≡ pos 0
        → Saves s st
        → Saves s (receiver_storage_set_group nvs id st).1
    tracker :
        (id address count : ℕ) {st : Storage S}
        → id < count
        → count ≤ 32
        → st.tracker_count ≤ count
        → (save_tracker nvs laws id address count st).0.0 ≡ pos 0
        → (save_tracker nvs laws id address count st).0.1 ≡ pos 0
        → Saves s st
        → Saves s (save_tracker nvs laws id address count st).1
    clear :
        {st : Storage S}
        → (receiver_storage_clear_trackers nvs st).0 ≡ pos 0
        → Saves s st
        → Saves s (receiver_storage_clear_trackers nvs st).1
    reset :
        {st : Storage S}
        → (nvs.nvs_mount st.fs).0 ≡ pos 0
        → Saves s st
        → Saves s (receiver_storage_init nvs true (blank st.fs)).1

  -- A reset finds what was stored.
  init_stored :
      (st : Storage S)
      → IsStored nvs laws st
      → (nvs.nvs_mount st.fs).0 ≡ pos 0
      → receiver_storage_init nvs true (blank st.fs)
        ≡ (pos 0, record st { fs = (nvs.nvs_mount st.fs).1 })
  unfolding receiver_storage_init
  init_stored st v ok =
      let good : succeeded (nvs.nvs_mount st.fs).0 ≡ true = ground arith in
      rw good (
        ap (λ t. (pos 0, t))
          (load_lem (record st { fs = (nvs.nvs_mount st.fs).1 }) (mounted-IsStored st v ok)))

  Saves-IsStored : (s : S) {st : Storage S} → Saves s st → IsStored nvs laws st
  unfolding stored
  Saves-IsStored s (first fresh) = record {
    size = refl;
    count_in = omega arith;
    group_stored = ap value_of (fresh 1);
    count_stored = ap value_of (fresh 2);
    tracker_stored = λ id h. ap value_of (fresh (16 + id)) ∙ sym (byte_at-zeros 32 id);
    group_in = omega arith;
    tracker_in = λ id. omega (arith, byte_at-zeros 32 id);
    none_behind = λ id h. byte_at-zeros 32 id;
  }
  Saves-IsStored s (group id {st} ok saves) =
      set_group-IsStored nvs laws id st (Saves-IsStored s saves) ok
  Saves-IsStored s (tracker id address count {st} inside most grows ok counted saves) =
      save_tracker-IsStored nvs laws id address count st (Saves-IsStored s saves) inside most grows
        ok counted
  Saves-IsStored s (clear {st} ok saves) =
      clear_trackers-IsStored nvs laws st (Saves-IsStored s saves) ok
  Saves-IsStored s (reset {st} ok saves) =
      let v = Saves-IsStored s saves in rw (init_stored st v ok) (mounted-IsStored st v ok)

  -- If the flash was empty at first, and everything saved since then, resets included, was saved
  -- with success, then a reset that mounts the storage leaves the variables as they were: the
  -- group, the count and all 32 trackers.
  pub receiver_storage_init-Saves :
      (s : S) {st : Storage S}
      → Saves s st
      → (nvs.nvs_mount st.fs).0 ≡ pos 0
      → receiver_storage_init nvs true (blank st.fs)
        ≡ (pos 0, record st { fs = (nvs.nvs_mount st.fs).1 })
  receiver_storage_init-Saves s {st} saves ok = init_stored st (Saves-IsStored s saves) ok
