-- ===== src/Receiver/Report/Enqueue.antt =====
-- `report_builder_enqueue` against a bounded queue that keeps the newest sensor record of each
-- tracker.
use smol_wi_fi_receiver.Base.{
  Bool, true, false, ℕ, zero, suc, ◌+◌, ◌-◌, ◌%◌, ◌≤◌, ◌<◌, List, [], ◌∷◌, ◌++◌, Option, none, some,
  ◌≡◌, ◌≢◌, refl, sym, ap, ap₂, ◌∙◌, arith, length, set, ◌==◌, if◌then◌else◌, length-set,
  get_or-set_self,
}
use smol_wi_fi_receiver.Base.Bytes.{byte_at}
use smol_wi_fi_receiver.Receiver.Report.{make_record, report_builder_enqueue, store_record}
use smol_wi_fi_receiver.Receiver.Report.{
  SmolRecord, Builder, zero_record, advance, slot, is_sensor_of, Scan, found, absent, scan,
  append_record,
}
use smol_wi_fi_receiver.Receiver.Report.Ring.{
  IsBuilder, distance, waiting, waiting_from, length-waiting_from, waiting_from-set,
  waiting_from-suc, waiting_from-set_outside,
}

abbrev pub next_place : Option ℕ → Option ℕ
next_place none = none
next_place (some k) = some (suc k)

-- The place of the first sensor record of a tracker.
abbrev pub sensor_at : ℕ → List SmolRecord → Option ℕ
sensor_at id [] = none
sensor_at id (r ∷ rest) =
    let later = sensor_at id rest in if is_sensor_of id r then some 0 else next_place later

-- At most 127 records wait.
abbrev pub push : SmolRecord → List SmolRecord → List SmolRecord
push r rs = if length rs == 127 then rs else rs ++ (r ∷ [])

abbrev pub offer : Bool → ℕ → SmolRecord → List SmolRecord → List SmolRecord
offer false id r rs = push r rs
offer true id r rs = elim (sensor_at id rs) [ none ↦ push r rs | some k ↦ set rs k r ]

abbrev scan_result : ℕ → Option ℕ → Scan
scan_result from none = absent
scan_result from (some k) = found ((from + k) % 128)

scan_result-next_place :
    (from : ℕ) (o : Option ℕ) → scan_result (advance from) o ≡ scan_result from (next_place o)
scan_result-next_place from none = refl
scan_result-next_place from (some k) =
    ap found {x = (advance from + k) % 128} {y = (from + suc k) % 128} (omega arith)

-- The loop finds the first waiting sensor record, and does not run out of fuel.
scan-sensor_at :
    (n fuel : ℕ) (queue : List SmolRecord) (from write id : ℕ)
    → n < fuel
    → n ≤ 127
    → from < 128
    → write ≡ (from + n) % 128
    → scan fuel queue from write id ≡ scan_result from (sensor_at id (waiting_from queue from n))
unfolding scan
scan-sensor_at zero zero queue from write id h s f e = absurd (omega arith)
scan-sensor_at zero (suc fuel) queue from write id h s f e = ground arith
scan-sensor_at (suc n) zero queue from write id h s f e = absurd (omega arith)
scan-sensor_at (suc n) (suc fuel) queue from write id h s f e = ground (
  arith,
  scan-sensor_at n fuel queue (advance from) write id (omega arith) (omega arith) (omega arith)
      (omega arith),
  scan_result-next_place from (sensor_at id (waiting_from queue (advance from) n)),
  ap found here,
)
  where
    here : from ≡ (from + 0) % 128
    here = omega arith

sensor_at-lt : (id : ℕ) (rs : List SmolRecord) (k : ℕ) → sensor_at id rs ≡ some k → k < length rs
sensor_at-lt id [] k h = cc
sensor_at-lt id (r ∷ rs) k h = ground (arith, sensor_at-lt id rs (k - 1))

-- The append keeps the indices in range, and appends if there is room.
module _ (r : SmolRecord) (b : Builder) (v : IsBuilder b) where
  abbrev count : ℕ
  count = distance b.read_index b.write_index

  abbrev written : List SmolRecord
  written = set b.queue b.write_index r

  place : b.write_index ≡ (b.read_index + count) % 128
  place = omega (arith, v)

  grown :
      (advance b.write_index) ≢ b.read_index
      → waiting_from written b.read_index (distance b.read_index (advance b.write_index))
        ≡ waiting b ++ (r ∷ [])
  grown room =
      ap (waiting_from written b.read_index) {x = distance b.read_index (advance b.write_index)}
        {y = suc count} (omega (arith, v, room))
      ∙ waiting_from-suc written b.read_index count v.read_in
      ∙ ap₂ (λ rs x. rs ++ (x ∷ [])) same last
    where
      same : waiting_from written b.read_index count ≡ waiting b
      same =
          ap (λ w. waiting_from (set b.queue w r) b.read_index count) place
          ∙ waiting_from-set_outside b.queue b.read_index count r (omega arith) v.read_in

      last : slot written ((b.read_index + count) % 128) ≡ r
      last =
          ap (slot written) (sym place)
          ∙ get_or-set_self b.queue b.write_index r zero_record (omega (arith, v))

  append_record-waiting : waiting (append_record r b) ≡ push r (waiting b)
  unfolding append_record
  append_record-waiting = ground (arith, v, grown, length-waiting_from b.queue b.read_index count)

  append_record-IsBuilder : IsBuilder (append_record r b)
  unfolding append_record
  append_record-IsBuilder = ground (arith, v, length-set b.queue b.write_index r)

  set-waiting :
      (k : ℕ)
      → k < length (waiting b)
      → waiting (record b { queue = set b.queue ((b.read_index + k) % 128) r })
        ≡ set (waiting b) k r
  set-waiting k h =
      waiting_from-set b.queue b.read_index count k r v.queue_size (omega arith)
        (omega (arith, length-waiting_from b.queue b.read_index count)) v.read_in

-- `report_builder_enqueue` keeps the indices in range; the waiting records become those of the
-- abstract queue: a sensor record takes the place of the first that waits for its tracker, any
-- other record, and a sensor record with none to replace, goes to the end unless 127 wait.
pub enqueue_refines :
    (bytes : List ℕ) (rssi sequence flags : ℕ) (replace : Bool) (b : Builder)
    → IsBuilder b
    → let b' = report_builder_enqueue bytes rssi sequence flags replace b in
      IsBuilder b'
      × (waiting b'
          ≡ offer replace (byte_at bytes 1) (make_record bytes rssi sequence flags) (waiting b))
unfolding report_builder_enqueue
enqueue_refines bytes rssi sequence flags false b v =
    let r = make_record bytes rssi sequence flags in
    (append_record-IsBuilder r b v, append_record-waiting r b v)
enqueue_refines bytes rssi sequence flags true b v =
    rw scanned (replaced (sensor_at id (waiting b)) refl)
  where
    id : ℕ
    id = byte_at bytes 1

    r : SmolRecord
    r = make_record bytes rssi sequence flags

    scanned :
        scan 128 b.queue b.read_index b.write_index id
        ≡ scan_result b.read_index (sensor_at id (waiting b))
    scanned =
        scan-sensor_at (distance b.read_index b.write_index) 128 b.queue b.read_index b.write_index
          id (omega arith) (omega arith) v.read_in (omega (arith, v))

    replaced :
        (o : Option ℕ)
        → sensor_at id (waiting b) ≡ o
        → IsBuilder (store_record r b (scan_result b.read_index o))
          × (waiting (store_record r b (scan_result b.read_index o))
              ≡ elim o [ none ↦ push r (waiting b) | some k ↦ set (waiting b) k r ])
    replaced none e =
        unfold store_record in (append_record-IsBuilder r b v, append_record-waiting r b v)
    replaced (some k) e =
        unfold store_record in
        (
          omega (arith, v, length-set b.queue ((b.read_index + k) % 128) r),
          set-waiting r b v k (sensor_at-lt id (waiting b) k e),
        )
