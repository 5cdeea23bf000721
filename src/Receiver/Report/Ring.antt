-- ===== src/Receiver/Report/Ring.antt =====
-- The ring as the list of the records that wait in it, oldest first.
use smol_wi_fi_receiver.Base.{
  ℕ, zero, suc, ◌+◌, ◌-◌, ◌%◌, ◌≤◌, ◌<◌, List, [], ◌∷◌, ◌++◌, ◌≡◌, refl, sym, ap, ◌∙◌, arith,
  length, set, length-set, get_or-set_self, get_or-set_ne, get_or_ext, ℕ_discrete,
}
use smol_wi_fi_receiver.Receiver.Report.{SmolRecord, Builder, zero_record, advance, slot}

-- Indices and arrays in range: what every function keeps.
pub record IsBuilder (b : Builder) : Type 0 where
  pub queue_size : length b.queue ≡ 128
  pub read_in : b.read_index < 128
  pub write_in : b.write_index < 128
  pub addresses_size : length b.tracker_addresses ≡ 32
  pub cursor_in : b.registration_cursor < 32

-- The number of records between two indices.
abbrev pub distance : ℕ → ℕ → ℕ
distance read write = (write + 128 - read) % 128

-- `n` records from index `from` on, round the end of the array.
abbrev pub waiting_from : List SmolRecord → ℕ → ℕ → List SmolRecord
waiting_from queue from zero = []
waiting_from queue from (suc n) = slot queue from ∷ waiting_from queue (advance from) n

abbrev pub waiting : Builder → List SmolRecord
waiting b = waiting_from b.queue b.read_index (distance b.read_index b.write_index)

pub length-waiting_from :
    (queue : List SmolRecord) (from n : ℕ) → length (waiting_from queue from n) ≡ n
length-waiting_from queue from zero = refl
length-waiting_from queue from (suc n) = ap suc (length-waiting_from queue (advance from) n)

-- Where the record at place `k` stands.
get_or-waiting_from :
    (queue : List SmolRecord) (from n k : ℕ)
    → k < n
    → from < 128
    → slot (waiting_from queue from n) k ≡ slot queue ((from + k) % 128)
get_or-waiting_from queue from zero k h f = absurd (omega arith)
get_or-waiting_from queue from (suc n) zero h f =
    ap (slot queue) {x = from} {y = (from + 0) % 128} (omega arith)
get_or-waiting_from queue from (suc n) (suc k) h f =
    get_or-waiting_from queue (advance from) n k (omega arith) (omega arith)
    ∙ ap (slot queue) {x = (advance from + k) % 128} {y = (from + suc k) % 128} (omega arith)

-- Overwriting a place of the ring overwrites the record that waits there.
pub waiting_from-set :
    (queue : List SmolRecord) (from n k : ℕ) (r : SmolRecord)
    → length queue ≡ 128
    → n ≤ 127
    → k < n
    → from < 128
    → waiting_from (set queue ((from + k) % 128) r) from n ≡ set (waiting_from queue from n) k r
waiting_from-set queue from n k r size small h f =
    get_or_ext zero_record (waiting_from changed from n) (set (waiting_from queue from n) k r)
      (omega (
        arith,
        length-waiting_from changed from n,
        length-waiting_from queue from n,
        length-set (waiting_from queue from n) k r,
      ))
      (λ i p. same i (omega (arith, length-waiting_from changed from n, p)))
  where
    changed : List SmolRecord
    changed = set queue ((from + k) % 128) r

    same :
        (i : ℕ)
        → i < n
        → slot (waiting_from changed from n) i ≡ slot (set (waiting_from queue from n) k r) i
    same i p = elim (ℕ_discrete k i) [
      | yes e ↦
          get_or-waiting_from changed from n i p f
          ∙ ap (slot changed) {x = (from + i) % 128} {y = (from + k) % 128} (omega arith)
          ∙ get_or-set_self queue ((from + k) % 128) r zero_record (omega arith)
          ∙ sym (
              get_or-set_self (waiting_from queue from n) k r zero_record
                (omega (arith, length-waiting_from queue from n)))
          ∙ ap (slot (set (waiting_from queue from n) k r)) {x = k} {y = i} e
      | no ne ↦
          get_or-waiting_from changed from n i p f
          ∙ get_or-set_ne queue ((from + k) % 128) ((from + i) % 128) r zero_record (omega arith)
          ∙ sym (get_or-waiting_from queue from n i p f)
          ∙ sym (get_or-set_ne (waiting_from queue from n) k i r zero_record ne)
    ]

-- One more record behind the last.
pub waiting_from-suc :
    (queue : List SmolRecord) (from n : ℕ)
    → from < 128
    → waiting_from queue from (suc n)
      ≡ waiting_from queue from n ++ (slot queue ((from + n) % 128) ∷ [])
waiting_from-suc queue from zero f =
    ap (λ j. slot queue j ∷ []) {x = from} {y = (from + 0) % 128} (omega arith)
waiting_from-suc queue from (suc n) f = ap (◌∷◌ (slot queue from)) (
    waiting_from-suc queue (advance from) n (omega arith)
    ∙ ap (λ j. waiting_from queue (advance from) n ++ (slot queue j ∷ []))
        {x = (advance from + n) % 128} {y = (from + suc n) % 128} (omega arith))

-- Writing outside the waiting records does not change them.
pub waiting_from-set_outside :
    (queue : List SmolRecord) (from n : ℕ) (r : SmolRecord)
    → n ≤ 127
    → from < 128
    → waiting_from (set queue ((from + n) % 128) r) from n ≡ waiting_from queue from n
waiting_from-set_outside queue from n r small f =
    get_or_ext zero_record (waiting_from changed from n) (waiting_from queue from n)
      (length-waiting_from changed from n ∙ sym (length-waiting_from queue from n))
      (λ i p. same i (omega (arith, length-waiting_from changed from n, p)))
  where
    changed : List SmolRecord
    changed = set queue ((from + n) % 128) r

    same :
        (i : ℕ) → i < n → slot (waiting_from changed from n) i ≡ slot (waiting_from queue from n) i
    same i p =
        get_or-waiting_from changed from n i p f
        ∙ get_or-set_ne queue ((from + n) % 128) ((from + i) % 128) r zero_record (omega arith)
        ∙ sym (get_or-waiting_from queue from n i p f)
