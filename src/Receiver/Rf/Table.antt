-- ===== src/Receiver/Rf/Table.antt =====
-- The pairing table: an array of 32 addresses of which the first `count` may be in use.
use smol_wi_fi_receiver.Base.{
  ℕ, zero, suc, ◌+◌, ◌%◌, ◌^◌, ◌<◌, ◌≤◌, List, ◌≡◌, ◌≢◌, refl, sym, ap, ◌∙◌, arith, inl, inr,
  length, set, replicate, length-set, get_or-set_self, get_or-set_ne, All, All-set, ℕ_discrete,
  bit_and, leb, ◌==◌, if◌then◌else◌, Bool-cases, ==_iff, dec_lt,
}
use smol_wi_fi_receiver.Base.Bits.{bit_and_mask}
use smol_wi_fi_receiver.Base.Bytes.{byte_at}
use smol_wi_fi_receiver.Receiver.Report.{address_mask}
use smol_wi_fi_receiver.Receiver.Rf.{find_tracker}

-- Addresses of 48 bits, and none behind the count.
pub record IsTable (table : List ℕ) (count : ℕ) : Type 0 where
  pub size : length table ≡ 32
  pub count_in : count ≤ 32
  pub addresses_in : All (λ a. a < 2 ^ 48) table
  pub none_behind : (id : ℕ) → count ≤ id → byte_at table id ≡ 0

-- No address is in two places.
abbrev pub IsDistinct : List ℕ → Type 0
IsDistinct table = (i j : ℕ) → byte_at table i ≢ 0 → byte_at table i ≡ byte_at table j → i ≡ j

-- An address is at one place at most.
abbrev pub OnlyAt : ℕ → ℕ → List ℕ → Type 0
OnlyAt address id table = (i : ℕ) → byte_at table i ≡ address → i ≡ id

pub byte_at-zeros : (n i : ℕ) → byte_at (replicate n 0) i ≡ 0
byte_at-zeros zero i = refl
byte_at-zeros (suc n) zero = refl
byte_at-zeros (suc n) (suc i) = byte_at-zeros n i

pub zeros-IsTable : IsTable (replicate 32 0) 0
zeros-IsTable = record {
  size = refl;
  count_in = omega arith;
  addresses_in = omega arith;
  none_behind = λ id _. byte_at-zeros 32 id;
}

pub zeros-IsDistinct : IsDistinct (replicate 32 0)
zeros-IsDistinct i j used same = absurd (used (byte_at-zeros 32 i))

pub masked-lt : (a : ℕ) → bit_and a address_mask < 2 ^ 48
masked-lt a = omega (arith, bit_and_mask 48 a)

pub mask_twice : (a : ℕ) → a < 2 ^ 48 → bit_and a address_mask ≡ a
mask_twice a h = omega (arith, bit_and_mask 48 a)

-- The count behind a new entry.
abbrev pub grown : ℕ → ℕ → ℕ
grown id count = if leb count id then (id + 1) % 2 ^ 8 else count

pub set-IsTable :
    (table : List ℕ) (count id address : ℕ)
    → IsTable table count
    → id < 32
    → address < 2 ^ 48
    → IsTable (set table id address) (grown id count)
set-IsTable table count id address v place small = record {
  size = length-set table id address ∙ v.size;
  count_in = ground (arith, v.count_in);
  addresses_in = All-set (λ a. a < 2 ^ 48) table id address v.addresses_in small;
  none_behind = λ i behind.
      get_or-set_ne table id i address 0 (ground arith) ∙ v.none_behind i (ground arith);
}

pub byte_at-set :
    (table : List ℕ) (id address i : ℕ)
    → id < length table
    → byte_at (set table id address) i ≡ (if id == i then address else byte_at table i)
byte_at-set table id address i place = elim (ℕ_discrete id i) [
  | yes here ↦
      ap (byte_at (set table id address)) (sym here)
      ∙ get_or-set_self table id address 0 place
      ∙ ground arith
  | no apart ↦ get_or-set_ne table id i address 0 apart ∙ ground arith
]

pub set-IsDistinct :
    (table : List ℕ) (id address : ℕ)
    → id < length table
    → IsDistinct table
    → OnlyAt address id table
    → IsDistinct (set table id address)
set-IsDistinct table id address place d only i j used same = ground (
  arith,
  byte_at-set table id address i place,
  byte_at-set table id address j place,
  only i,
  only j,
  d i j,
)

-- What the loop of `handle_pair_request` finds: a place of the address, or none before the end.
data Found (table : List ℕ) (address from count : ℕ) : ℕ → Type 0 where
  present : {id : ℕ} → byte_at table id ≡ address → id < count → Found table address from count id
  missing :
      {id : ℕ}
      → id ≡ count
      → ((i : ℕ) → from ≤ i → i < count → byte_at table i ≢ address)
      → Found table address from count id

Found-suc :
    (table : List ℕ) (address from count : ℕ) {id : ℕ}
    → byte_at table from ≢ address
    → Found table address (from + 1) count id
    → Found table address from count id
Found-suc table address from count apart (present here inside) = present here inside
Found-suc table address from count apart (missing last nowhere) = missing last (λ i behind inside.
    elim (ℕ_discrete from i) [
      | yes same ↦ rw (← same) apart
      | no further ↦ nowhere i (omega arith) inside
    ])

find_tracker-Found :
    (left cursor : ℕ) (table : List ℕ) (address count : ℕ)
    → cursor + left ≡ count
    → Found table address cursor count (find_tracker left cursor table address count)
unfolding find_tracker
find_tracker-Found zero cursor table address count e =
    missing refl (λ i behind inside. absurd (omega arith))
find_tracker-Found (suc left) cursor table address count e =
    elim (Bool-cases (byte_at table cursor == address)) [
      | inl here ↦ rw here (present ((==_iff _ _).0 here) (omega arith))
      | inr apart ↦ rw apart (
          Found-suc table address cursor count (ground arith)
            (find_tracker-Found left (cursor + 1) table address count (omega arith)))
    ]

-- The place for an address is one where a distinct table may hold it.
pub find_tracker-OnlyAt :
    (table : List ℕ) (count address : ℕ)
    → IsTable table count
    → IsDistinct table
    → address ≢ 0
    → OnlyAt address (find_tracker count 0 table address count) table
find_tracker-OnlyAt table count address v d used i same =
    at (find_tracker-Found count 0 table address count (omega arith))
  where
    at : {id : ℕ} → Found table address 0 count id → i ≡ id
    at {id} (present here inside) = d i id (ground arith) (same ∙ sym here)
    at (missing last nowhere) = elim (dec_lt i count) [
      | yes inside ↦ absurd (nowhere i (omega arith) inside same)
      | no behind ↦ absurd (used (sym same ∙ v.none_behind i (omega arith)))
    ]
