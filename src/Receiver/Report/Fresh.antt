-- ===== src/Receiver/Report/Fresh.antt =====
-- The report queue holds at most one sensor record of each tracker.
use smol_wi_fi_receiver.Base.{◌≢◌, ◌⊎◌, ℕ, ◌+◌, ◌≤◌, List, [], ◌∷◌, ◌≡◌, length, if◌then◌else◌}
use smol_wi_fi_receiver.Receiver.Report.{SmolRecord, is_sensor_of}

abbrev pub sensors_of : ℕ → List SmolRecord → ℕ
sensors_of id [] = 0
sensors_of id (r ∷ rest) =
    let others = sensors_of id rest in if is_sensor_of id r then others + 1 else others

abbrev pub IsFresh : List SmolRecord → Type 0
IsFresh rs = (id : ℕ) → sensors_of id rs ≤ 1

-- The sensor records of a tracker that wait.
abbrev pub sensors : ℕ → List SmolRecord → List SmolRecord
sensors id [] = []
sensors id (r ∷ rest) =
    let others = sensors id rest in if is_sensor_of id r then r ∷ others else others

-- What offering a sensor record does to the tracker's records, and to those of the others.
abbrev pub Offered : ℕ → SmolRecord → List SmolRecord → List SmolRecord → Type 0
Offered id r before after =
    ((sensors id after ≡ r ∷ [])
      ⊎ ((length before ≡ 127) × (sensors id before ≡ []) × (after ≡ before)))
    × ((i : ℕ) → i ≢ id → sensors i after ≡ sensors i before)
