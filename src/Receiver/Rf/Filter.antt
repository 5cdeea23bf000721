-- ===== src/Receiver/Rf/Filter.antt =====
-- Which data packets a receiver takes.
use smol_wi_fi_receiver.Base.{
  ℕ, ◌<◌, ◌≤◌, ◌+◌, ◌%◌, ◌^◌, List, ◌∷◌, true, false, ◌≡◌, refl, ◌≢◌, ◌⊎◌, arith, inl, inr,
  Bool-cases, ◌!=◌, bit_and, take, drop, replicate,
}
use smol_wi_fi_receiver.Base.Bytes.{byte_at, read_le32, read_le48}
use smol_wi_fi_receiver.Receiver.Report.{address_mask, report_builder_enqueue}
use smol_wi_fi_receiver.Receiver.Rf.{
  Rf, EsbPayload, rf_v2_crc_seed, handle_rf_v2, admit_packet, accept_packet, count_crc_error,
}

-- The address that a data packet carries.
abbrev pub address_of : EsbPayload → ℕ
address_of p = bit_and (read_le48 (drop 16 p.bytes)) address_mask

-- A version 2 packet with the right checksum.
abbrev pub IsIntact : (ℕ → List ℕ → ℕ) → EsbPayload → Type 0
IsIntact crc p =
    (byte_at p.bytes 23 ≡ 2) × (read_le32 (drop 24 p.bytes) ≡ crc rf_v2_crc_seed (take 24 p.bytes))

-- A version 2 packet with a wrong checksum.
abbrev pub IsDamaged : (ℕ → List ℕ → ℕ) → EsbPayload → Type 0
IsDamaged crc p =
    (byte_at p.bytes 23 ≡ 2) × (read_le32 (drop 24 p.bytes) ≢ crc rf_v2_crc_seed (take 24 p.bytes))

module _ {S E : Type 0} where
  -- The packet's ID and address are an entry of the table, and its first byte is sensor data.
  abbrev pub IsKnown : EsbPayload → Rf S E → Type 0
  IsKnown p rf =
      (byte_at p.bytes 0 ≤ 223)
      × (byte_at p.bytes 1 < rf.tracker_count)
      × (byte_at p.bytes 1 < 32)
      × (byte_at rf.tracker_addresses (byte_at p.bytes 1) ≡ address_of p)
      × (address_of p ≢ 0)

  admit_packet-primary :
      (p : EsbPayload) (rf : Rf S E)
      → rf.primary ≡ true
      → let after = admit_packet p (byte_at p.bytes 1) (address_of p) rf in
        (IsKnown p rf × (after ≡ accept_packet p rf)) ⊎ (¬ IsKnown p rf × (after ≡ rf))
  unfolding admit_packet
  admit_packet-primary p rf primary = ground arith

  -- A primary receiver does one of three things with a data packet. If the packet is intact, its
  -- first byte is at most 223, and its ID is below the tracker count and 32 and has the packet's
  -- address, which is not 0, in the table, then it is counted and enqueued as sensor data that
  -- replaces an older record. If it is of version 2 with a wrong checksum, the error is counted and
  -- a diagnostic record enqueued. If it is neither, nothing changes.
  pub handle_rf_v2-primary :
      (crc : ℕ → List ℕ → ℕ) (p : EsbPayload) (rf : Rf S E)
      → rf.primary ≡ true
      → let after = handle_rf_v2 crc p rf in
        (IsIntact crc p
          × IsKnown p rf
          × (after ≡ record rf {
            received_packets = (rf.received_packets + 1) % 2 ^ 32;
            builder = report_builder_enqueue p.bytes p.rssi (byte_at p.bytes 22) 7 true rf.builder;
          }))
        ⊎ (IsDamaged crc p
            × (after ≡ record rf {
              crc_errors = (rf.crc_errors + 1) % 2 ^ 32;
              builder =
                  report_builder_enqueue
                    (251 ∷ 255 ∷ replicate 14 0)
                    p.rssi
                    (byte_at p.bytes 22)
                    2
                    false
                    rf.builder;
            }))
        ⊎ (¬ (IsIntact crc p × IsKnown p rf) × ¬ (IsDamaged crc p) × (after ≡ rf))
  unfolding handle_rf_v2 count_crc_error accept_packet
  handle_rf_v2-primary crc p rf primary = elim (Bool-cases (byte_at p.bytes 23 != 2)) [
    | inl foreign ↦
        rw (foreign, handle_rf_v2)
          (inr (inr (λ q. differs (foreign, q.0.0), λ q. differs (foreign, q.0), refl)))
    | inr current ↦
        elim (Bool-cases (read_le32 (drop 24 p.bytes) != crc rf_v2_crc_seed (take 24 p.bytes))) [
          | inl wrong ↦
              rw (current, wrong, handle_rf_v2)
                (inr (inl ((ground arith, λ e. differs (wrong, e)), refl)))
          | inr right ↦
              rw (current, right, handle_rf_v2)
                (elim (admit_packet-primary p rf primary) [
                  | inl (known, taken) ↦
                      inl ((ground (arith, current), ground (arith, right)), known, taken)
                  | inr (unknown, left) ↦
                      inr (inr (λ q. unknown q.1, λ q. q.1 (ground (arith, right)), left))
                ])
        ]
  ]
    where
      differs : {m n : ℕ} → ((m != n) ≡ true) × (m ≡ n) → ⊥
      differs (d, e) = ground arith
