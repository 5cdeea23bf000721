-- ===== src/Protocol/Crc32/Field.antt =====
-- A buffer that ends in the checksum of what stands before it, as both wire formats do, and the
-- test of that field by the decoders.
use smol_wi_fi_receiver.Base.{
  ℕ, zero, suc, ◌+◌, ◌-◌, ◌^◌, ◌≤◌, ◌<◌, List, [], ◌∷◌, ◌++◌, ◌≡◌, ◌≢◌, sym, ap, ◌∙◌, arith, length,
  set, take, drop, dec_lt, take-set, drop-set_lt, drop-set_ge, set_past, get_or-drop, length-take,
  length-drop, drop-append, All-drop,
}
use smol_wi_fi_receiver.Base.Bytes.{
  IsByte, IsBytes, byte_at, read_le32, read_le32_sum, le32, read_le32-le32,
}
use smol_wi_fi_receiver.Protocol.Crc32.{crc_bytes, sv_crc32_ieee}
use smol_wi_fi_receiver.Protocol.Crc32.Laws.{
  sv_crc32_ieee-set_ne, sv_crc32_ieee-append, sv_crc32_ieee-lt,
}

-- The four bytes at `n` are the checksum of the first `n`.
abbrev pub Sealed : ℕ → List ℕ → Type 0
Sealed n bytes = read_le32 (drop n bytes) ≡ sv_crc32_ieee bytes n

-- A body with its checksum behind it passes the test.
pub append-Sealed :
    (n : ℕ) (body : List ℕ) → length body ≡ n → Sealed n (body ++ le32 (sv_crc32_ieee body n))
append-Sealed n body e =
    ap read_le32 (drop-append n body (le32 c) e)
    ∙ read_le32-le32 c [] (sv_crc32_ieee-lt body n)
    ∙ sym (sv_crc32_ieee-append n body (le32 c) e)
  where
    c : ℕ
    c = sv_crc32_ieee body n

-- Four bytes that differ in one place encode different numbers.
read_le32-set_ne :
    (xs : List ℕ) (j v : ℕ)
    → length xs ≡ 4
    → IsBytes xs
    → j < 4
    → v < 256
    → byte_at xs j ≢ v
    → read_le32 (set xs j v) ≢ read_le32 xs
read_le32-set_ne (a ∷ b ∷ c ∷ d ∷ []) zero v e (pa, (pb, (pc, (pd, _)))) h hv ne same =
    ne (omega (arith, read_le32_sum a b c d [] pa pb pc pd, read_le32_sum v b c d [] hv pb pc pd))
read_le32-set_ne (a ∷ b ∷ c ∷ d ∷ []) (suc zero) v e (pa, (pb, (pc, (pd, _)))) h hv ne same =
    ne (omega (arith, read_le32_sum a b c d [] pa pb pc pd, read_le32_sum a v c d [] pa hv pc pd))
read_le32-set_ne (a ∷ b ∷ c ∷ d ∷ []) (suc (suc zero)) v e (pa, (pb, (pc, (pd, _)))) h hv ne same =
    ne (omega (arith, read_le32_sum a b c d [] pa pb pc pd, read_le32_sum a b v d [] pa pb hv pd))
read_le32-set_ne (a ∷ b ∷ c ∷ d ∷ []) (suc (suc (suc zero))) v e (pa, (pb, (pc, (pd, _)))) h hv ne
      same =
    ne (omega (arith, read_le32_sum a b c d [] pa pb pc pd, read_le32_sum a b c v [] pa pb pc hv))
read_le32-set_ne (a ∷ b ∷ c ∷ d ∷ []) (suc (suc (suc (suc j)))) v e p h hv ne same =
    absurd (omega arith)
read_le32-set_ne (a ∷ b ∷ c ∷ d ∷ x ∷ xs) j v e p h hv ne same = absurd (omega arith)
read_le32-set_ne _ j v e p h hv ne same = absurd (omega arith)

-- The checksum does not see what stands behind its range.
sv_crc32_ieee-set_past :
    (xs : List ℕ) (n i v : ℕ) → n ≤ i → sv_crc32_ieee (set xs i v) n ≡ sv_crc32_ieee xs n
unfolding sv_crc32_ieee
sv_crc32_ieee-set_past xs n i v h =
    ap (λ t. 2 ^ 32 - 1 - crc_bytes (2 ^ 32 - 1) t)
      (take-set n xs i v ∙ set_past (take n xs) i v (omega (arith, length-take n xs)))

-- No single byte of a sealed buffer, in the body or in the checksum field, can be changed so that
-- the buffer is still sealed.
pub Sealed-set_ne :
    (n : ℕ) (xs : List ℕ) (i v : ℕ)
    → length xs ≡ n + 4
    → IsBytes xs
    → i < n + 4
    → v < 256
    → byte_at xs i ≢ v
    → Sealed n xs
    → ¬ Sealed n (set xs i v)
Sealed-set_ne n xs i v len p h hv ne ok broken = elim (dec_lt i n) [
  | yes body ↦
      sv_crc32_ieee-set_ne xs n i v p hv body (omega arith) ne
        (sym broken ∙ ap read_le32 (drop-set_lt n xs i v body) ∙ ok)
  | no field ↦
      read_le32-set_ne (drop n xs) (i - n) v (omega (arith, length-drop n xs))
        (All-drop IsByte n xs p) (omega arith) hv (λ e. ne (sym (here field) ∙ e))
        (ap read_le32 (sym (drop-set_ge n xs i (i - n) v (omega arith)))
          ∙ broken
          ∙ sv_crc32_ieee-set_past xs n i v (omega arith)
          ∙ sym ok)
]
  where
    here : ¬ (i < n) → byte_at (drop n xs) (i - n) ≡ byte_at xs i
    here q = get_or-drop n xs (i - n) 0 ∙ ap (byte_at xs) {x = n + (i - n)} {y = i} (omega arith)
